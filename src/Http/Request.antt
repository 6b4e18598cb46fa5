-- ===== src/Http/Request.antt =====
-- include/dracon/http.h, class Request and `operator>>`.
pub mod Length
use getodac.Common.Bytes.{Bytes, codes, bytes_eq}
use getodac.Common.Int.{pos}
use getodac.Common.Maps.{find}
use getodac.Common.Numerals.{read_digits}
use getodac.Common.{
  ℕ, ◌+◌, ◌-◌, ◌%◌, ◌^◌, Bool, true, false, ◌&&◌, ◌||◌, not, List, [], ◌∷◌, Option, none, some, ltb,
  leb, ◌==◌, if◌then◌else◌, length,
}
use getodac.Exceptions.{Result, ok, throw, int_error, ◌>>=◌}
use getodac.Http.Message.{StreamState, send}
use getodac.Http.Response.{Fields, chunked_data, response}

pub data State : Type 0 where
  uninitialized processing_url processing_header headers_completed : State
  processing_body completed : State

-- `has_callback`: a body callback has been set.
pub record Request : Type 0 where
  pub fields : Fields
  pub keep_alive : Bool
  pub url : Bytes
  pub method : Bytes
  pub has_callback : Bool
  pub state : State
  pub max_body_size : ℕ

unfoldable pub set_state : State → Request → Request
set_state s r = record r { state = s }

unfoldable pub set_url : Bytes → Request → Request
set_url url r = record r { url = url }

unfoldable pub set_method : Bytes → Request → Request
set_method method r = record r { method = method }

unfoldable pub set_keep_alive : Bool → Request → Request
set_keep_alive keep r = record r { keep_alive = keep }

-- The callback itself is an argument of what calls it.
unfoldable pub append_body_callback : ℕ → Request → Request
append_body_callback max_size r = record r { max_body_size = max_size; has_callback = true }

-- `isspace`
unfoldable pub is_space : ℕ → Bool
is_space c = c == 32 || leb 9 c && leb c 13

unfoldable pub skip_spaces : Bytes → Bytes
skip_spaces [] = []
skip_spaces (c ∷ s) = let rest = skip_spaces s in if is_space c then rest else c ∷ s

-- `ULLONG_MAX` for a value that does not fit, and the negated value modulo 2 ^ 64 behind a minus.
unfoldable pub clamp_value : Bool → ℕ → ℕ
clamp_value negative n =
    if leb (2 ^ 64) n then 2 ^ 64 - 1 else if negative then (2 ^ 64 - n) % 2 ^ 64 else n

-- The digits of `strtoull`: the value, and whether they are all that is left of the text. `whole`
-- is the length of the text, which is what is left of it if there is no digit.
unfoldable pub strtoull_digits : Bool → ℕ → Bytes → ℕ × Bool
unfolding clamp_value
strtoull_digits negative whole s =
    let (n, count, rest) = read_digits 10 0 0 s in
    if count == 0 then (0, whole == 0) else (clamp_value negative n, length rest == 0)

unfoldable pub strtoull_sign : ℕ → Bytes → ℕ × Bool
unfolding strtoull_digits
strtoull_sign whole [] = strtoull_digits false whole []
strtoull_sign whole (c ∷ s) =
    if c == b'-'
    then strtoull_digits true whole s
    else if c == b'+'
    then strtoull_digits false whole s
    else strtoull_digits false whole (c ∷ s)

-- `std::strtoull(data, &end, 10)`, and `end == data + size`.
unfoldable pub strtoull : Bytes → ℕ × Bool
unfolding skip_spaces is_space strtoull_sign
strtoull s = strtoull_sign (length s) (skip_spaces s)

unfoldable pub content_length : Fields → ℕ
content_length fields = elim (find (codes "Content-Length") fields) [
  | none ↦ chunked_data
  | some value ↦ let (len, whole) = strtoull value in if whole then len else chunked_data
]

-- `it != req.end() && it->second == "100-continue"`
unfoldable pub expects_continue : Fields → Bool
expects_continue fields = elim (find (codes "Expect") fields) [
  | none ↦ false
  | some value ↦ bytes_eq value (codes "100-continue")
]

-- operator>>. `read` is the stream's.
unfoldable pub receive {ℓ} :
    {A : Type ℓ} → (Request → StreamState → Result A) → Request → StreamState → Result A
unfolding expects_continue
receive read req s =
    let len = content_length req.fields in
    if expects_continue req.fields
    then (if not (len == chunked_data) && ltb req.max_body_size len
        then throw (int_error (pos 417))
        else read req (send (response 100 [] []) s))
    else read req s
