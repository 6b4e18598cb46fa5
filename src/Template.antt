-- ===== src/Template.antt =====
-- template/src/main.cpp: the handlers of the devices. Each gives the devices behind it and what it
-- answers or throws. nlohmann::json answers from outside; what it throws is `json_error`.
pub mod Devices
mod Tests
use getodac.Common.Bytes.{Bytes, codes}
use getodac.Common.Int.{pos}
use getodac.Common.Maps.{find}
use getodac.Common.Numerals.{read_digits}
use getodac.Common.{
  ℕ, zero, suc, ◌+◌, ◌-◌, ◌*◌, ◌%◌, ◌^◌, Bool, true, false, List, [], ◌∷◌, ◌++◌, Option, none, some,
  ltb, leb, ◌==◌, if◌then◌else◌, length, take, drop,
}
use getodac.Exceptions.{Thrown, int_error, std_exception, Result, ok, throw, ◌>>=◌}
use getodac.Http.Request.{skip_spaces}
use getodac.Http.Response.{Response, response}
use getodac.Restful.Route.{Captures}

-- `elements` are those of an array, `none` for one that is no string; `name` is that of an object.
pub record Json : Type 0 where
  pub elements : Bytes → Option (List (Option Bytes))
  pub name : Bytes → Option Bytes
  pub dump : List (ℕ × Bytes) → Bytes

abbrev pub json_error : Thrown
json_error = std_exception (codes "json")

-- `s_devices`, and what has been answered.
pub record Handled : Type 0 where
  pub devices : List Bytes
  pub answer : Result Response

abbrev pub device_id : Bytes
device_id = codes "device"

abbrev pub not_found : Thrown
not_found = int_error (pos 404)

abbrev pub bad_request : Thrown
bad_request = int_error (pos 400)

-- The callback of a body: it holds 512 KiB at most.
unfoldable pub append_piece : Bytes → Bytes → Result Bytes
append_piece body buff =
    if ltb (512 * 1024) (length (body ++ buff)) then throw bad_request else ok (body ++ buff)

-- `std::stoul`: without digits or for a number of more than 64 bits it throws.
unfoldable pub stoul_digits : Bool → Bytes → Result ℕ
unfolding read_digits
stoul_digits negative s =
    let (n, count, rest) = read_digits 10 0 0 s in
    if count == 0
    then throw (std_exception (codes "stoul"))
    else if leb (2 ^ 64) n
    then throw (std_exception (codes "stoul"))
    else ok (if negative then (2 ^ 64 - n) % 2 ^ 64 else n)

unfoldable pub stoul_sign : Bytes → Result ℕ
unfolding stoul_digits
stoul_sign [] = stoul_digits false []
stoul_sign (c ∷ s) =
    if c == b'-'
    then stoul_digits true s
    else if c == b'+'
    then stoul_digits false s
    else stoul_digits false (c ∷ s)

unfoldable pub stoul : Bytes → Result ℕ
unfolding stoul_sign skip_spaces
stoul s = stoul_sign (skip_spaces s)

-- The number in the URL and the device with it.
unfoldable pub device_at : ℕ → List Bytes → Option Bytes
device_at i [] = none
device_at zero (d ∷ ds) = some d
device_at (suc i) (d ∷ ds) = device_at i ds

unfoldable pub find_device : Bytes → List Bytes → Result (ℕ × Bytes)
unfolding stoul device_at
find_device text devices = stoul text >>= λ idx. elim (device_at idx devices) [
  | none ↦ throw bad_request
  | some d ↦ ok (idx, d)
]

unfoldable pub numbered : ℕ → List Bytes → List (ℕ × Bytes)
numbered i [] = []
numbered i (d ∷ ds) = (i, d) ∷ numbered (i + 1) ds

unfoldable pub list_devices : Captures → List Bytes → Result (List (ℕ × Bytes))
unfolding find_device numbered find
list_devices captures devices = elim (find device_id captures) [
  | none ↦ ok (numbered 0 devices)
  | some text ↦ find_device text devices >>= λ d. ok (d ∷ [])
]

-- `arrived` is what `stream >> req` gives: the body, or what it throws.
unfoldable pub get_devices : Json → Captures → Result Bytes → List Bytes → Handled
unfolding list_devices response
get_devices json captures arrived devices = record {
  devices = devices;
  answer = arrived >>= λ _. list_devices captures devices >>= λ res.
      ok (response 200 (json.dump res) ((codes "Content-Type", codes "application/json") ∷ []));
}

-- The loop of `push_back`: an element that is no string ends it.
unfoldable pub push_devices : List (Option Bytes) → List Bytes → Handled
unfolding response
push_devices [] devices = record { devices = devices; answer = ok (response 200 [] []) }
push_devices (none ∷ es) devices = record { devices = devices; answer = throw json_error }
push_devices (some d ∷ es) devices = push_devices es (devices ++ d ∷ [])

unfoldable pub post_devices : Json → Result Bytes → List Bytes → Handled
unfolding push_devices
post_devices json (throw e) devices = record { devices = devices; answer = throw e }
post_devices json (ok body) devices = elim (json.elements body) [
  | none ↦ record { devices = devices; answer = throw json_error }
  | some es ↦ push_devices es []
]

-- What `change` makes of the devices, or an error, which leaves them.
unfoldable pub settle : List Bytes → Result (List Bytes) → Handled
unfolding response
settle devices (ok changed) = record { devices = changed; answer = ok (response 200 [] []) }
settle devices (throw e) = record { devices = devices; answer = throw e }

unfoldable pub captured : Captures → Result Bytes
unfolding find
captured captures = elim (find device_id captures) [ none ↦ throw not_found | some text ↦ ok text ]

unfoldable pub read_name : Json → Bytes → Result Bytes
read_name json body = elim (json.name body) [ none ↦ throw json_error | some n ↦ ok n ]

unfoldable pub patch_device : Json → Captures → Result Bytes → List Bytes → Handled
unfolding settle captured find_device read_name
patch_device json captures arrived devices = settle devices (
    arrived >>= λ body. captured captures >>= λ text. find_device text devices >>= λ d.
    read_name json body >>= λ n. ok (take d.0 devices ++ n ∷ drop (suc d.0) devices))

unfoldable pub delete_device : Captures → Result Bytes → List Bytes → Handled
unfolding settle captured find_device
delete_device captures arrived devices = settle devices (
    arrived >>= λ _. captured captures >>= λ text.
    find_device text devices >>= λ d. ok (take d.0 devices ++ drop (suc d.0) devices))
