-- ===== src/Utils/Url.antt =====
-- include/dracon/utils.h: `fromHex` and `unescapeUrl`. A `char` is its byte value.
pub mod Decoding
use Prim.Native.Nat.{bit_or}
use getodac.Common.Bytes.{Bytes, codes}
use getodac.Common.{ℕ, ◌+◌, ◌-◌, ◌*◌, ◌&&◌, List, [], ◌∷◌, leb, ◌==◌, if◌then◌else◌}
use getodac.Exceptions.{Result, ok, throw, std_exception, ◌>>=◌}

unfoldable pub from_hex : ℕ → Result ℕ
from_hex ch =
    if leb b'0' ch && leb ch b'9'
    then ok (ch - b'0')
    else if leb b'a' ch && leb ch b'f'
    then ok (10 + ch - b'a')
    else if leb b'A' ch && leb ch b'F'
    then ok (10 + ch - b'A')
    else throw (std_exception (codes "Bad hex value"))

-- `fromHex(a) << 4 | fromHex(b)`
unfoldable pub hex_pair : ℕ → ℕ → Result ℕ
hex_pair a b = do h ← from_hex a; l ← from_hex b; ok (bit_or (h * 16) l)

abbrev push : ℕ → Result Bytes → Result Bytes
push c rest = do out ← rest; ok (c ∷ out)

-- The loop: what is left of `in` stands for the index, and `out` is built in front of the rest.
unfoldable pub unescape_url : Bytes → Result Bytes
unescape_url [] = ok []
unescape_url (c ∷ []) =
    if c == b'%'
    then throw (std_exception (codes "Malformated URL"))
    else ok ((if c == b'+' then b' ' else c) ∷ [])
unescape_url (c ∷ a ∷ []) =
    let rest = push (if c == b'+' then b' ' else c) (unescape_url (a ∷ [])) in
    if c == b'%' then throw (std_exception (codes "Malformated URL")) else rest
unescape_url (c ∷ a ∷ b ∷ s) =
    let escaped = hex_pair a b >>= λ d. push d (unescape_url s) in
    let plain = push (if c == b'+' then b' ' else c) (unescape_url (a ∷ b ∷ s)) in
    if c == b'%' then escaped else plain
