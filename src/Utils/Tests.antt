-- ===== src/Utils/Tests.antt =====
-- `unescapeUrl` and `split` at concrete texts.
use getodac.Common.Bytes.{Bytes, codes}
use getodac.Common.Checks.{is_clear-All}
use getodac.Common.{◌≤◌, ◌≡◌, ◌↔◌, refl, List, [], ◌∷◌, length, arith, All}
use getodac.Exceptions.{ok}
use getodac.Utils.Split.Parts.{IsPart, Parted, join, split_iff}
use getodac.Utils.Split.{npos, split}
use getodac.Utils.Url.Decoding.{Encodes, unescape_url_iff}
use getodac.Utils.Url.{from_hex, hex_pair, unescape_url}

program : Unit {0}
unfolding unescape_url hex_pair from_hex split
program = tt

abbrev path : Bytes
path = codes "//a/bc/"

abbrev parts : List Bytes
parts = codes "a" ∷ codes "bc" ∷ []

tests :
    (unescape_url (codes "a%2fb+c") ≡ ok (codes "a/b c"))
    × (split path b'/' npos ≡ parts)
    × (split (codes "a=b=c") b'=' 1 ≡ codes "a" ∷ codes "b=c" ∷ [])
unfolding program
tests = (refl, refl, refl)

unescape_url_iff_example :
    (unescape_url (codes "a%2fb+c") ≡ ok (codes "a/b c"))
    ↔ Encodes (codes "a%2fb+c") (codes "a/b c")
unescape_url_iff_example = unescape_url_iff (codes "a%2fb+c") (codes "a/b c")

path_fits : length path ≤ npos
path_fits = omega arith

split_iff_example : (split path b'/' npos ≡ parts) ↔ Parted b'/' path parts
split_iff_example = split_iff path b'/' parts path_fits

parts-IsPart : All (IsPart b'/') parts
parts-IsPart = (
  (λ e. cc, is_clear-All b'/' (codes "a") refl),
  ((λ e. cc, is_clear-All b'/' (codes "bc") refl), tt),
)

join_fits : length (join b'/' parts) ≤ npos
join_fits = omega arith
