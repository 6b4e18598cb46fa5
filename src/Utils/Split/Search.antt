-- ===== src/Utils/Split/Search.antt =====
-- `str.find(ch)`, and splitting a text whose first part has no separator in front of it.
use getodac.Common.Bytes.{Bytes}
use getodac.Common.{
  ℕ, ◌≤◌, ◌≡◌, ◌≢◌, ◌∙◌, refl, List, [], ◌∷◌, ◌++◌, none, some, length, arith, All,
}
use getodac.Utils.Split.Parts.{
  IsPart, join, fields, split-fields, fields_from-part, fields_from-join, keep_full,
}
use getodac.Utils.Split.{npos, find_char, split}

pub find_char-absent : (ch : ℕ) (s : Bytes) → All (λ c. c ≢ ch) s → find_char ch s ≡ none
unfolding find_char
find_char-absent ch [] h = refl
find_char-absent ch (c ∷ s) (n, h) = ground (arith, find_char-absent ch s h)

pub find_char-first :
    (ch : ℕ) (p s : Bytes) → All (λ c. c ≢ ch) p → find_char ch (p ++ ch ∷ s) ≡ some (length p)
unfolding find_char
find_char-first ch [] s h = ground arith
find_char-first ch (c ∷ p) s (n, h) = ground (arith, find_char-first ch p s h)

-- As `split-join`, for parts with separators only between them.
pub split-append_join :
    (ch : ℕ) (p : Bytes) (ps : List Bytes)
    → IsPart ch p
    → All (IsPart ch) ps
    → length (p ++ join ch ps) ≤ npos
    → split (p ++ join ch ps) ch npos ≡ p ∷ ps
unfolding fields
split-append_join ch p ps (full, h) k n =
    split-fields (p ++ join ch ps) ch n
    ∙ fields_from-part ch [] p (join ch ps) h
    ∙ fields_from-join ch p ps k
    ∙ keep_full p ps full
