-- ===== src/Http/Status/Lines.antt =====
-- The status lines against their numbers.
use getodac.Common.Bytes.{Bytes, codes, bytes_eq, bytes_eq_iff}
use getodac.Common.Numerals.{print_number}
use getodac.Common.{
  ℕ, ◌≡◌, ◌≢◌, refl, Bool, true, ◌&&◌, ◌||◌, List, [], ◌∷◌, ◌++◌, none, some, ◌==◌, take, arith,
  Bool-cases, Option-cases, inl, inr, ◌⊎◌,
}
use getodac.Http.Status.{status_codes, find_status, status_text, internal_server_error}

-- The text begins with the number and a space.
abbrev pub Announces : ℕ → Bytes → Type 0
Announces code text = take 4 text ≡ print_number 10 code ++ codes " "

good : ℕ × Bytes → Bool
good (code, text) = code == 416 || bytes_eq (take 4 text) (print_number 10 code ++ codes " ")

all_good : List (ℕ × Bytes) → Bool
all_good [] = true
all_good (e ∷ es) = good e && all_good es

status_codes_good : all_good status_codes ≡ true
unfolding all_good good bytes_eq print_number
status_codes_good = refl

find_status-good :
    (status : ℕ) (table : List (ℕ × Bytes)) (text : Bytes)
    → all_good table ≡ true
    → find_status status table ≡ some text
    → status ≢ 416
    → Announces status text
unfolding find_status all_good good
find_status-good status [] text h e n = cc
find_status-good status ((code, t) ∷ table) text h e n = elim (Bool-cases (code == status)) [
  | inl same ↦ ground (arith, bytes_eq_iff (take 4 t) (print_number 10 code ++ codes " "))
  | inr other ↦ find_status-good status table text (ground arith) (ground arith) n
]

-- The text of every status but 416 begins with the number of the status, if the table has the
-- status, and is that of 500 if it has not.
pub status_text_lem :
    (status : ℕ)
    → status ≢ 416
    → Announces status (status_text status)
      ⊎ ((find_status status status_codes ≡ none) × (status_text status ≡ internal_server_error))
unfolding status_text
status_text_lem status n = elim (Option-cases (find_status status status_codes)) [
  | inl missing ↦ inr (missing, rw (missing, status_text) refl)
  | inr (text, found) ↦ inl (
      rw (found, status_text) (find_status-good status status_codes text status_codes_good found n))
]
