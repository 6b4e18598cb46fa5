-- ===== src/Utils/Split/Parts.antt =====
-- What `split` returns: against a one-pass reference, its parts, and splitting what was joined.
use mathlib.Core.List.{append-nil, append_assoc}
use getodac.Common.Bytes.{Bytes}
use getodac.Common.{
  ℕ, zero, suc, ◌-◌, ◌≤◌, ◌<◌, ◌≡◌, ◌≢◌, ◌↔◌, subst, refl, ap, true, false, List, [], ◌∷◌, ◌++◌,
  none, some, ◌==◌, if◌then◌else◌, length, take, drop, All, arith, length-drop, Option-cases,
  Bool-cases, All-append, inl, inr, sym, ◌∙◌,
}
use getodac.Utils.Split.{npos, find_char, last_part, keep_part, split_loop, split}

-- The reference: one pass over the characters; `cur` is the part being read.
abbrev pub fields_from : ℕ → Bytes → Bytes → List Bytes
fields_from ch cur [] = keep_part cur []
fields_from ch cur (c ∷ s) =
    if c == ch then keep_part cur (fields_from ch [] s) else fields_from ch (cur ++ c ∷ []) s

unfoldable pub fields : ℕ → Bytes → List Bytes
fields ch s = fields_from ch [] s

pub keep_full : (p : Bytes) (ps : List Bytes) → p ≢ [] → keep_part p ps ≡ p ∷ ps
unfolding keep_part
keep_full [] ps h = absurd (h refl)
keep_full (c ∷ p) ps h = refl

append_snoc : (cur s : Bytes) (c : ℕ) → (cur ++ c ∷ []) ++ s ≡ cur ++ c ∷ s
append_snoc cur s c = append_assoc cur (c ∷ []) s

find_char-none :
    (ch : ℕ) (cur s : Bytes)
    → find_char ch s ≡ none
    → fields_from ch cur s ≡ keep_part (cur ++ s) []
unfolding find_char
find_char-none ch cur [] h = rw append-nil
find_char-none ch cur (c ∷ s) h =
    ground (arith, find_char-none ch (cur ++ c ∷ []) s, append_snoc cur s c)

find_char-some :
    (ch : ℕ) (cur s : Bytes) (n : ℕ)
    → find_char ch s ≡ some n
    → fields_from ch cur s ≡ keep_part (cur ++ take n s) (fields_from ch [] (drop (suc n) s))
unfolding find_char
find_char-some ch cur [] n h = cc
find_char-some ch cur (c ∷ s) zero h =
    let e : fields_from ch cur (c ∷ s) ≡ keep_part cur (fields_from ch [] s) = ground arith in
    rw append-nil e
find_char-some ch cur (c ∷ s) (suc n) h =
    ground (arith, find_char-some ch (cur ++ c ∷ []) s n, append_snoc cur (take n s) c)

last_part-fields : (ch : ℕ) (s : Bytes) → find_char ch s ≡ none → last_part s ≡ fields_from ch [] s
unfolding last_part keep_part
last_part-fields ch [] h = refl
last_part-fields ch (c ∷ s) h = sym (find_char-none ch [] (c ∷ s) h)

find_char-lt : (ch : ℕ) (s : Bytes) (n : ℕ) → find_char ch s ≡ some n → n < length s
unfolding find_char
find_char-lt ch [] n h = cc
find_char-lt ch (c ∷ s) zero h = omega arith
find_char-lt ch (c ∷ s) (suc n) h = ground (arith, find_char-lt ch s n)

-- With a unit of fuel and of `count` for every character, the loop makes one pass.
split_loop-fields :
    (fuel ch : ℕ) (s : Bytes) (count : ℕ)
    → length s ≤ fuel
    → length s ≤ count
    → split_loop fuel ch s count ≡ fields_from ch [] s
unfolding split_loop keep_part last_part
split_loop-fields zero ch [] count h k = refl
split_loop-fields zero ch (c ∷ s) count h k = absurd (omega arith)
split_loop-fields (suc fuel) ch s count h k = elim (Option-cases (find_char ch s)) [
  | inl e ↦ rw (e, split_loop) (last_part-fields ch s e)
  | inr (n, e) ↦
      let lt = find_char-lt ch s n e in
      let room : length (drop (suc n) s) ≤ fuel = omega (arith, length-drop (suc n) s) in
      let left : length (drop (suc n) s) ≤ count - 1 = omega (arith, length-drop (suc n) s) in
      let ih = split_loop-fields fuel ch (drop (suc n) s) (count - 1) room left in
      let more : (count == 0) ≡ false = ground arith in
      rw (e, more, split_loop) (rw (find_char-some ch [] s n e) (ap (keep_part (take n s)) ih))
]

-- For every text that fits in memory, `split` without a limit is the one-pass reference.
pub split-fields : (str : Bytes) (ch : ℕ) → length str ≤ npos → split str ch npos ≡ fields ch str
unfolding split fields
split-fields [] ch h = refl
split-fields (c ∷ s) ch h =
    let loop = split_loop-fields (length (c ∷ s)) ch (c ∷ s) npos (omega arith) h in
    let more : (length (c ∷ s) == 0) ≡ false = ground arith in rw more loop

-- A part is not empty and holds no separator.
abbrev pub IsPart : ℕ → Bytes → Type 0
IsPart ch s = (s ≢ []) × All (λ c. c ≢ ch) s

-- The parts, each behind a separator: how a path is written.
abbrev pub join : ℕ → List Bytes → Bytes
join ch [] = []
join ch (p ∷ ps) = ch ∷ p ++ join ch ps

pub fields_from-part :
    (ch : ℕ) (cur p s : Bytes)
    → All (λ c. c ≢ ch) p
    → fields_from ch cur (p ++ s) ≡ fields_from ch (cur ++ p) s
fields_from-part ch cur [] s h = rw append-nil refl
fields_from-part ch cur (c ∷ p) s (k, h) =
    let ih = fields_from-part ch (cur ++ c ∷ []) p s h in
    let other : (c == ch) ≡ false = ground arith in
    rw other (ih ∙ ap (λ t. fields_from ch t s) (append_snoc cur p c))

pub fields_from-join :
    (ch : ℕ) (cur : Bytes) (ps : List Bytes)
    → All (IsPart ch) ps
    → fields_from ch cur (join ch ps) ≡ keep_part cur ps
fields_from-join ch cur [] h = refl
fields_from-join ch cur (p ∷ ps) ((full, k), h) =
    let same : (ch == ch) ≡ true = ground arith in
    let kept = fields_from-join ch p ps h ∙ keep_full p ps full in
    rw same (ap (keep_part cur) (fields_from-part ch [] p (join ch ps) k ∙ kept))

-- How a text is cut: separators belong to no part, and a part goes on until a separator or the end
-- of the text.
pub data Parted (ch : ℕ) : Bytes → List Bytes → Type 0 where
  ends : Parted ch [] []
  separator : {s : Bytes} {ps : List Bytes} → Parted ch s ps → Parted ch (ch ∷ s) ps
  last_one : {p : Bytes} → IsPart ch p → Parted ch p (p ∷ [])
  one_more :
      {p s : Bytes} {ps : List Bytes}
      → IsPart ch p
      → Parted ch s ps
      → Parted ch (p ++ ch ∷ s) (p ∷ ps)

fields_from-Parted :
    (ch : ℕ) (cur s : Bytes) → All (λ c. c ≢ ch) cur → Parted ch (cur ++ s) (fields_from ch cur s)
unfolding keep_part
fields_from-Parted ch [] [] h = ends
fields_from-Parted ch (d ∷ cur) [] h = rw (append-nil (d ∷ cur)) (last_one (cc, h))
fields_from-Parted ch cur (c ∷ s) h = elim (Bool-cases (c == ch)) [
  | inl e ↦
      let same : c ≡ ch = ground arith in
      rw e (
        subst (λ d. Parted ch (cur ++ d ∷ s) (keep_part cur (fields_from ch [] s))) (sym same)
          (cut cur h (fields_from-Parted ch [] s tt)))
  | inr e ↦ rw e (
      subst (λ t. Parted ch t (fields_from ch (cur ++ c ∷ []) s)) (append_snoc cur s c)
        (fields_from-Parted ch (cur ++ c ∷ []) s
          (All-append (λ d. d ≢ ch) cur (c ∷ []) h (ground arith, tt))))
]
  where
    cut :
        (cur : Bytes) {ps : List Bytes}
        → All (λ c. c ≢ ch) cur
        → Parted ch s ps
        → Parted ch (cur ++ ch ∷ s) (keep_part cur ps)
    cut [] k rest = separator rest
    cut (d ∷ cur) k rest = one_more (cc, k) rest

Parted-fields_from :
    (ch : ℕ) {s : Bytes} {ps : List Bytes} → Parted ch s ps → fields_from ch [] s ≡ ps
unfolding keep_part
Parted-fields_from ch ends = refl
Parted-fields_from ch (separator parted) =
    let same : (ch == ch) ≡ true = ground arith in rw same (Parted-fields_from ch parted)
Parted-fields_from ch (last_one {p} (full, k)) =
    ap (fields_from ch []) (sym (append-nil p))
    ∙ fields_from-part ch [] p [] k
    ∙ keep_full p [] full
Parted-fields_from ch (one_more {p} {s} {ps} (full, k) parted) =
    let same : (ch == ch) ≡ true = ground arith in
    fields_from-part ch [] p (ch ∷ s) k
    ∙ rw same (ap (keep_part p) (Parted-fields_from ch parted) ∙ keep_full p ps full)

-- For every text that fits in memory: `split` without a limit returns some parts exactly if these
-- are how the text is cut, each part not empty and without separators, in order, from the start
-- of the text or a separator to the next separator or the end.
pub split_iff :
    (str : Bytes) (ch : ℕ) (ps : List Bytes)
    → length str ≤ npos
    → (split str ch npos ≡ ps) ↔ Parted ch str ps
unfolding fields
split_iff str ch ps h =
    let all = split-fields str ch h in
    (
      λ e. subst (Parted ch str) (sym all ∙ e) (fields_from-Parted ch [] str tt),
      λ parted. all ∙ Parted-fields_from ch parted,
    )

-- For a path that fits in memory: splitting the path that is written from non-empty parts without
-- separators gives the parts.
pub split-join :
    (ch : ℕ) (ps : List Bytes)
    → All (IsPart ch) ps
    → length (join ch ps) ≤ npos
    → split (join ch ps) ch npos ≡ ps
unfolding fields keep_part
split-join ch ps h k = split-fields (join ch ps) ch k ∙ fields_from-join ch [] ps h
