-- ===== src/Http/Message/Lines.antt =====
-- A reader of texts that are made of lines.
use mathlib.Core.List.{append-nil, append_assoc}
use getodac.Common.Bytes.{Bytes}
use getodac.Common.{
  ℕ, ◌≡◌, ◌≢◌, ◌∙◌, refl, sym, ap, false, ◌&&◌, List, [], ◌∷◌, ◌++◌, Option, none, some, ◌==◌,
  if◌then◌else◌, arith, All,
}
use getodac.Http.Status.{crlf}

-- Puts a line in front of the lines that were read.
abbrev pub with_line : Bytes → Option (List Bytes × Bytes) → Option (List Bytes × Bytes)
with_line l none = none
with_line l (some (ls, body)) = some (l ∷ ls, body)

-- At a line end: an empty line ends the head.
abbrev pub end_line : Bytes → Bytes → Option (List Bytes × Bytes) → Option (List Bytes × Bytes)
end_line [] body rest = some ([], body)
end_line (c ∷ l) body rest = with_line (c ∷ l) rest

-- The reader: the lines up to the first empty one, and all that stands behind it. `cur` is the
-- line being read.
unfoldable pub read_head : Bytes → Bytes → Option (List Bytes × Bytes)
read_head cur [] = none
read_head cur (c ∷ []) = none
read_head cur (c ∷ d ∷ s) =
    let line = end_line cur s (read_head [] s) in
    let more = read_head (cur ++ c ∷ []) (d ∷ s) in if c == 13 && d == 10 then line else more

-- No line end begins in the text.
abbrev pub IsLine : Bytes → Type 0
IsLine l = All (λ c. c ≢ 13) l

read_head-char :
    (cur : Bytes) (x y : ℕ) (t : Bytes)
    → x ≢ 13
    → read_head cur (x ∷ y ∷ t) ≡ read_head (cur ++ x ∷ []) (y ∷ t)
unfolding read_head
read_head-char cur x y t n = let other : (x == 13) ≡ false = ground arith in rw other refl

read_head-text :
    (cur l s : Bytes)
    → IsLine l
    → read_head cur (l ++ (crlf ++ s)) ≡ read_head (cur ++ l) (crlf ++ s)
read_head-text cur [] s h = rw append-nil refl
read_head-text cur (x ∷ []) s (n, h) = read_head-char cur x 13 (10 ∷ s) n
read_head-text cur (x ∷ y ∷ l) s (n, h) =
    read_head-char cur x y (l ++ (crlf ++ s)) n
    ∙ read_head-text (cur ++ x ∷ []) (y ∷ l) s h
    ∙ ap (λ t. read_head t (crlf ++ s)) (append_assoc cur (x ∷ []) (y ∷ l))

read_head-line :
    (x : ℕ) (l s : Bytes)
    → IsLine (x ∷ l)
    → read_head [] ((x ∷ l) ++ (crlf ++ s)) ≡ with_line (x ∷ l) (read_head [] s)
unfolding read_head
read_head-line x l s h = read_head-text [] (x ∷ l) s h ∙ refl

unfoldable pub with_lines : List Bytes → Option (List Bytes × Bytes) → Option (List Bytes × Bytes)
with_lines [] r = r
with_lines (l ∷ ls) r = with_line l (with_lines ls r)

-- A text of whole lines, and the lines.
pub record HasLines (text : Bytes) (ls : List Bytes) : Type 0 where
  pub reads : (s : Bytes) → read_head [] (text ++ s) ≡ with_lines ls (read_head [] s)

pub with_lines-append :
    (ls ms : List Bytes) (r : Option (List Bytes × Bytes))
    → with_lines (ls ++ ms) r ≡ with_lines ls (with_lines ms r)
unfolding with_lines
with_lines-append [] ms r = refl
with_lines-append (l ∷ ls) ms r = ap (with_line l) (with_lines-append ls ms r)

pub HasLines-append :
    (t u : Bytes) (ls ms : List Bytes)
    → HasLines t ls
    → HasLines u ms
    → HasLines (t ++ u) (ls ++ ms)
HasLines-append t u ls ms h k = record {
  reads = λ s. rw append_assoc (
      h.reads (u ++ s)
      ∙ ap (with_lines ls) (k.reads s)
      ∙ sym (with_lines-append ls ms (read_head [] s)));
}

pub HasLines-line : (x : ℕ) (l : Bytes) → IsLine (x ∷ l) → HasLines ((x ∷ l) ++ crlf) ((x ∷ l) ∷ [])
unfolding with_lines
HasLines-line x l h = record { reads = λ s. rw append_assoc (read_head-line x l s h) }

pub HasLines-nil : HasLines [] []
unfolding with_lines
HasLines-nil = record { reads = λ s. refl }
