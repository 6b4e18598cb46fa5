-- ===== src/StaticContent/Paths/Normal.antt =====
-- Normal paths.
use mathlib.Core.List.{append-nil, append_assoc, reverse-cons, reverse-reverse}
use getodac.Common.Bytes.{Bytes}
use getodac.Common.{
  ◌≡◌, ◌∙◌, refl, sym, ap, subst, Bool, true, false, List, [], ◌∷◌, ◌++◌, reverse, foldl, All,
  All-append, ◌⊎◌, inl, inr,
}
use getodac.StaticContent.Paths.{
  FilePath, NameKind, no_name, dot, dot_dot, plain, kind_of, is_empty, Normalized, go_back, place,
  end_slash, or_dot, lexically_normal, join_names,
}

-- A name that is neither empty nor a dot nor two dots.
abbrev pub IsPlain : Bytes → Type 0
IsPlain n = kind_of n ≡ plain

-- Plain names, and a slash at the end at most.
abbrev pub IsClean : List Bytes → Type 0
IsClean [] = Unit
IsClean (n ∷ []) = IsPlain n ⊎ (n ≡ [])
IsClean (n ∷ m ∷ ns) = IsPlain n × IsClean (m ∷ ns)

kind-cases : (k : NameKind) → (k ≡ no_name) ⊎ ((k ≡ dot) ⊎ ((k ≡ dot_dot) ⊎ (k ≡ plain)))
kind-cases no_name = inl refl
kind-cases dot = inr (inl refl)
kind-cases dot_dot = inr (inr (inl refl))
kind-cases plain = inr (inr (inr refl))

go_back-All :
    (n : Bytes) (stack : List Bytes) → All IsPlain stack → All IsPlain (go_back true n stack).stack
unfolding go_back
go_back-All n [] h = tt
go_back-All n (m ∷ stack) h = rw (h.0, go_back) h.1

place-All : (p : Normalized) (n : Bytes) → All IsPlain p.stack → All IsPlain (place true p n).stack
unfolding place
place-All p n h = elim (kind-cases (kind_of n)) [
  | inl e ↦ rw (e, place) h
  | inr (inl e) ↦ rw (e, place) h
  | inr (inr (inl e)) ↦ rw (e, place) (go_back-All n p.stack h)
  | inr (inr (inr e)) ↦ rw (e, place) (e, h)
]

foldl-place-All :
    (ns : List Bytes) (p : Normalized)
    → All IsPlain p.stack
    → All IsPlain (foldl (place true) p ns).stack
foldl-place-All [] p h = h
foldl-place-All (n ∷ ns) p h = foldl-place-All ns (place true p n) (place-All p n h)

All-reverse : (xs : List Bytes) → All IsPlain xs → All IsPlain (reverse xs)
All-reverse [] h = tt
All-reverse (x ∷ xs) (p, h) =
    rw (reverse-cons x xs) (All-append IsPlain (reverse xs) (x ∷ []) (All-reverse xs h) (p, tt))

pub IsClean-append : (ns ms : List Bytes) → All IsPlain ns → IsClean ms → IsClean (ns ++ ms)
IsClean-append [] ms h k = k
IsClean-append (n ∷ []) [] (p, h) k = inl p
IsClean-append (n ∷ []) (m ∷ ms) (p, h) k = (p, k)
IsClean-append (n ∷ n' ∷ ns) ms (p, h) k = (p, IsClean-append (n' ∷ ns) ms h k)

end_slash-IsClean :
    (stack : List Bytes) (slash : Bool)
    → IsClean (end_slash (record { stack = stack; slash = slash }))
unfolding end_slash
end_slash-IsClean [] slash = tt
end_slash-IsClean (n ∷ stack) true = elim (kind-cases (kind_of n)) [
  | inl e ↦ rw (e, end_slash) (inr refl)
  | inr (inl e) ↦ rw (e, end_slash) (inr refl)
  | inr (inr (inl e)) ↦ rw (e, end_slash) tt
  | inr (inr (inr e)) ↦ rw (e, end_slash) (inr refl)
]
end_slash-IsClean (n ∷ stack) false = elim (kind-cases (kind_of n)) [
  | inl e ↦ rw (e, end_slash) tt
  | inr (inl e) ↦ rw (e, end_slash) tt
  | inr (inr (inl e)) ↦ rw (e, end_slash) tt
  | inr (inr (inr e)) ↦ rw (e, end_slash) tt
]

pub or_dot_absolute : (ns : List Bytes) → or_dot true ns ≡ ns
unfolding or_dot
or_dot_absolute [] = refl
or_dot_absolute (n ∷ ns) = refl

-- A normal absolute path has no dots, and no empty name but a slash at the end.
pub lexically_normal-IsClean :
    (names : List Bytes)
    → IsClean (lexically_normal (record { absolute = true; names = names })).names
unfolding lexically_normal is_empty
lexically_normal-IsClean [] = tt
lexically_normal-IsClean (n ∷ ns) =
    let start : Normalized = record { stack = []; slash = false } in
    let q = foldl (place true) start (n ∷ ns) in
    rw (or_dot_absolute (reverse q.stack ++ end_slash q)) (
      IsClean-append (reverse q.stack) (end_slash q)
        (All-reverse q.stack (foldl-place-All (n ∷ ns) start tt))
        (end_slash-IsClean q.stack q.slash))

pub end_slash-none : (stack : List Bytes) → end_slash (record { stack = stack; slash = false }) ≡ []
unfolding end_slash
end_slash-none [] = refl
end_slash-none (n ∷ stack) = elim (kind-cases (kind_of n)) [
  | inl e ↦ rw (e, end_slash) refl
  | inr (inl e) ↦ rw (e, end_slash) refl
  | inr (inr (inl e)) ↦ rw (e, end_slash) refl
  | inr (inr (inr e)) ↦ rw (e, end_slash) refl
]

pub place-plain :
    (ns stack : List Bytes)
    → All IsPlain ns
    → foldl (place true) (record { stack = stack; slash = false }) ns
      ≡ record { stack = reverse ns ++ stack; slash = false }
unfolding place
place-plain [] stack h = refl
place-plain (n ∷ ns) stack h =
    rw (h.0, place)
      (place-plain ns (n ∷ stack) h.1
        ∙ ap (λ t. record { stack = t; slash = false })
            (sym (append_assoc (reverse ns) (n ∷ []) stack)
              ∙ ap (λ t. t ++ stack) (sym (reverse-cons n ns))))

-- A path of plain names is normal.
pub lexically_normal-plain :
    (ns : List Bytes)
    → All IsPlain ns
    → (lexically_normal (record { absolute = true; names = ns })).names ≡ ns
unfolding lexically_normal is_empty
lexically_normal-plain [] h = refl
lexically_normal-plain (n ∷ ns) h =
    let e = place-plain (n ∷ ns) [] h in
    rw
      (or_dot_absolute (
        reverse (foldl (place true) (record { stack = []; slash = false }) (n ∷ ns)).stack
        ++ end_slash (foldl (place true) (record { stack = []; slash = false }) (n ∷ ns))))
      (rw (e, end_slash-none (reverse (n ∷ ns) ++ []), append-nil, append-nil)
        (reverse-reverse (n ∷ ns)))

pub lexically_normal-absolute :
    (p : FilePath)
    → p.absolute ≡ true
    → ((lexically_normal p).absolute ≡ true) × IsClean (lexically_normal p).names
unfolding lexically_normal is_empty
lexically_normal-absolute p h =
    subst (λ t. ((lexically_normal t).absolute ≡ true) × IsClean (lexically_normal t).names)
      (ap (λ b. record { absolute = b; names = p.names }) (sym h))
      (stays p.names, lexically_normal-IsClean p.names)
  where
    stays :
        (ns : List Bytes)
        → (lexically_normal (record { absolute = true; names = ns })).absolute ≡ true
    stays [] = refl
    stays (n ∷ ns) = refl

-- Behind plain names, those of a relative path that has some.
pub join_names-plain :
    (ps qs : List Bytes) (q : Bytes) → All IsPlain ps → join_names ps (q ∷ qs) ≡ ps ++ q ∷ qs
unfolding join_names kind_of
join_names-plain [] qs q h = refl
join_names-plain ([] ∷ []) qs q h = absurd (let e : no_name ≡ plain = h.0 in cc)
join_names-plain ((c ∷ n) ∷ []) qs q h = refl
join_names-plain (n ∷ m ∷ ns) qs q h = ap (λ t. n ∷ t) (join_names-plain (m ∷ ns) qs q h.1)

join_names-append :
    (ns qs ds : List Bytes) (q : Bytes)
    → join_names (ns ++ q ∷ qs) ds ≡ ns ++ join_names (q ∷ qs) ds
unfolding join_names
join_names-append [] qs ds q = refl
join_names-append ([] ∷ []) qs ds q = refl
join_names-append ((c ∷ n) ∷ []) qs ds q = refl
join_names-append ([] ∷ m ∷ ns) qs ds q = ap (λ t. [] ∷ t) (join_names-append (m ∷ ns) qs ds q)
join_names-append ((c ∷ n) ∷ m ∷ ns) qs ds q =
    ap (λ t. (c ∷ n) ∷ t) (join_names-append (m ∷ ns) qs ds q)

join_names-IsClean :
    (ns : List Bytes) (d : Bytes) → IsClean ns → IsPlain d → IsClean (join_names ns (d ∷ []))
unfolding join_names
join_names-IsClean [] d h k = inl k
join_names-IsClean ([] ∷ []) d h k = inl k
join_names-IsClean ((c ∷ n) ∷ []) d (inl h) k = (h, inl k)
join_names-IsClean ((c ∷ n) ∷ []) d (inr h) k = absurd cc
join_names-IsClean ([] ∷ m ∷ ns) d h k =
    IsClean-append ([] ∷ []) (join_names (m ∷ ns) (d ∷ [])) (h.0, tt)
      (join_names-IsClean (m ∷ ns) d h.1 k)
join_names-IsClean ((c ∷ n) ∷ m ∷ ns) d h k =
    IsClean-append ((c ∷ n) ∷ []) (join_names (m ∷ ns) (d ∷ [])) (h.0, tt)
      (join_names-IsClean (m ∷ ns) d h.1 k)

-- A plain name behind a clean path that stands in a root.
pub join_names-rest :
    (ns rest : List Bytes) (d : Bytes)
    → All IsPlain ns
    → IsClean rest
    → IsPlain d
    → (rest' : List Bytes) × (join_names (ns ++ rest) (d ∷ []) ≡ ns ++ rest') × IsClean rest'
join_names-rest ns [] d h clean k =
    (d ∷ [], ap (λ t. join_names t (d ∷ [])) (append-nil ns) ∙ join_names-plain ns [] d h, inl k)
join_names-rest ns (q ∷ qs) d h clean k = (
  join_names (q ∷ qs) (d ∷ []),
  join_names-append ns qs (d ∷ []) q,
  join_names-IsClean (q ∷ qs) d clean k,
)
