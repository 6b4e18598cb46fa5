-- ===== src/StaticContent/Paths/Walks.antt =====
-- Paths with dots, as walks from a directory.
use mathlib.Core.List.{append-nil, append_assoc, reverse-append, reverse-cons, reverse-reverse}
use getodac.Common.Bytes.{Bytes}
use getodac.Common.{◌≡◌, ◌∙◌, refl, sym, ap, true, false, List, [], ◌∷◌, ◌++◌, reverse, foldl, All}
use getodac.StaticContent.Paths.Normal.{
  IsPlain, or_dot_absolute, end_slash-none, place-plain, join_names-plain,
}
use getodac.StaticContent.Paths.{
  dot, dot_dot, kind_of, is_empty, Normalized, place, go_back, end_slash, lexically_normal,
  join_names,
}

-- From the directory whose names, the last one first, are those of the first list to that of the
-- last: a dot stays, a plain name enters, two dots leave. The start is not left.
pub data Walks : List Bytes → List Bytes → List Bytes → Type 0 where
  ends : {at : List Bytes} → Walks at [] at
  stays :
      {n : Bytes} {at ns end : List Bytes}
      → kind_of n ≡ dot
      → Walks at ns end
      → Walks at (n ∷ ns) end
  enters :
      {n : Bytes} {at ns end : List Bytes}
      → IsPlain n
      → Walks (n ∷ at) ns end
      → Walks at (n ∷ ns) end
  leaves :
      {n m : Bytes} {at ns end : List Bytes}
      → kind_of n ≡ dot_dot
      → Walks at ns end
      → Walks (m ∷ at) (n ∷ ns) end

foldl-Walks :
    {at ns end : List Bytes} (base : List Bytes) (p : Normalized)
    → Walks at ns end
    → All IsPlain at
    → p.stack ≡ at ++ base
    → (foldl (place true) p ns).stack ≡ end ++ base
unfolding place
foldl-Walks base p ends h e = e
foldl-Walks base p (stays {n} k w) h e = foldl-Walks base (place true p n) w h (rw (k, place) e)
foldl-Walks base p (enters {n} k w) h e =
    foldl-Walks base (place true p n) w (k, h) (rw (k, place) (ap (λ t. n ∷ t) e))
foldl-Walks base p (leaves {n} {m} {at} k w) (g, h) e =
    foldl-Walks base (place true p n) w h (rw (k, place) (back p.stack e))
  where
    back : (s : List Bytes) → s ≡ m ∷ at ++ base → (go_back true n s).stack ≡ at ++ base
    back s e = rw (e, go_back, g) refl

foldl-append :
    (p : Normalized) (ns ms : List Bytes)
    → foldl (place true) p (ns ++ ms) ≡ foldl (place true) (foldl (place true) p ns) ms
foldl-append p [] ms = refl
foldl-append p (n ∷ ns) ms = foldl-append (place true p n) ns ms

is_empty-append : (ns : List Bytes) (q : Bytes) → is_empty (ns ++ q ∷ []) ≡ false
unfolding is_empty
is_empty-append [] q = refl
is_empty-append (n ∷ ns) q = refl

place-last :
    (p : Normalized) (q : Bytes)
    → IsPlain q
    → place true p q ≡ record { stack = q ∷ p.stack; slash = false }
unfolding place
place-last p q h = rw (h, place) refl

-- A path from a directory of plain names to a plain name behind a walk.
pub lexically_normal-Walks :
    (rs ns end : List Bytes) (q : Bytes)
    → All IsPlain rs
    → Walks [] ns end
    → IsPlain q
    → lexically_normal (record { absolute = true; names = rs ++ ns ++ q ∷ [] })
      ≡ record { absolute = true; names = rs ++ reverse end ++ q ∷ [] }
unfolding lexically_normal
lexically_normal-Walks rs ns end q rooted w h =
    let start : Normalized = record { stack = []; slash = false } in
    let nonempty = is_empty-append (rs ++ ns) q in
    let before = foldl (place true) start (rs ++ ns) in
    let walked : before.stack ≡ end ++ reverse rs =
      ap (λ (s : Normalized). s.stack)
        (foldl-append start rs ns ∙ ap (λ s. foldl (place true) s ns) (place-plain rs [] rooted))
      ∙ foldl-Walks (reverse rs) (record { stack = reverse rs ++ []; slash = false }) w tt
          (append-nil (reverse rs)) in
    let all : foldl (place true) start (rs ++ ns ++ q ∷ [])
        ≡ record { stack = q ∷ end ++ reverse rs; slash = false } =
      foldl-append start (rs ++ ns) (q ∷ [])
      ∙ place-last before q h
      ∙ ap (λ s. record { stack = q ∷ s; slash = false }) walked in
    rw (nonempty, all)
      (ap (λ s. record { absolute = true; names = s })
        (or_dot_absolute (
            reverse (q ∷ end ++ reverse rs)
            ++ end_slash (record { stack = q ∷ end ++ reverse rs; slash = false }))
          ∙ ap (λ s. reverse (q ∷ end ++ reverse rs) ++ s) (end_slash-none (q ∷ end ++ reverse rs))
          ∙ append-nil (reverse (q ∷ end ++ reverse rs))
          ∙ turned))
  where
    turned : reverse (q ∷ end ++ reverse rs) ≡ rs ++ reverse end ++ q ∷ []
    turned =
        reverse-cons q (end ++ reverse rs)
        ∙ ap (λ s. s ++ q ∷ [])
            (reverse-append end (reverse rs) ∙ ap (λ s. s ++ reverse end) (reverse-reverse rs))

pub join_names-last :
    (rs ns : List Bytes) (q : Bytes)
    → All IsPlain rs
    → join_names rs (ns ++ q ∷ []) ≡ rs ++ ns ++ q ∷ []
join_names-last rs [] q h = join_names-plain rs [] q h ∙ ap (λ s. s ++ q ∷ []) (sym (append-nil rs))
join_names-last rs (n ∷ ns) q h =
    join_names-plain rs (ns ++ q ∷ []) n h ∙ sym (append_assoc rs (n ∷ ns) (q ∷ []))
