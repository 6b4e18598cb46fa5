-- ===== src/EventLoop/Order/Sorting.antt =====
-- The events are handled in the order of their sessions, each once, and those of one order in the
-- order of their arrival.
use mathlib.Core.List.{Perm, perm_middle, append-nil, append_assoc}
use mathlib.Core.List.Perm
use getodac.Common.{
  ℕ, ◌≤◌, ◌<◌, ◌≡◌, ◌∙◌, refl, sym, ap, false, List, [], ◌∷◌, ◌++◌, ltb, ◌==◌, if◌then◌else◌, arith,
  All, Bool-cases, inl, inr,
}
use getodac.EventLoop.Order.{Event, insert_event, order_events}

abbrev pub IsSorted : List Event → Type 0
IsSorted [] = Unit
IsSorted (e ∷ es) = All (λ (f : Event). e.order ≤ f.order) es × IsSorted es

-- The events of one order.
abbrev pub of_order : ℕ → List Event → List Event
of_order n [] = []
of_order n (e ∷ es) = if e.order == n then e ∷ of_order n es else of_order n es

All-insert_event :
    (n : ℕ) (ev : Event) (es : List Event)
    → n ≤ ev.order
    → All (λ (f : Event). n ≤ f.order) es
    → All (λ (f : Event). n ≤ f.order) (insert_event ev es)
unfolding insert_event
All-insert_event n ev [] h k = (h, tt)
All-insert_event n ev (e ∷ es) h (l, k) = elim (Bool-cases (ltb ev.order e.order)) [
  | inl before ↦ rw before (h, (l, k))
  | inr behind ↦ rw behind (l, All-insert_event n ev es h k)
]

All-weaken :
    (m n : ℕ) (es : List Event)
    → m ≤ n
    → All (λ (f : Event). n ≤ f.order) es
    → All (λ (f : Event). m ≤ f.order) es
All-weaken m n [] h k = tt
All-weaken m n (e ∷ es) h (l, k) = (omega arith, All-weaken m n es h k)

insert_event-IsSorted : (ev : Event) (es : List Event) → IsSorted es → IsSorted (insert_event ev es)
unfolding insert_event
insert_event-IsSorted ev [] h = (tt, tt)
insert_event-IsSorted ev (e ∷ es) (l, h) = elim (Bool-cases (ltb ev.order e.order)) [
  | inl before ↦
      let le : ev.order ≤ e.order = ground arith in
      rw before ((le, All-weaken ev.order e.order es le l), (l, h))
  | inr behind ↦
      rw behind (All-insert_event e.order ev es (ground arith) l, insert_event-IsSorted ev es h)
]

insert_event-perm : (ev : Event) (es : List Event) → Perm (insert_event ev es) (ev ∷ es)
unfolding insert_event
insert_event-perm ev [] = Perm.refl (ev ∷ [])
insert_event-perm ev (e ∷ es) = elim (Bool-cases (ltb ev.order e.order)) [
  | inl before ↦ rw before (Perm.refl (ev ∷ e ∷ es))
  | inr behind ↦ rw behind (Perm.trans (Perm.cons e (insert_event-perm ev es)) (Perm.swap ev e es))
]

-- Behind a list whose orders are all greater than that of `ev`, no event has its order.
of_order-greater :
    (n m : ℕ) (es : List Event) → n < m → All (λ (f : Event). m ≤ f.order) es → of_order n es ≡ []
of_order-greater n m [] h k = refl
of_order-greater n m (e ∷ es) h (l, k) =
    let other : (e.order == n) ≡ false = ground arith in rw other (of_order-greater n m es h k)

insert_event-of_order :
    (n : ℕ) (ev : Event) (es : List Event)
    → IsSorted es
    → of_order n (insert_event ev es) ≡ of_order n es ++ of_order n (ev ∷ [])
unfolding insert_event
insert_event-of_order n ev [] h = refl
insert_event-of_order n ev (e ∷ es) (l, h) = elim (Bool-cases (ltb ev.order e.order)) [
  | inl before ↦ rw before (elim (Bool-cases (ev.order == n)) [
    | inl same ↦
        let other : (e.order == n) ≡ false = ground arith in
        let none_left = of_order-greater n e.order es (ground arith) l in
        rw (same, other, none_left) refl
    | inr other ↦ rw other (sym (append-nil (of_order n (e ∷ es))))
  ])
  | inr behind ↦ rw behind (ground (arith, insert_event-of_order n ev es h))
]

of_order-cons :
    (n : ℕ) (ev : Event) (evs : List Event)
    → of_order n (ev ∷ []) ++ of_order n evs ≡ of_order n (ev ∷ evs)
of_order-cons n ev evs = elim (Bool-cases (ev.order == n)) [
  | inl same ↦ rw same refl
  | inr other ↦ rw other refl
]

order_events_lem :
    (es evs : List Event)
    → IsSorted es
    → IsSorted (order_events es evs)
      × Perm (order_events es evs) (es ++ evs)
      × ((n : ℕ) → of_order n (order_events es evs) ≡ of_order n es ++ of_order n evs)
unfolding order_events
order_events_lem es [] h = (h, rw append-nil (Perm.refl es), λ n. sym (append-nil (of_order n es)))
order_events_lem es (ev ∷ evs) h =
    let (sorted, perm, stable) =
      order_events_lem (insert_event ev es) evs (insert_event-IsSorted ev es h) in
    (
      sorted,
      Perm.trans perm (
          Perm.trans (Perm.append (insert_event-perm ev es) (Perm.refl evs))
            (Perm.symm (perm_middle es evs))),
      λ n.
          stable n
          ∙ (rw (insert_event-of_order n ev es h) (
              append_assoc (of_order n es) (of_order n (ev ∷ [])) (of_order n evs)
              ∙ ap (λ t. of_order n es ++ t) (of_order-cons n ev evs))),
    )

-- With workload balancing the events of a round are handled by increasing order of their
-- sessions: all of them, each once, and events of one order as they came.
pub order_events-IsSorted :
    (evs : List Event)
    → IsSorted (order_events [] evs)
      × Perm (order_events [] evs) evs
      × ((n : ℕ) → of_order n (order_events [] evs) ≡ of_order n evs)
order_events-IsSorted evs = order_events_lem [] evs tt
