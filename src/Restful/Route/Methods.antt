-- ===== src/Restful/Route/Methods.antt =====
-- `addMethodHandler`: the handlers of a route, and the text of its methods.
use mathlib.Core.List.{append-nil, append_assoc}
use getodac.Common.Bytes.{Bytes, codes, bytes_eq}
use getodac.Common.Maps.{find, assign, assign-append, find-assign}
use getodac.Common.{
  ℕ, suc, ◌≡◌, ◌≢◌, ◌∙◌, refl, sym, ap, true, false, List, [], ◌∷◌, ◌++◌, some, ◌==◌, if◌then◌else◌,
  length, arith, All, Option-cases, Bool-cases, inl, inr,
}
use getodac.Restful.Route.{Handler, Route, append_method, add_method_handler}

-- The texts, separated by ", ".
abbrev pub comma_join : List Bytes → Bytes
comma_join [] = []
comma_join (m ∷ []) = m
comma_join (m ∷ n ∷ ms) = m ++ (codes ", " ++ comma_join (n ∷ ms))

-- The methods other than OPTIONS.
abbrev pub visible {ℓ} : {V : Type ℓ} → List (Bytes × V) → List Bytes
visible [] = []
visible ((m, h) ∷ ms) = if bytes_eq m (codes "OPTIONS") then visible ms else m ∷ visible ms

abbrev pub HasNames {ℓ} : {V : Type ℓ} → List (Bytes × V) → Type 0
HasNames [] = Unit
HasNames ((m, h) ∷ ms) = (m ≢ []) × HasNames ms

-- The text lists the methods that have a handler, but for OPTIONS.
pub record IsListed {ℓ} {R A : Type ℓ} (r : Route R A) : Type ℓ where
  pub named : HasNames r.methods
  pub listed : r.all_methods ≡ comma_join (visible r.methods)

visible-append {ℓ} :
    {V : Type ℓ} (ms ns : List (Bytes × V)) → visible (ms ++ ns) ≡ visible ms ++ visible ns
visible-append [] ns = refl
visible-append ((m, h) ∷ ms) ns = ground (arith, visible-append ms ns)

visible-assign {ℓ} :
    {V : Type ℓ} (m : Bytes) (h k : V) (ms : List (Bytes × V))
    → find m ms ≡ some k
    → visible (assign m h ms) ≡ visible ms
unfolding find assign
visible-assign m h k [] e = cc
visible-assign m h k ((n, g) ∷ ms) e = ground (arith, visible-assign m h k ms)

HasNames-assign {ℓ} :
    {V : Type ℓ} (m : Bytes) (h : V) (ms : List (Bytes × V))
    → m ≢ []
    → HasNames ms
    → HasNames (assign m h ms)
unfolding assign
HasNames-assign m h [] full names = (full, tt)
HasNames-assign m h ((n, g) ∷ ms) full (f, names) = elim (Bool-cases (bytes_eq n m)) [
  | inl e ↦ rw e (f, names)
  | inr e ↦ rw e (f, HasNames-assign m h ms full names)
]

visible-full {ℓ} :
    {V : Type ℓ} (ms : List (Bytes × V)) → HasNames ms → All (λ m. m ≢ []) (visible ms)
visible-full [] h = tt
visible-full ((m, g) ∷ ms) (f, h) = elim (Bool-cases (bytes_eq m (codes "OPTIONS"))) [
  | inl e ↦ rw e (visible-full ms h)
  | inr e ↦ rw e (f, visible-full ms h)
]

append_method-cons :
    (c : ℕ) (all method : Bytes)
    → append_method (c ∷ all) method ≡ (c ∷ all) ++ (codes ", " ++ method)
unfolding append_method
append_method-cons c all method =
    let full : (suc (length all) == 0) ≡ false = ground arith in rw full

append_method-full :
    (all method : Bytes) → all ≢ [] → append_method all method ≡ all ++ (codes ", " ++ method)
append_method-full [] method h = absurd (h refl)
append_method-full (c ∷ all) method h = append_method-cons c all method

append-ne-nil : (s t : Bytes) → s ≢ [] → (s ++ t) ≢ []
append-ne-nil [] t h = absurd (h refl)
append-ne-nil (c ∷ s) t h = cc

comma_join-ne-nil : (m : Bytes) (ms : List Bytes) → m ≢ [] → comma_join (m ∷ ms) ≢ []
comma_join-ne-nil m [] h = h
comma_join-ne-nil m (n ∷ ms) h = append-ne-nil m (codes ", " ++ comma_join (n ∷ ms)) h

comma_join-snoc :
    (m : Bytes) (ms : List Bytes) (n : Bytes)
    → comma_join (m ∷ ms ++ n ∷ []) ≡ comma_join (m ∷ ms) ++ (codes ", " ++ n)
comma_join-snoc m [] n = refl
comma_join-snoc m (k ∷ ms) n =
    ap (λ t. m ++ (codes ", " ++ t)) (comma_join-snoc k ms n)
    ∙ sym (append_assoc m (codes ", " ++ comma_join (k ∷ ms)) (codes ", " ++ n))

append_method-join :
    (ms : List Bytes) (n : Bytes)
    → All (λ m. m ≢ []) ms
    → append_method (comma_join ms) n ≡ comma_join (ms ++ n ∷ [])
unfolding append_method
append_method-join [] n h = refl
append_method-join (m ∷ ms) n (f, h) =
    append_method-full (comma_join (m ∷ ms)) n (comma_join-ne-nil m ms f)
    ∙ sym (comma_join-snoc m ms n)

module _ {ℓ} {R A : Type ℓ} (r : Route R A) (method : Bytes) (creator : Handler R A) where
  methods-add : (add_method_handler method creator r).methods ≡ assign method creator r.methods
  unfolding add_method_handler
  methods-add = elim (Option-cases (find method r.methods)) [
    | inl e ↦ rw (e, add_method_handler)
    | inr (k, e) ↦ rw (e, add_method_handler)
  ]

  -- After a handler is added, its method has it, and every other method has the one that it had.
  pub find-add_method_handler :
      (m : Bytes)
      → find m (add_method_handler method creator r).methods
        ≡ (if bytes_eq method m then some creator else find m r.methods)
  find-add_method_handler m = rw methods-add (find-assign method m creator r.methods)

  all_methods-add :
      method ≢ []
      → IsListed r
      → (add_method_handler method creator r).all_methods
        ≡ comma_join (visible (assign method creator r.methods))
  unfolding add_method_handler
  all_methods-add full inv = elim (Option-cases (find method r.methods)) [
    | inr (k, e) ↦
        rw (e, add_method_handler)
          (inv.listed ∙ ap comma_join (sym (visible-assign method creator k r.methods e)))
    | inl e ↦ elim (Bool-cases (bytes_eq method (codes "OPTIONS"))) [
      | inl hidden ↦
          rw (e, hidden, add_method_handler, assign-append method creator r.methods e)
            (inv.listed ∙ ap comma_join (sym (same hidden)))
      | inr shown ↦
          rw (e, shown, add_method_handler, assign-append method creator r.methods e)
            (rw inv.listed (
              append_method-join (visible r.methods) method (visible-full r.methods inv.named)
              ∙ ap comma_join (sym (more shown))))
    ]
  ]
    where
      same :
          bytes_eq method (codes "OPTIONS") ≡ true
          → visible (r.methods ++ (method, creator) ∷ []) ≡ visible r.methods
      same hidden = visible-append r.methods ((method, creator) ∷ []) ∙ rw hidden (append-nil _)

      more :
          bytes_eq method (codes "OPTIONS") ≡ false
          → visible (r.methods ++ (method, creator) ∷ []) ≡ visible r.methods ++ method ∷ []
      more shown = visible-append r.methods ((method, creator) ∷ []) ∙ rw shown refl

  -- Adding a handler for a method whose name is not empty keeps the text of methods equal to the
  -- list of the methods that have a handler, OPTIONS left out, in the order in which they were
  -- first added.
  pub add_method_handler-IsListed :
      method ≢ [] → IsListed r → IsListed (add_method_handler method creator r)
  add_method_handler-IsListed full inv = record {
    named = rw methods-add (HasNames-assign method creator r.methods full inv.named);
    listed = rw methods-add (all_methods-add full inv);
  }
