-- ===== src/Restful/Route/Matching.antt =====
-- `RestfullRoute::createHandler` against the relation of matching.
use mathlib.Core.List.{append-nil, append_assoc}
use getodac.Common.Bytes.{Bytes, codes, bytes_eq_iff, bytes_eq}
use getodac.Common.Maps.{find, assign, assign-append, find-append}
use getodac.Common.{
  ◌≡◌, ◌≢◌, ◌↔◌, ◌⊎◌, inl, inr, ◌∙◌, refl, sym, true, false, List, [], ◌∷◌, ◌++◌, none, some, ◌==◌,
  length, arith, All, Option-cases, Bool-cases,
}
use getodac.Exceptions.{ok, throw, response_error}
use getodac.Http.Response.{response}
use getodac.Restful.Route.{
  Captures, Handler, RouteParts, Route, match_parts, select_method, create_handler,
}

-- The parts of a route against the parts of a URL, and what is captured, in order.
pub data Matches : RouteParts → List Bytes → Captures → Type 0 where
  done : Matches [] [] []
  literal :
      {parts : RouteParts} {us : List Bytes} {cs : Captures} (text u : Bytes)
      → text ≡ u
      → Matches parts us cs
      → Matches ((false, text) ∷ parts) (u ∷ us) cs
  capture :
      {parts : RouteParts} {us : List Bytes} {cs : Captures} (name u : Bytes)
      → Matches parts us cs
      → Matches ((true, name) ∷ parts) (u ∷ us) ((name, u) ∷ cs)

-- What the map of captures holds after `cs` are assigned: of two captures under one name, the
-- last.
abbrev pub store : Captures → Captures → Captures
store captures [] = captures
store captures ((name, u) ∷ cs) = store (assign name u captures) cs

pub length-Matches :
    {parts : RouteParts} {us : List Bytes} {cs : Captures}
    → Matches parts us cs
    → length us ≡ length parts
length-Matches done = refl
length-Matches (literal text u e m) = omega (arith, length-Matches m)
length-Matches (capture name u m) = omega (arith, length-Matches m)

match_parts_complete :
    {parts : RouteParts} {us : List Bytes} {cs : Captures} (captures : Captures)
    → Matches parts us cs
    → match_parts parts us captures ≡ some (store captures cs)
unfolding match_parts
match_parts_complete captures done = refl
match_parts_complete captures (literal text u e m) =
    rw ((bytes_eq_iff text u).1 e) (match_parts_complete captures m)
match_parts_complete captures (capture name u m) = match_parts_complete (assign name u captures) m

match_parts_sound :
    (parts : RouteParts) (us : List Bytes) (captures c : Captures)
    → length us ≡ length parts
    → match_parts parts us captures ≡ some c
    → (cs : Captures) × Matches parts us cs × (c ≡ store captures cs)
unfolding match_parts
match_parts_sound [] [] captures c h e = ([], Matches.done, ground arith)
match_parts_sound [] (u ∷ us) captures c h e = absurd (omega arith)
match_parts_sound (p ∷ parts) [] captures c h e = absurd (omega arith)
match_parts_sound ((true, name) ∷ parts) (u ∷ us) captures c h e =
    let (cs, m, same) = match_parts_sound parts us (assign name u captures) c (omega arith) e in
    ((name, u) ∷ cs, Matches.capture name u m, same)
match_parts_sound ((false, text) ∷ parts) (u ∷ us) captures c h e =
    elim (Bool-cases (bytes_eq text u)) [
      | inl eq ↦
          let (cs, m, same) = match_parts_sound parts us captures c (omega arith) (rw eq at e) in
          (cs, Matches.literal text u ((bytes_eq_iff text u).0 eq) m, same)
      | inr ne ↦ absurd (ground arith)
    ]

module _ {ℓ} {R A : Type ℓ} (r : Route R A) (us : List Bytes) (method : Bytes) where
  create_handler-Matches :
      {cs : Captures}
      → Matches r.route_parts us cs
      → create_handler r us method ≡ select_method r method (store [] cs)
  unfolding create_handler
  create_handler-Matches m =
      let same : (length us == length r.route_parts) ≡ true = ground (arith, length-Matches m) in
      rw (same, match_parts_complete [] m)

  create_handler-cases :
      (create_handler r us method ≡ ok none) ⊎ ((cs : Captures) × Matches r.route_parts us cs)
  unfolding create_handler
  create_handler-cases = elim (Bool-cases (length us == length r.route_parts)) [
    | inr ne ↦ inl (rw ne)
    | inl eq ↦ elim (Option-cases (match_parts r.route_parts us [])) [
      | inl miss ↦ inl (rw (eq, miss))
      | inr (c, hit) ↦
          let (cs, m, _) = match_parts_sound r.route_parts us [] c (ground arith) hit in inr (cs, m)
    ]
  ]

  select_method-eq-some :
      (captures c : Captures) (h : Handler R A)
      → select_method r method captures ≡ ok (some (c, h))
      → (captures ≡ c) × (find method r.methods ≡ some h)
  unfolding select_method
  select_method-eq-some captures c h e = elim (Option-cases (find method r.methods)) [
    | inl miss ↦ absurd (ground arith)
    | inr (k, hit) ↦ (ground arith, ground arith)
  ]

  select_method-hit :
      (captures : Captures) (h : Handler R A)
      → find method r.methods ≡ some h
      → select_method r method captures ≡ ok (some (captures, h))
  unfolding select_method
  select_method-hit captures h e = rw (e, select_method)

  select_method-ne-none : (captures : Captures) → select_method r method captures ≢ ok none
  unfolding select_method
  select_method-ne-none captures = elim (Option-cases (find method r.methods)) [
    | inl miss ↦ ground arith
    | inr (k, hit) ↦ ground arith
  ]

  -- A route hands out the handler `h` with the captures `c` exactly when the parts of the URL
  -- match those of the route, `c` holds what they capture, and `h` is the handler of the method.
  pub create_handler_iff :
      (c : Captures) (h : Handler R A)
      → (create_handler r us method ≡ ok (some (c, h))) ↔ (
          (cs : Captures) × Matches r.route_parts us cs
          × (store [] cs ≡ c)
          × (find method r.methods ≡ some h))
  create_handler_iff c h = (sound, complete)
    where
      sound :
          create_handler r us method ≡ ok (some (c, h))
          → (cs : Captures) × Matches r.route_parts us cs
            × (store [] cs ≡ c)
            × (find method r.methods ≡ some h)
      sound e = elim create_handler-cases [
        | inl miss ↦ absurd (ground arith)
        | inr (cs, m) ↦
            let (same, hit) =
              select_method-eq-some (store [] cs) c h (sym (create_handler-Matches m) ∙ e) in
            (cs, m, same, hit)
      ]

      complete :
          ((cs : Captures) × Matches r.route_parts us cs
            × (store [] cs ≡ c)
            × (find method r.methods ≡ some h))
          → create_handler r us method ≡ ok (some (c, h))
      complete (cs, m, same, hit) =
          create_handler-Matches m ∙ rw (same, select_method-hit c h hit) refl

  -- A route passes a URL on to the next route exactly when the parts of the URL do not match those
  -- of the route.
  pub create_handler-eq-none_iff :
      (create_handler r us method ≡ ok none) ↔ ((cs : Captures) → ¬ Matches r.route_parts us cs)
  create_handler-eq-none_iff = (
    λ e cs m. select_method-ne-none (store [] cs) (sym (create_handler-Matches m) ∙ e),
    λ never. elim create_handler-cases [ inl miss ↦ miss | inr (cs, m) ↦ absurd (never cs m) ],
  )

  -- On a URL that matches, under a method with no handler, a route throws 405 and lists its
  -- methods.
  pub create_handler_405 :
      (cs : Captures)
      → Matches r.route_parts us cs
      → find method r.methods ≡ none
      → create_handler r us method
        ≡ throw (response_error (response 405 [] ((codes "Allow", r.all_methods) ∷ [])))
  unfolding select_method
  create_handler_405 cs m e = create_handler-Matches m ∙ rw (e, select_method)

-- The names of the resources that a route captures differ from one another.
abbrev pub HasDistinctNames : Captures → Type 0
HasDistinctNames [] = Unit
HasDistinctNames ((name, u) ∷ cs) = (find name cs ≡ none) × HasDistinctNames cs

abbrev Disjoint : Captures → Captures → Type 0
Disjoint captures cs = All (λ (c : Bytes × Bytes). find c.0 captures ≡ none) cs

Disjoint-snoc :
    (captures cs : Captures) (name u : Bytes)
    → Disjoint captures cs
    → find name cs ≡ none
    → Disjoint (captures ++ (name, u) ∷ []) cs
unfolding find
Disjoint-snoc captures [] name u d f = tt
Disjoint-snoc captures ((k, v) ∷ cs) name u (h, d) f = (
  find-append k captures ((name, u) ∷ []) h
      ∙ ground (arith, bytes_eq_iff name k, bytes_eq_iff k name),
  Disjoint-snoc captures cs name u d (ground arith),
)

store-append :
    (captures cs : Captures)
    → Disjoint captures cs
    → HasDistinctNames cs
    → store captures cs ≡ captures ++ cs
store-append captures [] d h = sym (append-nil captures)
store-append captures ((name, u) ∷ cs) (new, d) (f, h) =
    let rest =
      store-append (captures ++ (name, u) ∷ []) cs (Disjoint-snoc captures cs name u d f) h in
    rw (assign-append name u captures new) (rest ∙ append_assoc captures ((name, u) ∷ []) cs)

Disjoint-nil : (cs : Captures) → Disjoint [] cs
unfolding find
Disjoint-nil [] = tt
Disjoint-nil (c ∷ cs) = (refl, Disjoint-nil cs)

-- Under distinct names the map of captures holds each of them.
pub store-distinct : (cs : Captures) → HasDistinctNames cs → store [] cs ≡ cs
store-distinct cs h = store-append [] cs (Disjoint-nil cs) h
