-- ===== src/Restful/Router/Routes.antt =====
-- `RestfulRouter::createRoute`: one route for each pattern.
use native.Mathlib.Nat.{zero-add}
use getodac.Common.Bytes.{Bytes, bytes_eq_iff}
use getodac.Common.{
  ℕ, suc, ◌+◌, ◌≡◌, ◌≢◌, ◌⊎◌, inl, inr, ◌∙◌, refl, sym, ap, Bool, true, false, List, [], ◌∷◌, ◌++◌,
  Option, none, some, length, arith, All, All-append, get_elem?, Bool-cases, Option-cases,
  if◌then◌else◌,
}
use getodac.Exceptions.{Thrown, Result, ok, throw}
use getodac.Restful.Route.{
  RouteParts, Route, bool_eq, route_parts, parts_eq, new_route, equals_route,
}
use getodac.Restful.Router.{Router, find_route, create_route}

bool_eq-eq : (a b : Bool) → bool_eq a b ≡ true → a ≡ b
bool_eq-eq true b h = sym h
bool_eq-eq false true h = cc
bool_eq-eq false false h = refl

parts_eq-eq : (a b : RouteParts) → parts_eq a b ≡ true → a ≡ b
unfolding parts_eq
parts_eq-eq [] [] h = refl
parts_eq-eq [] (q ∷ b) h = cc
parts_eq-eq (p ∷ a) [] h = cc
parts_eq-eq ((b, s) ∷ a) ((c, t) ∷ d) h =
    ground (arith, bool_eq-eq b c, bytes_eq_iff s t, parts_eq-eq a d)

Result-cases {ℓ} :
    {X : Type ℓ} (m : Result X) → ((a : X) × (m ≡ ok a)) ⊎ ((t : Thrown) × (m ≡ throw t))
Result-cases (ok a) = inl (a, refl)
Result-cases (throw t) = inr (t, refl)

parts_eq_refl : (a : RouteParts) → parts_eq a a ≡ true
unfolding parts_eq
parts_eq_refl [] = refl
parts_eq_refl ((true, s) ∷ a) = ground (arith, bytes_eq_iff s s, parts_eq_refl a)
parts_eq_refl ((false, s) ∷ a) = ground (arith, bytes_eq_iff s s, parts_eq_refl a)

module _ {ℓ} {R A : Type ℓ} where
  -- No two routes have the same parts.
  abbrev pub IsDistinct : List (Route R A) → Type 0
  IsDistinct [] = Unit
  IsDistinct (r ∷ rs) = All (λ q. r.route_parts ≢ q.route_parts) rs × IsDistinct rs

  equals_route-parts :
      (r : Route R A) (route : Bytes) {parts : RouteParts}
      → route_parts route ≡ ok parts
      → equals_route r route ≡ ok (parts_eq parts r.route_parts)
  unfolding equals_route
  equals_route-parts r route e = rw (e, equals_route)

  -- The position of the first route with the parts.
  abbrev index_of : RouteParts → ℕ → List (Route R A) → Option ℕ
  index_of parts i [] = none
  index_of parts i (r ∷ rs) =
      if parts_eq parts r.route_parts then some i else index_of parts (i + 1) rs

  find_route-index_of :
      (route : Bytes) {parts : RouteParts} (i : ℕ) (rs : List (Route R A))
      → route_parts route ≡ ok parts
      → find_route route i rs ≡ ok (index_of parts i rs)
  unfolding find_route
  find_route-index_of route i [] e = refl
  find_route-index_of route {parts} i (r ∷ rs) e =
      rw (equals_route-parts r route e) (elim (Bool-cases (parts_eq parts r.route_parts)) [
        | inl same ↦ rw same refl
        | inr other ↦ rw other (find_route-index_of route (i + 1) rs e)
      ])

  index_of-none :
      (parts : RouteParts) (i : ℕ) (rs : List (Route R A))
      → index_of parts i rs ≡ none
      → All (λ (r : Route R A). r.route_parts ≢ parts) rs
  index_of-none parts i [] h = tt
  index_of-none parts i (r ∷ rs) h = elim (Bool-cases (parts_eq parts r.route_parts)) [
    | inl same ↦ absurd (ground arith)
    | inr other ↦
        (λ e. cc (parts_eq_refl parts, other, e), index_of-none parts (i + 1) rs (ground arith))
  ]

  index_of-some :
      (parts : RouteParts) (i : ℕ) (rs : List (Route R A)) (j : ℕ)
      → index_of parts i rs ≡ some j
      → (k : ℕ) × (r : Route R A) × (j ≡ i + k)
        × (get_elem? rs k ≡ some r)
        × (r.route_parts ≡ parts)
  index_of-some parts i [] j h = cc
  index_of-some parts i (r ∷ rs) j h = elim (Bool-cases (parts_eq parts r.route_parts)) [
    | inl same ↦ (0, r, ground arith, refl, sym (parts_eq-eq parts r.route_parts same))
    | inr other ↦
        let (k, q, at_k, there, eq) = index_of-some parts (i + 1) rs j (ground arith) in
        (suc k, q, omega arith, there, eq)
  ]

  index_of-snoc :
      (parts : RouteParts) (i : ℕ) (rs : List (Route R A)) (r : Route R A)
      → index_of parts i rs ≡ none
      → r.route_parts ≡ parts
      → index_of parts i (rs ++ r ∷ []) ≡ some (i + length rs)
  index_of-snoc parts i [] r h e = rw (e, parts_eq_refl parts) (ground arith)
  index_of-snoc parts i (q ∷ rs) r h e = elim (Bool-cases (parts_eq parts q.route_parts)) [
    | inl same ↦ absurd (ground arith)
    | inr other ↦
        rw other (index_of-snoc parts (i + 1) rs r (ground arith) e ∙ ap some (omega arith))
  ]

  IsDistinct-snoc :
      (rs : List (Route R A)) (r : Route R A)
      → All (λ (q : Route R A). q.route_parts ≢ r.route_parts) rs
      → IsDistinct rs
      → IsDistinct (rs ++ r ∷ [])
  IsDistinct-snoc [] r h d = (tt, tt)
  IsDistinct-snoc (q ∷ rs) r (n, h) (k, d) = (
    All-append (λ (x : Route R A). q.route_parts ≢ x.route_parts) rs (r ∷ []) k (n, tt),
    IsDistinct-snoc rs r h d,
  )

  get_elem?-snoc :
      (rs : List (Route R A)) (r : Route R A) → get_elem? (rs ++ r ∷ []) (length rs) ≡ some r
  get_elem?-snoc [] r = refl
  get_elem?-snoc (q ∷ rs) r = get_elem?-snoc rs r

  abbrev fresh : RouteParts → Route R A
  fresh parts = record { route_parts = parts; methods = []; all_methods = [] }

  new_route-fresh :
      (route : Bytes) {parts : RouteParts}
      → route_parts route ≡ ok parts
      → new_route {R = R} {A = A} route ≡ ok (fresh parts)
  unfolding new_route
  new_route-fresh route e = rw (e, new_route)

  module _ (route : Bytes) (router : Router R A) {parts : RouteParts}
      (e : route_parts route ≡ ok parts) where
    create_route-old :
        (j : ℕ)
        → index_of parts 0 router.routes ≡ some j
        → create_route route router ≡ ok (j, router)
    unfolding create_route
    create_route-old j h = rw (find_route-index_of route 0 router.routes e) (rw h refl)

    create_route-new :
        index_of parts 0 router.routes ≡ none
        → create_route route router
          ≡ ok (length router.routes, record router { routes = router.routes ++ fresh parts ∷ [] })
    unfolding create_route
    create_route-new h =
        rw (find_route-index_of route 0 router.routes e) (rw h (rw (new_route-fresh route e) refl))

  create_route-throw :
      (route : Bytes) (t : Thrown)
      → route_parts route ≡ throw t
      → (router : Router R A) → create_route route router ≡ throw t
  unfolding create_route find_route equals_route new_route
  create_route-throw route t e router = go router.routes refl
    where
      go : (rs : List (Route R A)) → router.routes ≡ rs → create_route route router ≡ throw t
      go [] h = rw h (rw e refl)
      go (r ∷ rs) h = rw h (rw e refl)

  -- On a router with no two routes of the same parts, `createRoute` throws exactly what reading the
  -- pattern throws. Otherwise it returns the position of a route with the parts of the pattern. It
  -- keeps the routes that were there in their places, adds at most one, and only if none had these
  -- parts. Called again with the pattern it returns the same position and adds nothing.
  pub create_route_lem :
      (route : Bytes) (router : Router R A)
      → IsDistinct router.routes
      → ((t : Thrown) × (route_parts route ≡ throw t) × (create_route route router ≡ throw t))
        ⊎ ((i : ℕ) × (router' : Router R A) × (parts : RouteParts) × (r : Route R A) × (route_parts
                route
              ≡ ok parts)
            × (create_route route router ≡ ok (i, router'))
            × (get_elem? router'.routes i ≡ some r)
            × (r.route_parts ≡ parts)
            × ((router' ≡ router)
                ⊎ (All (λ (q : Route R A). q.route_parts ≢ parts) router.routes
                    × (router'.routes ≡ router.routes ++ r ∷ [])
                    × (router'.base_url ≡ router.base_url)))
            × IsDistinct router'.routes
            × (create_route route router' ≡ ok (i, router')))
  create_route_lem route router d = elim (Result-cases (route_parts route)) [
    | inr (t, e) ↦ inl (t, e, create_route-throw route t e router)
    | inl (parts, e) ↦ elim (Option-cases (index_of parts 0 router.routes)) [
      | inr (j, h) ↦
          let (k, r, at_k, there, same) = index_of-some parts 0 router.routes j h in
          let found : get_elem? router.routes j ≡ some r = rw (at_k, zero-add k) there in
          let old = create_route-old route router e j h in
          inr (j, router, parts, r, e, old, found, same, inl refl, d, old)
      | inl h ↦
          let absent = index_of-none parts 0 router.routes h in
          let rs = router.routes ++ fresh parts ∷ [] in
          let router' : Router R A = record router { routes = rs } in
          let again = index_of-snoc parts 0 router.routes (fresh parts) h refl in
          let n = length router.routes in
          inr (
            n,
            router',
            parts,
            fresh parts,
            e,
            create_route-new route router e h,
            get_elem?-snoc router.routes (fresh parts),
            refl,
            inr (absent, refl, refl),
            IsDistinct-snoc router.routes (fresh parts) absent d,
            create_route-old route router' e n (again ∙ ap some (zero-add n)),
          )
    ]
  ]
