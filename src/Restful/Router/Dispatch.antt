-- ===== src/Restful/Router/Dispatch.antt =====
-- `RestfulRouter::createHandler`: the first route that matches decides.
use mathlib.Core.List.{append-nil}
use getodac.Common.Bytes.{Bytes, codes, bytes_eq_refl}
use getodac.Common.Maps.{find}
use getodac.Common.{
  ◌+◌, ◌≤◌, ◌<◌, ◌≡◌, ◌≢◌, ◌∙◌, refl, true, false, List, [], ◌∷◌, ◌++◌, none, some, length, arith,
  All, ltb, length-append, drop-length_append,
}
use getodac.Exceptions.{ok, throw, response_error}
use getodac.Http.Response.{response}
use getodac.Restful.Route.Matching.{
  Matches, store, HasDistinctNames, store-distinct, create_handler_iff, create_handler-eq-none_iff,
  create_handler_405,
}
use getodac.Restful.Route.{Captures, QueryStrings, Handler, Route}
use getodac.Restful.Router.Query.{WritesQuery, parse_query-WritesQuery}
use getodac.Restful.Router.{Router, has_base, parse_query, try_routes, dispatch}
use getodac.Utils.Split.Parts.{IsPart, join, split-join}
use getodac.Utils.Split.{npos}

has_base-append : (base us : List Bytes) → has_base base (base ++ us) ≡ true
unfolding has_base
has_base-append [] us = refl
has_base-append (b ∷ base) us = rw (bytes_eq_refl b) (has_base-append base us)

-- No list of captures makes the route match.
abbrev pub Misses {ℓ} : {R A : Type ℓ} → List Bytes → Route R A → Type 0
Misses us r = (cs : Captures) → ¬ Matches r.route_parts us cs

module _ {ℓ} {R A : Type ℓ} (empty : R) (url method : Bytes) (args : A) (us : List Bytes) where
  try_routes-skip :
      (before routes : List (Route R A))
      → All (Misses us) before
      → try_routes empty url us method args (before ++ routes)
        ≡ try_routes empty url us method args routes
  unfolding try_routes
  try_routes-skip [] routes h = refl
  try_routes-skip (r ∷ before) routes (miss, h) =
      rw ((create_handler-eq-none_iff r us method).1 miss) (try_routes-skip before routes h)

  try_routes-hit :
      (r : Route R A) (routes : List (Route R A)) (cs : Captures) (query : QueryStrings)
      (h : Handler R A)
      → Matches r.route_parts us cs
      → find method r.methods ≡ some h
      → parse_query url ≡ ok query
      → try_routes empty url us method args (r ∷ routes)
        ≡ h
            (record {
              captured_resources = store [] cs;
              query_strings = query;
              all_but_options_node_methods = r.all_methods;
            })
            args
  unfolding try_routes
  try_routes-hit r routes cs query h m f q =
      rw ((create_handler_iff r us method (store [] cs) h).1 (cs, m, refl, f), q) refl

  try_routes-405 :
      (r : Route R A) (routes : List (Route R A)) (cs : Captures)
      → Matches r.route_parts us cs
      → find method r.methods ≡ none
      → try_routes empty url us method args (r ∷ routes)
        ≡ throw (response_error (response 405 [] ((codes "Allow", r.all_methods) ∷ [])))
  unfolding try_routes
  try_routes-405 r routes cs m f = rw (create_handler_405 r us method cs m f) refl

module _ {ℓ} {R A : Type ℓ} (router : Router R A) where
  -- A URL that is written from the base, the resources `us` and a query.
  pub record IsWritten (us : List Bytes) (suffix : Bytes) (query : QueryStrings) : Type 0 where
    pub nonempty : 0 < length us
    pub parts : All (IsPart b'/') (router.base_url ++ us)
    pub no_mark : All (λ c. c ≢ b'?') (join b'/' (router.base_url ++ us))
    pub asked : WritesQuery suffix query
    pub fits : length (join b'/' (router.base_url ++ us) ++ suffix) ≤ npos

  abbrev pub written : List Bytes → Bytes → Bytes
  written us suffix = join b'/' (router.base_url ++ us) ++ suffix

module _ {ℓ} {R A : Type ℓ} (empty : R) (router : Router R A) (method : Bytes) (args : A) where
  module _ (us : List Bytes) {suffix : Bytes} {query : QueryStrings}
      (w : IsWritten router us suffix query) where
    dispatch-try_routes :
        (dispatch empty router (written router us suffix) method args
          ≡ try_routes empty (written router us suffix) us method args router.routes)
        × (parse_query (written router us suffix) ≡ ok query)
    unfolding dispatch
    dispatch-try_routes =
        let path = join b'/' (router.base_url ++ us) in
        let (cut, asked) = parse_query-WritesQuery path w.no_mark w.asked w.fits in
        let short : length path ≤ npos = omega (arith, length-append path suffix, w.fits) in
        let resources = split-join b'/' (router.base_url ++ us) w.parts short in
        let enough : ltb (length (router.base_url ++ us)) (length router.base_url + 1) ≡ false =
          ground (arith, length-append router.base_url us, w.nonempty) in
        (
          rw
              (
                cut,
                resources,
                enough,
                has_base-append router.base_url us,
                drop-length_append router.base_url us,
              )
              refl,
          asked,
        )

    -- On a URL that is written from the base, resources and a query, the first route that matches
    -- the resources decides. If its captures have distinct names and it has a handler for the
    -- method, the handler is called with the captured resources, the decoded query and the text
    -- of the route's methods.
    pub dispatch-handler :
        (before after : List (Route R A)) (r : Route R A) (cs : Captures) (h : Handler R A)
        → router.routes ≡ before ++ r ∷ after
        → All (Misses us) before
        → Matches r.route_parts us cs
        → HasDistinctNames cs
        → find method r.methods ≡ some h
        → dispatch empty router (written router us suffix) method args
          ≡ h
              (record {
                captured_resources = cs;
                query_strings = query;
                all_but_options_node_methods = r.all_methods;
              })
              args
    dispatch-handler before after r cs h e miss m distinct found =
        let (start, asked) = dispatch-try_routes in
        start
        ∙ rw e (
            try_routes-skip empty (written router us suffix) method args us before (r ∷ after) miss)
        ∙ try_routes-hit empty (written router us suffix) method args us r after cs query h m found
            asked
        ∙ rw (store-distinct cs distinct) refl

    -- On a URL that is written from the base, resources and a query, if the first route that
    -- matches the resources has no handler for the method, the answer is 405 with the
    -- methods of that route, whatever the routes behind it are.
    pub dispatch-405 :
        (before after : List (Route R A)) (r : Route R A) (cs : Captures)
        → router.routes ≡ before ++ r ∷ after
        → All (Misses us) before
        → Matches r.route_parts us cs
        → find method r.methods ≡ none
        → dispatch empty router (written router us suffix) method args
          ≡ throw (response_error (response 405 [] ((codes "Allow", r.all_methods) ∷ [])))
    dispatch-405 before after r cs e miss m found =
        let (start, asked) = dispatch-try_routes in
        start
        ∙ rw e (
            try_routes-skip empty (written router us suffix) method args us before (r ∷ after) miss)
        ∙ try_routes-405 empty (written router us suffix) method args us r after cs m found

    -- On a URL that is written from the base, resources and a query, if no route matches the
    -- resources, the router returns the empty value, for the next plugin.
    pub dispatch-empty :
        All (Misses us) router.routes
        → dispatch empty router (written router us suffix) method args ≡ ok empty
    unfolding try_routes
    dispatch-empty miss =
        let (start, asked) = dispatch-try_routes in
        let skip =
          try_routes-skip empty (written router us suffix) method args us router.routes [] miss in
        start ∙ (rw append-nil at skip)
