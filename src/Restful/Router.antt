-- ===== src/Restful/Router.antt =====
-- include/dracon/restful.h, class RestfulRouter. The shared pointers that `createRoute` returns
-- are positions in `routes`.
pub mod Query
pub mod Dispatch
pub mod Routes
use getodac.Common.Bytes.{Bytes, codes, bytes_eq}
use getodac.Common.{
  ℕ, zero, suc, ◌+◌, ◌-◌, Bool, true, false, not, ◌&&◌, List, [], ◌∷◌, ◌++◌, Option, none, some,
  ltb, ◌==◌, if◌then◌else◌, length, take, drop,
}
use getodac.Exceptions.{Result, ok, throw, response_error, ◌>>=◌}
use getodac.Http.Response.{response}
use getodac.Restful.Route.{
  QueryStrings, ParsedRoute, Handler, Route, new_route, equals_route, add_method_handler,
  create_handler,
}
use getodac.Utils.Split.{npos, find_char, split}
use getodac.Utils.Url.{unescape_url}

pub record Router {ℓ} (R A : Type ℓ) : Type ℓ where
  pub base_url : List Bytes
  pub routes : List (Route R A)

-- The test of the base URL: the resources are at least as many.
unfoldable pub has_base : List Bytes → List Bytes → Bool
has_base [] resources = true
has_base (b ∷ base) (r ∷ resources) = bytes_eq r b && has_base base resources
has_base (b ∷ base) [] = false

-- One round of the loop over the query string.
unfoldable pub query_pair : List Bytes → Result (Bytes × Bytes)
query_pair (k ∷ []) = do key ← unescape_url k; ok (key, [])
query_pair (k ∷ v ∷ []) = do key ← unescape_url k; value ← unescape_url v; ok (key, value)
query_pair _ = throw (response_error (response 400 (codes "Invalid query strings") []))

unfoldable pub query_pairs : List Bytes → Result QueryStrings
unfolding query_pair
query_pairs [] = ok []
query_pairs (kv ∷ kvs) = do
  pair ← query_pair (split kv b'=' npos)
  rest ← query_pairs kvs
  ok (pair ∷ rest)

-- `url.find('?')` and what the code takes before and behind it.
unfoldable pub url_path : Bytes → Bytes
url_path url = elim (find_char b'?' url) [ none ↦ url | some n ↦ take n url ]

unfoldable pub parse_query : Bytes → Result QueryStrings
unfolding query_pairs
parse_query url = elim (find_char b'?' url) [
  | none ↦ ok []
  | some n ↦ query_pairs (split (drop (suc n) url) b'&' npos)
]

module _ {ℓ} {R A : Type ℓ} where
  unfoldable pub new_router : Bytes → Router R A
  new_router base_url = record { base_url = split base_url b'/' npos; routes = [] }

  -- The loop of `createRoute`: the position of the route, and the routes.
  unfoldable pub find_route : Bytes → ℕ → List (Route R A) → Result (Option ℕ)
  find_route route i [] = ok none
  find_route route i (rt ∷ rts) = do
    same ← equals_route rt route
    let rest = find_route route (i + 1) rts
    if same then ok (some i) else rest

  unfoldable pub create_route : Bytes → Router R A → Result (ℕ × Router R A)
  unfolding find_route
  create_route route router = do
    found ← find_route route 0 router.routes
    elim found [
      | some i ↦ ok (i, router)
      | none ↦ do
        fresh ← new_route route
        ok (length router.routes, record router { routes = router.routes ++ fresh ∷ [] })
    ]

  -- The loop over the routes, for the resources behind the base URL.
  unfoldable pub try_routes : R → Bytes → List Bytes → Bytes → A → List (Route R A) → Result R
  unfolding parse_query
  try_routes empty url resources method args [] = ok empty
  try_routes empty url resources method args (route ∷ routes) =
      let rest = try_routes empty url resources method args routes in
      create_handler route resources method >>= elim [
        | none ↦ rest
        | some (captures, handler) ↦ parse_query url >>= λ query.
            handler
              (record {
                captured_resources = captures;
                query_strings = query;
                all_but_options_node_methods = route.all_methods;
              })
              args
      ]

  -- `empty` is the default value `{}` of the return type.
  unfoldable pub dispatch : R → Router R A → Bytes → Bytes → A → Result R
  unfolding try_routes has_base url_path
  dispatch empty router url method args =
      let resources = split (url_path url) b'/' npos in
      if ltb (length resources) (length router.base_url + 1)
      then ok empty
      else if not (has_base router.base_url resources)
      then ok empty
      else try_routes empty url (drop (length router.base_url) resources) method args router.routes
