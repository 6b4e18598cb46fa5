-- ===== src/Restful/Tests/Routing.antt =====
-- The router of the route `/items/{id}` under `/api`, and URLs with a query.
use getodac.Common.Bytes.{Bytes, codes, bytes_eq}
use getodac.Common.Checks.{is_clear-All}
use getodac.Common.Maps.{find}
use getodac.Common.{ℕ, ◌≤◌, ◌≡◌, ◌≢◌, ◌⊎◌, refl, [], ◌∷◌, ◌++◌, some, length, get_elem?, All, arith}
use getodac.Exceptions.{Thrown, ok, throw, response_error}
use getodac.Http.Response.{response}
use getodac.Restful.Route.Matching.{length-Matches}
use getodac.Restful.Route.{QueryStrings, RouteParts, Route, route_parts}
use getodac.Restful.Router.Dispatch.{Misses, IsWritten, dispatch-handler, dispatch-405}
use getodac.Restful.Router.Query.{WritesPair, WritesPairs, WritesQuery, parse_query-WritesQuery}
use getodac.Restful.Router.Routes.{IsDistinct, create_route_lem}
use getodac.Restful.Router.{Router, url_path, parse_query, create_route, dispatch}
use getodac.Restful.Tests.{
  show, item_route, list_route, us, cs, us-Matches, no_put, cs-HasDistinctNames,
}
use getodac.Utils.Split.Parts.{IsPart, join}
use getodac.Utils.Split.{npos}
use getodac.Utils.Url.Decoding.{Encodes}

program : Unit {0}
unfolding find bytes_eq
program = tt

abbrev router : Router Bytes Bytes
router = record { base_url = codes "api" ∷ []; routes = list_route ∷ item_route ∷ [] }

abbrev lists : Router Bytes Bytes
lists = record router { routes = list_route ∷ [] }

abbrev suffix : Bytes
suffix = codes "?q=a+b&n"

abbrev query : QueryStrings
query = (codes "q", codes "a b") ∷ (codes "n", []) ∷ []

suffix-WritesQuery : WritesQuery suffix query
suffix-WritesQuery =
    WritesQuery.present (codes "q=a+b") ((λ e. cc), is_clear-All b'&' (codes "q=a+b") refl)
      (((λ e. cc), is_clear-All b'&' (codes "n") refl), tt)
      (WritesPairs.pair (codes "q=a+b") (codes "q", codes "a b")
        (WritesPair.key_value (codes "q") (codes "a+b") (codes "q") (codes "a b")
          ((λ e. cc), is_clear-All b'=' (codes "q") refl)
          ((λ e. cc), is_clear-All b'=' (codes "a+b") refl)
          (Encodes.plain b'q' (omega arith) (omega arith) Encodes.done)
          (Encodes.plain b'a' (omega arith) (omega arith) (
            Encodes.space b'+' b' ' refl refl
              (Encodes.plain b'b' (omega arith) (omega arith) Encodes.done))))
        (WritesPairs.pair (codes "n") (codes "n", [])
          (WritesPair.key_only (codes "n") (codes "n")
            ((λ e. cc), is_clear-All b'=' (codes "n") refl)
            (Encodes.plain b'n' (omega arith) (omega arith) Encodes.done))
          WritesPairs.end))

api_fits : length (codes "/api/items" ++ suffix) ≤ npos
api_fits = omega arith

parse_query-WritesQuery_example :
    (url_path (codes "/api/items" ++ suffix) ≡ codes "/api/items")
    × (parse_query (codes "/api/items" ++ suffix) ≡ ok query)
parse_query-WritesQuery_example =
    parse_query-WritesQuery (codes "/api/items") (is_clear-All b'?' (codes "/api/items") refl)
      suffix-WritesQuery api_fits

path_parts : All (IsPart b'/') (codes "api" ∷ us)
path_parts = (
  ((λ e. cc), is_clear-All b'/' (codes "api") refl),
  (
    ((λ e. cc), is_clear-All b'/' (codes "items") refl),
    (((λ e. cc), is_clear-All b'/' (codes "42") refl), tt),
  ),
)

us-IsWritten : IsWritten router us suffix query
us-IsWritten = record {
  nonempty = omega arith;
  parts = path_parts;
  no_mark = is_clear-All b'?' (join b'/' (codes "api" ∷ us)) refl;
  asked = suffix-WritesQuery;
  fits = omega arith;
}

list_route-Misses : Misses us list_route
list_route-Misses ds m = absurd (omega (arith, length-Matches m))

has_get : find (codes "GET") item_route.methods ≡ some show
unfolding program
has_get = refl

dispatch-handler_example :
    dispatch [] router (codes "/api/items/42?q=a+b&n") (codes "GET") (codes "hello")
    ≡ ok (codes "hello")
dispatch-handler_example =
    dispatch-handler [] router (codes "GET") (codes "hello") us us-IsWritten (list_route ∷ []) []
      item_route cs show refl (list_route-Misses, tt) us-Matches cs-HasDistinctNames has_get

dispatch-405_example :
    dispatch [] router (codes "/api/items/42?q=a+b&n") (codes "PUT") []
    ≡ throw (response_error (response 405 [] ((codes "Allow", codes "GET") ∷ [])))
dispatch-405_example =
    dispatch-405 [] router (codes "PUT") [] us us-IsWritten (list_route ∷ []) [] item_route cs refl
      (list_route-Misses, tt) us-Matches no_put

lists-IsWritten : IsWritten lists us suffix query
lists-IsWritten = record {
  nonempty = omega arith;
  parts = path_parts;
  no_mark = is_clear-All b'?' (join b'/' (codes "api" ∷ us)) refl;
  asked = suffix-WritesQuery;
  fits = omega arith;
}

router-IsDistinct : IsDistinct router.routes
router-IsDistinct = (((λ e. cc), tt), (tt, tt))

create_route_lem_example :
    ((t : Thrown) × (route_parts (codes "/x1") ≡ throw t)
      × (create_route (codes "/x1") router ≡ throw t))
    ⊎ ((i : ℕ) × (router' : Router Bytes Bytes) × (parts : RouteParts) × (r : Route Bytes Bytes)
        × (route_parts (codes "/x1") ≡ ok parts)
        × (create_route (codes "/x1") router ≡ ok (i, router'))
        × (get_elem? router'.routes i ≡ some r)
        × (r.route_parts ≡ parts)
        × ((router' ≡ router)
            ⊎ (All (λ (q : Route Bytes Bytes). q.route_parts ≢ parts) router.routes
                × (router'.routes ≡ router.routes ++ r ∷ [])
                × (router'.base_url ≡ router.base_url)))
        × IsDistinct router'.routes
        × (create_route (codes "/x1") router' ≡ ok (i, router')))
create_route_lem_example = create_route_lem (codes "/x1") router router-IsDistinct
