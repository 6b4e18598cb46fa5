-- ===== src/Restful/Tests.antt =====
-- A router with a base, two routes and concrete URLs. Handlers answer a text.
mod Routing
use getodac.Common.Bytes.{Bytes, codes, bytes_eq}
use getodac.Common.Checks.{is_clear-All}
use getodac.Common.Maps.{find, assign}
use getodac.Common.{
  ℕ, ◌≤◌, ◌≡◌, ◌≢◌, ◌↔◌, ◌⊎◌, refl, List, [], ◌∷◌, ◌++◌, Bool, true, false, none, some, length,
  get_elem?, All, arith, if◌then◌else◌,
}
use getodac.Exceptions.{Thrown, Result, ok, throw, response_error, ◌>>=◌}
use getodac.Http.Response.{response}
use getodac.Restful.Route.Matching.{
  Matches, store, HasDistinctNames, store-distinct, create_handler_iff, create_handler-eq-none_iff,
  create_handler_405,
}
use getodac.Restful.Route.Methods.{IsListed, find-add_method_handler, add_method_handler-IsListed}
use getodac.Restful.Route.{
  Captures, RouteParts, Handler, Route, route_parts, route_parts_from, route_part, front, back,
  add_method_handler, append_method, create_handler,
}
use getodac.Restful.Router.Dispatch.{
  Misses, IsWritten, written, dispatch-handler, dispatch-405, dispatch-empty,
}
use getodac.Restful.Router.Query.{WritesPair, WritesPairs, WritesQuery, parse_query-WritesQuery}
use getodac.Restful.Router.Routes.{IsDistinct, create_route_lem}
use getodac.Restful.Router.{Router, url_path, parse_query, create_route, dispatch}
use getodac.Utils.Split.Parts.{IsPart, join}
use getodac.Utils.Split.{npos, split}
use getodac.Utils.Url.Decoding.{Encodes}

program : Unit {0}
unfolding find assign bytes_eq add_method_handler append_method route_parts route_parts_from
    route_part front back split
program = tt

abbrev pub show : Handler Bytes Bytes
show parsed args = ok args

abbrev pub item_parts : RouteParts
item_parts = (false, codes "items") ∷ (true, codes "id") ∷ []

abbrev pub empty_route : Route Bytes Bytes
empty_route = record { route_parts = item_parts; methods = []; all_methods = [] }

abbrev pub item_route : Route Bytes Bytes
item_route = record {
  route_parts = item_parts;
  methods = (codes "GET", show) ∷ [];
  all_methods = codes "GET";
}

abbrev pub list_route : Route Bytes Bytes
list_route = record { route_parts = (false, codes "items") ∷ []; methods = []; all_methods = [] }

abbrev pub us : List Bytes
us = codes "items" ∷ codes "42" ∷ []

abbrev pub cs : Captures
cs = (codes "id", codes "42") ∷ []

pub us-Matches : Matches item_parts us cs
us-Matches =
    Matches.literal (codes "items") (codes "items") refl
      (Matches.capture (codes "id") (codes "42") Matches.done)

create_handler_iff_example : (create_handler item_route us (codes "GET") ≡ ok (some (cs, show))) ↔ (
    (ds : Captures) × Matches item_parts us ds
    × (store [] ds ≡ cs)
    × (find (codes "GET") item_route.methods ≡ some show))
create_handler_iff_example = create_handler_iff item_route us (codes "GET") cs show

pub no_put : find (codes "PUT") item_route.methods ≡ none
unfolding program
no_put = refl

pub cs-HasDistinctNames : HasDistinctNames cs
unfolding program
cs-HasDistinctNames = (refl, tt)

item_route-IsListed : IsListed item_route
unfolding program
item_route-IsListed = record { named = ((λ e. cc), tt); listed = refl }

put_named : codes "PUT" ≢ []
put_named = λ e. cc

tests :
    (add_method_handler (codes "GET") show empty_route ≡ item_route)
    × ((add_method_handler (codes "OPTIONS") show item_route).all_methods ≡ codes "GET")
    × ((add_method_handler (codes "PUT") show item_route).all_methods ≡ codes "GET, PUT")
    × (route_parts (codes "/items/{id}") ≡ ok item_parts)
unfolding program
tests = (refl, refl, refl, refl)
