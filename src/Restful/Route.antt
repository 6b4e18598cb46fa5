-- ===== src/Restful/Route.antt =====
-- include/dracon/restful.h, class RestfullRoute. `R` is the handlers' ReturnType and `A` the
-- tuple of their Args.
pub mod Matching
pub mod Methods
use getodac.Common.Bytes.{Bytes, codes, bytes_eq}
use getodac.Common.Maps.{find, assign}
use getodac.Common.{
  ℕ, zero, suc, ◌-◌, Bool, true, false, not, ◌&&◌, ◌||◌, List, [], ◌∷◌, ◌++◌, Option, none, some,
  ltb, ◌==◌, if◌then◌else◌, length, take, drop,
}
use getodac.Exceptions.{Result, ok, throw, response_error, ◌>>=◌}
use getodac.Http.Response.{response}
use getodac.Utils.Split.{npos, split}

abbrev pub QueryStrings : Type 0
QueryStrings = List (Bytes × Bytes)

abbrev pub Captures : Type 0
Captures = List (Bytes × Bytes)

pub record ParsedRoute : Type 0 where
  pub captured_resources : Captures
  pub query_strings : QueryStrings
  pub all_but_options_node_methods : Bytes

-- RESTfulRouteMethodHandler
abbrev pub Handler {ℓ} : (R A : Type ℓ) → Type ℓ
Handler R A = ParsedRoute → A → Result R

-- A part of a route: `true` and the name of a captured resource, or `false` and a literal text.
abbrev pub RouteParts : Type 0
RouteParts = List (Bool × Bytes)

pub record Route {ℓ} (R A : Type ℓ) : Type ℓ where
  pub route_parts : RouteParts
  pub methods : List (Bytes × Handler R A)
  pub all_methods : Bytes

-- `part.front()` and `part.back()`; the part is not empty where they are called.
unfoldable pub front : Bytes → ℕ
front [] = 0
front (c ∷ s) = c

unfoldable pub back : Bytes → ℕ
back [] = 0
back (c ∷ []) = c
back (c ∷ d ∷ s) = back (d ∷ s)

-- One round of the loop of `routeParts`.
unfoldable pub route_part : Bytes → Bool × Bytes
unfolding front back
route_part part =
    if front part == b'{' && back part == b'}'
    then (true, take (length part - 2) (drop 1 part))
    else (false, part)

unfoldable pub route_parts_from : List Bytes → Result RouteParts
route_parts_from [] = ok []
route_parts_from (part ∷ parts) =
    if ltb (length part) 2
    then throw (response_error (response 400 (codes "Invalid route") []))
    else do rest ← route_parts_from parts; ok (route_part part ∷ rest)

unfoldable pub route_parts : Bytes → Result RouteParts
unfolding route_parts_from route_part
route_parts route = route_parts_from (split route b'/' npos)

-- `bool == bool`
abbrev pub bool_eq : Bool → Bool → Bool
bool_eq true b = b
bool_eq false b = not b

-- The sizes and the loop of `operator ==`.
unfoldable pub parts_eq : RouteParts → RouteParts → Bool
parts_eq [] [] = true
parts_eq ((b, s) ∷ other) ((c, t) ∷ parts) = bool_eq b c && bytes_eq s t && parts_eq other parts
parts_eq _ _ = false

-- The loop of `createHandler` over parts and URL parts of one length.
unfoldable pub match_parts : RouteParts → List Bytes → Captures → Option Captures
match_parts ((true, name) ∷ parts) (u ∷ us) captures = match_parts parts us (assign name u captures)
match_parts ((false, text) ∷ parts) (u ∷ us) captures =
    let rest = match_parts parts us captures in if bytes_eq text u then rest else none
match_parts _ _ captures = some captures

-- `m_allMethods += m_allMethods.empty() ? method : ", " + method`
unfoldable pub append_method : Bytes → Bytes → Bytes
append_method all method = if length all == 0 then method else all ++ (codes ", " ++ method)

module _ {ℓ} {R A : Type ℓ} where
  -- The constructor.
  unfoldable pub new_route : Bytes → Result (Route R A)
  new_route route = do
    parts ← route_parts route
    ok (record { route_parts = parts; methods = []; all_methods = [] })

  -- operator ==
  unfoldable pub equals_route : Route R A → Bytes → Result Bool
  equals_route r route = do other ← route_parts route; ok (parts_eq other r.route_parts)

  unfoldable pub add_method_handler : Bytes → Handler R A → Route R A → Route R A
  unfolding append_method
  add_method_handler method creator r = elim (find method r.methods) [
    | none ↦ record r {
      all_methods =
          if not (bytes_eq method (codes "OPTIONS"))
          then append_method r.all_methods method
          else r.all_methods;
      methods = assign method creator r.methods;
    }
    | some _ ↦ record r { methods = assign method creator r.methods }
  ]

  -- `m_methods.find(method)`, after the URL has matched.
  unfoldable pub select_method :
      Route R A → Bytes → Captures → Result (Option (Captures × Handler R A))
  select_method r method captures = elim (find method r.methods) [
    | none ↦ throw (response_error (response 405 [] ((codes "Allow", r.all_methods) ∷ [])))
    | some h ↦ ok (some (captures, h))
  ]

  unfoldable pub create_handler :
      Route R A → List Bytes → Bytes → Result (Option (Captures × Handler R A))
  unfolding select_method
  create_handler r url_parts method =
      if not (length url_parts == length r.route_parts)
      then ok none
      else elim (match_parts r.route_parts url_parts []) [
        | none ↦ ok none
        | some captures ↦ select_method r method captures
      ]
