-- ===== src/Server/Plugins/Choice.antt =====
-- Which plugin serves a request.
use getodac.Common.{◌≤◌, ◌≡◌, ◌≢◌, List, [], ◌∷◌, ◌++◌, Option, none, some, All}
use getodac.Server.Plugins.{ServerPlugin, create_session}
use mathlib.Core.List.{Memᴰ}

module _ {ℓ} {Q S : Type ℓ} where
  abbrev pub IsSorted : List (ServerPlugin Q S) → Type ℓ
  IsSorted [] = Unit
  IsSorted (p ∷ ps) = All (λ (q : ServerPlugin Q S). p.order ≤ q.order) ps × IsSorted ps

  -- What the code relies on of `std::sort`: the result is sorted and holds the same plugins.
  pub record Sorts (sort : List (ServerPlugin Q S) → List (ServerPlugin Q S)) : Type ℓ where
    pub sorted : (ps : List (ServerPlugin Q S)) → IsSorted (sort ps)
    pub from : (p : ServerPlugin Q S) (ps : List (ServerPlugin Q S)) → Memᴰ p (sort ps) → Memᴰ p ps
    pub into : (p : ServerPlugin Q S) (ps : List (ServerPlugin Q S)) → Memᴰ p ps → Memᴰ p (sort ps)

  -- The plugin that serves a request, among the plugins `ps`.
  pub record IsServer (p : ServerPlugin Q S) (ps : List (ServerPlugin Q S)) (request : Q)
      (service : S) : Type ℓ where
    pub listed : Memᴰ p ps
    pub serves : p.create_session request ≡ some service
    pub first :
        (q : ServerPlugin Q S) → Memᴰ q ps → q.create_session request ≢ none → p.order ≤ q.order

  abbrev pub all_plugins :
      List (ServerPlugin Q S) → Option (ServerPlugin Q S) → List (ServerPlugin Q S)
  all_plugins loaded none = loaded
  all_plugins loaded (some status) = loaded ++ status ∷ []
