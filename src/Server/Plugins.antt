-- ===== src/Server/Plugins.antt =====
-- src/server/server.cpp, `create_session` and the order of the plugins; serverplugin.cpp.
pub mod Choice
pub mod Insertion
use getodac.Common.{ℕ, List, [], ◌∷◌, ◌++◌, Option, none, some}

-- A plugin with its `create_session` and its `plugin_order`. `Q` is the request, `S` the session.
pub record ServerPlugin {ℓ} (Q S : Type ℓ) : Type ℓ where
  pub create_session : Q → Option S
  pub order : ℕ

-- `Server::create_session`: the first plugin that makes a session.
unfoldable pub create_session {ℓ} : {Q S : Type ℓ} → List (ServerPlugin Q S) → Q → Option S
create_session [] request = none
create_session (plugin ∷ plugins) request =
    let rest = create_session plugins request in
    elim (plugin.create_session request) [ some service ↦ some service | none ↦ rest ]

-- The plugins of the server: those that were loaded, the server's own at the end if it is
-- enabled, sorted. `sort` is `std::sort` by the order.
unfoldable pub server_plugins {ℓ} :
    {Q S : Type ℓ}
    → (List (ServerPlugin Q S) → List (ServerPlugin Q S))
    → List (ServerPlugin Q S)
    → Option (ServerPlugin Q S)
    → List (ServerPlugin Q S)
server_plugins sort loaded none = sort loaded
server_plugins sort loaded (some status) = sort (loaded ++ status ∷ [])
