-- ===== src/Server/Configuration/Tests.antt =====
-- Configurations of a server that root starts, to run as another user.
use getodac.Common.Bytes.{codes, bytes_eq}
use getodac.Common.Int.{pos}
use getodac.Common.Maps.{find}
use getodac.Common.{◌≡◌, refl, Bool, true, false, ◌&&◌, [], ◌∷◌, none, some}
use getodac.Exceptions.{ok}
use getodac.Server.Configuration.Privileges.{has_ids-configure}
use getodac.Server.Configuration.{
  Properties, Accounts, ServerConfig, Arguments, wants_drop, configure, bound_ports,
  drop_privileges,
}

program : Unit {0}
unfolding configure bound_ports drop_privileges bytes_eq find
program = tt

abbrev defaults : ServerConfig
defaults = record {
  keep_alive_timeout = pos 10;
  headers_timeout = pos 5;
  ssl_accept_timeout = pos 5;
  ssl_shutdown_timeout = pos 2;
  server_status = false;
  http_port = pos 8080;
  https_port = pos 8443;
  queued_connections = pos 20000;
  max_connections_per_ip = pos 500;
  workload_balancing = true;
  ids = none;
}

-- A file with a port for HTTP, and a section for https or none.
abbrev conf : Bool → Properties
conf https = record {
  number = λ n. find n ((codes "http_port", pos 80) ∷ (codes "https.port", pos 443) ∷ []);
  flag = λ n. find n ((codes "https.enabled", true) ∷ []);
  text = λ n. find n ((codes "privileges.group", []) ∷ []);
  section = λ n. bytes_eq n (codes "https") && https;
}

abbrev arguments : Arguments
arguments = record { root = true; drop_user = codes "daemon"; drop_group = [] }

abbrev accounts : Accounts
accounts = record { user = λ n. some (2, 3); group = λ n. none }

abbrev with_https : ServerConfig
with_https = record defaults { http_port = pos 80; https_port = pos 443; ids = some (2, 3) }

-- Root stays root.
abbrev no_https : ServerConfig
no_https = record defaults { http_port = pos 80 }

https_test : configure (some (conf true)) (ok tt) arguments accounts defaults ≡ ok with_https
unfolding program
https_test = refl

no_https_test : configure (some (conf false)) (ok tt) arguments accounts defaults ≡ ok no_https
unfolding program
no_https_test = refl

drop_tests :
    (drop_privileges arguments true with_https ≡ ok (some (2, 3)))
    × (drop_privileges arguments true no_https ≡ ok none)
    × (bound_ports no_https ≡ pos 80 ∷ pos 8443 ∷ [])
unfolding program
drop_tests = (refl, refl, refl)

has_ids-configure_example :
    true
    ≡ ((conf true).section (codes "https") && (arguments.root && wants_drop (conf true) arguments))
has_ids-configure_example =
    has_ids-configure (conf true) (ok tt) arguments accounts defaults with_https refl https_test
