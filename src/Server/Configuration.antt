-- ===== src/Server/Configuration.antt =====
-- src/server/server.cpp, `Server::exec`: what server.conf and the arguments make of the server,
-- the ports that it binds, and the privileges that it drops. The properties, the accounts of the
-- system and OpenSSL answer from outside; a runtime error is `std_exception`.
pub mod Privileges
mod Tests
use getodac.Common.Bytes.{Bytes, codes}
use getodac.Common.Int.{ℤ, pos, negsuc, ltb_ℤ}
use getodac.Common.{
  ℕ, Bool, true, false, not, ◌&&◌, ◌||◌, List, [], ◌∷◌, ◌++◌, Option, none, some, ◌==◌,
  if◌then◌else◌, length,
}
use getodac.Exceptions.{Result, ok, throw, std_exception, ◌>>=◌}

-- `boost::property_tree::ptree`, by the names of its nodes; `none` is a node that is missing or
-- holds another type.
pub record Properties : Type 0 where
  pub number : Bytes → Option ℤ
  pub flag : Bytes → Option Bool
  pub text : Bytes → Option Bytes
  pub section : Bytes → Bool

-- `getpwnam` with the user and the group, and `getgrnam`.
pub record Accounts : Type 0 where
  pub user : Bytes → Option (ℕ × ℕ)
  pub group : Bytes → Option ℕ

-- The variables that the file sets; `ids` are `uid` and `gid`.
pub record ServerConfig : Type 0 where
  pub keep_alive_timeout : ℤ
  pub headers_timeout : ℤ
  pub ssl_accept_timeout : ℤ
  pub ssl_shutdown_timeout : ℤ
  pub server_status : Bool
  pub http_port : ℤ
  pub https_port : ℤ
  pub queued_connections : ℤ
  pub max_connections_per_ip : ℤ
  pub workload_balancing : Bool
  pub ids : Option (ℕ × ℕ)

-- The arguments of the program, and whether root runs it.
pub record Arguments : Type 0 where
  pub root : Bool
  pub drop_user : Bytes
  pub drop_group : Bytes

-- `get` with a default.
abbrev pub or_default {ℓ} : {A : Type ℓ} → Option A → A → A
or_default none d = d
or_default (some a) d = a

-- `get` without a default.
unfoldable pub required : Option Bytes → Result Bytes
required none = throw (std_exception (codes "No such node"))
required (some s) = ok s

unfoldable pub is_empty_text : Bytes → Bool
is_empty_text [] = true
is_empty_text (c ∷ s) = false

unfoldable pub read_server : Properties → ServerConfig → ServerConfig
read_server t c = record c {
  keep_alive_timeout = or_default (t.number (codes "keepalive_timeout")) c.keep_alive_timeout;
  headers_timeout = or_default (t.number (codes "headers_timeout")) c.headers_timeout;
  server_status = or_default (t.flag (codes "server_status")) false;
  http_port = or_default (t.number (codes "http_port")) (negsuc 0);
  queued_connections = or_default (t.number (codes "queued_connections")) c.queued_connections;
  max_connections_per_ip =
      or_default (t.number (codes "max_connections_per_ip")) c.max_connections_per_ip;
  workload_balancing = or_default (t.flag (codes "workload_balancing")) c.workload_balancing;
}

-- `ssl` is how the initialization of OpenSSL ends.
unfoldable pub read_https : Properties → Result (Unit {0}) → ServerConfig → Result ServerConfig
read_https t ssl c =
    if or_default (t.flag (codes "https.enabled")) false
    then (ssl >>= λ _. ok (record c {
      ssl_accept_timeout = or_default (t.number (codes "accept_timeout")) c.ssl_accept_timeout;
      ssl_shutdown_timeout =
          or_default (t.number (codes "shutdown_timeout")) c.ssl_shutdown_timeout;
      https_port = or_default (t.number (codes "https.port")) c.https_port;
    }))
    else ok (record c { https_port = negsuc 0 })

unfoldable pub wants_drop : Properties → Arguments → Bool
unfolding is_empty_text
wants_drop t args =
    not (is_empty_text args.drop_user)
    || t.section (codes "privileges") && or_default (t.flag (codes "privileges.drop")) false

unfoldable pub find_user : Accounts → Bytes → Result (ℕ × ℕ)
find_user accounts usr = elim (accounts.user usr) [
  | none ↦ throw (std_exception (codes "Can't find user"))
  | some ids ↦ ok ids
]

-- The group of the user, if no group is named.
unfoldable pub find_group : Accounts → Bytes → ℕ → Result ℕ
unfolding is_empty_text
find_group accounts grp gid = if is_empty_text grp then ok gid else elim (accounts.group grp) [
  | none ↦ throw (std_exception (codes "Can't find group"))
  | some g ↦ ok g
]

unfoldable pub read_privileges :
    Properties → Arguments → Accounts → ServerConfig → Result ServerConfig
unfolding wants_drop required find_user find_group is_empty_text
read_privileges t args accounts c =
    if args.root && wants_drop t args
    then ((if is_empty_text args.drop_user
          then required (t.text (codes "privileges.user"))
          else ok args.drop_user)
        >>= λ usr. find_user accounts usr >>= λ user.
            (if is_empty_text args.drop_group
              then required (t.text (codes "privileges.group"))
              else ok args.drop_group)
            >>= λ grp. find_group accounts grp user.1 >>= λ gid.
                ok (record c { ids = some (user.0, gid) }))
    else ok c

-- The privileges are read in the block of the https section.
unfoldable pub read_conf :
    Properties → Result (Unit {0}) → Arguments → Accounts → ServerConfig → Result ServerConfig
unfolding read_server read_https read_privileges
read_conf t ssl args accounts c =
    if t.section (codes "https")
    then (read_https t ssl (read_server t c) >>= read_privileges t args accounts)
    else ok (read_server t c)

unfoldable pub check_ports : ServerConfig → Result ServerConfig
check_ports c =
    if ltb_ℤ c.http_port (pos 0) && ltb_ℤ c.https_port (pos 0)
    then throw (std_exception (codes "No HTTP nor HTTPS ports specified"))
    else ok c

-- With a directory for server.conf, or without.
unfoldable pub configure :
    Option Properties
    → Result (Unit {0})
    → Arguments
    → Accounts
    → ServerConfig
    → Result ServerConfig
unfolding read_conf check_ports
configure none ssl args accounts c = check_ports c
configure (some t) ssl args accounts c = read_conf t ssl args accounts c >>= check_ports

-- The ports that get a socket for IPv4 and one for IPv6.
unfoldable pub bound_ports : ServerConfig → List ℤ
bound_ports c =
    (if ltb_ℤ (pos 0) c.http_port then c.http_port ∷ [] else [])
    ++ (if ltb_ℤ (pos 0) c.https_port then c.https_port ∷ [] else [])

-- `set` is whether `setgid` and `setuid` succeed.
unfoldable pub drop_privileges : Arguments → Bool → ServerConfig → Result (Option (ℕ × ℕ))
drop_privileges args set c = elim c.ids [
  | none ↦ ok none
  | some ids ↦
      if args.root
      then (if set then ok (some ids) else throw (std_exception (codes "Can't drop privileges")))
      else ok none
]
