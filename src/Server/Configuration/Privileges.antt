-- ===== src/Server/Configuration/Privileges.antt =====
-- When the server drops its privileges, and on which ports it listens.
use getodac.Common.Bytes.{Bytes, codes}
use getodac.Common.Int.{ℤ, pos, negsuc, ltb_ℤ}
use getodac.Common.{
  ℕ, ◌≡◌, ◌∙◌, refl, sym, ap, Bool, true, false, ◌&&◌, List, [], ◌∷◌, ◌++◌, Option, none, some,
  if◌then◌else◌, Bool-cases, inl, inr,
}
use getodac.Exceptions.{Result, std_exception, ok, throw, ◌>>=◌, >>=-eq-ok}
use getodac.Server.Configuration.{
  Properties, Accounts, ServerConfig, Arguments, or_default, read_server, read_https, wants_drop,
  find_user, find_group, required, is_empty_text, read_privileges, read_conf, check_ports,
  configure, bound_ports,
}

abbrev pub has_ids : Option (ℕ × ℕ) → Bool
has_ids none = false
has_ids (some ids) = true

check_ports-eq : (c c' : ServerConfig) → check_ports c ≡ ok c' → c ≡ c'
unfolding check_ports
check_ports-eq c c' e =
    elim (Bool-cases (ltb_ℤ c.http_port (pos 0) && ltb_ℤ c.https_port (pos 0))) [
      | inl bad ↦ absurd (
          let f : throw (std_exception (codes "No HTTP nor HTTPS ports specified")) ≡ ok c' =
            sym (rw bad refl) ∙ e in
          cc)
      | inr good ↦ let f : ok c ≡ ok c' = sym (rw good refl) ∙ e in cc
    ]

abbrev with_https : Properties → ServerConfig → ServerConfig
with_https t c = record c {
  ssl_accept_timeout = or_default (t.number (codes "accept_timeout")) c.ssl_accept_timeout;
  ssl_shutdown_timeout = or_default (t.number (codes "shutdown_timeout")) c.ssl_shutdown_timeout;
  https_port = or_default (t.number (codes "https.port")) c.https_port;
}

ids-read_https :
    (t : Properties) (ssl : Result (Unit {0})) (c c' : ServerConfig)
    → read_https t ssl c ≡ ok c'
    → c'.ids ≡ c.ids
unfolding read_https
ids-read_https t ssl c c' e =
    elim (Bool-cases (or_default (t.flag (codes "https.enabled")) false)) [
      | inl enabled ↦
          let read : (ssl >>= λ _. ok (with_https t c)) ≡ ok c' = sym (rw enabled refl) ∙ e in
          let (_, _, rest) = >>=-eq-ok ssl (λ _. ok (with_https t c)) read in
          let is : with_https t c ≡ c' = cc in ap (λ d. d.ids) (sym is)
      | inr disabled ↦
          let read : ok (record c { https_port = negsuc 0 }) ≡ ok c' = sym (rw disabled refl) ∙ e in
          let is : record c { https_port = negsuc 0 } ≡ c' = cc in ap (λ d. d.ids) (sym is)
    ]

abbrev named_user : Properties → Arguments → Result Bytes
named_user t args =
    if is_empty_text args.drop_user
    then required (t.text (codes "privileges.user"))
    else ok args.drop_user

abbrev named_group : Properties → Arguments → Result Bytes
named_group t args =
    if is_empty_text args.drop_group
    then required (t.text (codes "privileges.group"))
    else ok args.drop_group

abbrev with_account : Properties → Arguments → Accounts → ServerConfig → Result ServerConfig
with_account t args accounts c = named_user t args >>= λ usr. find_user accounts usr >>= λ user.
    named_group t args >>= λ grp.
    find_group accounts grp user.1 >>= λ gid. ok (record c { ids = some (user.0, gid) })

has_ids-with_account :
    (t : Properties) (args : Arguments) (accounts : Accounts) (c c' : ServerConfig)
    → with_account t args accounts c ≡ ok c'
    → has_ids c'.ids ≡ true
has_ids-with_account t args accounts c c' e =
    let (usr, _, e1) = >>=-eq-ok (named_user t args) _ e in
    let (user, _, e2) = >>=-eq-ok (find_user accounts usr) _ e1 in
    let (grp, _, e3) = >>=-eq-ok (named_group t args) _ e2 in
    let (gid, _, e4) = >>=-eq-ok (find_group accounts grp user.1) _ e3 in
    let is : record c { ids = some (user.0, gid) } ≡ c' = cc in ap (λ d. has_ids d.ids) (sym is)

has_ids-read_privileges :
    (t : Properties) (args : Arguments) (accounts : Accounts) (c c' : ServerConfig)
    → c.ids ≡ none
    → read_privileges t args accounts c ≡ ok c'
    → has_ids c'.ids ≡ (args.root && wants_drop t args)
unfolding read_privileges
has_ids-read_privileges t args accounts c c' h e =
    elim (Bool-cases (args.root && wants_drop t args)) [
      | inr keeps ↦
          let same : ok c ≡ ok c' = sym (rw keeps refl) ∙ e in
          let is : c ≡ c' = cc in ap (λ d. has_ids d.ids) (sym is) ∙ ap has_ids h ∙ sym keeps
      | inl drops ↦
          let chain : with_account t args accounts c ≡ ok c' = sym (rw drops refl) ∙ e in
          has_ids-with_account t args accounts c c' chain ∙ sym drops
    ]

-- A configuration that has been read, and whose ports are checked.
configure-read :
    (t : Properties) (ssl : Result (Unit {0})) (args : Arguments) (accounts : Accounts)
    (c c' : ServerConfig)
    → configure (some t) ssl args accounts c ≡ ok c'
    → read_conf t ssl args accounts c ≡ ok c'
unfolding configure
configure-read t ssl args accounts c c' e =
    let (read, done, checked) = >>=-eq-ok (read_conf t ssl args accounts c) check_ports e in
    done ∙ ap ok (check_ports-eq read c' checked)

-- A server that has read server.conf without an error, and had no user before, has a user to drop
-- its privileges to exactly if root has started it, the arguments or the file ask for it, and the
-- file has a section for https, which has nothing to do with it.
pub has_ids-configure :
    (t : Properties) (ssl : Result (Unit {0})) (args : Arguments) (accounts : Accounts)
    (c c' : ServerConfig)
    → c.ids ≡ none
    → configure (some t) ssl args accounts c ≡ ok c'
    → has_ids c'.ids ≡ (t.section (codes "https") && (args.root && wants_drop t args))
unfolding read_conf read_server
has_ids-configure t ssl args accounts c c' h e =
    let read = configure-read t ssl args accounts c c' e in
    elim (Bool-cases (t.section (codes "https"))) [
      | inl https ↦
          let chain : (read_https t ssl (read_server t c) >>= read_privileges t args accounts)
              ≡ ok c' =
            sym (rw https refl) ∙ read in
          let (d, opened, dropped) =
            >>=-eq-ok (read_https t ssl (read_server t c)) (read_privileges t args accounts)
              chain in
          rw https (
            has_ids-read_privileges t args accounts d c'
              (ids-read_https t ssl (read_server t c) d opened ∙ h) dropped)
      | inr no_https ↦
          let same : ok (read_server t c) ≡ ok c' = sym (rw no_https refl) ∙ read in
          let is : read_server t c ≡ c' = cc in
          rw no_https (ap (λ d. has_ids d.ids) (sym is) ∙ ap has_ids h)
    ]

-- Without a section for https the default port is bound for https, although OpenSSL is not
-- initialized.
pub bound_ports-no_https :
    (t : Properties) (ssl : Result (Unit {0})) (args : Arguments) (accounts : Accounts)
    (c c' : ServerConfig)
    → t.section (codes "https") ≡ false
    → ltb_ℤ (pos 0) c.https_port ≡ true
    → configure (some t) ssl args accounts c ≡ ok c'
    → (ports : List ℤ) × (bound_ports c' ≡ ports ++ c.https_port ∷ [])
unfolding read_conf read_server bound_ports
bound_ports-no_https t ssl args accounts c c' no_https open_port e =
    let read = configure-read t ssl args accounts c c' e in
    let same : ok (read_server t c) ≡ ok c' = sym (rw no_https refl) ∙ read in
    let is : read_server t c ≡ c' = cc in
    let port = ap (λ d. d.https_port) is in
    (if ltb_ℤ (pos 0) c'.http_port then c'.http_port ∷ [] else [], rw (sym port, open_port) refl)
