-- ===== src/StaticContent/Urls.antt =====
-- src/plugins/staticContent/static_content_plugin.cpp: `create_session` and `init_plugin`.
use getodac.StaticContent.{Config}
use getodac.Common.Bytes.{Bytes, codes, bytes_eq}
use getodac.Common.Maps.{assign}
use getodac.Exceptions.{Result, ok, ◌>>=◌}
use getodac.Http.Request.{Request}
use getodac.Http.Response.{Fields}
use getodac.StaticContent.Paths.{FilePath, parse_path, append_path, lexically_normal}
use getodac.Streams.Read.Loop.{c_string}
use getodac.Utils.Split.{find_char}
use getodac.Utils.Url.{unescape_url}
use getodac.Common.{
  ℕ, ◌-◌, ◌+◌, Bool, true, false, not, ◌&&◌, ◌||◌, List, [], ◌∷◌, ◌++◌, Option, none, some, ltb,
  ◌==◌, if◌then◌else◌, length, take, drop,
}

-- `boost::starts_with`, of texts.
unfoldable pub starts_with : Bytes → Bytes → Bool
starts_with s [] = true
starts_with [] (c ∷ p) = false
starts_with (d ∷ s) (c ∷ p) = (d == c) && starts_with s p

-- What `std::bind` holds.
pub record Session : Type 0 where
  pub root : FilePath
  pub path : FilePath
  pub head : Bool

-- The position of the first slash behind the first character, or the size.
unfoldable pub user_end : Bytes → ℕ
unfolding find_char
user_end url = elim (find_char b'/' (drop 1 url)) [ none ↦ length url | some n ↦ n + 1 ]

-- A URL of the form /~user/path.
unfoldable pub user_session : Bytes → Bytes → Bool → Result (Option Session)
unfolding user_end unescape_url parse_path append_path lexically_normal bytes_eq
user_session base url head =
    let pos = user_end url in
    unescape_url (take (pos - 2) (drop 2 url)) >>= λ user.
    if bytes_eq user (codes ".") || bytes_eq user (codes "..")
    then ok none
    else ((if ltb 1 (length url - pos)
          then (unescape_url (drop (pos + 1) url) >>= λ s.
              ok (append_path (parse_path []) (parse_path s)))
          else ok (parse_path []))
        >>= λ file. ok (
            some (record {
              root =
                  append_path (append_path (parse_path base) (parse_path user))
                    (parse_path (codes "public_html"));
              path = lexically_normal file;
              head = head;
            })))

-- A URL that starts with the first text of a pair; `url.c_str()` ends at the first zero.
unfoldable pub path_session : Bytes → Bytes → Bytes → Bool → Result (Option Session)
unfolding unescape_url parse_path lexically_normal c_string
path_session prefix base url head = unescape_url (c_string (drop (length prefix) url)) >>= λ s.
    ok (
      some (record { root = parse_path base; path = lexically_normal (parse_path s); head = head }))

unfoldable pub find_url : List (Bytes × Bytes) → Bytes → Bool → Result (Option Session)
unfolding user_session path_session starts_with
find_url [] url head = ok none
find_url (pair ∷ urls) url head = elim (starts_with url pair.0) [
  | false ↦ find_url urls url head
  | true ↦
      if starts_with pair.0 (codes "/~")
      then user_session pair.1 url head
      else path_session pair.0 pair.1 url head
]

unfoldable pub create_session : Config → Request → Result (Option Session)
unfolding find_url bytes_eq
create_session config req =
    if bytes_eq req.method (codes "GET") || bytes_eq req.method (codes "HEAD")
    then find_url config.urls req.url (bytes_eq req.method (codes "HEAD"))
    else ok none

-- What staticFiles.conf holds.
pub record Properties : Type 0 where
  pub paths : List (Bytes × Bytes)
  pub custom_headers : List (Bytes × Bytes)
  pub default_file : Option Bytes
  pub allow_symlinks : Option Bool

unfoldable pub set_fields : List (Bytes × Bytes) → Fields → Fields
unfolding assign
set_fields [] fields = fields
set_fields (p ∷ ps) fields = set_fields ps (assign p.0 p.1 fields)

-- `init_plugin`: the configuration, and whether the plugin is used.
unfoldable pub init_plugin : Properties → Config → Config × Bool
unfolding set_fields
init_plugin ps config =
    let urls = config.urls ++ ps.paths in
    (
      record {
        urls = urls;
        default_file = elim ps.default_file [ none ↦ [] | some f ↦ f ];
        allow_symlinks = elim ps.allow_symlinks [ none ↦ false | some b ↦ b ];
        custom_fields = set_fields ps.custom_headers config.custom_fields;
      },
      not (length urls == 0),
    )
