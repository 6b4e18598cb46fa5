-- ===== src/StaticContent.antt =====
-- src/plugins/staticContent/static_content_plugin.cpp. The file system answers from outside, by
-- the texts of paths; what it throws is `fs_error`.
pub mod Paths
pub mod Containment
pub mod Walking
pub mod Files
pub mod Serving
pub mod Urls
pub mod Users
mod Tests
use getodac.Common.Bytes.{Bytes, codes, bytes_eq}
use getodac.Common.Maps.{find, assign}
use getodac.Common.{
  ℕ, ◌-◌, ◌+◌, Bool, true, false, not, ◌&&◌, ◌||◌, List, [], ◌∷◌, Option, none, some, ltb, ◌==◌,
  if◌then◌else◌, length, take, drop,
}
use getodac.Exceptions.{Thrown, response_error, std_exception, Result, ok, throw, ◌>>=◌}
use getodac.Http.Request.{Request}
use getodac.Http.Response.{Fields, Response, response, set_content_length}
use getodac.StaticContent.Paths.{
  FilePath, parse_path, append_path, lexically_normal, elements, path_string, kind_of, NameKind,
  no_name, dot, dot_dot, plain,
}
use getodac.Streams.Read.Loop.{c_string}
use getodac.Utils.LruCache.{LruCache, value, put}
use getodac.Utils.Split.{find_char}
use getodac.Utils.Url.{unescape_url}

-- `s_urls`, `s_default_file`, `s_allow_symlinks` and `s_customFields`.
pub record Config : Type 0 where
  pub urls : List (Bytes × Bytes)
  pub default_file : Bytes
  pub allow_symlinks : Bool
  pub custom_fields : Fields

-- The state of the file system. `none` is an exception.
pub record FileSystem : Type 0 where
  pub canonical : Bytes → Option FilePath
  pub is_directory : Bytes → Option Bool
  pub last_write_time : Bytes → Option ℕ
  pub content : Bytes → Option Bytes

pub record FileMap : Type 0 where
  pub content : Bytes
  pub last_write_time : ℕ

-- The cache holds pointers; the empty one is `none`.
abbrev pub Cache : Type 0
Cache = LruCache (Option FileMap)

unfoldable pub mime_types : List (Bytes × Bytes)
mime_types =
    (codes ".htm", codes "text/html")
    ∷ (codes ".html", codes "text/html")
    ∷ (codes ".php", codes "text/html")
    ∷ (codes ".css", codes "text/css")
    ∷ (codes ".js", codes "application/javascript")
    ∷ (codes ".json", codes "application/json")
    ∷ (codes ".xml", codes "application/xml")
    ∷ (codes ".png", codes "image/png")
    ∷ (codes ".jpe", codes "image/jpeg")
    ∷ (codes ".jpeg", codes "image/jpeg")
    ∷ (codes ".jpg", codes "image/jpeg")
    ∷ (codes ".gif", codes "image/gif")
    ∷ (codes ".bmp", codes "image/bmp")
    ∷ (codes ".tiff", codes "image/tiff")
    ∷ (codes ".tif", codes "image/tiff")
    ∷ (codes ".svg", codes "image/svg+xml")
    ∷ (codes ".svgz", codes "image/svg+xml")
    ∷ (codes ".txt", codes "text/plain")
    ∷ (codes ".webp", codes "image/webp")
    ∷ (codes ".webm", codes "video/webmx")
    ∷ (codes ".weba", codes "audio/webm")
    ∷ (codes ".swf", codes "application/x-shockwave-flash")
    ∷ (codes ".flv", codes "video/x-flv")
    ∷ []

unfoldable pub mime_type : Bytes → Bytes
unfolding find mime_types
mime_type ext = elim (find ext mime_types) [ none ↦ codes "application/octet-stream" | some t ↦ t ]

-- The text from the last dot on.
unfoldable pub from_last_dot : Bytes → Option Bytes
from_last_dot [] = none
from_last_dot (c ∷ s) = elim (from_last_dot s) [
  | some e ↦ some e
  | none ↦ if c == b'.' then some (c ∷ s) else none
]

-- A dot at the start of a name is not that of an extension.
unfoldable pub name_extension : Bytes → Bytes
unfolding from_last_dot kind_of
name_extension n = elim (kind_of n) [
  | no_name ↦ []
  | dot ↦ []
  | dot_dot ↦ []
  | plain ↦ elim (from_last_dot (drop 1 n)) [ none ↦ [] | some e ↦ e ]
]

-- `p.extension().string()`
unfoldable pub extension : List Bytes → Bytes
unfolding name_extension
extension [] = []
extension (n ∷ []) = name_extension n
extension (n ∷ m ∷ ns) = extension (m ∷ ns)

abbrev pub fs_error : Thrown
fs_error = std_exception (codes "filesystem error")

-- `boost::starts_with`, of the elements of paths.
unfoldable pub path_starts_with : List Bytes → List Bytes → Bool
unfolding bytes_eq
path_starts_with s [] = true
path_starts_with [] (c ∷ p) = false
path_starts_with (d ∷ s) (c ∷ p) = bytes_eq d c && path_starts_with s p

unfoldable pub real_path : Config → FileSystem → FilePath → Result FilePath
unfolding path_string
real_path config fs p =
    if config.allow_symlinks
    then ok p
    else elim (fs.canonical (path_string p)) [ none ↦ throw fs_error | some q ↦ ok q ]

-- A directory stands for its default file.
unfoldable pub in_directory : Config → FileSystem → FilePath → Result FilePath
unfolding append_path path_string parse_path
in_directory config fs p = elim (fs.is_directory (path_string p)) [
  | none ↦ throw fs_error
  | some directory ↦ ok (if directory then append_path p (parse_path config.default_file) else p)
]

-- The file that is served.
unfoldable pub resolve : Config → FileSystem → (root path : FilePath) → Result FilePath
unfolding lexically_normal append_path real_path elements path_starts_with in_directory
resolve config fs root path =
    real_path config fs (lexically_normal (append_path root path)) >>= λ p.
    if path_starts_with (elements p) (elements root)
    then in_directory config fs p
    else throw (response_error (response 400 [] []))

-- The cached file, if it has not been written since.
unfoldable pub up_to_date : Option FileMap → ℕ → Option FileMap
up_to_date none t = none
up_to_date (some f) t = if f.last_write_time == t then some f else none

-- A file that is not up to date is mapped and put into the cache.
unfoldable pub map_file : FileSystem → Bytes → ℕ → Cache → Option (Cache × Result FileMap)
unfolding put
map_file fs name t c = elim (fs.content name) [
  | none ↦ some (c, throw fs_error)
  | some s ↦
      let file : FileMap = record { content = s; last_write_time = t } in
      elim (put name (some file) c) [ none ↦ none | some c' ↦ some (c', ok file) ]
]

-- The file of a name, and the cache behind it; `none` is a use of an iterator that is not valid.
unfoldable pub cached_file : FileSystem → Bytes → Cache → Option (Cache × Result FileMap)
unfolding value up_to_date map_file
cached_file fs name c = elim (value none name c) [
  | none ↦ none
  | some found ↦ elim (fs.last_write_time name) [
    | none ↦ some (found.0, throw fs_error)
    | some t ↦ elim (up_to_date found.1 t) [
      | some file ↦ some (found.0, ok file)
      | none ↦ map_file fs name t found.0
    ]
  ]
]

-- `res["Content-Type"] = ...` on the custom fields.
unfoldable pub file_response : Config → FilePath → FileMap → Response
unfolding set_content_length response mime_type extension assign
file_response config p file =
    set_content_length (length file.content) (record (response 200 [] []) {
      fields = assign (codes "Content-Type") (mime_type (extension p.names)) config.custom_fields;
    })

-- What is written: the response, and what follows it.
abbrev pub Written : Type 0
Written = Response × Bytes

unfoldable pub answer : Config → FilePath → Bool → Result FileMap → Result Written
unfolding file_response
answer config p head file =
    file >>= λ f. ok (file_response config p f, if head then [] else f.content)

-- `static_content_session`; `arrived` is what `stream >> req` throws, if it does.
unfoldable pub static_content_session :
    Config
    → FileSystem
    → (root path : FilePath) → (head : Bool) → (arrived : Result (Unit {0})) → Cache
    → Option (Cache × Result Written)
unfolding resolve cached_file answer path_string
static_content_session config fs root path head arrived c =
    elim (arrived >>= λ _. resolve config fs root path) [
      | throw e ↦ some (c, throw e)
      | ok p ↦ elim (cached_file fs (path_string p) c) [
        | none ↦ none
        | some found ↦ some (found.0, answer config p head found.1)
      ]
    ]
