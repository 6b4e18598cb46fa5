-- ===== src/StaticContent/Tests.antt =====
-- The static content plugin at concrete values.
use getodac.Common.Bytes.{Bytes, codes, bytes_eq}
use getodac.Common.Maps.{find, assign}
use getodac.Common.{
  ℕ, ◌≡◌, ◌≢◌, ◌⊎◌, List, refl, sym, subst, Bool, true, false, [], ◌∷◌, ◌++◌, some, All, arith,
}
use getodac.Exceptions.{Result, response_error, ok, throw}
use getodac.Http.Response.{response}
use getodac.StaticContent.Containment.{
  IsRooted, IsInside, GivesCanonical, IsCanonical, resolve-IsInside,
}
use getodac.StaticContent.Walking.{resolve-Walks}
use getodac.StaticContent.Files.{IsStored, IsCoherent}
use getodac.StaticContent.Serving.{Serves, static_content_session_lem}
use getodac.StaticContent.Paths.Normal.{IsPlain}
use getodac.StaticContent.Paths.Walks.{Walks, ends, stays, enters, leaves}
use getodac.StaticContent.Paths.{
  FilePath, parse_path, append_path, lexically_normal, path_string, kind_of,
}
use getodac.StaticContent.Users.{user_session-plain}
use getodac.StaticContent.{
  Config, FileSystem, Cache, resolve, static_content_session, Written, mime_type,
}
use getodac.StaticContent.Urls.{user_session, create_session}
use getodac.Utils.LruCache.Cleaning.{Agrees}
use getodac.Utils.LruCache.Refinement.{entries}
use getodac.Utils.Url.{unescape_url, hex_pair, from_hex}

program : Unit {0}
unfolding resolve static_content_session user_session create_session mime_type bytes_eq find assign
    hex_pair from_hex
program = tt

abbrev config : Bool → Config
config links = record {
  urls = (codes "/~", codes "/home") ∷ (codes "/", codes "/srv") ∷ [];
  default_file = codes "index.html";
  allow_symlinks = links;
  custom_fields = [];
}

abbrev srv : FilePath
srv = record { absolute = true; names = codes "srv" ∷ [] }

abbrev page : FilePath
page = record { absolute = true; names = codes "srv" ∷ codes "a.txt" ∷ [] }

-- All paths are those of one file, which was last written at 5.
abbrev files : FileSystem
files = record {
  canonical = λ s. some page;
  is_directory = λ s. some false;
  last_write_time = λ s. some 5;
  content = λ s. some (codes "hello");
}

path_tests :
    (path_string (lexically_normal (parse_path (codes "/srv/./a//b/../c/"))) ≡ codes "/srv/a/c/")
    × (path_string (lexically_normal (parse_path (codes "/../../etc/passwd")))
        ≡ codes "/etc/passwd")
    × (path_string (lexically_normal (parse_path (codes "a/.."))) ≡ codes ".")
    × (path_string (lexically_normal (parse_path (codes "../a/../.."))) ≡ codes "../..")
unfolding program
path_tests = (refl, refl, refl, refl)

-- A path that leaves the root is refused, and a root with a slash at the end refuses all but
-- itself.
refused_tests :
    (resolve (config true) files srv (parse_path (codes "../etc/passwd"))
      ≡ throw (response_error (response 400 [] [])))
    × (resolve (config true) files (parse_path (codes "/srv/")) (parse_path (codes "a.txt"))
        ≡ throw (response_error (response 400 [] [])))
unfolding program
refused_tests = (refl, refl)

-- A user with an escaped slash in front chooses the root.
escape_test :
    user_session (codes "/home") (codes "/~%2Fetc/passwd") false
    ≡ ok (
        some (record {
          root = record { absolute = true; names = codes "etc" ∷ codes "public_html" ∷ [] };
          path = record { absolute = false; names = codes "passwd" ∷ [] };
          head = false;
        }))
unfolding program
escape_test = refl

mime_tests :
    (mime_type (codes ".svgz") ≡ codes "image/svg+xml")
    × (mime_type [] ≡ codes "application/octet-stream")
unfolding program
mime_tests = (refl, refl)

srv-IsRooted : IsRooted srv
unfolding kind_of
srv-IsRooted = record { absolute = refl; names = (refl, tt) }

page_names-IsPlain : All IsPlain (codes "a.txt" ∷ [])
unfolding kind_of
page_names-IsPlain = (refl, tt)

index-IsPlain : IsPlain (codes "index.html")
unfolding kind_of
index-IsPlain = refl

page-IsRooted : IsRooted page
page-IsRooted = record { absolute = refl; names = (srv-IsRooted.names.0, page_names-IsPlain) }

files-GivesCanonical : GivesCanonical files
files-GivesCanonical s p e = let is : page ≡ p = cc in subst IsRooted is page-IsRooted

default_file :
    parse_path (config false).default_file
    ≡ record { absolute = false; names = codes "index.html" ∷ [] }
unfolding program
default_file = refl

resolved : resolve (config false) files srv (parse_path (codes "link")) ≡ ok page
unfolding program
resolved = refl

resolve-IsInside_example :
    IsInside srv page
    × (((config false).allow_symlinks ≡ true) ⊎ IsCanonical (config false) files page)
resolve-IsInside_example =
    resolve-IsInside (config false) files srv (parse_path (codes "link")) page (codes "index.html")
      files-GivesCanonical srv-IsRooted default_file index-IsPlain resolved

-- The names of x/.././a.txt
abbrev detour : List Bytes
detour = codes "x" ∷ codes ".." ∷ codes "." ∷ []

detour-Walks : Walks [] detour []
unfolding kind_of
detour-Walks = enters refl (leaves refl (stays refl ends))

resolve-Walks_example :
    resolve
      (config true)
      files
      srv
      (record { absolute = false; names = detour ++ codes "a.txt" ∷ [] })
    ≡ ok page
resolve-Walks_example =
    resolve-Walks (config true) files (codes "srv" ∷ []) detour [] (codes "a.txt") false refl
      srv-IsRooted.names detour-Walks page_names-IsPlain.0 refl

abbrev no_files : Cache
no_files = record { items = []; hash = []; cache_size = 100; next = 0 }

abbrev hello : Bytes → ℕ → Bytes
hello k t = codes "hello"

files-IsStored : IsStored hello files
files-IsStored k t s time read = let is : codes "hello" ≡ s = cc in sym is

no_files-Agrees : Agrees no_files
unfolding find
no_files-Agrees = record { found = λ k. refl; distinct = tt; keys = tt; sizes = refl }

no_files-IsCoherent : IsCoherent hello (entries no_files)
unfolding find
no_files-IsCoherent k f h = absurd cc

static_content_session_lem_example :
    (c' : Cache) × (r : Result Written) × (static_content_session
        (config false)
        files
        srv
        (parse_path (codes "link"))
        false
        (ok tt)
        no_files
      ≡ some (c', r))
    × Agrees c'
    × IsCoherent hello (entries c')
    × Serves hello (config false) files srv (parse_path (codes "link")) false (ok tt) r
static_content_session_lem_example =
    static_content_session_lem hello (config false) files srv (parse_path (codes "link")) false
      (ok tt) no_files files-IsStored no_files-Agrees no_files-IsCoherent

home-IsRooted : IsRooted (parse_path (codes "/home"))
unfolding program kind_of
home-IsRooted = record { absolute = refl; names = (refl, tt) }

user_decoded :
    (unescape_url (codes "bob") ≡ ok (codes "bob")) × (unescape_url (codes "x") ≡ ok (codes "x"))
unfolding program
user_decoded = (refl, refl)

user_single : parse_path (codes "bob") ≡ record { absolute = false; names = codes "bob" ∷ [] }
unfolding program
user_single = refl

bob-IsPlain : IsPlain (codes "bob")
unfolding kind_of
bob-IsPlain = refl

bob-clear : All (λ c. c ≢ b'/') (codes "bob")
bob-clear = ((λ e. ground arith), ((λ e. ground arith), ((λ e. ground arith), tt)))

user_session-plain_example :
    user_session (codes "/home") (codes "/~" ++ codes "bob" ++ codes "/x") false
    ≡ ok (
        some (record {
          root = record {
            absolute = true;
            names = (parse_path (codes "/home")).names ++ codes "bob" ∷ codes "public_html" ∷ [];
          };
          path = lexically_normal (append_path (parse_path []) (parse_path (codes "x")));
          head = false;
        }))
user_session-plain_example =
    user_session-plain (codes "/home") (codes "bob") [] (codes "bob") (codes "x") b'x' false
      home-IsRooted bob-clear user_decoded.0 user_single bob-IsPlain user_decoded.1
