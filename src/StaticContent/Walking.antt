-- ===== src/StaticContent/Walking.antt =====
-- Where a path with dots leads.
use mathlib.Core.List.{append_assoc}
use getodac.Common.Bytes.{Bytes, codes, bytes_eq_refl}
use getodac.Common.{
  ◌≡◌, ◌∙◌, refl, ap, Bool, reverse, if◌then◌else◌, true, false, List, [], ◌∷◌, ◌++◌, some, All,
}
use getodac.Exceptions.{response_error, ok, throw, ◌>>=◌}
use getodac.StaticContent.Paths.Walks.{Walks, lexically_normal-Walks, join_names-last}
use getodac.StaticContent.Paths.Normal.{IsPlain}
use getodac.StaticContent.Paths.{
  FilePath, parse_path, append_path, lexically_normal, elements, path_string,
}
use getodac.StaticContent.{Config, FileSystem, path_starts_with, real_path, in_directory, resolve}
use getodac.Http.Response.{response}

path_starts_with-append : (p rest : List Bytes) → path_starts_with (p ++ rest) p ≡ true
unfolding path_starts_with
path_starts_with-append [] rest = refl
path_starts_with-append (n ∷ p) rest = rw (bytes_eq_refl n) (path_starts_with-append p rest)

append_path-last :
    (rs ns : List Bytes) (q : Bytes)
    → All IsPlain rs
    → append_path
        (record { absolute = true; names = rs })
        (record { absolute = false; names = ns ++ q ∷ [] })
      ≡ record { absolute = true; names = rs ++ ns ++ q ∷ [] }
unfolding append_path
append_path-last rs ns q h =
    ap (λ t. record { absolute = true; names = t }) (join_names-last rs ns q h)

resolve-normal :
    (config : Config) (fs : FileSystem) (root path p : FilePath) (directory : Bool)
    → config.allow_symlinks ≡ true
    → lexically_normal (append_path root path) ≡ p
    → path_starts_with (elements p) (elements root) ≡ true
    → fs.is_directory (path_string p) ≡ some directory
    → resolve config fs root path
      ≡ ok (if directory then append_path p (parse_path config.default_file) else p)
unfolding resolve
resolve-normal config fs root path p directory links normal inside kind =
    ap
      (λ n. real_path config fs n >>= λ p.
        if path_starts_with (elements p) (elements root)
        then in_directory config fs p
        else throw (response_error (response 400 [] [])))
      normal
    ∙ rw (links, real_path) (rw (inside, in_directory, kind) refl)

-- Where symbolic links are allowed, and the root is absolute and of plain names: a relative path
-- of a plain name behind dots, plain names and two dots that never leave the root gives the path
-- of that name in the directory of the root to which a walk along the path leads, or, if the file
-- system says that this is a directory, the path of the default file in it.
pub resolve-Walks :
    (config : Config) (fs : FileSystem) (rs ns end : List Bytes) (q : Bytes) (directory : Bool)
    → config.allow_symlinks ≡ true
    → All IsPlain rs
    → Walks [] ns end
    → IsPlain q
    → fs.is_directory
        (path_string (record { absolute = true; names = rs ++ reverse end ++ q ∷ [] }))
      ≡ some directory
    → resolve config fs
        (record { absolute = true; names = rs })
        (record { absolute = false; names = ns ++ q ∷ [] })
      ≡ (let p : FilePath = record { absolute = true; names = rs ++ reverse end ++ q ∷ [] } in
          ok (if directory then append_path p (parse_path config.default_file) else p))
unfolding elements
resolve-Walks config fs rs ns end q directory links rs_plain walk q_plain kind =
    resolve-normal config fs (record { absolute = true; names = rs })
      (record { absolute = false; names = ns ++ q ∷ [] })
      (record { absolute = true; names = rs ++ reverse end ++ q ∷ [] }) directory links
      (ap lexically_normal (append_path-last rs ns q rs_plain)
        ∙ lexically_normal-Walks rs ns end q rs_plain walk q_plain)
      (ap (λ s. path_starts_with (codes "/" ∷ s) (codes "/" ∷ rs))
          (append_assoc rs (reverse end) (q ∷ []))
        ∙ path_starts_with-append (codes "/" ∷ rs) (reverse end ++ q ∷ []))
      kind
