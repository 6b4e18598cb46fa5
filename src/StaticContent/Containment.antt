-- ===== src/StaticContent/Containment.antt =====
-- Where the files that are served stand.
use mathlib.Core.List.{append-nil}
use getodac.Common.Bytes.{Bytes, codes, bytes_eq, bytes_eq_iff}
use getodac.Common.{
  ◌≡◌, ◌∙◌, refl, sym, ap, subst, ◌⊎◌, true, false, List, [], ◌∷◌, ◌++◌, some, All, inl, inr,
  Bool-cases, Option-cases, arith,
}
use getodac.Exceptions.{response_error, ok, throw, >>=-eq-ok}
use getodac.StaticContent.Paths.Normal.{
  IsPlain, IsClean, IsClean-append, lexically_normal-absolute, join_names-rest,
}
use getodac.StaticContent.Paths.{
  FilePath, parse_path, append_path, join_names, lexically_normal, elements, path_string,
}
use getodac.StaticContent.{
  Config, FileSystem, fs_error, path_starts_with, real_path, in_directory, resolve,
}
use getodac.Http.Response.{response}

-- An absolute path of plain names.
pub record IsRooted (root : FilePath) : Type 0 where
  pub absolute : root.absolute ≡ true
  pub names : All IsPlain root.names

-- The path stands in the root or is it: behind the names of the root it has only plain names, and
-- a slash at the end at most.
abbrev pub IsInside : FilePath → FilePath → Type 0
IsInside root p =
    (p.absolute ≡ true) × (rest : List Bytes) × (p.names ≡ root.names ++ rest) × IsClean rest

-- `std::filesystem::canonical` gives an absolute path of plain names.
abbrev pub GivesCanonical : FileSystem → Type 0
GivesCanonical fs = (s : Bytes) (p : FilePath) → fs.canonical s ≡ some p → IsRooted p

path_starts_with-eq :
    (s p : List Bytes) → path_starts_with s p ≡ true → (rest : List Bytes) × (s ≡ p ++ rest)
unfolding path_starts_with
path_starts_with-eq s [] h = (s, refl)
path_starts_with-eq [] (c ∷ p) h = absurd cc
path_starts_with-eq (d ∷ s) (c ∷ p) h =
    let both : (bytes_eq d c ≡ true) × (path_starts_with s p ≡ true) =
      (ground arith, ground arith) in
    let (rest, e) = path_starts_with-eq s p both.1 in
    (rest, ap (λ t. t ∷ s) ((bytes_eq_iff d c).0 both.0) ∙ ap (λ t. c ∷ t) e)

IsClean-plain : (ns : List Bytes) → All IsPlain ns → IsClean ns
IsClean-plain ns h = subst IsClean (append-nil ns) (IsClean-append ns [] h tt)

IsClean-drop : (ns ms : List Bytes) → IsClean (ns ++ ms) → IsClean ms
IsClean-drop [] ms h = h
IsClean-drop (n ∷ []) [] h = tt
IsClean-drop (n ∷ []) (m ∷ ms) h = h.1
IsClean-drop (n ∷ k ∷ ns) ms h = IsClean-drop (k ∷ ns) ms h.1

append_path-absolute :
    (root path : FilePath) → root.absolute ≡ true → (append_path root path).absolute ≡ true
unfolding append_path
append_path-absolute root path h = elim (Bool-cases path.absolute) [
  | inl e ↦ let taken : append_path root path ≡ path = rw e refl in ap (λ p. p.absolute) taken ∙ e
  | inr e ↦ rw (e, append_path) h
]

-- What is opened, before the default file, is clean.
real_path-IsClean :
    (config : Config) (fs : FileSystem) (p q : FilePath)
    → GivesCanonical fs
    → p.absolute ≡ true
    → real_path config fs (lexically_normal p) ≡ ok q
    → (q.absolute ≡ true) × IsClean q.names
unfolding real_path
real_path-IsClean config fs p q canonical abs e = elim (Bool-cases config.allow_symlinks) [
  | inl links ↦
      let same : ok (lexically_normal p) ≡ ok q = sym (rw links refl) ∙ e in
      let found : lexically_normal p ≡ q = cc in
      subst (λ t. (t.absolute ≡ true) × IsClean t.names) found (lexically_normal-absolute p abs)
  | inr no_links ↦ elim (Option-cases (fs.canonical (path_string (lexically_normal p)))) [
    | inl failed ↦
        absurd (let same : throw fs_error ≡ ok q = sym (rw (no_links, failed) refl) ∙ e in cc)
    | inr (q', found) ↦
        let same : ok q' ≡ ok q = sym (rw (no_links, found) refl) ∙ e in
        let is : q' ≡ q = cc in
        let rooted = canonical (path_string (lexically_normal p)) q' found in
        subst (λ t. (t.absolute ≡ true) × IsClean t.names) is
          (rooted.absolute, IsClean-plain q'.names rooted.names)
  ]
]

elements-absolute : (p : FilePath) → p.absolute ≡ true → elements p ≡ codes "/" ∷ p.names
unfolding elements
elements-absolute p h = rw (h, elements) refl

names-below :
    (root q : FilePath)
    → root.absolute ≡ true
    → q.absolute ≡ true
    → path_starts_with (elements q) (elements root) ≡ true
    → (below : List Bytes) × (q.names ≡ root.names ++ below)
names-below root q h k inside =
    let (below, cut) = path_starts_with-eq (elements q) (elements root) inside in
    let from_root : codes "/" ∷ q.names ≡ codes "/" ∷ (root.names ++ below) =
      sym (elements-absolute q k) ∙ cut ∙ ap (λ t. t ++ below) (elements-absolute root h) in
    (below, cc)

-- Adding the default file does not leave the root.
default-IsInside :
    (root q default : FilePath) (d : Bytes)
    → IsRooted root
    → default ≡ record { absolute = false; names = d ∷ [] }
    → IsPlain d
    → IsInside root q
    → IsInside root (append_path q default)
unfolding append_path
default-IsInside root q default d rooted is_default plain_default
      (q_absolute, below, names, clean) =
    let (more, joined, more_clean) =
      join_names-rest root.names below d rooted.names clean plain_default in
    subst (λ t. IsInside root (append_path q t)) (sym is_default)
      (q_absolute, more, ap (λ t. join_names t (d ∷ [])) names ∙ joined, more_clean)

-- The file is that of a canonical path, or the default file below one that is a directory.
abbrev pub IsCanonical : Config → FileSystem → FilePath → Type 0
IsCanonical config fs p =
    (s : Bytes) × (q : FilePath) × (fs.canonical s ≡ some q)
    × ((p ≡ q)
        ⊎ ((fs.is_directory (path_string q) ≡ some true)
            × (p ≡ append_path q (parse_path config.default_file))))

real_path-canonical :
    (config : Config) (fs : FileSystem) (p q : FilePath)
    → real_path config fs p ≡ ok q
    → config.allow_symlinks ≡ false
    → fs.canonical (path_string p) ≡ some q
unfolding real_path
real_path-canonical config fs p q e no_links = elim (Option-cases (fs.canonical (path_string p))) [
  | inl failed ↦
      absurd (let same : throw fs_error ≡ ok q = sym (rw (no_links, failed) refl) ∙ e in cc)
  | inr (q', found) ↦
      let same : ok q' ≡ ok q = sym (rw (no_links, found) refl) ∙ e in
      found ∙ ap some (let is : q' ≡ q = cc in is)
]

-- What stands for a path that has been found.
in_directory-cases :
    (config : Config) (fs : FileSystem) (q p : FilePath)
    → in_directory config fs q ≡ ok p
    → (p ≡ q)
      ⊎ ((fs.is_directory (path_string q) ≡ some true)
          × (p ≡ append_path q (parse_path config.default_file)))
unfolding in_directory
in_directory-cases config fs q p e = elim (Option-cases (fs.is_directory (path_string q))) [
  | inl failed ↦
      absurd (let same : throw fs_error ≡ ok p = sym (rw (failed, in_directory) refl) ∙ e in cc)
  | inr (true, directory) ↦
      let default = append_path q (parse_path config.default_file) in
      let same : ok default ≡ ok p = sym (rw (directory, in_directory) refl) ∙ e in
      inr (directory, (let is : p ≡ default = cc in is))
  | inr (false, file) ↦
      let same : ok q ≡ ok p = sym (rw (file, in_directory) refl) ∙ e in
      inl (let is : p ≡ q = cc in is)
]

-- Of an absolute root of plain names, a default file with one plain name, and a file system whose
-- canonical paths are absolute and of plain names: the path that is opened for a request, whatever
-- path it has, begins with the names of the root, and has plain names only behind them, and a slash
-- at the end at most. Where symbolic links are not allowed, it is a canonical path, or that of the
-- default file in a directory whose path is canonical. What a link stands for is not stated.
pub resolve-IsInside :
    (config : Config) (fs : FileSystem) (root path p : FilePath) (d : Bytes)
    → GivesCanonical fs
    → IsRooted root
    → parse_path config.default_file ≡ record { absolute = false; names = d ∷ [] }
    → IsPlain d
    → resolve config fs root path ≡ ok p
    → IsInside root p × ((config.allow_symlinks ≡ true) ⊎ IsCanonical config fs p)
unfolding resolve
resolve-IsInside config fs root path p d canonical rooted default_is plain_default e =
    let normal = lexically_normal (append_path root path) in
    let (q, real, rest) = >>=-eq-ok (real_path config fs normal) _ e in
    let (q_absolute, clean) =
      real_path-IsClean config fs (append_path root path) q canonical
        (append_path-absolute root path rooted.absolute) real in
    elim (Bool-cases (path_starts_with (elements q) (elements root))) [
      | inr outside ↦ absurd (
          let bad : throw (response_error (response 400 [] [])) ≡ ok p =
            sym (rw outside refl) ∙ rest in
          cc)
      | inl inside ↦
          let (below, names) = names-below root q rooted.absolute q_absolute inside in
          let there : IsInside root q =
            (q_absolute, below, names, IsClean-drop root.names below (subst IsClean names clean)) in
          let served : in_directory config fs q ≡ ok p = sym (rw inside refl) ∙ rest in
          let which = in_directory-cases config fs q p served in
          (
            stands q p there which,
            elim (Bool-cases config.allow_symlinks) [
              | inl links ↦ inl links
              | inr no_links ↦ inr (
                path_string normal,
                q,
                real_path-canonical config fs normal q real no_links,
                which,
              )
            ],
          )
    ]
  where
    stands :
        (q p : FilePath)
        → IsInside root q
        → (p ≡ q)
          ⊎ ((fs.is_directory (path_string q) ≡ some true)
              × (p ≡ append_path q (parse_path config.default_file)))
        → IsInside root p
    stands q p there (inl same) = subst (IsInside root) (sym same) there
    stands q p there (inr (directory, same)) = subst (IsInside root) (sym same) (
        default-IsInside root q (parse_path config.default_file) d rooted default_is plain_default
          there)
