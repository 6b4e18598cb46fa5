-- ===== src/StaticContent/Files.antt =====
-- The content that is served, and the cache of files.
use getodac.Common.Bytes.{Bytes, bytes_eq, bytes_eq_iff}
use getodac.Common.Maps.{find, erase, find-erase}
use getodac.Common.{
  ℕ, zero, suc, ◌≡◌, ◌∙◌, refl, sym, ap, subst, List, [], ◌∷◌, Option, none, some, ◌==◌, take, ◌⊎◌,
  inl, inr, Bool-cases, Option-cases, arith,
}
use getodac.Exceptions.{Result, ok, throw}
use getodac.StaticContent.{FileSystem, FileMap, Cache, fs_error, up_to_date, map_file, cached_file}
use getodac.Utils.LruCache.Cleaning.{Agrees}
use getodac.Utils.LruCache.Refinement.{entries, put_lem, value_lem}
use getodac.Utils.LruCache.{value}

-- `written k t` is the content of the file `k` when its last write was at `t`.
module _ (written : Bytes → ℕ → Bytes) where
  -- A file that can be read has the content of its last write.
  abbrev pub IsStored : FileSystem → Type 0
  IsStored fs =
      (k : Bytes) (t : ℕ) (s : Bytes)
      → fs.last_write_time k ≡ some t
      → fs.content k ≡ some s
      → s ≡ written k t

  -- What is cached has been the content at its time.
  abbrev pub IsCoherent : List (Bytes × Option FileMap) → Type 0
  IsCoherent entries =
      (k : Bytes) (f : FileMap)
      → find k entries ≡ some (some f)
      → f.content ≡ written k f.last_write_time

  IsCoherent-front :
      (k : Bytes) (v : Option FileMap) (es : List (Bytes × Option FileMap))
      → ((f : FileMap) → v ≡ some f → f.content ≡ written k f.last_write_time)
      → IsCoherent es
      → IsCoherent ((k, v) ∷ erase k es)
  unfolding find
  IsCoherent-front k v es new old j f h = elim (Bool-cases (bytes_eq k j)) [
    | inl same ↦
        let here : some v ≡ some (some f) = sym (rw (same, find) refl) ∙ h in
        let is : v ≡ some f = cc in
        subst (λ i. f.content ≡ written i f.last_write_time) ((bytes_eq_iff k j).0 same) (new f is)
    | inr other ↦
        let there : find j (erase k es) ≡ some (some f) = sym (rw (other, find) refl) ∙ h in
        old j f (sym (find-erase k j es ∙ rw other refl) ∙ there)
  ]

  find-take :
      (n : ℕ) (k : Bytes) (es : List (Bytes × Option FileMap)) (v : Option FileMap)
      → find k (take n es) ≡ some v
      → find k es ≡ some v
  unfolding find
  find-take zero k es v h = absurd cc
  find-take (suc n) k [] v h = h
  find-take (suc n) k ((j, w) ∷ es) v h = elim (Bool-cases (bytes_eq j k)) [
    | inl same ↦ rw (same, find) (sym (rw (same, find) refl) ∙ h)
    | inr other ↦ rw (other, find) (find-take n k es v (sym (rw (other, find) refl) ∙ h))
  ]

  -- What a lookup of a file gives: a cache that is in order, and the file as it is, or an error
  -- of the file system.
  abbrev pub Found : FileSystem → Bytes → Cache → Result FileMap → Type 0
  Found fs name c (ok f) =
      Agrees c
      × IsCoherent (entries c)
      × (fs.last_write_time name ≡ some f.last_write_time)
      × (f.content ≡ written name f.last_write_time)
  Found fs name c (throw e) =
      Agrees c
      × IsCoherent (entries c)
      × ((fs.last_write_time name ≡ none) ⊎ (fs.content name ≡ none))
      × (e ≡ fs_error)

  map_file_lem :
      (fs : FileSystem) (name : Bytes) (t : ℕ) (c : Cache)
      → IsStored fs
      → Agrees c
      → IsCoherent (entries c)
      → fs.last_write_time name ≡ some t
      → (c' : Cache) × (r : Result FileMap) × (map_file fs name t c ≡ some (c', r))
        × Found fs name c' r
  unfolding map_file
  map_file_lem fs name t c stored inv coherent time = elim (Option-cases (fs.content name)) [
    | inl failed ↦
        (c, throw fs_error, rw (failed, map_file) refl, (inv, coherent, inr failed, refl))
    | inr (s, read) ↦
        let file : FileMap = record { content = s; last_write_time = t } in
        let (c', done, inv', all, _) = put_lem name (some file) c inv in
        let new : s ≡ written name t = stored name t s time read in
        let front =
          IsCoherent-front name (some file) (entries c)
            (λ f e.
              subst (λ g. g.content ≡ written name g.last_write_time) (let is : file ≡ f = cc in is)
                new)
            coherent in
        (
          c',
          ok file,
          rw (read, done, map_file) refl,
          (
            inv',
            (λ j f h. front j f (
                find-take c.cache_size j ((name, some file) ∷ erase name (entries c)) (some f)
                  (sym (ap (find j) all) ∙ h))),
            time,
            new,
          ),
        )
  ]

  up_to_date-eq :
      (v : Option FileMap) (t : ℕ) (f : FileMap)
      → up_to_date v t ≡ some f
      → (v ≡ some f) × (f.last_write_time ≡ t)
  unfolding up_to_date
  up_to_date-eq none t f h = absurd cc
  up_to_date-eq (some g) t f h = elim (Bool-cases (g.last_write_time == t)) [
    | inl same ↦
        let kept : some g ≡ some f = sym (rw same refl) ∙ h in
        let is : g ≡ f = cc in
        let at : g.last_write_time ≡ t = ground arith in
        (ap some is, subst (λ x. x.last_write_time ≡ t) is at)
    | inr other ↦ absurd (let bad : none ≡ some f = sym (rw other refl) ∙ h in cc)
  ]

  after_value :
      (fs : FileSystem) (name : Bytes) (c c' : Cache) (v : Option FileMap)
      → IsStored fs
      → Agrees c'
      → IsCoherent (entries c')
      → ((f : FileMap) → v ≡ some f → f.content ≡ written name f.last_write_time)
      → value none name c ≡ some (c', v)
      → (c'' : Cache) × (r : Result FileMap) × (cached_file fs name c ≡ some (c'', r))
        × Found fs name c'' r
  unfolding cached_file up_to_date
  after_value fs name c c' v stored inv coherent right looked =
      elim (Option-cases (fs.last_write_time name)) [
        | inl failed ↦ (
          c',
          throw fs_error,
          rw (looked, failed, cached_file) refl,
          (inv, coherent, inl failed, refl),
        )
        | inr (t, time) ↦
            let (c'', r, mapped, found) = map_file_lem fs name t c' stored inv coherent time in
            elim (Option-cases (up_to_date v t)) [
              | inl old ↦ (c'', r, rw (looked, time, old, cached_file) mapped, found)
              | inr (f, new) ↦
                  let (is, at) = up_to_date-eq v t f new in
                  (
                    c',
                    ok f,
                    rw (looked, time, new, cached_file) refl,
                    (inv, coherent, time ∙ ap some (sym at), right f is),
                  )
            ]
      ]

  -- If the file system keeps the content of the last write, a lookup of a file leaves the list and
  -- the hash table of the cache in agreement and what is cached true, and gives the content that
  -- the file has now, cached or not, or the file cannot be read.
  pub cached_file_lem :
      (fs : FileSystem) (name : Bytes) (c : Cache)
      → IsStored fs
      → Agrees c
      → IsCoherent (entries c)
      → (c' : Cache) × (r : Result FileMap) × (cached_file fs name c ≡ some (c', r))
        × Found fs name c' r
  cached_file_lem fs name c stored inv coherent = elim (value_lem none name c inv) [
    | inl (absent, looked) ↦
        after_value fs name c c none stored inv coherent (λ f e. absurd cc) looked
    | inr (v, c', there, looked, inv', all) ↦
        let right : (f : FileMap) → v ≡ some f → f.content ≡ written name f.last_write_time =
          λ f e. coherent name f (there ∙ ap some e) in
        after_value fs name c c' v stored inv'
          (subst IsCoherent (sym all) (IsCoherent-front name v (entries c) right coherent)) right
          looked
  ]

  pub in_order :
      (fs : FileSystem) (name : Bytes) (c : Cache) (r : Result FileMap)
      → Found fs name c r
      → Agrees c × IsCoherent (entries c)
  in_order fs name c (ok f) (inv, coherent, _, _) = (inv, coherent)
  in_order fs name c (throw e) (inv, coherent, _, _) = (inv, coherent)
