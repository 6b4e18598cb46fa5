-- ===== src/StaticContent/Serving.antt =====
-- What a session serves.
use getodac.Common.Bytes.{Bytes}
use getodac.Common.{ℕ, ◌≡◌, refl, ap, Bool, [], none, some, length, ◌⊎◌, inl, inr, if◌then◌else◌}
use getodac.Exceptions.{Result, ok, throw, Result-cases}
use getodac.StaticContent.{
  Config, FileSystem, FileMap, Cache, resolve, answer, file_response, Written,
  static_content_session,
}
use getodac.StaticContent.Paths.{FilePath, path_string}
use getodac.Http.Response.{response, set_content_length}
use getodac.Utils.LruCache.Cleaning.{Agrees}
use getodac.Utils.LruCache.Refinement.{entries}
use getodac.StaticContent.Files.{IsStored, IsCoherent, Found, cached_file_lem, in_order}

module _ (written : Bytes → ℕ → Bytes) where
  -- What a session writes, or why it writes nothing.
  abbrev pub Serves :
      Config
      → FileSystem
      → (root path : FilePath) → Bool
      → Result (Unit {0})
      → Result Written
      → Type 0
  Serves config fs root path head arrived (ok (res, body)) =
      (p : FilePath) × (t : ℕ) × (resolve config fs root path ≡ ok p)
      × (fs.last_write_time (path_string p) ≡ some t)
      × (res.status_code ≡ 200)
      × (res.content_length ≡ length (written (path_string p) t))
      × (body ≡ (if head then [] else written (path_string p) t))
  Serves config fs root path head arrived (throw e) =
      (arrived ≡ throw e)
      ⊎ ((resolve config fs root path ≡ throw e)
          ⊎ ((p : FilePath) × (resolve config fs root path ≡ ok p)
              × ((fs.last_write_time (path_string p) ≡ none)
                  ⊎ (fs.content (path_string p) ≡ none))))

  answers :
      (config : Config) (fs : FileSystem) (root path p : FilePath) (head : Bool) (c : Cache)
      (r : Result FileMap)
      → resolve config fs root path ≡ ok p
      → Found written fs (path_string p) c r
      → Serves config fs root path head (ok tt) (answer config p head r)
  unfolding answer file_response set_content_length response
  answers config fs root path p head c (throw e) found (inv, coherent, why, _) =
      inr (inr (p, found, why))
  answers config fs root path p head c (ok f) found (inv, coherent, time, right) = (
    p,
    f.last_write_time,
    found,
    time,
    refl,
    ap length right,
    ap (λ s. if head then [] else s) right,
  )

  -- If the file system keeps the content of the last write, the list and the hash table of the
  -- cache agree, and what is cached has been the content at its time, a session keeps both so. It
  -- writes the content that the file of its path has now, with the status 200 and the length of
  -- the content, or for a HEAD request only that response. Otherwise the request has not arrived,
  -- the path has been refused, or the file cannot be read.
  pub static_content_session_lem :
      (config : Config) (fs : FileSystem) (root path : FilePath) (head : Bool)
      (arrived : Result (Unit {0})) (c : Cache)
      → IsStored written fs
      → Agrees c
      → IsCoherent written (entries c)
      → (c' : Cache) × (r : Result Written) × (static_content_session config fs root path head
            arrived c
          ≡ some (c', r))
        × Agrees c'
        × IsCoherent written (entries c')
        × Serves config fs root path head arrived r
  unfolding static_content_session
  static_content_session_lem config fs root path head (throw e) c stored inv coherent =
      (c, throw e, refl, inv, coherent, inl refl)
  static_content_session_lem config fs root path head (ok tt) c stored inv coherent =
      elim (Result-cases (resolve config fs root path)) [
        | inr (e, refused) ↦ (
          c,
          throw e,
          rw (refused, static_content_session) refl,
          inv,
          coherent,
          inr (inl refused),
        )
        | inl (p, found) ↦
            let (c', r, looked, file) =
              cached_file_lem written fs (path_string p) c stored inv coherent in
            let (inv', coherent') = in_order written fs (path_string p) c' r file in
            (
              c',
              answer config p head r,
              rw (found, looked, static_content_session) refl,
              inv',
              coherent',
              answers config fs root path p head c' r found file,
            )
      ]
