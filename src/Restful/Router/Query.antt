-- ===== src/Restful/Router/Query.antt =====
-- A written query string is read back.
use getodac.Common.Bytes.{Bytes}
use getodac.Common.{
  ℕ, suc, ◌≤◌, ◌≡◌, ◌≢◌, ◌∙◌, refl, sym, ap, List, [], ◌∷◌, ◌++◌, length, drop, arith, All,
  length-append, take-length_append,
}
use mathlib.Core.List.{append-nil}
use getodac.Exceptions.{ok}
use getodac.Restful.Route.{QueryStrings}
use getodac.Restful.Router.{query_pair, query_pairs, url_path, parse_query}
use getodac.Utils.Split.Parts.{IsPart, join}
use getodac.Utils.Split.Search.{find_char-absent, find_char-first, split-append_join}
use getodac.Utils.Split.{npos, split}
use getodac.Utils.Url.Decoding.{Encodes, unescape_url_iff}

-- The text of a key and a value between two ampersands.
pub data WritesPair : Bytes → Bytes × Bytes → Type 0 where
  key_value :
      (k v key value : Bytes)
      → IsPart b'=' k
      → IsPart b'=' v
      → Encodes k key
      → Encodes v value
      → WritesPair (k ++ b'=' ∷ v) (key, value)
  key_only : (k key : Bytes) → IsPart b'=' k → Encodes k key → WritesPair k (key, [])

-- The texts of the pairs.
pub data WritesPairs : List Bytes → QueryStrings → Type 0 where
  end : WritesPairs [] []
  pair :
      {kvs : List Bytes} {query : QueryStrings} (kv : Bytes) (p : Bytes × Bytes)
      → WritesPair kv p
      → WritesPairs kvs query
      → WritesPairs (kv ∷ kvs) (p ∷ query)

-- What stands behind the path of a URL: nothing, or a question mark and pairs between ampersands.
pub data WritesQuery : Bytes → QueryStrings → Type 0 where
  absent : WritesQuery [] []
  present :
      {kvs : List Bytes} {query : QueryStrings} (kv : Bytes)
      → IsPart b'&' kv
      → All (IsPart b'&') kvs
      → WritesPairs (kv ∷ kvs) query
      → WritesQuery (b'?' ∷ kv ++ join b'&' kvs) query

split_pair :
    (k v : Bytes)
    → IsPart b'=' k
    → IsPart b'=' v
    → length (k ++ b'=' ∷ v) ≤ npos
    → split (k ++ b'=' ∷ v) b'=' npos ≡ k ∷ v ∷ []
split_pair k v h g n =
    let e : k ++ join b'=' (v ∷ []) ≡ k ++ b'=' ∷ v = ap (λ t. k ++ b'=' ∷ t) (append-nil v) in
    ap (λ t. split t b'=' npos) (sym e) ∙ split-append_join b'=' k (v ∷ []) h (g, tt) (rw e n)

query_pair-WritesPair :
    {kv : Bytes} {p : Bytes × Bytes}
    → WritesPair kv p
    → length kv ≤ npos
    → query_pair (split kv b'=' npos) ≡ ok p
unfolding query_pair
query_pair-WritesPair (key_value k v key value h g x y) n =
    rw (split_pair k v h g n, (unescape_url_iff k key).1 x, (unescape_url_iff v value).1 y) refl
query_pair-WritesPair (key_only k key h x) n =
    let alone = split-append_join b'=' k [] h tt (rw append-nil n) in
    rw ((rw append-nil at alone), (unescape_url_iff k key).1 x) refl

query_pairs-WritesPairs :
    {kvs : List Bytes} {query : QueryStrings}
    → WritesPairs kvs query
    → All (λ kv. length kv ≤ npos) kvs
    → query_pairs kvs ≡ ok query
unfolding query_pairs
query_pairs-WritesPairs end h = refl
query_pairs-WritesPairs (pair kv p w ws) (n, h) =
    rw (query_pair-WritesPair w n, query_pairs-WritesPairs ws h) refl

length-join : (ch n : ℕ) (ps : List Bytes) → length (join ch ps) ≤ n → All (λ p. length p ≤ n) ps
length-join ch n [] h = tt
length-join ch n (p ∷ ps) h = (
  omega (arith, length-append p (join ch ps)),
  length-join ch n ps (omega (arith, length-append p (join ch ps))),
)

drop-suc : (p : Bytes) (c : ℕ) (s : Bytes) → drop (suc (length p)) (p ++ c ∷ s) ≡ s
drop-suc [] c s = refl
drop-suc (d ∷ p) c s = drop-suc p c s

-- A URL that fits in memory and is made of a path without a question mark and a written query is
-- cut at the question mark, and the query is read back: each key
-- and value decoded, in order.
pub parse_query-WritesQuery :
    (path : Bytes) {suffix : Bytes} {query : QueryStrings}
    → All (λ c. c ≢ b'?') path
    → WritesQuery suffix query
    → length (path ++ suffix) ≤ npos
    → (url_path (path ++ suffix) ≡ path) × (parse_query (path ++ suffix) ≡ ok query)
unfolding url_path parse_query
parse_query-WritesQuery path h absent n =
    rw (append-nil, find_char-absent b'?' path h, url_path, parse_query) (append-nil path, refl)
parse_query-WritesQuery path {query} h (present {kvs} kv p ps ws) n =
    let text = kv ++ join b'&' kvs in
    let short : length text ≤ npos = omega (arith, length-append path (b'?' ∷ text)) in
    let parts = split-append_join b'&' kv kvs p ps short in
    let read = query_pairs-WritesPairs ws (
      omega (arith, length-append kv (join b'&' kvs)),
      length-join b'&' npos kvs (omega (arith, length-append kv (join b'&' kvs))),
    ) in
    rw (find_char-first b'?' path text h, url_path, parse_query)
      (take-length_append path (b'?' ∷ text), rw (drop-suc path b'?' text, parts) read)
