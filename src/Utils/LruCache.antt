-- ===== src/Utils/LruCache.antt =====
-- include/dracon/utils.h, class LruCache, at keys that are strings, as the static content plugin
-- has them. A node of `m_cacheItems` has an identity, which is what an iterator refers to; `none`
-- is a use of an iterator that refers to no node.
pub mod Agreement
mod Tests
pub mod Cleaning
pub mod Refinement
use getodac.Common.Bytes.{Bytes, codes}
use getodac.Exceptions.{Result, ok, throw, std_exception}
use getodac.Common.Maps.{find, assign, erase}
use getodac.Common.{
  ℕ, zero, suc, ◌+◌, Bool, true, false, List, [], ◌∷◌, Option, none, some, ltb, ◌==◌, if◌then◌else◌,
  length,
}

pub record Node {ℓ} (V : Type ℓ) : Type ℓ where
  pub id : ℕ
  pub key : Bytes
  pub value : V

-- `next` is the identity of the next node.
pub record LruCache {ℓ} (V : Type ℓ) : Type ℓ where
  pub items : List (Node V)
  pub hash : List (Bytes × ℕ)
  pub cache_size : ℕ
  pub next : ℕ

module _ {ℓ} {V : Type ℓ} where
  -- The node that an iterator refers to.
  unfoldable pub node_at : ℕ → List (Node V) → Option (Node V)
  node_at it [] = none
  node_at it (n ∷ items) = if n.id == it then some n else node_at it items

  -- `m_cacheItems.erase(it)`
  unfoldable pub erase_node : ℕ → List (Node V) → List (Node V)
  erase_node it [] = []
  erase_node it (n ∷ items) = if n.id == it then items else n ∷ erase_node it items

  -- `m_cacheItems.rbegin()`, and what `pop_back()` leaves.
  unfoldable pub last_node : List (Node V) → Option (Node V)
  last_node [] = none
  last_node (n ∷ []) = some n
  last_node (n ∷ m ∷ items) = last_node (m ∷ items)

  unfoldable pub pop_back : List (Node V) → List (Node V)
  pop_back [] = []
  pop_back (n ∷ []) = []
  pop_back (n ∷ m ∷ items) = n ∷ pop_back (m ∷ items)

  -- The loop of `cleanCache`. Each round takes a node off, so that the number of nodes is enough
  -- fuel; without a node `rbegin()` is not valid.
  unfoldable pub clean_cache : ℕ → LruCache V → Option (LruCache V)
  clean_cache zero c = if ltb c.cache_size (length c.hash) then none else some c
  clean_cache (suc fuel) c = elim (ltb c.cache_size (length c.hash)) [
    | false ↦ some c
    | true ↦ elim (last_node c.items) [
      | none ↦ none
      | some n ↦ clean_cache fuel (record c { items = pop_back c.items; hash = erase n.key c.hash })
    ]
  ]

  -- `if (it != m_cacheHash.end()) m_cacheItems.erase(it->second)`
  unfoldable pub drop_old : Bytes → LruCache V → List (Node V)
  drop_old key c = elim (find key c.hash) [ none ↦ c.items | some it ↦ erase_node it c.items ]

  unfoldable pub put : Bytes → V → LruCache V → Option (LruCache V)
  unfolding clean_cache drop_old
  put key value c =
      let items = record { id = c.next; key = key; value = value } ∷ drop_old key c in
      clean_cache (length items)
        (record c { items = items; hash = assign key c.next c.hash; next = c.next + 1 })

  -- `splice` moves the node to the front, and the iterators stay valid.
  unfoldable pub splice_front : ℕ → LruCache V → Option (LruCache V × V)
  splice_front it c = elim (node_at it c.items) [
    | none ↦ none
    | some n ↦ some (record c { items = n ∷ erase_node it c.items }, n.value)
  ]

  -- `value`; `empty` is `V{}`.
  unfoldable pub value : V → Bytes → LruCache V → Option (LruCache V × V)
  unfolding splice_front
  value empty key c = elim (find key c.hash) [
    | none ↦ some (c, empty)
    | some it ↦ splice_front it c
  ]

  -- `reference`: the cache behind it, and the node that it refers to.
  unfoldable pub reference : Bytes → LruCache V → Option (Result (LruCache V × ℕ))
  unfolding splice_front
  reference key c = elim (find key c.hash) [
    | none ↦ some (throw (std_exception (codes "Invalid key")))
    | some it ↦ elim (splice_front it c) [ none ↦ none | some r ↦ some (ok (r.0, it)) ]
  ]

  -- An assignment to what a reference refers to.
  unfoldable pub assign_node : ℕ → V → List (Node V) → List (Node V)
  assign_node it v [] = []
  assign_node it v (n ∷ items) =
      let rest = assign_node it v items in
      if n.id == it then record n { value = v } ∷ items else n ∷ rest

  unfoldable pub size : LruCache V → ℕ
  size c = length c.hash

  unfoldable pub exists : Bytes → LruCache V → Bool
  exists key c = elim (find key c.hash) [ none ↦ false | some it ↦ true ]

  -- `cacheSize(size)`
  unfoldable pub set_cache_size : ℕ → LruCache V → Option (LruCache V)
  unfolding clean_cache
  set_cache_size size c = clean_cache (length c.items) (record c { cache_size = size })

  unfoldable pub clear : LruCache V → LruCache V
  clear c = record c { items = []; hash = [] }

  -- `erase(it)`
  unfoldable pub erase_iterator : ℕ → LruCache V → Option (LruCache V)
  erase_iterator it c = elim (node_at it c.items) [
    | none ↦ none
    | some n ↦ some (record c { items = erase_node it c.items; hash = erase n.key c.hash })
  ]
