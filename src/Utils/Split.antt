-- ===== src/Utils/Split.antt =====
-- include/dracon/utils.h: `split`.
pub mod Parts
pub mod Search
use getodac.Common.Bytes.{Bytes}
use getodac.Common.{
  ℕ, zero, suc, ◌-◌, ◌^◌, true, false, List, [], ◌∷◌, Option, none, some, ◌==◌, if◌then◌else◌,
  length, take, drop,
}

-- `std::string_view::npos`
abbrev pub npos : ℕ
npos = 2 ^ 64 - 1

-- `str.find(ch, pos)`, counted from `pos`.
unfoldable pub find_char : ℕ → Bytes → Option ℕ
find_char ch [] = none
find_char ch (c ∷ s) =
    if c == ch then some 0 else elim (find_char ch s) [ none ↦ none | some n ↦ some (suc n) ]

-- What follows the loop: `if (pos < str.size()) ret.emplace_back(str.substr(pos))`.
unfoldable pub last_part : Bytes → List Bytes
last_part [] = []
last_part (c ∷ s) = (c ∷ s) ∷ []

-- `if (pos != nextPos) ret.emplace_back(...)`: empty strings are ignored.
unfoldable pub keep_part : Bytes → List Bytes → List Bytes
keep_part [] ret = ret
keep_part (c ∷ s) ret = (c ∷ s) ∷ ret

-- The loop, from `pos` on: `s` is `str` from there. One unit of fuel for each separator that is
-- passed, and `length str` are enough.
unfoldable pub split_loop : ℕ → ℕ → Bytes → ℕ → List Bytes
split_loop zero ch s count = last_part s
split_loop (suc fuel) ch s count = elim (find_char ch s) [
  | none ↦ last_part s
  | some n ↦ elim (count == 0) [
    | true ↦ last_part s
    | false ↦ keep_part (take n s) (split_loop fuel ch (drop (suc n) s) (count - 1))
  ]
]

unfoldable pub split : Bytes → ℕ → ℕ → List Bytes
unfolding split_loop last_part keep_part find_char
split str ch count = if length str == 0 then [] else split_loop (length str) ch str count
