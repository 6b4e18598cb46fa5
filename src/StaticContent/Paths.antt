-- ===== src/StaticContent/Paths.antt =====
-- What src/plugins/staticContent/static_content_plugin.cpp uses of std::filesystem::path, on a
-- system with POSIX paths: the elements of a path, operator /, lexically_normal, extension and
-- string. An empty name at the end stands for a slash at the end.
pub mod Normal
pub mod Walks
use getodac.Common.Bytes.{Bytes, codes, bytes_eq}
use getodac.Common.{
  ℕ, Bool, true, false, not, ◌&&◌, List, [], ◌∷◌, ◌++◌, reverse, foldl, ◌==◌, if◌then◌else◌,
}

pub record FilePath : Type 0 where
  pub absolute : Bool
  pub names : List Bytes

-- The names of a text: `name` is what has been read of one, `slash` whether it is behind another.
unfoldable pub parse_names : Bytes → Bool → Bytes → List Bytes
parse_names [] slash [] = if slash then [] ∷ [] else []
parse_names (c ∷ name) slash [] = (c ∷ name) ∷ []
parse_names [] slash (c ∷ s) = elim (c == b'/') [
  | true ↦ parse_names [] slash s
  | false ↦ parse_names (c ∷ []) slash s
]
parse_names (b ∷ name) slash (c ∷ s) = elim (c == b'/') [
  | true ↦ (b ∷ name) ∷ parse_names [] true s
  | false ↦ parse_names (b ∷ name ++ c ∷ []) slash s
]

unfoldable pub parse_path : Bytes → FilePath
unfolding parse_names
parse_path [] = record { absolute = false; names = [] }
parse_path (c ∷ s) = record { absolute = c == b'/'; names = parse_names [] false (c ∷ s) }

-- The elements that an iteration gives.
unfoldable pub elements : FilePath → List Bytes
elements p = if p.absolute then codes "/" ∷ p.names else p.names

unfoldable pub join_names : List Bytes → List Bytes → List Bytes
join_names [] qs = qs
join_names ([] ∷ []) [] = [] ∷ []
join_names ([] ∷ []) (q ∷ qs) = q ∷ qs
join_names ((c ∷ n) ∷ []) [] = (c ∷ n) ∷ [] ∷ []
join_names ((c ∷ n) ∷ []) (q ∷ qs) = (c ∷ n) ∷ q ∷ qs
join_names (n ∷ m ∷ ns) qs = n ∷ join_names (m ∷ ns) qs

-- `p / q`
unfoldable pub append_path : FilePath → FilePath → FilePath
unfolding join_names
append_path p q = if q.absolute then q else record p { names = join_names p.names q.names }

pub data NameKind : Type 0 where
  no_name dot dot_dot plain : NameKind

unfoldable pub kind_of : Bytes → NameKind
kind_of [] = no_name
kind_of (a ∷ []) = if a == b'.' then dot else plain
kind_of (a ∷ b ∷ []) = if (a == b'.') && (b == b'.') then dot_dot else plain
kind_of (a ∷ b ∷ c ∷ s) = plain

unfoldable pub is_empty : List Bytes → Bool
is_empty [] = true
is_empty (n ∷ ns) = false

-- The names that `lexically_normal` has so far, the last one first, and whether a slash follows.
pub record Normalized : Type 0 where
  pub stack : List Bytes
  pub slash : Bool

unfoldable pub go_back : Bool → Bytes → List Bytes → Normalized
unfolding kind_of is_empty
go_back absolute n [] = record { stack = if absolute then [] else n ∷ []; slash = false }
go_back absolute n (m ∷ stack) = elim (kind_of m) [
  | dot_dot ↦ record { stack = n ∷ m ∷ stack; slash = false }
  | no_name ↦ record { stack = stack; slash = not (is_empty stack) }
  | dot ↦ record { stack = stack; slash = not (is_empty stack) }
  | plain ↦ record { stack = stack; slash = not (is_empty stack) }
]

unfoldable pub place : Bool → Normalized → Bytes → Normalized
unfolding kind_of go_back is_empty
place absolute p n = elim (kind_of n) [
  | no_name ↦ record p { slash = not (is_empty p.stack) }
  | dot ↦ record p { slash = not (is_empty p.stack) }
  | dot_dot ↦ go_back absolute n p.stack
  | plain ↦ record { stack = n ∷ p.stack; slash = false }
]

-- No slash stands behind `..` at the end.
unfoldable pub end_slash : Normalized → List Bytes
unfolding kind_of
end_slash p = elim p.stack [
  | [] ↦ []
  | n ∷ _ ↦ elim (kind_of n) [
    | dot_dot ↦ []
    | no_name ↦ if p.slash then [] ∷ [] else []
    | dot ↦ if p.slash then [] ∷ [] else []
    | plain ↦ if p.slash then [] ∷ [] else []
  ]
]

unfoldable pub or_dot : Bool → List Bytes → List Bytes
or_dot absolute [] = if absolute then [] else codes "." ∷ []
or_dot absolute (n ∷ ns) = n ∷ ns

unfoldable pub lexically_normal : FilePath → FilePath
unfolding place end_slash or_dot is_empty
lexically_normal p =
    let q = foldl (place p.absolute) (record { stack = []; slash = false }) p.names in
    if is_empty p.names
    then p
    else record p { names = or_dot p.absolute (reverse q.stack ++ end_slash q) }

unfoldable pub names_string : List Bytes → Bytes
names_string [] = []
names_string (n ∷ []) = n
names_string (n ∷ m ∷ ns) = n ++ codes "/" ++ names_string (m ∷ ns)

unfoldable pub path_string : FilePath → Bytes
unfolding names_string
path_string p = (if p.absolute then codes "/" else []) ++ names_string p.names
