-- ===== src/Paths.antt =====
-- `pathlib.PurePosixPath` and the string methods that the worker uses on dataset paths, as CPython
-- 3.12 has them. `lower` is that of ASCII letters.
pub mod Suffix
pub mod Names
use krmed_cloud_services.Base.{
  Text, ℕ, ◌+◌, ◌≡◌, Bool, true, false, ◌&&◌, ◌||◌, not, Option, none, some, List, [], ◌∷◌, ◌++◌,
  map, reverse, codes, text_eq, leb, ◌==◌, is_empty, if◌then◌else◌,
}

-- The text before the first separator, and the texts behind each: `text.split(separator)`.
unfoldable pub split : ℕ → Text → Text × List Text
split sep [] = ([], [])
split sep (c ∷ t) = let (p, ps) = split sep t in if c == sep then ([], p ∷ ps) else (c ∷ p, ps)

-- A part that `PurePosixPath` leaves out: an empty one, or a single dot.
unfoldable pub is_dropped : Text → Bool
is_dropped [] = true
is_dropped (c ∷ []) = c == b'.'
is_dropped (c ∷ d ∷ t) = false

-- The last part that counts, starting from the name found so far.
unfoldable pub last_part : Text → List Text → Text
unfolding is_dropped
last_part name [] = name
last_part name (p ∷ ps) = last_part (if is_dropped p then name else p) ps

-- `PurePosixPath(path).name`
unfoldable pub name_of : Text → Text
unfolding split last_part
name_of path = let (p, ps) = split b'/' path in last_part [] (p ∷ ps)

-- The text from its last dot on, if it has one.
unfoldable pub from_last_dot : Text → Option Text
from_last_dot [] = none
from_last_dot (c ∷ t) = elim (from_last_dot t) [
  | none ↦ if c == b'.' then some (c ∷ t) else none
  | some s ↦ some s
]

-- A dot and something behind it.
unfoldable pub or_empty : Option Text → Text
or_empty none = []
or_empty (some []) = []
or_empty (some (d ∷ [])) = []
or_empty (some (d ∷ c ∷ t)) = d ∷ c ∷ t

-- `i = name.rfind('.')`; `name[i:] if 0 < i < len(name) - 1 else ''`
unfoldable pub suffix_of_name : Text → Text
unfolding from_last_dot or_empty
suffix_of_name [] = []
suffix_of_name (c ∷ t) = or_empty (from_last_dot t)

-- `PurePosixPath(path).suffix`
unfoldable pub suffix : Text → Text
unfolding name_of suffix_of_name
suffix path = suffix_of_name (name_of path)

unfoldable pub lower_char : ℕ → ℕ
lower_char c = if leb b'A' c && leb c b'Z' then c + 32 else c

-- `text.lower()`
unfoldable pub lower : Text → Text
unfolding lower_char
lower t = map lower_char t

-- `text.lstrip(c)`
unfoldable pub lstrip : ℕ → Text → Text
lstrip c [] = []
lstrip c (x ∷ t) = elim (x == c) [ true ↦ lstrip c t | false ↦ x ∷ t ]

-- `text.rstrip(c)`
unfoldable pub rstrip : ℕ → Text → Text
unfolding lstrip
rstrip c t = reverse (lstrip c (reverse t))
