-- ===== src/Text/Patterns.antt =====
-- The regular expressions of src/replay/divergence.ts, which all ignore case: a small pattern language,
-- matched with backtracking. The flag `i` without `u` folds the case of ASCII letters only.
pub mod FirstWord
use cognivox_record.Prelude.{
  ℕ, ◌-◌, Bool, true, false, not, ◌&&◌, ◌||◌, List, [], ◌∷◌, ◌++◌, Option, none, some, leb, ◌==◌,
  if◌then◌else◌,
}
use cognivox_record.Text.Utf8.{Text}
use cognivox_record.Text.Words.{is_space}

pub data Pattern : Type 0 where
  -- A literal in upper case.
  literal : Text → Pattern
  -- `\s*` and `\s+`.
  any_spaces some_spaces : Pattern
  -- `\b`
  boundary : Pattern
  -- `p?`, `p|q` and `pq`.
  maybe : Pattern → Pattern
  either both : Pattern → Pattern → Pattern

-- `t|u|...`
abbrev pub one_of : Text → List Text → Pattern
one_of t [] = literal t
one_of t (u ∷ us) = either (literal t) (one_of u us)

-- A position: whether the code point before it is a word's, and the text from there on.
abbrev pub Point : Type 0
Point = Bool × Text

abbrev is_letter : ℕ → Bool
is_letter c = (leb b'A' c && leb c b'Z') || (leb b'a' c && leb c b'z') || c == b'_'

abbrev is_digit : ℕ → Bool
is_digit c = leb b'0' c && leb c b'9'

-- `\w`
abbrev pub is_word : ℕ → Bool
is_word c = is_letter c || is_digit c

abbrev pub fold_case : ℕ → ℕ
fold_case c = if leb b'a' c && leb c b'z' then c - 32 else c

next_is_word : Text → Bool
next_is_word [] = false
next_is_word (c ∷ t) = is_word c

match_literal : Text → Point → List Point
match_literal [] p = p ∷ []
match_literal (d ∷ l) (w, []) = []
match_literal (d ∷ l) (w, c ∷ t) =
    let rest = match_literal l (is_word c, t) in if fold_case c == d then rest else []

-- The longest match comes first.
match_spaces : Bool → Text → List Point
match_spaces w [] = (w, []) ∷ []
match_spaces w (c ∷ t) =
    let rest = match_spaces false t in
    if is_space c then rest ++ ((w, c ∷ t) ∷ []) else (w, c ∷ t) ∷ []

match_some_spaces : Text → List Point
match_some_spaces [] = []
match_some_spaces (c ∷ t) = if is_space c then match_spaces false t else []

-- The end points of the matches from each of several points, in order.
from_all : (Point → List Point) → List Point → List Point
from_all f [] = []
from_all f (p ∷ ps) = f p ++ from_all f ps

-- Where a match that starts at a point can end, in the order in which they are tried.
unfoldable pub match : Pattern → Point → List Point
unfolding next_is_word match_literal match_spaces match_some_spaces from_all is_space
match (literal l) p = match_literal l p
match any_spaces (w, t) = match_spaces w t
match some_spaces (w, t) = match_some_spaces t
match boundary (w, t) =
    if (w && not (next_is_word t)) || (not w && next_is_word t) then (w, t) ∷ [] else []
match (maybe p) x = match p x ++ (x ∷ [])
match (either p q) x = match p x ++ match q x
match (both p q) x = from_all (match q) (match p x)

is_some_point : List Point → Bool
is_some_point [] = false
is_some_point (p ∷ ps) = true

-- Whether the pattern matches at the start (`^`).
unfoldable pub test_start : Pattern → Text → Bool
unfolding is_some_point
test_start p t = is_some_point (match p (false, t))

test_from : Pattern → Bool → Text → Bool
unfolding is_some_point
test_from p w [] = is_some_point (match p (w, []))
test_from p w (c ∷ t) = is_some_point (match p (w, c ∷ t)) || test_from p (is_word c) t

-- `pattern.test(text)`
unfoldable pub test : Pattern → Text → Bool
unfolding test_from
test p t = test_from p false t

-- `[A-Za-z0-9_.$]*`
name_tail : Text → Text
name_tail [] = []
name_tail (c ∷ t) =
    let rest = name_tail t in if is_word c || c == b'.' || c == b'$' then c ∷ rest else []

name_at : Text → Option Text
name_at [] = none
name_at (c ∷ t) = if is_letter c then some (c ∷ name_tail t) else none

first_name : List Point → Option Text
first_name [] = none
first_name ((w, t) ∷ ps) = elim (name_at t) [ some n ↦ some n | none ↦ first_name ps ]

capture_from : Pattern → Bool → Text → Option Text
capture_from p w [] = first_name (match p (w, []))
capture_from p w (c ∷ t) = elim (first_name (match p (w, c ∷ t))) [
  | some n ↦ some n
  | none ↦ capture_from p (is_word c) t
]

-- The name that follows the first match of the pattern: `/p([A-Za-z_][A-Za-z0-9_.$]*)/`.
unfoldable pub capture_name : Pattern → Text → Option Text
unfolding capture_from first_name name_at name_tail
capture_name p t = capture_from p false t
