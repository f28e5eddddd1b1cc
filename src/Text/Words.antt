-- ===== src/Text/Words.antt =====
-- The string methods that the program calls: `toUpperCase`, `trim`, `split(/\s+/)`,
-- `replace(/\s+/g, ' ')` and `join(' ')`.
use cognivox_record.Prelude.{
  ℕ, ◌+◌, ◌-◌, ◌≡◌, refl, Bool, true, false, ◌&&◌, ◌||◌, List, [], ◌∷◌, ◌++◌, arith, ltb, leb, ◌==◌,
  if◌then◌else◌,
}
use cognivox_record.Text.Utf8.{Text}

-- The code points that `\s` matches and `trim` removes.
unfoldable pub is_space : ℕ → Bool
is_space c =
    (leb 9 c && leb c 13)
    || c == 32
    || c == 0xa0
    || c == 0x1680
    || (leb 0x2000 c && leb c 0x200a)
    || c == 0x2028
    || c == 0x2029
    || c == 0x202f
    || c == 0x205f
    || c == 0x3000
    || c == 0xfeff

-- `toUpperCase` on ASCII; a letter beyond ASCII is left as it is here.
abbrev upper_point : ℕ → ℕ
upper_point c = if leb b'a' c && leb c b'z' then c - 32 else c

unfoldable pub to_upper : Text → Text
to_upper [] = []
to_upper (c ∷ t) = upper_point c ∷ to_upper t

pub to_upper_idem : (t : Text) → to_upper (to_upper t) ≡ to_upper t
unfolding to_upper
to_upper_idem [] = refl
to_upper_idem (c ∷ t) = ground (arith, to_upper_idem t)

trim_start : Text → Text
trim_start [] = []
trim_start (c ∷ t) = elim (is_space c) [ true ↦ trim_start t | false ↦ c ∷ t ]

keep_last : ℕ → Text → Text
keep_last c [] = if is_space c then [] else c ∷ []
keep_last c (d ∷ r) = c ∷ d ∷ r

-- The text without the spaces at its end.
trim_end : Text → Text
trim_end [] = []
trim_end (c ∷ t) = keep_last c (trim_end t)

unfoldable pub trim : Text → Text
unfolding trim_start trim_end keep_last is_space
trim t = trim_end (trim_start t)

-- `replace(/\s+/g, ' ')`: `inside` says that the last code point read was a space.
squeeze_from : Bool → Text → Text
squeeze_from inside [] = []
squeeze_from inside (c ∷ t) =
    let rest = squeeze_from (is_space c) t in
    if is_space c then (if inside then rest else 32 ∷ rest) else c ∷ rest

unfoldable pub squeeze : Text → Text
unfolding squeeze_from is_space
squeeze = squeeze_from false

-- `split(/\s+/)` of a text with no space at its ends.
add_point : ℕ → List Text → List Text
add_point c [] = (c ∷ []) ∷ []
add_point c (w ∷ ws) = (c ∷ w) ∷ ws

split_from : Bool → Text → List Text
unfolding add_point
split_from inside [] = [] ∷ []
split_from inside (c ∷ t) =
    let rest = split_from (is_space c) t in
    if is_space c then (if inside then rest else [] ∷ rest) else add_point c rest

unfoldable pub split_spaces : Text → List Text
unfolding split_from is_space
split_spaces = split_from false

-- `words.join(' ')`
unfoldable pub join : List Text → Text
join [] = []
join (w ∷ []) = w
join (w ∷ v ∷ ws) = w ++ (32 ∷ join (v ∷ ws))

-- `a === b` of two strings.
unfoldable pub equal : Text → Text → Bool
equal [] [] = true
equal (c ∷ s) (d ∷ t) = c == d && equal s t
equal _ _ = false

pub equal→eq : (s t : Text) → equal s t ≡ true → s ≡ t
unfolding equal
equal→eq [] [] h = refl
equal→eq [] (d ∷ t) h = cc
equal→eq (c ∷ s) [] h = cc
equal→eq (c ∷ s) (d ∷ t) h = ground (arith, equal→eq s t)

pub equal_refl : (s : Text) → equal s s ≡ true
unfolding equal
equal_refl [] = refl
equal_refl (c ∷ s) = ground (arith, equal_refl s)

-- The order of `sort()`: by the code units of UTF-16, in which the code points from U+10000 on
-- begin with a surrogate, and so stand before those from U+E000 on.
abbrev unit_rank : ℕ → ℕ
unit_rank c = if leb 0xe000 c && ltb c 0x10000 then c + 0x20_0000 else c

unfoldable pub text_le : Text → Text → Bool
text_le [] t = true
text_le (c ∷ s) [] = false
text_le (c ∷ s) (d ∷ t) =
    let rest = text_le s t in if c == d then rest else ltb (unit_rank c) (unit_rank d)

unfoldable pub insert_sorted : Text → List Text → List Text
insert_sorted t [] = t ∷ []
insert_sorted t (s ∷ ss) = if text_le t s then t ∷ s ∷ ss else s ∷ insert_sorted t ss

-- `[...set].sort()`
unfoldable pub sort : List Text → List Text
unfolding insert_sorted text_le
sort [] = []
sort (t ∷ ts) = insert_sorted t (sort ts)
