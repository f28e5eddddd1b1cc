-- ===== src/Text/Patterns/FirstWord.antt =====
-- What a pattern `^\s*(t|u|...)\b` means: the first word of the text is one of the words.
use cognivox_record.Prelude.{
  ℕ, ◌≤◌, ◌≡◌, refl, sym, ◌∙◌, ap, Bool, true, false, ◌||◌, List, [], ◌∷◌, ◌++◌, arith, ◌==◌, All,
  Bool-cases, inl, inr, if◌then◌else◌,
}
use cognivox_record.Text.Utf8.{Text}
use cognivox_record.Text.Words.{is_space, equal}
use cognivox_record.Dict.{contains}
use cognivox_record.Text.Patterns.{
  any_spaces, boundary, both, one_of, Point, is_word, fold_case, next_is_word, match_literal,
  match_spaces, from_all, match, is_some_point, test_start,
}

abbrev pub skip_spaces : Text → Text
skip_spaces [] = []
skip_spaces (c ∷ t) = let rest = skip_spaces t in if is_space c then rest else c ∷ t

-- The word characters at the front, in upper case.
abbrev pub word_of : Text → Text
word_of [] = []
word_of (c ∷ t) = let rest = word_of t in if is_word c then fold_case c ∷ rest else []

abbrev pub first_word : Text → Text
first_word t = word_of (skip_spaces t)

abbrev pub IsUpper : ℕ → Type 0
IsUpper d = (b'A' ≤ d) × (d ≤ b'Z')

abbrev pub IsKeyword : Text → Type 0
IsKeyword [] = ⊥
IsKeyword (d ∷ l) = IsUpper d × All IsUpper l

upper_is_word : (c d : ℕ) → IsUpper d → (fold_case c == d) ≡ true → is_word c ≡ true
upper_is_word c d h e = ground arith

space-not_word : (c : ℕ) → is_space c ≡ true → is_word c ≡ false
unfolding is_space
space-not_word c h = ground arith

eqb_sym : (m n : ℕ) → (m == n) ≡ (n == m)
eqb_sym m n = ground arith

-- Whether a word boundary follows any of the points.
abbrev ends_word : List Point → Bool
ends_word ps = is_some_point (from_all (match boundary) ps)

boundary_end : (t : Text) → ends_word ((true, t) ∷ []) ≡ equal [] (word_of t)
unfolding match equal is_some_point from_all next_is_word
boundary_end [] = refl
boundary_end (c ∷ t) = elim (Bool-cases (is_word c)) [ inl e ↦ rw e refl | inr e ↦ rw e refl ]

-- A keyword and the boundary behind it, if its other letters are such.
keyword_word :
    (d : ℕ) (l : Text) (w : Bool) (t : Text)
    → IsUpper d
    → ((u : Text) → ends_word (match_literal l (true, u)) ≡ equal l (word_of u))
    → ends_word (match_literal (d ∷ l) (w, t)) ≡ equal (d ∷ l) (word_of t)
unfolding equal match_literal from_all is_some_point
keyword_word d l w [] h rest = refl
keyword_word d l w (c ∷ t) h rest = elim (Bool-cases (fold_case c == d)) [
  | inl e ↦
      let word : is_word c ≡ true = upper_is_word c d h e in
      let same : (d == fold_case c) ≡ true = eqb_sym d (fold_case c) ∙ e in
      rw (e, word, same) (rest t)
  | inr e ↦
      let other : (d == fold_case c) ≡ false = eqb_sym d (fold_case c) ∙ e in
      elim (Bool-cases (is_word c)) [ inl v ↦ rw (e, v, other) refl | inr v ↦ rw (e, v) refl ]
]

letters_word :
    (l t : Text) → All IsUpper l → ends_word (match_literal l (true, t)) ≡ equal l (word_of t)
unfolding match_literal
letters_word [] t h = boundary_end t
letters_word (d ∷ l) t h = keyword_word d l true t h.0 (λ u. letters_word l u h.1)

literal_word :
    (l : Text) (p : Point) → IsKeyword l → ends_word (match_literal l p) ≡ equal l (word_of p.1)
literal_word [] p h = absurd h
literal_word (d ∷ l) (w, t) h = keyword_word d l w t h.0 (λ u. letters_word l u h.1)

or_assoc : (a b c : Bool) → (a || (b || c)) ≡ ((a || b) || c)
or_assoc true b c = refl
or_assoc false b c = refl

some-append :
    (xs ys : List Point) → is_some_point (xs ++ ys) ≡ (is_some_point xs || is_some_point ys)
unfolding is_some_point
some-append [] ys = refl
some-append (x ∷ xs) ys = refl

some-from_all :
    (f : Point → List Point) (xs ys : List Point)
    → is_some_point (from_all f (xs ++ ys))
      ≡ (is_some_point (from_all f xs) || is_some_point (from_all f ys))
unfolding from_all is_some_point
some-from_all f [] ys = refl
some-from_all f (x ∷ xs) ys =
    some-append (f x) (from_all f (xs ++ ys))
    ∙ ap (λ b. is_some_point (f x) || b) (some-from_all f xs ys)
    ∙ or_assoc (is_some_point (f x)) (is_some_point (from_all f xs)) (is_some_point (from_all f ys))
    ∙ ap (λ b. b || is_some_point (from_all f ys)) (sym (some-append (f x) (from_all f xs)))

or_false : (b : Bool) → b ≡ (b || false)
or_false true = refl
or_false false = refl

words_here :
    (l : Text) (ls : List Text) (p : Point)
    → All IsKeyword (l ∷ ls)
    → ends_word (match (one_of l ls) p) ≡ contains (word_of p.1) (l ∷ ls)
unfolding match contains
words_here l [] p h = literal_word l p h.0 ∙ or_false (equal l (word_of p.1))
words_here l (k ∷ ls) p h =
    some-from_all (match boundary) (match_literal l p) (match (one_of k ls) p)
    ∙ ap (λ b. b || ends_word (match (one_of k ls) p)) (literal_word l p h.0)
    ∙ ap (λ b. equal l (word_of p.1) || b) (words_here k ls p h.1)

no_word : (ls : List Text) → All IsKeyword ls → contains [] ls ≡ false
unfolding contains equal
no_word [] h = refl
no_word ([] ∷ ls) h = absurd h.0
no_word ((d ∷ l) ∷ ls) h = no_word ls h.1

single :
    (l : Text) (ls : List Text) (p : Point)
    → All IsKeyword (l ∷ ls)
    → is_some_point (from_all (match (both (one_of l ls) boundary)) (p ∷ []))
      ≡ contains (word_of p.1) (l ∷ ls)
unfolding match from_all is_some_point
single l ls p h =
    some-append (match (both (one_of l ls) boundary) p) []
    ∙ sym (or_false (is_some_point (match (both (one_of l ls) boundary) p)))
    ∙ words_here l ls p h

-- Behind the spaces; with fewer of them a space follows, and no word starts with one.
words_behind :
    (l : Text) (ls : List Text) (w : Bool) (t : Text)
    → All IsKeyword (l ∷ ls)
    → is_some_point (from_all (match (both (one_of l ls) boundary)) (match_spaces w t))
      ≡ contains (first_word t) (l ∷ ls)
unfolding match match_spaces from_all
words_behind l ls w [] h = single l ls (w, []) h
words_behind l ls w (c ∷ t) h = elim (Bool-cases (is_space c)) [
  | inl e ↦
      let space : contains (word_of (c ∷ t)) (l ∷ ls) ≡ false =
        rw (space-not_word c e) (no_word (l ∷ ls) h) in
      let behind = match_spaces false t in
      let words = match (both (one_of l ls) boundary) in
      rw e (
        some-from_all words behind ((w, c ∷ t) ∷ [])
        ∙ ap (λ b. is_some_point (from_all words behind) || b) (single l ls (w, c ∷ t) h ∙ space)
        ∙ sym (or_false (is_some_point (from_all words behind)))
        ∙ words_behind l ls false t h)
  | inr e ↦ rw e (single l ls (w, c ∷ t) h)
]

-- A statement starts with one of the keywords, in any case, if its first word is one of them.
pub test_start-first_word :
    (l : Text) (ls : List Text) (t : Text)
    → All IsKeyword (l ∷ ls)
    → test_start (both any_spaces (both (one_of l ls) boundary)) t
      ≡ contains (first_word t) (l ∷ ls)
unfolding test_start match
test_start-first_word l ls t h = words_behind l ls false t h
