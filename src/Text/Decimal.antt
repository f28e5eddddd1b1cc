-- ===== src/Text/Decimal.antt =====
-- Decimal numbers as the program writes them (`${n}`) and reads them back (`Number(text)`).
use cognivox_record.Prelude.{
  ℕ, zero, suc, ◌+◌, ◌-◌, ◌*◌, ◌/◌, ◌%◌, ◌^◌, ◌≤◌, ◌<◌, ◌≡◌, refl, ◌∙◌, inl, inr, Bool, true, false,
  ◌&&◌, [], ◌∷◌, ◌++◌, Option, none, some, ◌>>=◌, arith, ltb, leb, ◌==◌, if◌then◌else◌, Bool-cases,
  All, All-append,
}
use cognivox_record.Prelude.Int.{ℤ, pos, negsuc}
use cognivox_record.Text.Utf8.{Text}

-- The digits of `n`; `n + 1` rounds are enough, since each divides by ten.
print_upto : ℕ → ℕ → Text
print_upto zero n = []
print_upto (suc f) n = elim (n / 10 == 0) [
  | true ↦ (48 + n % 10) ∷ []
  | false ↦ print_upto f (n / 10) ++ ((48 + n % 10) ∷ [])
]

unfoldable pub print_nat : ℕ → Text
unfolding print_upto
print_nat n = print_upto (suc n) n

-- `String(z)` of an integer within the safe range.
unfoldable pub print_int : ℤ → Text
unfolding print_nat
print_int (pos n) = print_nat n
print_int (negsuc n) = b'-' ∷ print_nat (suc n)

abbrev is_digit : ℕ → Bool
is_digit c = leb b'0' c && leb c b'9'

parse_digits : ℕ → Text → Option ℕ
parse_digits acc [] = some acc
parse_digits acc (c ∷ t) =
    let more = parse_digits (acc * 10 + (c - 48)) t in if is_digit c then more else none

-- A text of digits.
unfoldable pub parse_nat : Text → Option ℕ
unfolding parse_digits
parse_nat t = parse_digits 0 t

-- `Number.MAX_SAFE_INTEGER + 1`
abbrev pub safe_bound : ℕ
safe_bound = 2 ^ 53

safe : Option ℕ → Option ℕ
safe none = none
safe (some n) = if ltb n safe_bound then some n else none

negate : ℕ → ℤ
negate zero = pos 0
negate (suc n) = negsuc n

-- `Number(text)` where the text is empty or spells a safe integer in decimal digits with an
-- optional sign; `none` is any other text (a fraction, an exponent, white space, NaN, ...).
unfoldable pub parse_int : Text → Option ℤ
unfolding parse_digits safe negate
parse_int [] = some (pos 0)
parse_int (c ∷ []) = safe (parse_digits 0 (c ∷ [])) >>= λ n. some (pos n)
parse_int (c ∷ d ∷ t) =
    if c == b'-'
    then safe (parse_digits 0 (d ∷ t)) >>= (λ n. some (negate n))
    else if c == b'+'
    then safe (parse_digits 0 (d ∷ t)) >>= (λ n. some (pos n))
    else safe (parse_digits 0 (c ∷ d ∷ t)) >>= λ n. some (pos n)

abbrev pub IsSafe : ℤ → Type 0
IsSafe (pos n) = n < safe_bound
IsSafe (negsuc n) = suc n < safe_bound

parse_digits-append :
    (acc : ℕ) (s t : Text)
    → parse_digits acc (s ++ t) ≡ (parse_digits acc s >>= λ a. parse_digits a t)
unfolding parse_digits
parse_digits-append acc [] t = refl
parse_digits-append acc (c ∷ s) t = ground (arith, parse_digits-append (acc * 10 + (c - 48)) s t)

parse_digits_digit : (acc n : ℕ) → parse_digits acc ((48 + n % 10) ∷ []) ≡ some (acc * 10 + n % 10)
unfolding parse_digits
parse_digits_digit acc n = ground arith

print_upto_last : (f n : ℕ) → (n / 10 == 0) ≡ true → print_upto (suc f) n ≡ (48 + n % 10) ∷ []
unfolding print_upto
print_upto_last f n e = rw (print_upto, e)

print_upto_more :
    (f n : ℕ)
    → (n / 10 == 0) ≡ false
    → print_upto (suc f) n ≡ print_upto f (n / 10) ++ ((48 + n % 10) ∷ [])
unfolding print_upto
print_upto_more f n e = rw (print_upto, e)

parse_digits-print_upto : (f n : ℕ) → n < f → parse_digits 0 (print_upto f n) ≡ some n
parse_digits-print_upto zero n h = absurd (omega arith)
parse_digits-print_upto (suc f) n h = elim (Bool-cases (n / 10 == 0)) [
  | inl e ↦ rw (print_upto_last f n e) (parse_digits_digit 0 n ∙ ground arith)
  | inr e ↦
      rw
        (
          print_upto_more f n e,
          parse_digits-append,
          parse_digits-print_upto f (n / 10) (ground arith),
        )
        (parse_digits_digit (n / 10) n ∙ ground arith)
]

-- The printed form is made of digits, and is not empty.
abbrev pub IsDigit : ℕ → Type 0
IsDigit c = (48 ≤ c) × (c ≤ 57)

print_upto-IsDigit : (f n : ℕ) → All IsDigit (print_upto f n)
print_upto-IsDigit zero n = unfold print_upto in tt
print_upto-IsDigit (suc f) n = elim (Bool-cases (n / 10 == 0)) [
  | inl e ↦ rw (print_upto_last f n e) (omega arith)
  | inr e ↦
      rw (print_upto_more f n e)
        (All-append IsDigit (print_upto f (n / 10)) _ (print_upto-IsDigit f (n / 10)) (omega arith))
]

pub print_nat-IsDigit : (n : ℕ) → All IsDigit (print_nat n)
unfolding print_nat
print_nat-IsDigit n = print_upto-IsDigit (suc n) n

parse-unsigned :
    (t : Text) (n : ℕ)
    → All IsDigit t
    → n < safe_bound
    → parse_digits 0 t ≡ some n
    → parse_int t ≡ some (pos n)
unfolding parse_int
parse-unsigned [] n d h e = unfold parse_digits in ground arith
parse-unsigned (c ∷ []) n d h e = ground arith
parse-unsigned (c ∷ x ∷ t) n d h e = ground arith

parse-negated :
    (t : Text) (n : ℕ)
    → All IsDigit t
    → suc n < safe_bound
    → parse_digits 0 t ≡ some (suc n)
    → parse_int (b'-' ∷ t) ≡ some (negsuc n)
unfolding parse_int
parse-negated [] n d h e = unfold parse_digits in ground arith
parse-negated (x ∷ t) n d h e = ground arith

-- `Number(String(z))` is `z` for a safe integer.
pub parse_int-print_int : (z : ℤ) → IsSafe z → parse_int (print_int z) ≡ some z
unfolding print_int
parse_int-print_int (pos n) h =
    parse-unsigned _ n (print_nat-IsDigit n) h (parse_digits-print_upto (suc n) n (omega arith))
parse_int-print_int (negsuc n) h =
    parse-negated _ n (print_nat-IsDigit (suc n)) h
      (parse_digits-print_upto (suc (suc n)) (suc n) (omega arith))

pub parse_nat-print_nat : (n : ℕ) → parse_nat (print_nat n) ≡ some n
unfolding parse_nat print_nat
parse_nat-print_nat n = parse_digits-print_upto (suc n) n (omega arith)
