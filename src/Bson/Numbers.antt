-- ===== src/Bson/Numbers.antt =====
-- 64-bit words of a Node Buffer: integers in two's complement and IEEE doubles, little-endian.
use cognivox_record.Prelude.{
  ℕ, zero, suc, ◌+◌, ◌-◌, ◌*◌, ◌/◌, ◌%◌, ◌^◌, Bool, true, false, ◌&&◌, ◌||◌, [], ◌∷◌, Option, none,
  some, ltb, leb, ◌==◌, if◌then◌else◌,
}
use cognivox_record.Prelude.Int.{ℤ, pos, negsuc}
use cognivox_record.Text.Utf8.{Text, Bytes}
use cognivox_record.Text.Decimal.{safe_bound, parse_nat}
use cognivox_record.Text.Words.{trim}
use cognivox_record.Bson.{Number, integer, double}

-- The unsigned word at the front.
unfoldable pub read_word64_le : Bytes → Option ℕ
read_word64_le (a ∷ b ∷ c ∷ d ∷ e ∷ f ∷ g ∷ h ∷ r) =
    some (((((((h * 256 + g) * 256 + f) * 256 + e) * 256 + d) * 256 + c) * 256 + b) * 256 + a)
read_word64_le _ = none

unfoldable pub write_word64_le : ℕ → Bytes
write_word64_le n =
    n % 256
    ∷ n / 0x100 % 256
    ∷ n / 0x1_0000 % 256
    ∷ n / 0x100_0000 % 256
    ∷ n / 0x1_0000_0000 % 256
    ∷ n / 0x100_0000_0000 % 256
    ∷ n / 0x1_0000_0000_0000 % 256
    ∷ n / 0x100_0000_0000_0000 % 256
    ∷ []

-- `readBigInt64LE`
abbrev pub signed64 : ℕ → ℤ
signed64 n = if ltb n 0x8000_0000_0000_0000 then pos n else negsuc (0x1_0000_0000_0000_0000 - n - 1)

-- `writeBigInt64LE`, with its RangeError.
unfoldable pub write_int64_le : ℤ → Option Bytes
unfolding write_word64_le
write_int64_le (pos n) = if ltb n 0x8000_0000_0000_0000 then some (write_word64_le n) else none
write_int64_le (negsuc n) =
    if ltb n 0x8000_0000_0000_0000
    then some (write_word64_le (0x1_0000_0000_0000_0000 - n - 1))
    else none

-- Whether an integer is in the safe range.
unfoldable pub is_safe : ℤ → Bool
is_safe (pos n) = ltb n safe_bound
is_safe (negsuc n) = ltb (suc n) safe_bound

unfoldable pub with_sign : Bool → ℕ → ℤ
with_sign negative zero = pos 0
with_sign true (suc n) = negsuc n
with_sign false (suc n) = pos (suc n)

-- The double with these bits: 1 sign, 11 of exponent, 52 of fraction. The safe integers but 0 are
-- the multiples of 1 with an exponent from 0 to 52; both zeros read as 0.
unfoldable pub number_of_bits : ℕ → Number
unfolding with_sign
number_of_bits bits =
    let negative = leb (2 ^ 63) bits in
    let exponent = bits / 2 ^ 52 % 2048 in
    let fraction = bits % 2 ^ 52 in
    let unit = 2 ^ (1075 - exponent) in
    if exponent == 0 && fraction == 0
    then integer (pos 0)
    else if leb 1023 exponent && leb exponent 1075 && (2 ^ 52 + fraction) % unit == 0
    then integer (with_sign negative ((2 ^ 52 + fraction) / unit))
    else double bits

-- The position of the highest bit of `n`, looked for below `k`.
high_bit : ℕ → ℕ → ℕ
high_bit zero n = 0
high_bit (suc k) n = let below = high_bit k n in if leb (2 ^ k) n then k else below

bits_of_nat : ℕ → ℕ
bits_of_nat zero = 0
bits_of_nat (suc n) =
    let k = high_bit 53 (suc n) in (1023 + k) * 2 ^ 52 + (suc n - 2 ^ k) * 2 ^ (52 - k)

-- The bits of a safe integer as a double.
unfoldable pub bits_of_integer : ℤ → ℕ
unfolding high_bit bits_of_nat
bits_of_integer (pos n) = bits_of_nat n
bits_of_integer (negsuc n) = 2 ^ 63 + bits_of_nat (suc n)

-- `BigInt(text)`: digits with an optional sign, or hexadecimal, octal or binary digits behind 0x, 0o or
-- 0b, between spaces; `none` is a SyntaxError.
digit_value : ℕ → ℕ
digit_value c =
    if leb b'0' c && leb c b'9'
    then c - b'0'
    else if leb b'a' c && leb c b'f'
    then c - b'a' + 10
    else if leb b'A' c && leb c b'F'
    then c - b'A' + 10
    else 16

digits_of : ℕ → ℕ → Text → Option ℕ
digits_of base n [] = some n
digits_of base n (c ∷ t) =
    let rest = digits_of base (n * base + digit_value c) t in
    if ltb (digit_value c) base then rest else none

base_of : ℕ → Option ℕ
base_of c =
    if c == b'x' || c == b'X'
    then some 16
    else if c == b'o' || c == b'O'
    then some 8
    else if c == b'b' || c == b'B'
    then some 2
    else none

big_digits : Option ℕ → Option ℤ
big_digits none = none
big_digits (some n) = some (pos n)

big_negative : Option ℕ → Option ℤ
big_negative none = none
big_negative (some n) = some (with_sign true n)

big_signed : ℕ → Text → Option ℤ
big_signed c t =
    if c == b'-'
    then big_negative (parse_nat t)
    else if c == b'+'
    then big_digits (parse_nat t)
    else big_digits (parse_nat (c ∷ t))

-- Text with at least one digit behind a possible 0x.
big_based : ℕ → Option ℕ → ℕ → Text → Option ℤ
big_based c none d t = big_signed c (d ∷ t)
big_based c (some base) d t =
    if c == b'0' then big_digits (digits_of base 0 t) else big_signed c (d ∷ t)

big_trimmed : Text → Option ℤ
big_trimmed [] = some (pos 0)
big_trimmed (c ∷ []) = big_digits (parse_nat (c ∷ []))
big_trimmed (c ∷ d ∷ []) = big_signed c (d ∷ [])
big_trimmed (c ∷ d ∷ e ∷ t) = big_based c (base_of d) d (e ∷ t)

unfoldable pub big_int : Text → Option ℤ
unfolding digit_value digits_of base_of big_digits big_negative big_signed big_based big_trimmed
big_int t = big_trimmed (trim t)
