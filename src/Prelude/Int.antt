-- ===== src/Prelude/Int.antt =====
-- Signed integers over the native numbers, and the big-endian and little-endian words that carry
-- them in a Node `Buffer`.
use Prim.Native.Nat.{ℕ, ◌+◌, ◌-◌, ◌*◌, ◌/◌, ◌%◌}
use mathlib.Core.Path.{◌≡◌}
use mathlib.Core.Option.{Option, none, some}
use mathlib.Core.List.{List, [], ◌∷◌, ◌++◌}
use native.Mathlib.Omega.{arith}
use cognivox_record.Prelude.Lists.{length, drop}
use cognivox_record.Prelude.Tests.{ltb, leb, if◌then◌else◌}

-- `negsuc n` is -(n + 1).
pub data ℤ : Type 0 where
  pos : ℕ → ℤ
  negsuc : ℕ → ℤ

-- a - b, as an integer.
abbrev pub sub_ℕ : ℕ → ℕ → ℤ
sub_ℕ a b = if leb b a then pos (a - b) else negsuc (b - a - 1)

-- The number that a word of 16 or 32 bits stands for, in two's complement.
abbrev pub signed16 : ℕ → ℤ
signed16 n = if ltb n 0x8000 then pos n else negsuc (0x10000 - n - 1)

abbrev pub signed32 : ℕ → ℤ
signed32 n = if ltb n 0x8000_0000 then pos n else negsuc (0x1_0000_0000 - n - 1)

-- `buffer.readInt16BE` and the like at the front of what is left; `none` is the RangeError of a
-- read beyond the end.
unfoldable pub read_int16_be : List ℕ → Option ℤ
read_int16_be (a ∷ b ∷ r) = some (signed16 (a * 256 + b))
read_int16_be _ = none

unfoldable pub read_int32_be : List ℕ → Option ℤ
read_int32_be (a ∷ b ∷ c ∷ d ∷ r) = some (signed32 (((a * 256 + b) * 256 + c) * 256 + d))
read_int32_be _ = none

unfoldable pub read_int32_le : List ℕ → Option ℤ
read_int32_le (a ∷ b ∷ c ∷ d ∷ r) = some (signed32 (((d * 256 + c) * 256 + b) * 256 + a))
read_int32_le _ = none

abbrev word16_be : ℕ → List ℕ
word16_be n = n / 256 % 256 ∷ n % 256 ∷ []

abbrev word32_be : ℕ → List ℕ
word32_be n = n / 0x100_0000 % 256 ∷ n / 0x1_0000 % 256 ∷ n / 256 % 256 ∷ n % 256 ∷ []

abbrev word32_le : ℕ → List ℕ
word32_le n = n % 256 ∷ n / 256 % 256 ∷ n / 0x1_0000 % 256 ∷ n / 0x100_0000 % 256 ∷ []

-- `buffer.writeInt16BE` and the like as the bytes written; `none` is the RangeError of a value
-- that the word cannot hold.
unfoldable pub write_int16_be : ℤ → Option (List ℕ)
write_int16_be (pos n) = if ltb n 0x8000 then some (word16_be n) else none
write_int16_be (negsuc n) = if ltb n 0x8000 then some (word16_be (0x10000 - n - 1)) else none

unfoldable pub write_int32_be : ℤ → Option (List ℕ)
write_int32_be (pos n) = if ltb n 0x8000_0000 then some (word32_be n) else none
write_int32_be (negsuc n) =
    if ltb n 0x8000_0000 then some (word32_be (0x1_0000_0000 - n - 1)) else none

unfoldable pub write_int32_le : ℤ → Option (List ℕ)
write_int32_le (pos n) = if ltb n 0x8000_0000 then some (word32_le n) else none
write_int32_le (negsuc n) =
    if ltb n 0x8000_0000 then some (word32_le (0x1_0000_0000 - n - 1)) else none

pub read-write_int16_be :
    (z : ℤ) {w : List ℕ} (r : List ℕ) → write_int16_be z ≡ some w → read_int16_be (w ++ r) ≡ some z
unfolding read_int16_be write_int16_be
read-write_int16_be (pos n) r h = ground arith
read-write_int16_be (negsuc n) r h = ground arith

pub read-write_int32_be :
    (z : ℤ) {w : List ℕ} (r : List ℕ) → write_int32_be z ≡ some w → read_int32_be (w ++ r) ≡ some z
unfolding read_int32_be write_int32_be
read-write_int32_be (pos n) r h = ground arith
read-write_int32_be (negsuc n) r h = ground arith

-- What stands behind a word, and its size.
pub drop-write_int16_be :
    (z : ℤ) {w : List ℕ} (r : List ℕ)
    → write_int16_be z ≡ some w
    → (drop 2 (w ++ r) ≡ r) × (length w ≡ 2)
unfolding write_int16_be
drop-write_int16_be (pos n) r h = ground arith
drop-write_int16_be (negsuc n) r h = ground arith

pub drop-write_int32_be :
    (z : ℤ) {w : List ℕ} (r : List ℕ)
    → write_int32_be z ≡ some w
    → (drop 4 (w ++ r) ≡ r) × (length w ≡ 4)
unfolding write_int32_be
drop-write_int32_be (pos n) r h = ground arith
drop-write_int32_be (negsuc n) r h = ground arith

pub read-write_int32_le :
    (z : ℤ) {w : List ℕ} (r : List ℕ) → write_int32_le z ≡ some w → read_int32_le (w ++ r) ≡ some z
unfolding read_int32_le write_int32_le
read-write_int32_le (pos n) r h = ground arith
read-write_int32_le (negsuc n) r h = ground arith

pub drop-write_int32_le :
    (z : ℤ) {w : List ℕ} (r : List ℕ)
    → write_int32_le z ≡ some w
    → (drop 4 (w ++ r) ≡ r) × (length w ≡ 4)
unfolding write_int32_le
drop-write_int32_le (pos n) r h = ground arith
drop-write_int32_le (negsuc n) r h = ground arith
