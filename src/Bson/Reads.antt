-- ===== src/Bson/Reads.antt =====
-- What the writers of Encode write at a position, the readers of Decode read there.
use cognivox_record.Prelude.{
  ℕ, ◌+◌, ◌-◌, ◌/◌, ◌%◌, ◌^◌, ◌<◌, ◌≡◌, refl, sym, subst, ◌∙◌, ap, false, [], ◌∷◌, ◌++◌,
  append_assoc, some, >>=-eq-some, some_inj, arith, length, length-append, drop, take-length_append,
  drop-behind, All, ◌==◌,
}
use cognivox_record.Prelude.Int.{
  ℤ, pos, negsuc, read_int32_le, write_int32_le, read-write_int32_le, drop-write_int32_le,
}
use cognivox_record.Text.Utf8
use cognivox_record.Text.Utf8.{Text, Bytes, IsScalar, decode-encode}
use cognivox_record.Text.Names.{NotNul, IsName, encode-NotNul}
use cognivox_record.Bson.Numbers.{read_word64_le, write_word64_le, write_int64_le, signed64}
use cognivox_record.Bson.Decode.{index_zero, cstring_of, read_cstring, string_text, hex, hex_digit}
use cognivox_record.Bson.Encode.{string_body, from_hex, hex_value, join_pair}

index_zero-append : (xs r : Bytes) → All NotNul xs → index_zero (xs ++ (0 ∷ r)) ≡ some (length xs)
unfolding index_zero
index_zero-append [] r h = refl
index_zero-append (c ∷ xs) r h =
    let e : (c == 0) ≡ false = ground arith in rw (e, index_zero, index_zero-append xs r h.1) refl

-- A name and the null byte behind it.
pub read_cstring-at :
    (b : Bytes) (o : ℕ) (name : Text) (r : Bytes)
    → IsName name
    → drop o b ≡ Utf8.encode name ++ (0 ∷ r)
    → (read_cstring b o ≡ (name, o + length (Utf8.encode name) + 1))
      × (drop (o + length (Utf8.encode name) + 1) b ≡ r)
unfolding read_cstring cstring_of
read_cstring-at b o name r h e =
    let xs = Utf8.encode name in
    let f : length (xs ++ (0 ∷ [])) ≡ length xs + 1 = omega (arith, length-append xs (0 ∷ [])) in
    let g : o + length (xs ++ (0 ∷ [])) ≡ o + length xs + 1 = omega (arith, f) in
    (
      rw
          (
            e,
            index_zero-append xs r (encode-NotNul name h.1),
            take-length_append xs (0 ∷ r),
            decode-encode name h.0,
          )
          refl,
      subst (λ k. drop k b ≡ r) g
          (drop-behind o b (xs ++ (0 ∷ [])) r (e ∙ sym (append_assoc xs (0 ∷ []) r))),
    )

-- A word of 32 bits.
pub read_int32-at :
    (b : Bytes) (o : ℕ) (z : ℤ) {w : Bytes} (r : Bytes)
    → write_int32_le z ≡ some w
    → drop o b ≡ w ++ r
    → (read_int32_le (drop o b) ≡ some z) × (drop (o + 4) b ≡ r)
read_int32-at b o z {w} r h e = (
  ap read_int32_le e ∙ read-write_int32_le z r h,
  subst (λ k. drop (o + k) b ≡ r) (drop-write_int32_le z r h).1 (drop-behind o b w r e),
)

-- A word of 64 bits.
read-write_word64_le :
    (n : ℕ) (r : Bytes) → n < 2 ^ 64 → read_word64_le (write_word64_le n ++ r) ≡ some n
unfolding read_word64_le write_word64_le
read-write_word64_le n r h = ap some (omega arith)

pub read_word64-at :
    (b : Bytes) (o n : ℕ) (r : Bytes)
    → n < 2 ^ 64
    → drop o b ≡ write_word64_le n ++ r
    → read_word64_le (drop o b) ≡ some n
read_word64-at b o n r h e = ap read_word64_le e ∙ read-write_word64_le n r h

-- The body of a string.
pub string_body-at :
    (b : Bytes) (o : ℕ) (t : Text) {body : Bytes} (r : Bytes)
    → All IsScalar t
    → string_body t ≡ some body
    → drop o b ≡ body ++ r
    → let size = pos (length (Utf8.encode t) + 1) in
      (read_int32_le (drop o b) ≡ some size)
      × (string_text b (o + 4) size ≡ t)
      × (length body ≡ 4 + (length (Utf8.encode t) + 1))
unfolding string_body string_text
string_body-at b o t {body} r h e at =
    let text = Utf8.encode t in
    let (w, written, made) = >>=-eq-some (write_int32_le (pos (length text + 1))) _ e in
    let rest = text ++ (0 ∷ []) in
    let at_text : drop o b ≡ w ++ (rest ++ r) =
      at ∙ ap (λ x. x ++ r) (sym (some_inj made)) ∙ append_assoc w rest r in
    let (read, behind) = read_int32-at b o (pos (length text + 1)) (rest ++ r) written at_text in
    let size : length text + 1 - 1 ≡ length text = omega arith in
    (
      read,
      rw (behind, append_assoc text (0 ∷ []) r, size, take-length_append text (0 ∷ r))
          (decode-encode t h),
      ap length (sym (some_inj made))
          ∙ length-append w rest
          ∙ omega (
            arith,
            (drop-write_int32_le (pos (length text + 1)) [] written).1,
            length-append text (0 ∷ []),
          ),
    )

-- Hexadecimal digits, two for each byte.
abbrev pub IsByte : ℕ → Type 0
IsByte c = c < 256

hex_pair :
    (c : ℕ) (rest : Bytes)
    → c < 256
    → join_pair (hex_value (hex_digit (c / 16))) (hex_value (hex_digit (c % 16))) rest ≡ c ∷ rest
unfolding hex_value hex_digit join_pair
hex_pair c rest h = ground arith

pub from_hex-hex : (xs : Bytes) → All IsByte xs → from_hex (hex xs) ≡ xs
unfolding from_hex hex
from_hex-hex [] h = refl
from_hex-hex (c ∷ xs) h = hex_pair c (from_hex (hex xs)) h.0 ∙ ap (◌∷◌ c) (from_hex-hex xs h.1)

-- A signed word of 64 bits.
pub word_of-int64 :
    (z : ℤ) {w : Bytes}
    → write_int64_le z ≡ some w
    → (n : ℕ) × (n < 2 ^ 64) × (w ≡ write_word64_le n) × (signed64 n ≡ z)
unfolding write_int64_le
word_of-int64 (pos n) h = (n, ground arith, ground arith, ground arith)
word_of-int64 (negsuc n) h = (2 ^ 64 - n - 1, omega arith, ground arith, ground arith)
