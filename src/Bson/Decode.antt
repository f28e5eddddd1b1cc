-- ===== src/Bson/Decode.antt =====
-- The reading half of src/record/protocols/bson.ts, at positions in a buffer.
use cognivox_record.Prelude.{
  ℕ, zero, suc, ◌+◌, ◌-◌, ◌/◌, ◌%◌, Bool, true, false, [], ◌∷◌, ◌++◌, Option, none, some, length,
  take, drop, get_elem?, ltb, ◌==◌, if◌then◌else◌,
}
use cognivox_record.Prelude.Int.{ℤ, pos, negsuc, sub_ℕ, read_int32_le}
use cognivox_record.Text.Utf8
use cognivox_record.Text.Utf8.{Text, Bytes, codes}
use cognivox_record.Text.Decimal.{print_int}
use cognivox_record.Bson.{
  integer, BsonValue, null, boolean, number, string, array, document, Fields, no_fields, set_field,
  values_of, tagged, Platform,
}
use cognivox_record.Bson.Numbers.{read_word64_le, signed64, is_safe, number_of_bits}

-- `stalled` is a loop that never ends.
pub data Outcome {ℓ} (A : Type ℓ) : Type ℓ where
  done : A → Outcome A
  threw : Outcome A
  stalled : Outcome A

infixl 5 ◌then_read◌
abbrev pub ◌then_read◌ {ℓ κ} : {A : Type ℓ} {B : Type κ} → Outcome A → (A → Outcome B) → Outcome B
done a then_read f = f a
threw then_read f = threw
stalled then_read f = stalled

-- A read that throws a RangeError beyond the end of the buffer.
abbrev pub checked {ℓ} : {A : Type ℓ} → Option A → Outcome A
checked none = threw
checked (some a) = done a

-- `buffer.indexOf(0, offset)`, counted from the offset; `none` is -1.
unfoldable pub index_zero : Bytes → Option ℕ
index_zero [] = none
index_zero (c ∷ r) = elim (c == 0) [
  | true ↦ some 0
  | false ↦ elim (index_zero r) [ none ↦ none | some n ↦ some (suc n) ]
]

unfoldable pub cstring_of : ℕ → Bytes → Option ℕ → Text × ℕ
cstring_of o r none = ([], 0)
cstring_of o r (some n) = (Utf8.decode (take n r), o + n + 1)

-- With no null byte behind it, the text is empty and the next position the start of the buffer.
unfoldable pub read_cstring : Bytes → ℕ → Text × ℕ
unfolding index_zero cstring_of
read_cstring b o = cstring_of o (drop o b) (index_zero (drop o b))

-- `buffer.subarray(from, from + size)`; a negative size is an empty part.
abbrev pub part : Bytes → ℕ → ℤ → Bytes
part b from (pos n) = take n (drop from b)
part b from (negsuc n) = []

-- `from + size`
abbrev pub advance : ℕ → ℤ → ℤ
advance from (pos n) = pos (from + n)
advance from (negsuc n) = sub_ℕ from (suc n)

-- The declared length of a string counts its null byte.
unfoldable pub string_text : Bytes → ℕ → ℤ → Text
string_text b from (pos n) = Utf8.decode (take (n - 1) (drop from b))
string_text b from (negsuc n) = []

-- A decoded element: its value and the position behind it.
abbrev pub Element : Type 0
Element = BsonValue × ℤ

unfoldable pub hex_digit : ℕ → ℕ
hex_digit n = if ltb n 10 then 48 + n else 87 + n

-- `toString('hex')`
unfoldable pub hex : Bytes → Text
unfolding hex_digit
hex [] = []
hex (c ∷ r) = hex_digit (c / 16) ∷ hex_digit (c % 16) ∷ hex r

unfoldable pub long_value : ℤ → BsonValue
long_value z = if is_safe z then number (integer z) else tagged (codes "long") (print_int z)

unfoldable pub date_value : Option Text → Outcome BsonValue
date_value none = threw
date_value (some t) = done (tagged (codes "date") t)

unfoldable pub regex_value : Text → Text → BsonValue
regex_value pattern flags = tagged (codes "regex") (b'/' ∷ (pattern ++ (b'/' ∷ flags)))

unfoldable pub is_one : Option ℕ → Bool
is_one none = false
is_one (some c) = c == 1

unfoldable pub nested_value : ℕ → Fields → BsonValue
nested_value type fs = if type == 0x04 then array (values_of fs) else document fs

-- `start + size - 1`
unfoldable pub end_of : ℕ → ℤ → ℤ
end_of start (pos zero) = sub_ℕ start 1
end_of start (pos (suc n)) = pos (start + n)
end_of start (negsuc n) = sub_ℕ start (suc (suc n))

-- `offset < end`
unfoldable pub before : ℕ → ℤ → Bool
before o (pos end) = ltb o end
before o (negsuc end) = false

module _ (platform : Platform) where
  -- `nested` decodes the document at a position.
  unfoldable pub read_element : (ℕ → Outcome Fields) → Bytes → ℕ → ℕ → Outcome Element
  unfolding string_text long_value date_value regex_value is_one nested_value
  read_element nested b type o =
      let word = checked (read_word64_le (drop o b)) in
      let size = checked (read_int32_le (drop o b)) in
      if type == 0x01
      then word then_read (λ n. done (number (number_of_bits n), pos (o + 8)))
      else if type == 0x02
      then size then_read (λ n. done (string (string_text b (o + 4) n), advance (o + 4) n))
      else if type == 0x03
      then size then_read (λ n. nested o then_read λ fs. done (nested_value type fs, advance o n))
      else if type == 0x04
      then size then_read (λ n. nested o then_read λ fs. done (nested_value type fs, advance o n))
      else if type == 0x05
      then size then_read (λ n.
        done (tagged (codes "binary") (platform.base64 (part b (o + 5) n)), advance (o + 5) n))
      else if type == 0x07
      then done (tagged (codes "objectId") (hex (part b o (pos 12))), pos (o + 12))
      else if type == 0x08
      then done (boolean (is_one (get_elem? b o)), pos (o + 1))
      else if type == 0x09
      then word then_read (λ n.
        date_value (platform.iso_date (signed64 n)) then_read λ v. done (v, pos (o + 8)))
      else if type == 0x0a
      then done (null, pos o)
      else if type == 0x06
      then done (null, pos o)
      else if type == 0x10
      then size then_read (λ n. done (number (integer n), pos (o + 4)))
      else if type == 0x11
      then word then_read (λ n. done (long_value (signed64 n), pos (o + 8)))
      else if type == 0x12
      then word then_read (λ n. done (long_value (signed64 n), pos (o + 8)))
      else if type == 0x0b
      then (let (pattern, p) = read_cstring b o in
          let (flags, q) = read_cstring b p in done (regex_value pattern flags, pos q))
      else if type == 0x13
      then done (tagged (codes "decimal128") (hex (part b o (pos 16))), pos (o + 16))
      else threw

  -- The element whose type byte stands at `o`, with its name.
  unfoldable pub read_field : (ℕ → Outcome Fields) → Bytes → ℕ → ℕ → Outcome (Text × Element)
  unfolding read_element
  read_field nested b type o =
      let (name, after) = read_cstring b (o + 1) in
      read_element nested b type after then_read λ e. done (name, e)

  -- The loop over the elements. Its state is the position, so among `length b + 1` rounds that do
  -- not end there are two at one position, and it never ends.
  unfoldable pub decode_fields : (ℕ → Outcome Fields) → Bytes → ℤ → ℕ → ℤ → Fields → Outcome Fields
  unfolding before read_field
  decode_fields nested b end fuel (negsuc o) fs = threw
  decode_fields nested b end zero (pos o) fs = stalled
  decode_fields nested b end (suc fuel) (pos o) fs = elim (before o end) [
    | false ↦ done fs
    | true ↦ elim (get_elem? b o) [
      | none ↦ threw
      | some type ↦ elim (type == 0) [
        | true ↦ done fs
        | false ↦ read_field nested b type o then_read λ (name, (v, next)).
            decode_fields nested b end fuel next (set_field name v fs)
      ]
    ]
  ]

  -- A document inside others. One that is nested deeper than the buffer is long is inside itself, and
  -- the calls end with a RangeError when the stack is full.
  unfoldable pub decode_upto : ℕ → Bytes → ℕ → Outcome Fields
  unfolding decode_fields end_of
  decode_upto zero b start = threw
  decode_upto (suc depth) b start = checked (read_int32_le (drop start b)) then_read λ size.
      decode_fields (decode_upto depth b) b (end_of start size) (suc (length b)) (pos (start + 4))
        no_fields

  unfoldable pub decode_document : Bytes → ℕ → Outcome Fields
  unfolding decode_upto
  decode_document b start = decode_upto (suc (length b)) b start
