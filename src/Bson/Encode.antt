-- ===== src/Bson/Encode.antt =====
-- The writing half of src/record/protocols/bson.ts. `none` is an exception: the RangeError of a
-- length or a number that its word cannot hold, or a tagged value whose text is no text, no date or
-- no integer.
use cognivox_record.Prelude.{
  ℕ, suc, ◌+◌, ◌-◌, ◌*◌, ◌&&◌, Bool, true, false, [], ◌∷◌, ◌++◌, Option, none, some, ◌>>=◌, length,
  ltb, leb, if◌then◌else◌,
}
use cognivox_record.Prelude.Int.{ℤ, pos, negsuc, write_int32_le}
use cognivox_record.Text.Utf8
use cognivox_record.Text.Utf8.{Text, Bytes, codes}
use cognivox_record.Text.Decimal.{print_nat}
use cognivox_record.Text.Words.{equal}
use cognivox_record.Bson.{
  Number, integer, double, BsonValue, null, boolean, number, string, array, document, BsonValues,
  no_values, value, Fields, no_fields, field, get_field, Platform,
}
use cognivox_record.Bson.Numbers.{write_word64_le, write_int64_le, bits_of_integer, big_int}

-- The type byte of an element, and its body.
abbrev pub Coded : Type 0
Coded = Option (ℕ × Bytes)

abbrev pub coded : ℕ → Option Bytes → Coded
coded type body = body >>= λ b. some (type, b)

-- `Number.isInteger(value) && Math.abs(value) <= 0x7fffffff`
abbrev pub is_int32 : ℤ → Bool
is_int32 (pos n) = leb n 0x7fffffff
is_int32 (negsuc n) = ltb n 0x7fffffff

unfoldable pub encode_number : Number → Coded
encode_number (integer z) =
    if is_int32 z
    then coded 0x10 (write_int32_le z)
    else some (0x01, write_word64_le (bits_of_integer z))
encode_number (double bits) = some (0x01, write_word64_le bits)

unfoldable pub string_body : Text → Option Bytes
string_body t =
    let text = Utf8.encode t in
    write_int32_le (pos (length text + 1)) >>= λ w. some (w ++ (text ++ (0 ∷ [])))

unfoldable pub hex_value : ℕ → Option ℕ
hex_value c =
    if leb 48 c && leb c 57
    then some (c - 48)
    else if leb 97 c && leb c 102
    then some (c - 87)
    else if leb 65 c && leb c 70
    then some (c - 55)
    else none

unfoldable pub join_pair : Option ℕ → Option ℕ → Bytes → Bytes
join_pair (some a) (some b) rest = (a * 16 + b) ∷ rest
join_pair _ _ rest = []

-- `Buffer.from(text, 'hex')` reads up to the first pair that is not hexadecimal.
unfoldable pub from_hex : Text → Bytes
unfolding hex_value join_pair
from_hex [] = []
from_hex (c ∷ []) = []
from_hex (c ∷ d ∷ t) = join_pair (hex_value c) (hex_value d) (from_hex t)

unfoldable pub binary_body : Bytes → Option Bytes
binary_body raw = write_int32_le (pos (length raw)) >>= λ w. some (w ++ (0 ∷ raw))

-- The kind of a tagged value, where the `$type` of an object is a text.
abbrev pub text_of : Option BsonValue → Option Text
text_of (some (string t)) = some t
text_of _ = none

-- The length, the elements and the terminator.
unfoldable pub close_document : Bytes → Option Bytes
close_document body = write_int32_le (pos (length body + 5)) >>= λ w. some (w ++ (body ++ (0 ∷ [])))

-- `tag(type, body)` behind a name.
unfoldable pub tag : Text → ℕ × Bytes → Bytes
tag name (type, body) = type ∷ (Utf8.encode name ++ (0 ∷ body))

-- The times that a Date can hold.
in_range : ℤ → Bool
in_range (pos n) = leb n 8_640_000_000_000_000
in_range (negsuc n) = ltb n 8_640_000_000_000_000

-- `new Date(z).getTime()`; `none` is NaN, which BigInt refuses.
time_of : ℤ → Option ℤ
time_of z = if in_range z then some z else none

-- A tagged value that is no text: dates and longs are made of integers and Booleans too, and dates of
-- null; of the other kinds Buffer.from refuses these.
encode_tagged_integer : Text → ℤ → Coded
encode_tagged_integer kind z =
    if equal kind (codes "date")
    then coded 0x09 (time_of z >>= write_int64_le)
    else if equal kind (codes "long")
    then coded 0x12 (write_int64_le z)
    else none

encode_tagged_null : Text → Coded
encode_tagged_null kind =
    if equal kind (codes "date") then coded 0x09 (write_int64_le (pos 0)) else none

module _ (platform : Platform) where
  encode_tagged_text : Text → Text → Coded
  unfolding binary_body
  encode_tagged_text kind t =
      if equal kind (codes "objectId")
      then some (0x07, from_hex t)
      else if equal kind (codes "date")
      then coded 0x09 (platform.parse_date t >>= write_int64_le)
      else if equal kind (codes "long")
      then coded 0x12 (big_int t >>= write_int64_le)
      else if equal kind (codes "binary")
      then coded 0x05 (binary_body (platform.from_base64 t))
      else coded 0x02 (string_body t)

  -- Arrays, objects and doubles as the value are refused here.
  unfoldable pub encode_tagged : Text → Option BsonValue → Coded
  unfolding encode_tagged_text encode_tagged_integer encode_tagged_null time_of in_range
  encode_tagged kind (some (string t)) = encode_tagged_text kind t
  encode_tagged kind (some (number (integer z))) = encode_tagged_integer kind z
  encode_tagged kind (some (boolean true)) = encode_tagged_integer kind (pos 1)
  encode_tagged kind (some (boolean false)) = encode_tagged_integer kind (pos 0)
  encode_tagged kind (some null) = encode_tagged_null kind
  encode_tagged kind _ = none

  -- An object, tagged or not; `elements` are its encoded elements.
  unfoldable pub encode_object : Fields → Option Text → Option Bytes → Coded
  encode_object fs none elements = coded 0x03 (elements >>= close_document)
  encode_object fs (some kind) elements = encode_tagged kind (get_field (codes "value") fs)

  -- An array is the document of its indices, which `encode_items` writes from `n` on.
  unfoldable mutual
    unfolding encode_object

    pub encode_value : BsonValue → Coded
    encode_value null = some (0x0a, [])
    encode_value (boolean true) = some (0x08, 1 ∷ [])
    encode_value (boolean false) = some (0x08, 0 ∷ [])
    encode_value (number n) = encode_number n
    encode_value (string t) = coded 0x02 (string_body t)
    encode_value (array vs) = coded 0x04 (encode_items 0 vs >>= close_document)
    encode_value (document fs) =
        encode_object fs (text_of (get_field (codes "$type") fs)) (encode_fields fs)

    pub encode_fields : Fields → Option Bytes
    encode_fields no_fields = some []
    encode_fields (field name v fs) =
        encode_value v >>= λ c. encode_fields fs >>= λ rest. some (tag name c ++ rest)

    pub encode_items : ℕ → BsonValues → Option Bytes
    encode_items n no_values = some []
    encode_items n (value v vs) = encode_value v >>= λ c.
        encode_items (suc n) vs >>= λ rest. some (tag (print_nat n) c ++ rest)

  -- A document, whatever its fields; that it may be tagged plays no part at the top.
  unfoldable pub encode_document : Fields → Option Bytes
  encode_document fs = encode_fields fs >>= close_document
