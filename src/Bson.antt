-- ===== src/Bson.antt =====
-- src/record/protocols/bson.ts: BSON documents as JavaScript values. A tagged value
-- { $type, value } is an object with these two fields, as it is in the source. The key `__proto__`,
-- which an assignment does not store, is not modelled.
pub mod Numbers
pub mod Decode
pub mod Encode
pub mod Objects
pub mod Json
pub mod Reads
pub mod Wire
pub mod Loops
pub mod Elements
pub mod RoundTrip
use cognivox_record.Prelude.{
  ℕ, zero, suc, ◌&&◌, Bool, true, false, List, [], ◌∷◌, Option, none, some, ltb, if◌then◌else◌,
}
use cognivox_record.Prelude.Int.{ℤ}
use cognivox_record.Text.Utf8.{Text, Bytes, codes}
use cognivox_record.Text.Decimal.{print_nat, parse_nat}
use cognivox_record.Text.Words.{equal}

-- A JavaScript number: a safe integer, or the 64 bits of any other double.
pub data Number : Type 0 where
  integer : ℤ → Number
  double : ℕ → Number

mutual
  pub data BsonValue : Type 0 where
    null : BsonValue
    boolean : Bool → BsonValue
    number : Number → BsonValue
    string : Text → BsonValue
    array : BsonValues → BsonValue
    document : Fields → BsonValue

  pub data BsonValues : Type 0 where
    no_values : BsonValues
    value : BsonValue → BsonValues → BsonValues

  -- The fields of an object, in the order in which `Object.entries` gives them.
  pub data Fields : Type 0 where
    no_fields : Fields
    field : Text → BsonValue → Fields → Fields

canonical : Text → Option ℕ → Option ℕ
canonical t none = none
canonical t (some n) = if equal (print_nat n) t && ltb n 4294967295 then some n else none

-- An array index in JavaScript's sense; such keys come first in an object, in ascending order.
unfoldable pub index_of : Text → Option ℕ
unfolding canonical
index_of t = canonical t (parse_nat t)

is_below : Option ℕ → ℕ → Bool
is_below none n = false
is_below (some i) n = ltb i n

set_index : ℕ → Text → BsonValue → Fields → Fields
set_index n k v no_fields = field k v no_fields
set_index n k v (field j w m) =
    let others = field j w (set_index n k v m) in
    if equal j k
    then field j v m
    else if is_below (index_of j) n
    then others
    else field k v (field j w m)

set_name : Text → BsonValue → Fields → Fields
set_name k v no_fields = field k v no_fields
set_name k v (field j w m) =
    let others = field j w (set_name k v m) in if equal j k then field j v m else others

set_by : Option ℕ → Text → BsonValue → Fields → Fields
set_by none k v m = set_name k v m
set_by (some n) k v m = set_index n k v m

-- `object[key] = value`
unfoldable pub set_field : Text → BsonValue → Fields → Fields
unfolding set_by set_index set_name is_below
set_field k v m = set_by (index_of k) k v m

-- `object[key]`; `none` is undefined.
unfoldable pub get_field : Text → Fields → Option BsonValue
get_field k no_fields = none
get_field k (field j v m) = let rest = get_field k m in if equal j k then some v else rest

-- `{ ...object, ...fields }`
unfoldable pub set_all : Fields → Fields → Fields
set_all m no_fields = m
set_all m (field k v fs) = set_all (set_field k v m) fs

-- `Object.values(object)`
abbrev pub values_of : Fields → BsonValues
values_of no_fields = no_values
values_of (field k v m) = value v (values_of m)

-- { $type: kind, value: text }
abbrev pub tagged : Text → Text → BsonValue
tagged kind text =
    document (field (codes "$type") (string kind) (field (codes "value") (string text) no_fields))

-- What the code takes from the platform: `toString('base64')` and `Buffer.from(text, 'base64')`,
-- `new Date(ms).toISOString()` with `none` for its RangeError, `new Date(text).getTime()` with
-- `none` for NaN, and the text that `JSON.stringify` gives a double by its bits.
pub record Platform : Type 0 where
  pub base64 : Bytes → Text
  pub from_base64 : Text → Bytes
  pub iso_date : ℤ → Option Text
  pub parse_date : Text → Option ℤ
  pub double_text : ℕ → Text
