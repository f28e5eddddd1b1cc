-- ===== src/Bson/Wire.antt =====
-- The values that BSON carries without loss.
use cognivox_record.Prelude.{◌^◌, ◌≤◌, ◌<◌, ◌≡◌, true, [], ◌∷◌, none, arith, length, All, ◌⊎◌, inl}
use cognivox_record.Text.Utf8.{Text, Bytes, codes, IsScalar}
use cognivox_record.Text.Names.{IsName}
use cognivox_record.Text.Decimal.{IsDigit}
use cognivox_record.Bson.{
  integer, double, BsonValue, null, boolean, number, string, array, document, BsonValues, no_values,
  value, Fields, no_fields, field, get_field, set_all,
}
use cognivox_record.Bson.Numbers.{number_of_bits}
use cognivox_record.Bson.Decode.{hex}
use cognivox_record.Bson.Encode.{is_int32, text_of}
use cognivox_record.Bson.Objects.{count, index_bound}
use cognivox_record.Bson.Reads.{IsByte}

-- The fields of an object id.
abbrev pub object_id_fields : Bytes → Fields
object_id_fields id =
    field (codes "$type") (string (codes "objectId"))
      (field (codes "value") (string (hex id)) no_fields)

-- A value that BSON carries without loss: numbers of 32 bits or doubles that are no safe integer,
-- well-formed texts, names with no null byte, objects whose keys stand in JavaScript's order, and
-- object ids.
abbrev mutual
  pub IsWire : BsonValue → Type 0
  IsWire null = Unit
  IsWire (boolean b) = Unit
  IsWire (number (integer z)) = is_int32 z ≡ true
  IsWire (number (double n)) = (n < 2 ^ 64) × (number_of_bits n ≡ double n)
  IsWire (string t) = All IsScalar t
  IsWire (array vs) = AreWire vs × (count vs ≤ index_bound)
  IsWire (document fs) =
      (AreWireFields fs
        × (set_all no_fields fs ≡ fs)
        × (text_of (get_field (codes "$type") fs) ≡ none))
      ⊎ ((id : Bytes) × (length id ≡ 12) × All IsByte id × (fs ≡ object_id_fields id))

  pub AreWire : BsonValues → Type 0
  AreWire no_values = Unit
  AreWire (value v vs) = IsWire v × AreWire vs

  pub AreWireFields : Fields → Type 0
  AreWireFields no_fields = Unit
  AreWireFields (field name v fs) = IsName name × IsWire v × AreWireFields fs

pub digits-IsName : (t : Text) → All IsDigit t → IsName t
digits-IsName [] h = (tt, tt)
digits-IsName (c ∷ t) h =
    let (s, n) = digits-IsName t h.1 in ((inl (omega arith), s), ((λ e. omega arith), n))
