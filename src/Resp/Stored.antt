-- ===== src/Resp/Stored.antt =====
-- `describe` and `fromStored` of src/record/protocols/resp.ts: the shape of a reply in the
-- recording, as the JSON value { kind, value }.
use cognivox_record.Prelude.{◌≡◌, refl, [], ◌∷◌, ◌++◌, Option, none, some, ◌>>=◌, if◌then◌else◌}
use cognivox_record.Prelude.Int.{ℤ, pos}
use cognivox_record.Text.Utf8.{Text, codes}
use cognivox_record.Text.Decimal.{print_int, parse_int}
use cognivox_record.Text.Words.{equal}
use cognivox_record.Resp.{
  RespValue, simple, error, integer, bulk, array_null, array, unsupported, RespItems, nil, cons,
}

mutual
  pub data Stored : Type 0 where
    stored : Text → Field → Stored

  -- The JSON values that a field `value` of a recording may hold.
  pub data Field : Type 0 where
    null : Field
    number : ℤ → Field
    text : Text → Field
    items : StoredItems → Field

  pub data StoredItems : Type 0 where
    end : StoredItems
    next : Stored → StoredItems → StoredItems

optional_text : Option Text → Field
optional_text none = null
optional_text (some t) = text t

unfoldable mutual
  unfolding optional_text

  pub describe : RespValue → Stored
  describe (simple t) = stored (codes "simple") (text t)
  describe (error t) = stored (codes "error") (text t)
  describe (integer z) = stored (codes "integer") (number z)
  describe (bulk o) = stored (codes "bulk") (optional_text o)
  describe array_null = stored (codes "array") null
  describe (array vs) = stored (codes "array") (items (describe_items vs))
  describe (unsupported t) = stored (codes "unsupported") (text t)

  pub describe_items : RespItems → StoredItems
  describe_items nil = end
  describe_items (cons v vs) = next (describe v) (describe_items vs)

-- `String(list)` of a list of objects.
list_string : StoredItems → Text
list_string end = []
list_string (next s end) = codes "[object Object]"
list_string (next s (next r rest)) = codes "[object Object]" ++ (b',' ∷ list_string (next r rest))

string_of : Field → Text
string_of null = codes "null"
string_of (number z) = print_int z
string_of (text t) = t
string_of (items l) = list_string l

-- `Number(value)`; `none` is NaN, or a text that Decimal does not read.
number_of : Field → Option ℤ
number_of null = some (pos 0)
number_of (number z) = some z
number_of (text t) = parse_int t
number_of (items end) = some (pos 0)
number_of (items (next s rest)) = none

nullable_string : Field → Option Text
nullable_string null = none
nullable_string f = some (string_of f)

-- `String(value ?? '')`
string_or_empty : Field → Text
string_or_empty null = []
string_or_empty f = string_of f

-- A value whose kind is not `array`.
scalar_from : Text → Field → Option RespValue
scalar_from kind f =
    if equal kind (codes "integer")
    then number_of f >>= (λ z. some (integer z))
    else if equal kind (codes "bulk")
    then some (bulk (nullable_string f))
    else if equal kind (codes "simple")
    then some (simple (string_of f))
    else if equal kind (codes "error")
    then some (error (string_of f))
    else some (unsupported (string_or_empty f))

-- An array that is not null and has no `map` is a TypeError.
array_from : Field → Option RespItems → Option RespValue
array_from null others = some array_null
array_from (items l) others = others >>= λ vs. some (array vs)
array_from f others = none

value_from : Text → Field → Option RespItems → Option RespValue
value_from kind f others =
    if equal kind (codes "array") then array_from f others else scalar_from kind f

-- `none` stands for a TypeError and for a number that is not modelled.
unfoldable mutual
  unfolding value_from array_from scalar_from string_or_empty nullable_string number_of string_of
      list_string equal

  pub from_stored : Stored → Option RespValue
  from_stored (stored kind f) = value_from kind f (from_field f)

  pub from_field : Field → Option RespItems
  from_field null = none
  from_field (number z) = none
  from_field (text t) = none
  from_field (items l) = from_items l

  pub from_items : StoredItems → Option RespItems
  from_items end = some nil
  from_items (next s rest) = from_stored s >>= λ v. from_items rest >>= λ vs. some (cons v vs)

mutual
  unfolding describe from_stored

  describe_back : (v : RespValue) → from_stored (describe v) ≡ some v
  describe_back (simple t) = refl
  describe_back (error t) = refl
  describe_back (integer z) = refl
  describe_back (bulk none) = refl
  describe_back (bulk (some t)) = refl
  describe_back array_null = refl
  describe_back (array vs) = rw (describe_items_back vs)
  describe_back (unsupported t) = refl

  describe_items_back : (vs : RespItems) → from_items (describe_items vs) ≡ some vs
  describe_items_back nil = refl
  describe_items_back (cons v vs) = rw (describe_back v, describe_items_back vs)

-- A reply survives the recording: what is rebuilt from its stored shape is the reply itself, for
-- every kind of reply, nested ones and the unsupported ones included.
pub from_stored-describe : (v : RespValue) → from_stored (describe v) ≡ some v
from_stored-describe v = describe_back v
