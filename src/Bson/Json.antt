-- ===== src/Bson/Json.antt =====
-- `JSON.stringify` and the truth of a value, as the signature of a MongoDB command uses them
-- (src/replay/mongoReplayServer.ts).
use cognivox_record.Prelude.{
  zero, suc, ◌/◌, ◌%◌, ◌^◌, ◌&&◌, Bool, true, false, not, [], ◌∷◌, ◌++◌, some, ◌==◌,
}
use cognivox_record.Prelude.Int.{pos, negsuc}
use cognivox_record.Text.Utf8.{Text, codes}
use cognivox_record.Text.Decimal.{print_int}
use cognivox_record.Text.Json.{stringify_value}
use cognivox_record.Bson.{
  integer, double, BsonValue, null, boolean, number, string, array, document, BsonValues, no_values,
  value, Fields, no_fields, field, Platform,
}

-- `value ? a : b`: null, false, 0, NaN and the empty text are false.
unfoldable pub is_truthy : BsonValue → Bool
is_truthy null = false
is_truthy (boolean b) = b
is_truthy (number (integer (pos zero))) = false
is_truthy (number (integer (pos (suc n)))) = true
is_truthy (number (integer (negsuc n))) = true
is_truthy (number (double n)) = not (n / 2 ^ 52 % 2048 == 2047 && not (n % 2 ^ 52 == 0))
is_truthy (string []) = false
is_truthy (string (c ∷ t)) = true
is_truthy (array vs) = true
is_truthy (document fs) = true

module _ (platform : Platform) where
  unfoldable mutual
    pub json : BsonValue → Text
    json null = codes "null"
    json (boolean true) = codes "true"
    json (boolean false) = codes "false"
    json (number (integer z)) = print_int z
    json (number (double n)) = platform.double_text n
    json (string t) = stringify_value (some t)
    json (array no_values) = codes "[]"
    json (array (value v vs)) = b'[' ∷ (json v ++ json_items vs)
    json (document no_fields) = codes "{}"
    json (document (field k v fs)) =
        b'{' ∷ (stringify_value (some k) ++ (b':' ∷ (json v ++ json_fields fs)))

    pub json_items : BsonValues → Text
    json_items no_values = b']' ∷ []
    json_items (value v vs) = b',' ∷ (json v ++ json_items vs)

    pub json_fields : Fields → Text
    json_fields no_fields = b'}' ∷ []
    json_fields (field k v fs) =
        b',' ∷ (stringify_value (some k) ++ (b':' ∷ (json v ++ json_fields fs)))
