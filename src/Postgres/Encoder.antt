-- ===== src/Postgres/Encoder.antt =====
-- src/replay/postgresEncoder.ts: the backend messages that the replay sends. `none` is the
-- RangeError of a length, a count or a type OID that its word cannot hold.
pub mod RoundTrip
use cognivox_record.Prelude.{ℕ, ◌+◌, List, [], ◌∷◌, ◌++◌, Option, none, some, ◌>>=◌, length}
use cognivox_record.Prelude.Int.{ℤ, pos, negsuc, write_int16_be, write_int32_be}
use cognivox_record.Text.Utf8
use cognivox_record.Text.Utf8.{Text, Bytes, codes}
use cognivox_record.Interaction.{PostgresColumn, Row}

-- [type][Int32 length including itself][payload]
unfoldable pub message : ℕ → Bytes → Option Bytes
message type payload =
    write_int32_be (pos (length payload + 4)) >>= λ len. some (type ∷ (len ++ payload))

abbrev pub cstring : Text → Bytes
cstring t = Utf8.encode t ++ (0 ∷ [])

abbrev pub authentication_ok : Option Bytes
authentication_ok = message b'R' (0 ∷ 0 ∷ 0 ∷ 0 ∷ [])

abbrev pub parameter_status : Text → Text → Option Bytes
parameter_status name value = message b'S' (cstring name ++ cstring value)

abbrev pub backend_key_data : Option Bytes
backend_key_data = message b'K' (0 ∷ 0 ∷ 0 ∷ 1 ∷ 0 ∷ 0 ∷ 0 ∷ 1 ∷ [])

abbrev pub ready_for_query : Option Bytes
ready_for_query = message b'Z' (b'I' ∷ [])

abbrev pub parse_complete : Option Bytes
parse_complete = message b'1' []

abbrev pub bind_complete : Option Bytes
bind_complete = message b'2' []

abbrev pub no_data : Option Bytes
no_data = message b'n' []

-- One column. The recordings that this model makes always carry a type OID.
unfoldable pub column_field : PostgresColumn → Option Bytes
column_field c = write_int32_be c.type_oid >>= λ oid. some (
    cstring c.name
    ++ (0 ∷ 0 ∷ 0 ∷ 0 ∷ 0 ∷ 0 ∷ (oid ++ (255 ∷ 255 ∷ 255 ∷ 255 ∷ 255 ∷ 255 ∷ 0 ∷ 0 ∷ []))))

column_fields : List PostgresColumn → Option Bytes
column_fields [] = some []
column_fields (c ∷ cs) = column_field c >>= λ a. column_fields cs >>= λ b. some (a ++ b)

unfoldable pub row_description_payload : List PostgresColumn → Option Bytes
unfolding column_fields
row_description_payload cs =
    write_int16_be (pos (length cs)) >>= λ count. column_fields cs >>= λ fs. some (count ++ fs)

unfoldable pub row_description : List PostgresColumn → Option Bytes
unfolding row_description_payload
row_description cs = row_description_payload cs >>= message b'T'

-- One value of a row; null is the length -1 with no bytes.
unfoldable pub column_value : Option Text → Option Bytes
column_value none = write_int32_be (negsuc 0)
column_value (some t) =
    write_int32_be (pos (length (Utf8.encode t))) >>= λ len. some (len ++ Utf8.encode t)

column_values : Row → Option Bytes
column_values [] = some []
column_values (v ∷ vs) = column_value v >>= λ a. column_values vs >>= λ b. some (a ++ b)

unfoldable pub data_row_payload : Row → Option Bytes
unfolding column_values
data_row_payload vs =
    write_int16_be (pos (length vs)) >>= λ count. column_values vs >>= λ ws. some (count ++ ws)

unfoldable pub data_row : Row → Option Bytes
unfolding data_row_payload
data_row vs = data_row_payload vs >>= message b'D'

abbrev pub command_complete : Text → Option Bytes
command_complete tag = message b'C' (cstring tag)

abbrev pub error_payload : Text → Bytes
error_payload text =
    b'S'
    ∷ (cstring (codes "ERROR")
        ++ (b'C' ∷ (cstring (codes "P0001") ++ (b'M' ∷ (cstring text ++ (0 ∷ []))))))

abbrev pub error_response : Text → Option Bytes
error_response text = message b'E' (error_payload text)
