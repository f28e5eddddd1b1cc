-- ===== src/Postgres/Messages.antt =====
-- src/record/protocols/postgresMessages.ts: framing and field readers. A position in a payload is
-- the list of the bytes from there on; `none` is the RangeError of a read beyond the end.
pub mod Reader
use cognivox_record.Prelude.{
  ℕ, zero, suc, ◌+◌, ◌-◌, ◌*◌, Bool, true, false, ◌||◌, List, [], ◌∷◌, Option, none, some, ◌>>=◌,
  length, take, drop, ltb, ◌==◌, if◌then◌else◌,
}
use cognivox_record.Prelude.Int.{ℤ, pos, negsuc, read_int16_be, read_int32_be}
use cognivox_record.Text.Utf8
use cognivox_record.Text.Utf8.{Text, Bytes}
use cognivox_record.Framing.{Read, partial, frame}
use cognivox_record.Interaction.{PostgresColumn, Row}

-- A framed message; `type` is the type byte.
pub record PostgresFrame : Type 0 where
  pub type : ℕ
  pub payload : Bytes

-- A length below four or beyond the bytes at hand reads as an incomplete frame.
unfoldable pub frame_behind : ℕ → Bytes → Option ℤ → Read PostgresFrame
frame_behind t r none = partial
frame_behind t r (some (negsuc _)) = partial
frame_behind t r (some (pos len)) =
    if ltb len 4 || ltb (length r) len
    then partial
    else frame (record { type = t; payload = take (len - 4) (drop 4 r) }) (1 + len)

unfoldable pub read_frame : Bytes → Read PostgresFrame
unfolding frame_behind
read_frame [] = partial
read_frame (t ∷ r) = frame_behind t r (read_int32_be r)

-- The client's first message, with the length that it declares.
pub data StartupKind : Type 0 where
  ssl_request startup : ℤ → StartupKind
  incomplete : StartupKind

abbrev pub ssl_request_code : ℕ
ssl_request_code = 80877103

is_ssl_request : ℤ → Bool
is_ssl_request (pos n) = n == ssl_request_code
is_ssl_request (negsuc n) = false

shorter : ℕ → ℤ → Bool
shorter len (pos n) = ltb len n
shorter len (negsuc n) = false

startup_of : Bytes → Option ℤ → Option ℤ → StartupKind
startup_of b (some n) (some code) =
    if shorter (length b) n
    then incomplete
    else if is_ssl_request code
    then ssl_request n
    else startup n
startup_of b _ _ = incomplete

unfoldable pub read_startup : Bytes → StartupKind
unfolding startup_of is_ssl_request shorter
read_startup b =
    if ltb (length b) 8
    then incomplete
    else startup_of b (read_int32_be b) (read_int32_be (drop 4 b))

-- `Buffer.subarray(start)`: a negative start counts from the end.
unfoldable pub subarray : ℤ → Bytes → Bytes
subarray (pos n) b = drop n b
subarray (negsuc n) b = drop (length b - suc n) b

unfoldable pub split_zero : Bytes → Bytes × Bytes
split_zero [] = ([], [])
split_zero (c ∷ r) = let (a, z) = split_zero r in if c == 0 then ([], r) else (c ∷ a, z)

-- The text up to the null byte, and what stands behind it; with no null byte, all of it.
unfoldable pub read_cstring : Bytes → Text × Bytes
unfolding split_zero
read_cstring b = (Utf8.decode (split_zero b).0, (split_zero b).1)

-- The rounds of `for (index = 0; index < count; ...)`.
abbrev pub rounds : ℤ → ℕ
rounds (pos n) = n
rounds (negsuc n) = 0

-- One column: its name, and 18 bytes in which the type OID is at 6.
unfoldable pub read_columns : ℕ → Bytes → Option (List PostgresColumn)
read_columns zero b = some []
read_columns (suc n) b =
    let (name, r) = read_cstring b in
    read_int32_be (drop 6 r) >>= λ oid.
    read_columns n (drop 18 r) >>= λ cs. some (record { name = name; type_oid = oid } ∷ cs)

unfoldable pub read_row_description : Bytes → Option (List PostgresColumn)
unfolding read_columns
read_row_description p = read_int16_be p >>= λ count. read_columns (rounds count) (drop 2 p)

-- A value: its length, then its text; a negative length is NULL.
unfoldable pub value_of : ℤ → Bytes → Option Text
value_of (pos len) r = some (Utf8.decode (take len r))
value_of (negsuc _) r = none

unfoldable pub behind_value : ℤ → Bytes → Bytes
behind_value (pos len) r = drop len r
behind_value (negsuc _) r = r

unfoldable pub read_values : ℕ → Bytes → Option Row
unfolding value_of behind_value
read_values zero b = some []
read_values (suc n) b = read_int32_be b >>= λ len.
    read_values n (behind_value len (drop 4 b)) >>= λ vs. some (value_of len (drop 4 b) ∷ vs)

unfoldable pub read_data_row : Bytes → Option Row
unfolding read_values
read_data_row p = read_int16_be p >>= λ count. read_values (rounds count) (drop 2 p)

-- `offset += 2 + formatCount * 2`, which a negative count moves back.
skip_formats : Bytes → Bytes → ℤ → Option Bytes
skip_formats payload r (pos n) = some (drop (2 + n * 2) r)
skip_formats payload r (negsuc n) =
    let at = length payload - length r + 2 in
    if ltb at (suc n * 2) then none else some (drop (at - suc n * 2) payload)

unfoldable pub read_bind_parameters : Bytes → Option Row
unfolding skip_formats read_values
read_bind_parameters p =
    let r = (read_cstring (read_cstring p).1).1 in
    read_int16_be r >>= λ formats. skip_formats p r formats >>= λ q.
    read_int16_be q >>= λ count. read_values (rounds count) (drop 2 q)

-- The statement's name and its SQL.
unfoldable pub read_parse : Bytes → Text × Text
read_parse p = let (name, r) = read_cstring p in (name, (read_cstring r).0)

unfoldable pub read_bind_statement : Bytes → Text
read_bind_statement p = (read_cstring (read_cstring p).1).0
