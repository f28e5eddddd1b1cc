-- ===== src/Resp.antt =====
-- src/record/protocols/resp.ts: the Redis wire protocol in both directions. `decode` reads at a
-- position, which is the list of the bytes from there on. A length or an integer that `Number`
-- does not read as a safe decimal integer is a `fault`: the source goes on with NaN or a fraction
-- there, which is not modelled.
pub mod Lines
pub mod Reader
pub mod RoundTrip
pub mod Commands
pub mod Stored
use cognivox_record.Prelude.{
  ℕ, zero, suc, ◌+◌, ◌-◌, ◌≡◌, Bool, true, false, ◌&&◌, List, [], ◌∷◌, ◌++◌, Option, none, some,
  length, take, drop, ltb, ◌==◌, if◌then◌else◌,
}
use cognivox_record.Prelude.Int.{ℤ, pos, negsuc}
use cognivox_record.Text.Utf8
use cognivox_record.Text.Utf8.{Text, Bytes, codes}
use cognivox_record.Text.Decimal.{parse_int, print_nat, print_int}
use cognivox_record.Framing.{Read, partial, frame, fault}

-- `array_null` is the array whose `value` is null.
mutual
  pub data RespValue : Type 0 where
    simple : Text → RespValue
    error : Text → RespValue
    integer : ℤ → RespValue
    bulk : Option Text → RespValue
    array_null : RespValue
    array : RespItems → RespValue
    unsupported : Text → RespValue

  pub data RespItems : Type 0 where
    nil : RespItems
    cons : RespValue → RespItems → RespItems

abbrev pub crlf : Bytes
crlf = 13 ∷ 10 ∷ []

later : Option ℕ → Option ℕ
later none = none
later (some e) = some (suc e)

-- `buffer.indexOf('\r\n')` from here; `none` is -1.
unfoldable pub line_end : Bytes → Option ℕ
unfolding later
line_end [] = none
line_end (x ∷ []) = none
line_end (x ∷ y ∷ r) = if x == 13 && y == 10 then some 0 else later (line_end (y ∷ r))

-- The payload of a bulk string, behind a header of `n` bytes.
decode_bulk : Option ℤ → ℕ → Bytes → Read RespValue
decode_bulk none n b = fault
decode_bulk (some (negsuc _)) n b = frame (bulk none) n
decode_bulk (some (pos len)) n b =
    if ltb (length b) (n + len + 2)
    then partial
    else frame (bulk (some (Utf8.decode (take len (drop n b))))) (n + len + 2)

add_item : RespValue → ℕ → Read RespItems → Read RespItems
add_item v k partial = partial
add_item v k fault = fault
add_item v k (frame vs m) = frame (cons v vs) (k + m)

-- The item at hand, and then the others behind it.
next_item : Read RespValue → (ℕ → Read RespItems) → Read RespItems
unfolding add_item
next_item partial others = partial
next_item fault others = fault
next_item (frame v k) others = add_item v k (others k)

-- The loop over the items of an array; a partial item makes the whole array partial.
decode_items : (Bytes → Read RespValue) → ℕ → Bytes → Read RespItems
decode_items read zero b = frame nil 0
decode_items read (suc count) b = next_item (read b) (λ k. decode_items read count (drop k b))

close_array : ℕ → Read RespItems → Read RespValue
close_array n partial = partial
close_array n fault = fault
close_array n (frame vs m) = frame (array vs) (n + m)

decode_array : (Bytes → Read RespValue) → Option ℤ → ℕ → Bytes → Read RespValue
decode_array read none n b = fault
decode_array read (some (negsuc _)) n b = frame array_null n
decode_array read (some (pos count)) n b = close_array n (decode_items read count (drop n b))

decode_integer : Option ℤ → ℕ → Read RespValue
decode_integer none n = fault
decode_integer (some z) n = frame (integer z) n

-- The `switch` on the marker; the header is the line behind it, with `n` bytes in all.
pub decode_marked : (Bytes → Read RespValue) → ℕ → Text → ℕ → Bytes → Read RespValue
decode_marked read marker header n b =
    if marker == b'+'
    then frame (simple header) n
    else if marker == b'-'
    then frame (error header) n
    else if marker == b':'
    then decode_integer (parse_int header) n
    else if marker == b'$'
    then decode_bulk (parse_int header) n b
    else if marker == b'*'
    then decode_array read (parse_int header) n b
    else frame (unsupported (marker ∷ header)) n

decode_line : (Bytes → Read RespValue) → Option ℕ → Bytes → Read RespValue
decode_line read none b = partial
decode_line read (some e) [] = partial
decode_line read (some e) (marker ∷ r) =
    decode_marked read marker (Utf8.decode (take (e - 1) r)) (e + 2) (marker ∷ r)

-- `decode` with a bound on the nesting of arrays.
pub decode_upto : ℕ → Bytes → Read RespValue
decode_upto zero b = partial
decode_upto (suc d) b = decode_line (decode_upto d) (line_end b) b

-- An array's items stand behind its header, so the nesting is below the number of bytes.
unfoldable pub decode : Bytes → Read RespValue
unfolding line_end decode_bulk next_item decode_items close_array decode_array decode_integer
    decode_marked decode_line decode_upto
decode b = decode_upto (length b) b

-- One line: the marker, the text and the terminator.
abbrev pub line : ℕ → Text → Bytes
line marker text = marker ∷ (Utf8.encode text ++ crlf)

-- `Buffer.byteLength(text)`
abbrev pub byte_length : Text → ℕ
byte_length t = length (Utf8.encode t)

encode_bulk : Option Text → Bytes
encode_bulk none = line b'$' (codes "-1")
encode_bulk (some t) = line b'$' (print_nat (byte_length t)) ++ (Utf8.encode t ++ crlf)

abbrev pub items_length : RespItems → ℕ
items_length nil = 0
items_length (cons v vs) = suc (items_length vs)

-- What could not be read is answered by an error.
unfoldable mutual
  unfolding encode_bulk

  pub encode : RespValue → Bytes
  encode (simple t) = line b'+' t
  encode (error t) = line b'-' t
  encode (integer z) = line b':' (print_int z)
  encode (bulk t) = encode_bulk t
  encode array_null = line b'*' (codes "-1")
  encode (array vs) = line b'*' (print_nat (items_length vs)) ++ encode_items vs
  encode (unsupported t) = line b'-' (codes "ERR cognivox recorded an unsupported reply")

  pub encode_items : RespItems → Bytes
  encode_items nil = []
  encode_items (cons v vs) = encode v ++ encode_items vs
