-- ===== src/Mongo.antt =====
-- The messages of src/record/protocols/mongoRecorder.ts: a header, and the command document in its
-- sections. Positions are those of the whole buffer, as a reader may look behind its message.
pub mod Loop
pub mod Recorder
pub mod Reply
pub mod Framed
pub mod Replay
pub mod Server
use cognivox_record.Prelude.{
  ℕ, zero, suc, ◌+◌, ◌-◌, ◌*◌, ◌%◌, ◌||◌, Bool, true, false, List, [], ◌∷◌, Option, none, some,
  length, drop, get_elem?, ltb, leb, ◌==◌, if◌then◌else◌,
}
use cognivox_record.Prelude.Int.{ℤ, pos, negsuc, read_int32_le}
use cognivox_record.Text.Utf8.{Text, Bytes}
use cognivox_record.Bson.{
  array, document, BsonValues, no_values, value, Fields, no_fields, field, set_field, set_all,
  Platform,
}
use cognivox_record.Bson.Decode.{
  Outcome, done, threw, stalled, ◌then_read◌, checked, read_cstring, advance, before,
  decode_document,
}

pub record MongoMessage : Type 0 where
  pub request_id : ℤ
  pub response_to : ℤ
  pub op_code : ℤ
  pub body : Fields
  pub bytes : ℕ

-- `OP_MSG`, `OP_QUERY` and `HEADER_BYTES`.
abbrev pub op_msg : ℤ
op_msg = pos 2013

abbrev pub op_query : ℤ
op_query = pos 2004

abbrev pub header_bytes : ℕ
header_bytes = 16

-- `a === b` of two integers.
abbrev pub same_int : ℤ → ℤ → Bool
same_int (pos m) (pos n) = m == n
same_int (negsuc m) (negsuc n) = m == n
same_int _ _ = false

-- `readUInt32LE` at the front.
unfoldable pub read_uint32_le : Bytes → Option ℕ
read_uint32_le (a ∷ b ∷ c ∷ d ∷ r) = some (((d * 256 + c) * 256 + b) * 256 + a)
read_uint32_le _ = none

-- `a < b`
unfoldable pub below : ℤ → ℤ → Bool
below (pos o) end = before o end
below (negsuc m) (pos n) = true
below (negsuc m) (negsuc n) = ltb n m

module _ (platform : Platform) where
  -- The documents of a sequence. The state of the loop is the cursor, and a round that goes on has it
  -- inside the buffer, so more rounds than there are bytes never end.
  unfoldable pub read_documents : Bytes → ℤ → ℕ → ℤ → Outcome BsonValues
  unfolding below before
  read_documents b end zero cursor = stalled
  read_documents b end (suc fuel) (negsuc c) =
      if below (negsuc c) end then threw else done no_values
  read_documents b end (suc fuel) (pos c) = elim (below (pos c) end) [
    | false ↦ done no_values
    | true ↦ checked (read_int32_le (drop c b)) then_read (λ size.
        decode_document platform b c then_read λ fs.
        read_documents b end fuel (advance c size) then_read λ others.
        done (value (document fs) others))
  ]

  -- The two kinds of a section; `c` is the position behind the kind.
  unfoldable pub read_single : Bytes → ℕ → Fields → Outcome (Fields × ℤ)
  read_single b c body = checked (read_int32_le (drop c b)) then_read λ size.
      decode_document platform b c then_read λ fs. done (set_all body fs, advance c size)

  unfoldable pub read_sequence : Bytes → ℕ → Fields → Outcome (Fields × ℤ)
  unfolding read_documents
  read_sequence b c body = checked (read_int32_le (drop c b)) then_read λ size.
      let end = advance c size in
      let (identifier, first) = read_cstring b (c + 4) in
      read_documents b end (suc (length b)) (pos first) then_read λ documents.
      done (set_field identifier (array documents) body, end)

  -- The loop over the sections, with as many rounds as for the documents of a sequence.
  unfoldable pub sections_upto : Bytes → ℕ → ℕ → ℤ → Fields → Outcome Fields
  unfolding read_single read_sequence
  sections_upto b end zero cursor body = stalled
  sections_upto b end (suc fuel) (negsuc c) body = done body
  sections_upto b end (suc fuel) (pos c) body = elim (ltb c end) [
    | false ↦ done body
    | true ↦ elim (get_elem? b c) [
      | none ↦ done body
      | some zero ↦ read_single b (c + 1) body then_read λ (next, cursor).
          sections_upto b end fuel cursor next
      | some (suc zero) ↦ read_sequence b (c + 1) body then_read λ (next, cursor).
          sections_upto b end fuel cursor next
      | some (suc (suc kind)) ↦ done body
    ]
  ]

  -- The sections of the message of `size` bytes at `o`; a checksum at its end is no section.
  unfoldable pub read_sections : Bytes → ℕ → ℕ → Outcome Fields
  unfolding sections_upto read_uint32_le
  read_sections b o size = checked (read_uint32_le (drop (o + header_bytes) b)) then_read λ flags.
      sections_upto b (o + size - (if flags % 2 == 1 then 4 else 0)) (suc (length b))
        (pos (o + header_bytes + 4)) no_fields

  -- Behind the name of the collection stand two limits of 4 bytes.
  unfoldable pub read_query : Bytes → ℕ → Outcome Fields
  read_query b o =
      let start = (read_cstring b (o + header_bytes + 4)).1 + 8 in
      if leb (length b) start then done no_fields else decode_document platform b start

  unfoldable pub read_body : Bytes → ℕ → ℕ → ℤ → Outcome Fields
  unfolding read_sections read_query
  read_body b o size op =
      if same_int op op_msg
      then read_sections b o size
      else if same_int op op_query
      then read_query b o
      else done no_fields

  -- A message whose header and length allow it; `none` is the source's null.
  unfoldable pub read_whole : Bytes → ℕ → ℤ → Outcome (Option MongoMessage)
  unfolding read_body
  read_whole b o (negsuc size) = done none
  read_whole b o (pos size) =
      if ltb size header_bytes || ltb (length b) (o + size)
      then done none
      else checked (read_int32_le (drop (o + 4) b)) then_read λ id.
          checked (read_int32_le (drop (o + 8) b)) then_read λ to.
          checked (read_int32_le (drop (o + 12) b)) then_read λ op.
          read_body b o size op then_read λ fs. done (
            some
              (record { request_id = id; response_to = to; op_code = op; body = fs; bytes = size }))

  unfoldable pub read_message : Bytes → ℕ → Outcome (Option MongoMessage)
  unfolding read_whole
  read_message b o =
      if ltb (length b) (o + header_bytes)
      then done none
      else checked (read_int32_le (drop o b)) then_read λ size. read_whole b o size

-- The command is the first key of its document.
unfoldable pub command_name_of : Fields → Text
command_name_of no_fields = []
command_name_of (field k v fs) = k
