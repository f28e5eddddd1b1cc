-- ===== src/Mongo/Reply.antt =====
-- `encodeReply` of src/replay/mongoReplayServer.ts. `none` is a RangeError.
use cognivox_record.Prelude.{ℕ, ◌+◌, [], ◌∷◌, ◌++◌, Option, some, ◌>>=◌, length, if◌then◌else◌}
use cognivox_record.Prelude.Int.{ℤ, pos, write_int32_le}
use cognivox_record.Text.Utf8.{Bytes}
use cognivox_record.Bson.{Fields, Platform}
use cognivox_record.Bson.Encode.{encode_document}
use cognivox_record.Mongo.{op_msg, op_query, header_bytes, same_int}

-- `OP_REPLY`
abbrev pub op_reply : ℤ
op_reply = pos 1

unfoldable pub header : ℕ → ℤ → ℤ → ℤ → Option Bytes
header size request_id response_to op = write_int32_le (pos size) >>= λ a.
    write_int32_le request_id >>= λ b.
    write_int32_le response_to >>= λ c. write_int32_le op >>= λ d. some (a ++ (b ++ (c ++ d)))

-- Flags 8, no cursor, from 0 on, one document.
abbrev pub preamble : Bytes
preamble = 8 ∷ 0 ∷ 0 ∷ 0 ∷ 0 ∷ 0 ∷ 0 ∷ 0 ∷ 0 ∷ 0 ∷ 0 ∷ 0 ∷ 0 ∷ 0 ∷ 0 ∷ 0 ∷ 1 ∷ 0 ∷ 0 ∷ 0 ∷ []

unfoldable pub in_frame : ℤ → ℤ → ℤ → Bytes → Bytes → Option Bytes
unfolding header
in_frame response_to request_id op front doc =
    header (header_bytes + length front + length doc) request_id response_to op >>= λ h.
    some (h ++ (front ++ doc))

-- Of a reply in the modern form, the flags and the kind of its one section.
abbrev pub section_front : Bytes
section_front = 0 ∷ 0 ∷ 0 ∷ 0 ∷ 0 ∷ []

unfoldable pub encode_reply : Platform → ℤ → ℤ → Fields → ℤ → Option Bytes
unfolding in_frame
encode_reply platform response_to request_id body op = encode_document platform body >>= λ doc.
    (if same_int op op_query
      then in_frame response_to request_id op_reply preamble doc
      else in_frame response_to request_id op_msg section_front doc)
