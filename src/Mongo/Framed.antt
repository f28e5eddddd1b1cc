-- ===== src/Mongo/Framed.antt =====
-- A reply that is framed is read back.
use cognivox_record.Prelude.{
  ◌-◌, ◌%◌, ◌==◌, ℕ, zero, suc, ◌+◌, ◌≡◌, ◌≤◌, ◌<◌, refl, sym, subst, ◌∙◌, ap, true, false, [], ◌∷◌,
  ◌++◌, append_assoc, Option, some, >>=-eq-some, some_inj, arith, length, length-append,
  length-drop, drop, drop-behind, drop-length_append, get_elem?, get_elem?-drop, ltb, lt→ltb,
  ltb-false, if◌then◌else◌,
}
use cognivox_record.Prelude.Int.{ℤ, pos, read_int32_le, write_int32_le, drop-write_int32_le}
use cognivox_record.Text.Utf8.{Bytes}
use cognivox_record.Bson.{Fields, no_fields, set_all, Platform}
use cognivox_record.Bson.Decode.{Outcome, done, ◌then_read◌, checked, advance, decode_document}
use cognivox_record.Bson.Encode.{encode_document}
use cognivox_record.Bson.Wire.{AreWireFields}
use cognivox_record.Bson.Reads.{read_int32-at}
use cognivox_record.Bson.RoundTrip.{encode_document-reads}
use cognivox_record.Mongo.{
  MongoMessage, op_msg, op_query, header_bytes, same_int, read_uint32_le, read_single,
  sections_upto, read_sections, read_body, read_whole, read_message,
}
use cognivox_record.Mongo.Reply.{header, in_frame, section_front, preamble, op_reply, encode_reply}

-- What the readers find at a header, and what stands behind it.
abbrev HeaderAt : Bytes → ℕ → ℕ → ℤ → ℤ → ℤ → Bytes → Type 0
HeaderAt b o size id to op r =
    (read_int32_le (drop o b) ≡ some (pos size))
    × (read_int32_le (drop (o + 4) b) ≡ some id)
    × (read_int32_le (drop (o + 8) b) ≡ some to)
    × (read_int32_le (drop (o + 12) b) ≡ some op)
    × (drop (o + 16) b ≡ r)

four_words :
    (w0 w1 w2 w3 : Bytes)
    → length w0 ≡ 4
    → length w1 ≡ 4
    → length w2 ≡ 4
    → length w3 ≡ 4
    → length (w0 ++ (w1 ++ (w2 ++ w3))) ≡ 16
four_words w0 w1 w2 w3 e0 e1 e2 e3 =
    omega
      (arith, length-append w0 (w1 ++ (w2 ++ w3)), length-append w1 (w2 ++ w3), length-append w2 w3)

move_to : (b : Bytes) {m n : ℕ} {r : Bytes} → m ≡ n → drop m b ≡ r → drop n b ≡ r
move_to b {m} {n} {r} e h = subst (λ k. drop k b ≡ r) e h

plus : (o m n k : ℕ) → m + n ≡ k → o + m + n ≡ o + k
plus o m n k h = omega arith

header-at :
    (size : ℕ) (id to op : ℤ) {h : Bytes} (b : Bytes) (o : ℕ) (r : Bytes)
    → header size id to op ≡ some h
    → drop o b ≡ h ++ r
    → HeaderAt b o size id to op r × (length h ≡ 16)
unfolding header
header-at size id to op {h} b o r e at =
    let (w0, written0, e0) = >>=-eq-some (write_int32_le (pos size)) _ e in
    let (w1, written1, e1) = >>=-eq-some (write_int32_le id) _ e0 in
    let (w2, written2, e2) = >>=-eq-some (write_int32_le to) _ e1 in
    let (w3, written3, e3) = >>=-eq-some (write_int32_le op) _ e2 in
    let at0 : drop o b ≡ w0 ++ (w1 ++ (w2 ++ (w3 ++ r))) =
      at
      ∙ ap (λ x. x ++ r) (sym (some_inj e3))
      ∙ append_assoc w0 (w1 ++ (w2 ++ w3)) r
      ∙ ap (◌++◌ w0) (append_assoc w1 (w2 ++ w3) r ∙ ap (◌++◌ w1) (append_assoc w2 w3 r)) in
    let (read0, at1) = read_int32-at b o (pos size) (w1 ++ (w2 ++ (w3 ++ r))) written0 at0 in
    let (read1, at2) = read_int32-at b (o + 4) id (w2 ++ (w3 ++ r)) written1 at1 in
    let (read2, at3) =
      read_int32-at b (o + 8) to (w3 ++ r) written2 (move_to b (plus o 4 4 8 refl) at2) in
    let (read3, at4) =
      read_int32-at b (o + 12) op r written3 (move_to b (plus o 8 4 12 refl) at3) in
    (
      (read0, read1, read2, read3, move_to b (plus o 12 4 16 refl) at4),
      ap length (sym (some_inj e3))
          ∙ four_words w0 w1 w2 w3 (drop-write_int32_le (pos size) [] written0).1
              (drop-write_int32_le id [] written1).1 (drop-write_int32_le to [] written2).1
              (drop-write_int32_le op [] written3).1,
    )

read_single-at :
    (platform : Platform) (fs : Fields) {doc : Bytes} (b : Bytes) (c : ℕ) (r : Bytes)
    → AreWireFields fs
    → set_all no_fields fs ≡ fs
    → encode_document platform fs ≡ some doc
    → drop c b ≡ doc ++ r
    → read_single platform b c no_fields ≡ done (fs, pos (c + length doc))
unfolding read_single
read_single-at platform fs {doc} b c r w keys e at =
    let (size, decoded) = encode_document-reads platform fs b c r w keys e at in
    ap {B = Outcome (Fields × ℤ)}
      (λ z. checked z then_read λ n.
        decode_document platform b c then_read λ f. done (set_all no_fields f, advance c n))
      size
    ∙ ap {B = Outcome (Fields × ℤ)}
        (λ z. z then_read λ f. done (set_all no_fields f, pos (c + length doc))) decoded
    ∙ ap {B = Outcome (Fields × ℤ)} (λ f. done (f, pos (c + length doc))) keys

-- One section that reaches up to the end.
sections_end :
    (platform : Platform) (b : Bytes) (end fuel : ℕ) (fs : Fields)
    → sections_upto platform b end (suc fuel) (pos end) fs ≡ done fs
unfolding sections_upto
sections_end platform b end fuel fs = rw (ltb-false end end (omega arith), sections_upto) refl

one_section :
    (platform : Platform) (b : Bytes) (end rounds c : ℕ) (fs : Fields)
    → 0 < rounds
    → ltb c end ≡ true
    → get_elem? b c ≡ some 0
    → read_single platform b (c + 1) no_fields ≡ done (fs, pos end)
    → sections_upto platform b end (suc rounds) (pos c) no_fields ≡ done fs
unfolding sections_upto
one_section platform b end zero c fs enough inside kind single = absurd (omega arith)
one_section platform b end (suc fuel) c fs enough inside kind single =
    rw (sections_upto, inside, kind, single) (sections_end platform b end fuel fs)

-- A body of one section is the document of that section.
section-at :
    (platform : Platform) (fs : Fields) {doc : Bytes} (b : Bytes) (o : ℕ) (r : Bytes)
    → AreWireFields fs
    → set_all no_fields fs ≡ fs
    → encode_document platform fs ≡ some doc
    → drop (o + 16) b ≡ section_front ++ (doc ++ r)
    → read_sections platform b o (21 + length doc) ≡ done fs
unfolding read_sections read_uint32_le
section-at platform fs {doc} b o r w keys e at =
    let size = length doc in
    let c = o + 16 + 4 in
    let end : c + 1 + size ≡ o + (21 + size) - 0 = omega arith in
    let at_kind : drop c b ≡ 0 ∷ (doc ++ r) =
      drop-behind (o + 16) b (0 ∷ 0 ∷ 0 ∷ 0 ∷ []) (0 ∷ (doc ++ r)) at in
    let single =
      read_single-at platform fs b (c + 1) r w keys e
        (drop-behind c b (0 ∷ []) (doc ++ r) at_kind) in
    ap {B = Outcome Fields}
      (λ z. checked (read_uint32_le z) then_read λ flags.
        sections_upto platform b (o + (21 + size) - (if flags % 2 == 1 then 4 else 0))
          (suc (length b)) (pos (o + header_bytes + 4)) no_fields)
      at
    ∙ subst (λ z. sections_upto platform b z (suc (length b)) (pos c) no_fields ≡ done fs) end
        (one_section platform b (c + 1 + size) (length b) c fs
          (omega (arith, ap length at_kind, length-drop c b))
          (lt→ltb c (c + 1 + size) (omega arith)) (get_elem?-drop c b 0 (doc ++ r) at_kind) single)

-- A framed message of the modern form, read back.
read_whole-at :
    (platform : Platform) (fs : Fields) {doc : Bytes} (b : Bytes) (o : ℕ) (id to : ℤ) (r : Bytes)
    → AreWireFields fs
    → set_all no_fields fs ≡ fs
    → encode_document platform fs ≡ some doc
    → HeaderAt b o (21 + length doc) id to op_msg (section_front ++ (doc ++ r))
    → o + (21 + length doc) ≤ length b
    → read_message platform b o
      ≡ done (
          some (record {
            request_id = id;
            response_to = to;
            op_code = op_msg;
            body = fs;
            bytes = 21 + length doc;
          }))
unfolding read_message read_whole read_body
read_whole-at platform fs {doc} b o id to r w keys e (size, at4, at8, at12, behind) fits =
    let room : ltb (length b) (o + 16) ≡ false = ltb-false (length b) (o + 16) (omega arith) in
    let large : ltb (21 + length doc) 16 ≡ false = ltb-false (21 + length doc) 16 (omega arith) in
    let whole : ltb (length b) (o + (21 + length doc)) ≡ false =
      ltb-false (length b) (o + (21 + length doc)) fits in
    rw (room, size, large, whole, at4, at8, at12, section-at platform fs b o r w keys e behind) refl

-- The bytes of a frame.
in_frame-bytes :
    (to id op : ℤ) (front doc : Bytes) {bytes : Bytes}
    → in_frame to id op front doc ≡ some bytes
    → (h : Bytes) × (header (header_bytes + length front + length doc) id to op ≡ some h)
      × (bytes ≡ h ++ (front ++ doc))
unfolding in_frame
in_frame-bytes to id op front doc e =
    let (h, made, k) =
      >>=-eq-some (header (header_bytes + length front + length doc) id to op) _ e in
    (h, made, sym (some_inj k))

-- A reply to a command that is not OP_QUERY, of a body that BSON carries without loss, is read back as one
-- message if it is framed without an exception, wherever it starts in a buffer and whatever follows it:
-- it has the ids that it was given, takes all its bytes, and its document is the body. Such a body has
-- its keys in the order of an object's, without the character 0, and as values nulls, Booleans, integers
-- of 32 bits, doubles that are no safe integers, well-formed texts, object ids in lower case, and arrays
-- and documents of these without a `$type`; no dates, longs, binaries or other tagged values.
pub read_message-encode_reply :
    (platform : Platform) (to id : ℤ) (fs : Fields) (op : ℤ) (before_it : Bytes) {bytes : Bytes}
    (after_it : Bytes)
    → AreWireFields fs
    → set_all no_fields fs ≡ fs
    → same_int op op_query ≡ false
    → encode_reply platform to id fs op ≡ some bytes
    → read_message platform (before_it ++ (bytes ++ after_it)) (length before_it)
      ≡ done (
          some (record {
            request_id = id;
            response_to = to;
            op_code = op_msg;
            body = fs;
            bytes = length bytes;
          }))
unfolding encode_reply
read_message-encode_reply platform to id fs op before_it {bytes} after_it w keys modern e =
    let (doc, encoded, e1) = >>=-eq-some (encode_document platform fs) _ e in
    let framed : in_frame to id op_msg section_front doc ≡ some bytes =
      subst
        (λ t.
          (if t
            then in_frame to id op_reply preamble doc
            else in_frame to id op_msg section_front doc)
          ≡ some bytes)
        modern e1 in
    let (h, made, all) = in_frame-bytes to id op_msg section_front doc framed in
    let o = length before_it in
    let b = before_it ++ (bytes ++ after_it) in
    let rest = section_front ++ (doc ++ after_it) in
    let at : drop o b ≡ h ++ rest =
      drop-length_append before_it (bytes ++ after_it)
      ∙ ap (λ x. x ++ after_it) all
      ∙ append_assoc h (section_front ++ doc) after_it in
    let (found, long) = header-at (21 + length doc) id to op_msg b o rest made at in
    let size : 21 + length doc ≡ length bytes =
      omega (arith, ap length all, length-append h (section_front ++ doc), long) in
    let fits : o + (21 + length doc) ≤ length b =
      omega
        (arith, size, length-append before_it (bytes ++ after_it), length-append bytes after_it) in
    read_whole-at platform fs b o id to after_it w keys encoded found fits
    ∙ ap {B = Outcome (Option MongoMessage)}
        (λ n. done (
          some
            (record { request_id = id; response_to = to; op_code = op_msg; body = fs; bytes = n })))
        size
