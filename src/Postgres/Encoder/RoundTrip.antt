-- ===== src/Postgres/Encoder/RoundTrip.antt =====
-- What the encoder writes, the readers of Messages read back.
use cognivox_record.Prelude.{
  ℕ, suc, ◌+◌, ◌-◌, ◌≡◌, refl, sym, subst, ◌∙◌, ap, false, List, [], ◌∷◌, ◌++◌, append_assoc,
  append-nil, Option, none, some, >>=-eq-some, some_inj, arith, length, drop, length-append,
  take-length_append, drop-length_append, All, ltb, ltb-false,
}
use cognivox_record.Prelude.Int.{
  ℤ, pos, negsuc, read_int32_be, write_int16_be, write_int32_be, read-write_int16_be,
  read-write_int32_be, drop-write_int16_be, drop-write_int32_be,
}
use cognivox_record.Text.Utf8
use cognivox_record.Text.Utf8.{Text, Bytes, IsScalar, decode-encode}
pub use cognivox_record.Text.Names.{NotNul, IsName}
use cognivox_record.Text.Names.{encode-NotNul}
use cognivox_record.Framing.{frame}
use cognivox_record.Interaction.{PostgresColumn, Row}
use cognivox_record.Postgres.Messages.{
  frame_behind, read_frame, split_zero, read_cstring, read_columns, read_row_description,
  read_values, value_of, behind_value, read_data_row,
}
use cognivox_record.Postgres.Encoder.{
  message, cstring, column_field, column_fields, row_description_payload, column_value,
  column_values, data_row_payload,
}

-- A value of a row that UTF-8 can carry.
abbrev pub IsText : Option Text → Type 0
IsText none = Unit
IsText (some t) = All IsScalar t

split_zero-append : (b r : Bytes) → All NotNul b → split_zero (b ++ (0 ∷ r)) ≡ (b, r)
unfolding split_zero
split_zero-append [] r h = refl
split_zero-append (c ∷ b) r h = ground (arith, split_zero-append b r h.1)

-- A null-terminated text is read back, with what stands behind it.
pub read_cstring-cstring :
    (t : Text) (r : Bytes) → IsName t → read_cstring (cstring t ++ r) ≡ (t, r)
unfolding read_cstring
read_cstring-cstring t r h =
    rw
      (
        append_assoc (Utf8.encode t) (0 ∷ []) r,
        split_zero-append (Utf8.encode t) r (encode-NotNul t h.1),
        decode-encode t h.0,
      )
      refl

framed :
    (type : ℕ) (payload more w : Bytes)
    → write_int32_be (pos (length payload + 4)) ≡ some w
    → read_frame (type ∷ (w ++ payload) ++ more)
      ≡ frame (record { type = type; payload = payload }) (suc (length (w ++ payload)))
unfolding read_frame frame_behind
framed type payload more w h =
    let len = pos (length payload + 4) in
    let rest = payload ++ more in
    let (behind, size) = drop-write_int32_be len rest h in
    let e : length payload + 4 - 4 ≡ length payload = omega arith in
    let f : ltb (length payload + 4) 4 ≡ false = ltb-false _ _ (omega arith) in
    let g : ltb (length (w ++ rest)) (length payload + 4) ≡ false =
      ltb-false _ _ (omega (arith, length-append w rest, length-append payload more)) in
    let k : 1 + (length payload + 4) ≡ suc (length (w ++ payload)) =
      omega (arith, length-append w payload) in
    rw
      (
        append_assoc w payload more,
        read-write_int32_be len rest h,
        f,
        g,
        behind,
        e,
        k,
        take-length_append,
      )
      refl

-- A message is read back as one frame with its type and its payload, and its length is what the
-- frame reports.
pub read_frame-message :
    (type : ℕ) (payload more : Bytes) {b : Bytes}
    → message type payload ≡ some b
    → read_frame (b ++ more) ≡ frame (record { type = type; payload = payload }) (length b)
unfolding message read_frame
read_frame-message type payload more {b} e =
    let len = pos (length payload + 4) in
    let (w, written, made) = >>=-eq-some (write_int32_be len) _ e in
    subst
      (λ c. read_frame (c ++ more) ≡ frame (record { type = type; payload = payload }) (length c))
      (some_inj made) (framed type payload more w written)

-- A value is read back as its word, its text and what stands behind.
read_value-column_value :
    (n : ℕ) (v : Option Text) {b : Bytes} (more : Bytes) {vs : Row}
    → IsText v
    → column_value v ≡ some b
    → read_values n more ≡ some vs
    → read_values (suc n) (b ++ more) ≡ some (v ∷ vs)
unfolding read_values value_of behind_value column_value
read_value-column_value n none more s e h =
    rw (read-write_int32_be (negsuc 0) more e, (drop-write_int32_be (negsuc 0) more e).0, h) refl
read_value-column_value n (some t) {b} more {vs} s e h =
    let len = pos (length (Utf8.encode t)) in
    let (w, written, made) = >>=-eq-some (write_int32_be len) _ e in
    let rest = Utf8.encode t ++ more in
    subst (λ c. read_values (suc n) (c ++ more) ≡ some (some t ∷ vs)) (some_inj made)
      (rw
        (
          append_assoc w (Utf8.encode t) more,
          read-write_int32_be len rest written,
          (drop-write_int32_be len rest written).0,
          drop-length_append,
          take-length_append,
          decode-encode t s,
          h,
        )
        refl)

read_values-column_values :
    (vs : Row) {b : Bytes} (more : Bytes)
    → All IsText vs
    → column_values vs ≡ some b
    → read_values (length vs) (b ++ more) ≡ some vs
unfolding column_values
read_values-column_values [] more s e = unfold read_values in refl
read_values-column_values (v ∷ vs) {b} more s e =
    let (x, first, f) = >>=-eq-some (column_value v) _ e in
    let (y, others, made) = >>=-eq-some (column_values vs) _ f in
    subst (λ c. read_values (suc (length vs)) (c ++ more) ≡ some (v ∷ vs)) (some_inj made)
      (subst (λ c. read_values (suc (length vs)) c ≡ some (v ∷ vs)) (sym (append_assoc x y more))
        (read_value-column_value (length vs) v (y ++ more) s.0 first
          (read_values-column_values vs more s.1 others)))

-- The payload of a DataRow message is read back as the row, nulls included.
pub read_data_row-payload :
    (vs : Row) {b : Bytes}
    → All IsText vs
    → data_row_payload vs ≡ some b
    → read_data_row b ≡ some vs
unfolding data_row_payload read_data_row
read_data_row-payload vs {b} s e =
    let (w, count, f) = >>=-eq-some (write_int16_be (pos (length vs))) _ e in
    let (y, values, made) = >>=-eq-some (column_values vs) _ f in
    subst (λ c. read_data_row c ≡ some vs) (some_inj made)
      (rw
        (
          read-write_int16_be (pos (length vs)) y count,
          (drop-write_int16_be (pos (length vs)) y count).0,
        )
        (subst (λ c. read_values (length vs) c ≡ some vs) (append-nil y)
          (read_values-column_values vs [] s values)))

-- The 18 bytes behind a column's name.
meta_bytes : Bytes → Bytes
meta_bytes oid = 0 ∷ 0 ∷ 0 ∷ 0 ∷ 0 ∷ 0 ∷ (oid ++ (255 ∷ 255 ∷ 255 ∷ 255 ∷ 255 ∷ 255 ∷ 0 ∷ 0 ∷ []))

drop-meta_bytes :
    (z : ℤ) {oid : Bytes} (more : Bytes)
    → write_int32_be z ≡ some oid
    → (read_int32_be (drop 6 (meta_bytes oid ++ more)) ≡ some z)
      × (drop 18 (meta_bytes oid ++ more) ≡ more)
unfolding meta_bytes read_int32_be write_int32_be
drop-meta_bytes (pos n) more h = ground arith
drop-meta_bytes (negsuc n) more h = ground arith

read_columns_step :
    (n : ℕ) (b r : Bytes) (name : Text) (oid : ℤ) {cs : List PostgresColumn}
    → read_cstring b ≡ (name, r)
    → read_int32_be (drop 6 r) ≡ some oid
    → read_columns n (drop 18 r) ≡ some cs
    → read_columns (suc n) b ≡ some (record { name = name; type_oid = oid } ∷ cs)
unfolding read_columns
read_columns_step n b r name oid e f g = rw (e, f, g) refl

read_column-column_field :
    (n : ℕ) (c : PostgresColumn) {b : Bytes} (more : Bytes) {cs : List PostgresColumn}
    → IsName c.name
    → column_field c ≡ some b
    → read_columns n more ≡ some cs
    → read_columns (suc n) (b ++ more) ≡ some (c ∷ cs)
unfolding column_field meta_bytes
read_column-column_field n c {b} more {cs} s e h =
    let (oid, written, made) = >>=-eq-some (write_int32_be c.type_oid) _ e in
    let (at, behind) = drop-meta_bytes c.type_oid more written in
    subst (λ x. read_columns (suc n) (x ++ more) ≡ some (c ∷ cs)) (some_inj made)
      (read_columns_step n _ (meta_bytes oid ++ more) c.name c.type_oid
        (ap read_cstring (append_assoc (cstring c.name) (meta_bytes oid) more)
          ∙ read_cstring-cstring c.name (meta_bytes oid ++ more) s)
        at (subst (λ z. read_columns n z ≡ some cs) (sym behind) h))

read_columns-column_fields :
    (cs : List PostgresColumn) {b : Bytes} (more : Bytes)
    → All (λ c. IsName c.name) cs
    → column_fields cs ≡ some b
    → read_columns (length cs) (b ++ more) ≡ some cs
unfolding column_fields
read_columns-column_fields [] more s e = unfold read_columns in refl
read_columns-column_fields (c ∷ cs) {b} more s e =
    let (x, first, f) = >>=-eq-some (column_field c) _ e in
    let (y, others, made) = >>=-eq-some (column_fields cs) _ f in
    subst (λ z. read_columns (suc (length cs)) (z ++ more) ≡ some (c ∷ cs)) (some_inj made)
      (subst (λ z. read_columns (suc (length cs)) z ≡ some (c ∷ cs)) (sym (append_assoc x y more))
        (read_column-column_field (length cs) c (y ++ more) s.0 first
          (read_columns-column_fields cs more s.1 others)))

-- The payload of a RowDescription message is read back as the columns, their type OIDs included.
pub read_row_description-payload :
    (cs : List PostgresColumn) {b : Bytes}
    → All (λ c. IsName c.name) cs
    → row_description_payload cs ≡ some b
    → read_row_description b ≡ some cs
unfolding row_description_payload read_row_description
read_row_description-payload cs {b} s e =
    let (w, count, f) = >>=-eq-some (write_int16_be (pos (length cs))) _ e in
    let (y, fields, made) = >>=-eq-some (column_fields cs) _ f in
    subst (λ c. read_row_description c ≡ some cs) (some_inj made)
      (rw
        (
          read-write_int16_be (pos (length cs)) y count,
          (drop-write_int16_be (pos (length cs)) y count).0,
        )
        (subst (λ c. read_columns (length cs) c ≡ some cs) (append-nil y)
          (read_columns-column_fields cs [] s fields)))
