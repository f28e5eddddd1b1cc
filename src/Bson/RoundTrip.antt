-- ===== src/Bson/RoundTrip.antt =====
-- A document that is encoded is decoded to itself.
use cognivox_record.Prelude.{
  length-drop, drop, ℕ, zero, suc, ◌+◌, ◌≤◌, ◌≡◌, refl, sym, subst, ◌∙◌, ap, true, false, [], ◌∷◌,
  ◌++◌, Option, none, some, ◌>>=◌, >>=-eq-some, some_inj, arith, length, length-append,
  drop-length_append, get_elem?-drop, All, ◌==◌, ◌⊎◌, inl, inr,
}
use cognivox_record.Prelude.Int.{pos, read_int32_le}
use cognivox_record.Text.Utf8
use cognivox_record.Text.Utf8.{Text, Bytes, codes, IsScalar}
use cognivox_record.Text.Words.{equal}
use cognivox_record.Text.Names.{IsName}
use cognivox_record.Text.Decimal.{print_nat, print_nat-IsDigit}
use cognivox_record.Bson.{
  BsonValue, null, boolean, number, string, array, document, BsonValues, no_values, value, Fields,
  no_fields, field, get_field, set_all, Platform,
}
use cognivox_record.Bson.Decode.{
  Outcome, done, Element, is_one, nested_value, read_element, decode_document,
}
use cognivox_record.Bson.Encode.{
  coded, string_body, text_of, close_document, tag, encode_value, encode_object, encode_fields,
  encode_items, encode_document, encode_tagged,
}
use cognivox_record.Bson.Objects.{indexed, count, index_bound, values_of-indexed}
use cognivox_record.Bson.Reads.{IsByte, from_hex-hex}
use cognivox_record.Bson.Wire.{object_id_fields, IsWire, AreWire, AreWireFields, digits-IsName}
use cognivox_record.Bson.Loops.{
  length-close_document, ReadsAs, LoopsTo, LoopsTo-none, LoopsTo-field, close_document-reads,
}
use cognivox_record.Bson.Elements.{
  coded-eq-some, ReadsAs-object_id, ReadsAs-string, ReadsAs-number, ReadsAs-nested,
}

module _ (platform : Platform) where
  ReadsAs-null : (f : ℕ) → ReadsAs platform f null 0x0a []
  unfolding read_element
  ReadsAs-null f =
      (refl, λ b o r at. ap {B = Outcome Element} (λ n. done (null, pos n)) (omega arith))

  ReadsAs-boolean : (f c : ℕ) → ReadsAs platform f (boolean (c == 1)) 0x08 (c ∷ [])
  unfolding read_element is_one
  ReadsAs-boolean f c = (
    refl,
    λ b o r at.
        ap {B = Outcome Element} (λ x. done (boolean (is_one x), pos (o + 1)))
          (get_elem?-drop o b c r at),
  )

  -- A document or an array, where its elements are read at every depth that is large enough.
  ReadsAs-closed :
      (f type : ℕ) (v : BsonValue) (fs : Fields) (elements : Option Bytes) {body : Bytes}
      → (type ≡ 0x03) ⊎ (type ≡ 0x04)
      → nested_value type (set_all no_fields fs) ≡ v
      → (elements >>= close_document) ≡ some body
      → length body ≤ f
      → ((xs : Bytes) → elements ≡ some xs → (g : ℕ) → length xs ≤ g → LoopsTo platform g fs xs)
      → ReadsAs platform f v type body
  ReadsAs-closed zero type v fs elements k w e h loops =
      let (xs, made, closed) = >>=-eq-some elements close_document e in
      absurd (omega (arith, length-close_document xs closed))
  ReadsAs-closed (suc f) type v fs elements k w e h loops =
      let (xs, made, closed) = >>=-eq-some elements close_document e in
      ReadsAs-nested platform f type v fs xs k w
        (loops xs made f (omega (arith, length-close_document xs closed))) closed

  ReadsAs-object :
      (f : ℕ) (fs : Fields) (type : ℕ) (body : Bytes) (elements : Option Bytes)
      → text_of (get_field (codes "$type") fs) ≡ none
      → set_all no_fields fs ≡ fs
      → encode_object platform fs (text_of (get_field (codes "$type") fs)) elements
        ≡ some (type, body)
      → length body ≤ f
      → ((xs : Bytes) → elements ≡ some xs → (g : ℕ) → length xs ≤ g → LoopsTo platform g fs xs)
      → ReadsAs platform f (document fs) type body
  unfolding encode_object nested_value
  ReadsAs-object f fs type body elements plain keys e h loops =
      let e1 : coded 0x03 (elements >>= close_document) ≡ some (type, body) = rw plain at e in
      let (closed, t) = coded-eq-some 0x03 (elements >>= close_document) e1 in
      ReadsAs-closed f type (document fs) fs elements (inl t)
        (ap (λ k. nested_value k (set_all no_fields fs)) t ∙ ap document keys) closed h loops

  ReadsAs-array :
      (f : ℕ) (vs : BsonValues) (type : ℕ) (body : Bytes)
      → count vs ≤ index_bound
      → coded 0x04 (encode_items platform 0 vs >>= close_document) ≡ some (type, body)
      → length body ≤ f
      → ((xs : Bytes)
          → encode_items platform 0 vs ≡ some xs
          → (g : ℕ) → length xs ≤ g
          → LoopsTo platform g (indexed 0 vs) xs)
      → ReadsAs platform f (array vs) type body
  unfolding nested_value
  ReadsAs-array f vs type body bound e h loops =
      let (closed, t) = coded-eq-some 0x04 (encode_items platform 0 vs >>= close_document) e in
      ReadsAs-closed f type (array vs) (indexed 0 vs) (encode_items platform 0 vs) (inr t)
        (ap (λ k. nested_value k (set_all no_fields (indexed 0 vs))) t
          ∙ ap array (values_of-indexed vs bound))
        closed h loops

  encode_object-id :
      (id : Bytes) (elements : Option Bytes)
      → All IsByte id
      → let fs = object_id_fields id in
        encode_object platform fs (text_of (get_field (codes "$type") fs)) elements
        ≡ some (0x07, id)
  unfolding encode_object encode_tagged get_field equal
  encode_object-id id elements h = ap (λ x. some (0x07, x)) (from_hex-hex id h)

  ReadsAs-id :
      (f : ℕ) (fs : Fields) (type : ℕ) (body id : Bytes) (elements : Option Bytes)
      → length id ≡ 12
      → All IsByte id
      → fs ≡ object_id_fields id
      → encode_object platform fs (text_of (get_field (codes "$type") fs)) elements
        ≡ some (type, body)
      → ReadsAs platform f (document fs) type body
  ReadsAs-id f fs type body id elements long bytes e h =
      let c : (0x07, id) ≡ (type, body) = some_inj (
        sym (encode_object-id id elements bytes)
        ∙ ap (λ x. encode_object platform x (text_of (get_field (codes "$type") x)) elements)
            (sym e)
        ∙ h) in
      subst (λ c. ReadsAs platform f (document fs) c.0 c.1) c
        (subst (λ x. ReadsAs platform f (document x) 0x07 id) (sym e)
          (ReadsAs-object_id platform f id long))

  LoopsTo-tag :
      (f : ℕ) (name : Text) (v : BsonValue) (fs : Fields) (c : ℕ × Bytes) (rest body : Bytes)
      → IsName name
      → tag name c ++ rest ≡ body
      → length body ≤ f
      → (length c.1 ≤ f → ReadsAs platform f v c.0 c.1)
      → (length rest ≤ f → LoopsTo platform f fs rest)
      → LoopsTo platform f (field name v fs) body
  LoopsTo-tag f name v fs (type, xs) rest body w e h reads loops =
      let size : length (tag name (type, xs) ++ rest)
          ≡ length (Utf8.encode name) + 2 + length xs + length rest =
        unfold tag in
        omega (
          arith,
          length-append (Utf8.encode name ++ (0 ∷ xs)) rest,
          length-append (Utf8.encode name) (0 ∷ xs),
        ) in
      subst (LoopsTo platform f (field name v fs)) e (
        LoopsTo-field platform f name v fs type xs rest w (reads (omega (arith, size, ap length e)))
          (loops (omega (arith, size, ap length e))))

  mutual
    unfolding encode_value encode_fields encode_items

    value_back :
        (v : BsonValue) (f type : ℕ) (body : Bytes)
        → IsWire v
        → encode_value platform v ≡ some (type, body)
        → length body ≤ f
        → ReadsAs platform f v type body
    value_back null f type body w e h =
        subst (λ c. ReadsAs platform f null c.0 c.1) (some_inj e) (ReadsAs-null f)
    value_back (boolean true) f type body w e h =
        subst (λ c. ReadsAs platform f (boolean true) c.0 c.1) (some_inj e) (ReadsAs-boolean f 1)
    value_back (boolean false) f type body w e h =
        subst (λ c. ReadsAs platform f (boolean false) c.0 c.1) (some_inj e) (ReadsAs-boolean f 0)
    value_back (number n) f type body w e h = ReadsAs-number platform f n type body w e
    value_back (string t) f type body w e h =
        let (made, k) = coded-eq-some 0x02 (string_body t) e in
        subst (λ k. ReadsAs platform f (string t) k body) (sym k)
          (ReadsAs-string platform f t w made)
    value_back (array vs) f type body w e h =
        ReadsAs-array f vs type body w.1 e h
          (λ xs made g small. items_back vs g 0 xs w.0 made small)
    value_back (document fs) f type body (inl w) e h =
        ReadsAs-object f fs type body (encode_fields platform fs) w.2 w.1 e h
          (λ xs made g small. fields_back fs g xs w.0 made small)
    value_back (document fs) f type body (inr (id, long, bytes, k)) e h =
        ReadsAs-id f fs type body id (encode_fields platform fs) long bytes k e

    fields_back :
        (fs : Fields) (f : ℕ) (body : Bytes)
        → AreWireFields fs
        → encode_fields platform fs ≡ some body
        → length body ≤ f
        → LoopsTo platform f fs body
    fields_back no_fields f body w e h =
        subst (LoopsTo platform f no_fields) (some_inj e) (LoopsTo-none platform f)
    fields_back (field name v fs) f body w e h =
        let (c, coded_v, e1) = >>=-eq-some (encode_value platform v) _ e in
        let (rest, coded_fs, made) = >>=-eq-some (encode_fields platform fs) _ e1 in
        LoopsTo-tag f name v fs c rest body w.0 (some_inj made) h
          (λ small. value_back v f c.0 c.1 w.1 coded_v small)
          (λ small. fields_back fs f rest w.2 coded_fs small)

    items_back :
        (vs : BsonValues) (f n : ℕ) (body : Bytes)
        → AreWire vs
        → encode_items platform n vs ≡ some body
        → length body ≤ f
        → LoopsTo platform f (indexed n vs) body
    items_back no_values f n body w e h =
        subst (LoopsTo platform f no_fields) (some_inj e) (LoopsTo-none platform f)
    items_back (value v vs) f n body w e h =
        let (c, coded_v, e1) = >>=-eq-some (encode_value platform v) _ e in
        let (rest, coded_vs, made) = >>=-eq-some (encode_items platform (suc n) vs) _ e1 in
        LoopsTo-tag f (print_nat n) v (indexed (suc n) vs) c rest body
          (digits-IsName (print_nat n) (print_nat-IsDigit n)) (some_inj made) h
          (λ small. value_back v f c.0 c.1 w.0 coded_v small)
          (λ small. items_back vs f (suc n) rest w.1 coded_vs small)

-- What the readers find where a document was written.
pub encode_document-reads :
    (platform : Platform) (fs : Fields) {bytes : Bytes} (b : Bytes) (o : ℕ) (r : Bytes)
    → AreWireFields fs
    → set_all no_fields fs ≡ fs
    → encode_document platform fs ≡ some bytes
    → drop o b ≡ bytes ++ r
    → (read_int32_le (drop o b) ≡ some (pos (length bytes)))
      × (decode_document platform b o ≡ done fs)
unfolding encode_document decode_document
encode_document-reads platform fs {bytes} b o r w keys e at =
    let (elements, made, closed) = >>=-eq-some (encode_fields platform fs) close_document e in
    let enough : length elements ≤ length b = omega (
      arith,
      length-close_document elements closed,
      ap length at,
      length-drop o b,
      length-append bytes r,
    ) in
    let (size, decoded) =
      close_document-reads platform (length b) fs elements
        (fields_back platform fs (length b) elements w made enough) closed b o r at in
    (size, decoded ∙ ap done keys)

-- A document of values that BSON carries without loss is decoded to itself, wherever it starts in a
-- buffer and whatever follows it, if it is encoded at all; the loops of the decoder end.
pub decode-encode_document :
    (platform : Platform) (fs : Fields) (before_it : Bytes) {bytes : Bytes} (after_it : Bytes)
    → AreWireFields fs
    → set_all no_fields fs ≡ fs
    → encode_document platform fs ≡ some bytes
    → decode_document platform (before_it ++ (bytes ++ after_it)) (length before_it) ≡ done fs
decode-encode_document platform fs before_it {bytes} after_it w keys e =
    (encode_document-reads platform fs (before_it ++ (bytes ++ after_it)) (length before_it)
      after_it w keys e (drop-length_append before_it (bytes ++ after_it))).1
