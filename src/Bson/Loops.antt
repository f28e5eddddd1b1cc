-- ===== src/Bson/Loops.antt =====
-- The loop over the bytes of the elements of a document gives the fields.
use cognivox_record.Prelude.{
  ℕ, zero, suc, ◌+◌, ◌<◌, ◌≡◌, refl, sym, subst, ◌∙◌, ap, true, false, [], ◌∷◌, ◌++◌, append_assoc,
  some, >>=-eq-some, some_inj, arith, length, length-append, length-drop, drop, drop-behind,
  get_elem?, get_elem?-drop, lt→ltb, ltb-false, ◌==◌,
}
use cognivox_record.Prelude.Int.{ℤ, pos, read_int32_le, write_int32_le, drop-write_int32_le}
use cognivox_record.Text.Utf8
use cognivox_record.Text.Utf8.{Text, Bytes, codes, IsScalar}
use cognivox_record.Text.Names.{IsName}
use cognivox_record.Bson.{BsonValue, Fields, no_fields, field, set_field, set_all, Platform}
use cognivox_record.Bson.Decode.{
  Outcome, done, ◌then_read◌, checked, read_cstring, end_of, before, read_element, read_field,
  decode_fields, decode_upto,
}
use cognivox_record.Bson.Encode.{close_document, tag}
use cognivox_record.Bson.Reads.{read_cstring-at, read_int32-at}

end_of_plus : (o n : ℕ) → end_of o (pos (n + 5)) ≡ pos (o + 4 + n)
unfolding end_of
end_of_plus o n =
    let e : n + 5 ≡ suc (n + 4) = omega arith in ap (λ k. end_of o (pos k)) e ∙ ap pos (omega arith)

pub length-close_document :
    (elements : Bytes) {body : Bytes}
    → close_document elements ≡ some body
    → length body ≡ length elements + 5
unfolding close_document
length-close_document elements {body} e =
    let (w, written, made) = >>=-eq-some (write_int32_le (pos (length elements + 5))) _ e in
    omega (
      arith,
      ap length (some_inj made),
      length-append w (elements ++ (0 ∷ [])),
      length-append elements (0 ∷ []),
      (drop-write_int32_le (pos (length elements + 5)) [] written).1,
    )

module _ (platform : Platform) where
  -- What the element readers are to find at a position.
  abbrev pub ReadsAs : ℕ → BsonValue → ℕ → Bytes → Type 0
  ReadsAs f v type body =
      ((type == 0) ≡ false)
      × ((b : Bytes) (o : ℕ) (r : Bytes)
          → drop o b ≡ body ++ r
          → read_element platform (decode_upto platform f b) b type o
            ≡ done (v, pos (o + length body)))

  -- What the loop over the elements is to make of their bytes.
  abbrev pub LoopsTo : ℕ → Fields → Bytes → Type 0
  LoopsTo f fs body =
      (b : Bytes) (o : ℕ) (r : Bytes) (n : ℕ) (acc : Fields)
      → length body < n
      → drop o b ≡ body ++ (0 ∷ r)
      → decode_fields platform (decode_upto platform f b) b (pos (o + length body)) n (pos o) acc
        ≡ done (set_all acc fs)

  loop_stop :
      (nested : ℕ → Outcome Fields) (b : Bytes) (end : ℤ) (n o : ℕ) (acc : Fields)
      → before o end ≡ false
      → decode_fields platform nested b end (suc n) (pos o) acc ≡ done acc
  unfolding decode_fields
  loop_stop nested b end n o acc e = rw (e, decode_fields) refl

  loop_step :
      (nested : ℕ → Outcome Fields) (b : Bytes) (end : ℤ) (n o type after : ℕ) (acc : Fields)
      (name : Text) (v : BsonValue) (next : ℤ)
      → before o end ≡ true
      → get_elem? b o ≡ some type
      → (type == 0) ≡ false
      → read_cstring b (o + 1) ≡ (name, after)
      → read_element platform nested b type after ≡ done (v, next)
      → decode_fields platform nested b end (suc n) (pos o) acc
        ≡ decode_fields platform nested b end n next (set_field name v acc)
  unfolding decode_fields read_field
  loop_step nested b end n o type after acc name v next e f g h k =
      rw (e, f, g, h, k, decode_fields) refl

  pub LoopsTo-none : (f : ℕ) → LoopsTo f no_fields []
  LoopsTo-none f b o r zero acc h at = absurd (omega arith)
  LoopsTo-none f b o r (suc n) acc h at =
      loop_stop (decode_upto platform f b) b (pos (o + 0)) n o acc
        (unfold before in ltb-false o (o + 0) (omega arith))
      ∙ (unfold set_all in refl)

  pub LoopsTo-field :
      (f : ℕ) (name : Text) (v : BsonValue) (fs : Fields) (type : ℕ) (body rest : Bytes)
      → IsName name
      → ReadsAs f v type body
      → LoopsTo f fs rest
      → LoopsTo f (field name v fs) (tag name (type, body) ++ rest)
  unfolding tag set_all
  LoopsTo-field f name v fs type body rest w reads loops b o r zero acc h at = absurd (omega arith)
  LoopsTo-field f name v fs type body rest w reads loops b o r (suc n) acc h at =
      let key = Utf8.encode name in
      let after = o + 1 + length key + 1 in
      let nested = decode_upto platform f b in
      let behind = rest ++ (0 ∷ r) in
      let at_type : drop o b ≡ type ∷ (key ++ (0 ∷ (body ++ behind))) =
        at
        ∙ ap (◌∷◌ type)
            (append_assoc (key ++ (0 ∷ body)) rest (0 ∷ r) ∙ append_assoc key (0 ∷ body) behind) in
      let (named, at_body) =
        read_cstring-at b (o + 1) name (body ++ behind) w
          (drop-behind o b (type ∷ []) (key ++ (0 ∷ (body ++ behind))) at_type) in
      let size : length (tag name (type, body) ++ rest)
          ≡ length key + 2 + length body + length rest =
        omega (arith, length-append (key ++ (0 ∷ body)) rest, length-append key (0 ∷ body)) in
      let end : o + length (tag name (type, body) ++ rest) ≡ after + length body + length rest =
        omega (arith, size) in
      let inside : before o (pos (after + length body + length rest)) ≡ true =
        unfold before in lt→ltb o (after + length body + length rest) (omega arith) in
      subst
        (λ e.
          decode_fields platform nested b (pos e) (suc n) (pos o) acc
          ≡ done (set_all (set_field name v acc) fs))
        (sym end)
        (loop_step nested b (pos (after + length body + length rest)) n o type after acc name v
            (pos (after + length body)) inside
            (get_elem?-drop o b type (key ++ (0 ∷ (body ++ behind))) at_type) reads.0 named
            (reads.1 b after behind at_body)
          ∙ loops b (after + length body) r n (set_field name v acc) (omega (arith, size))
              (drop-behind after b body behind at_body))

  -- A closed document is read by its loop.
  pub close_document-reads :
      (f : ℕ) (fs : Fields) (elements : Bytes) {body : Bytes}
      → LoopsTo f fs elements
      → close_document elements ≡ some body
      → (b : Bytes) (o : ℕ) (r : Bytes) → drop o b ≡ body ++ r
      → (read_int32_le (drop o b) ≡ some (pos (length body)))
        × (decode_upto platform (suc f) b o ≡ done (set_all no_fields fs))
  unfolding close_document decode_upto
  close_document-reads f fs elements {body} loops e b o r at =
      let (w, written, made) = >>=-eq-some (write_int32_le (pos (length elements + 5))) _ e in
      let rest = elements ++ (0 ∷ []) in
      let (read, behind) =
        read_int32-at b o (pos (length elements + 5)) (rest ++ r) written
          (at ∙ ap (λ x. x ++ r) (sym (some_inj made)) ∙ append_assoc w rest r) in
      let at_elements : drop (o + 4) b ≡ elements ++ (0 ∷ r) =
        behind ∙ append_assoc elements (0 ∷ []) r in
      let size : length elements + 5 ≡ length body = sym (length-close_document elements e) in
      let enough : length elements < suc (length b) =
        omega
          (arith, ap length at_elements, length-drop (o + 4) b, length-append elements (0 ∷ r)) in
      (
        read ∙ ap (λ n. some (pos n)) size,
        ap
              (λ z. checked z then_read λ n.
                decode_fields platform (decode_upto platform f b) b (end_of o n) (suc (length b))
                  (pos (o + 4)) no_fields)
              read
            ∙ ap
                (λ z.
                  decode_fields platform (decode_upto platform f b) b z (suc (length b))
                    (pos (o + 4)) no_fields)
                (end_of_plus o (length elements))
            ∙ loops b (o + 4) r (suc (length b)) no_fields enough at_elements,
      )
