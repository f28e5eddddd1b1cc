-- ===== src/Bson/Elements.antt =====
-- The body of an element is read as the value it was written for.
use cognivox_record.Prelude.{
  ℕ, suc, ◌+◌, ◌^◌, ◌<◌, ◌≡◌, refl, sym, subst, ◌∙◌, ap, false, [], ◌++◌, Option, none, some,
  some_inj, arith, length, take, drop, take-length_append, All, ◌==◌, ◌⊎◌, inl, inr,
}
use cognivox_record.Prelude.Int.{ℤ, pos, read_int32_le, write_int32_le, drop-write_int32_le}
use cognivox_record.Text.Utf8
use cognivox_record.Text.Utf8.{Text, Bytes, codes, IsScalar}
use cognivox_record.Bson.{
  Number, integer, double, BsonValue, number, string, document, Fields, no_fields, set_all, tagged,
  Platform,
}
use cognivox_record.Bson.Numbers.{number_of_bits, write_word64_le}
use cognivox_record.Bson.Decode.{
  Outcome, done, Element, ◌then_read◌, checked, advance, string_text, nested_value, read_element,
  decode_upto, hex,
}
use cognivox_record.Bson.Encode.{coded, encode_number, string_body, close_document}
use cognivox_record.Bson.Reads.{read_int32-at, read_word64-at, string_body-at}
use cognivox_record.Bson.Wire.{object_id_fields, IsWire}
use cognivox_record.Bson.Loops.{ReadsAs, LoopsTo, close_document-reads}

length_word : (n : ℕ) → length (write_word64_le n) ≡ 8
unfolding write_word64_le
length_word n = refl

k_plain : {type : ℕ} → (type ≡ 0x03) ⊎ (type ≡ 0x04) → (type == 0) ≡ false
k_plain (inl e) = rw e refl
k_plain (inr e) = rw e refl

pub coded-eq-some :
    (type : ℕ) (o : Option Bytes) {t : ℕ} {body : Bytes}
    → coded type o ≡ some (t, body)
    → (o ≡ some body) × (t ≡ type)
coded-eq-some type none h = cc
coded-eq-some type (some b) h =
    (ap some (ap (λ p. p.1) (some_inj h)), ap (λ p. p.0) (sym (some_inj h)))

module _ (platform : Platform) where
  read_nested :
      {type : ℕ}
      → (type ≡ 0x03) ⊎ (type ≡ 0x04)
      → (nested : ℕ → Outcome Fields) (b : Bytes) (o : ℕ)
      → read_element platform nested b type o ≡ (
          checked (read_int32_le (drop o b)) then_read λ n.
          nested o then_read λ fs. done (nested_value type fs, advance o n))
  unfolding read_element
  read_nested (inl e) nested b o = rw e refl
  read_nested (inr e) nested b o = rw e refl

  pub ReadsAs-object_id :
      (f : ℕ) (id : Bytes)
      → length id ≡ 12
      → ReadsAs platform f (document (object_id_fields id)) 0x07 id
  unfolding read_element
  ReadsAs-object_id f id h = (
    refl,
    λ b o r at.
        let e : take 12 (drop o b) ≡ id =
          ap (take 12) at ∙ ap (λ n. take n (id ++ r)) (sym h) ∙ take-length_append id r in
        ap {B = Outcome Element} (λ x. done (tagged (codes "objectId") (hex x), pos (o + 12))) e
        ∙ ap {B = Outcome Element} (λ n. done (document (object_id_fields id), pos (o + n)))
            (sym h),
  )

  pub ReadsAs-string :
      (f : ℕ) (t : Text) {body : Bytes}
      → All IsScalar t
      → string_body t ≡ some body
      → ReadsAs platform f (string t) 0x02 body
  unfolding read_element
  ReadsAs-string f t {body} h e = (
    refl,
    λ b o r at.
        let (size, text, long) = string_body-at b o t r h e at in
        let k : o + 4 + (length (Utf8.encode t) + 1) ≡ o + length body = omega (arith, long) in
        ap {B = Outcome Element}
          (λ z. checked z then_read λ n. done (string (string_text b (o + 4) n), advance (o + 4) n))
          size
        ∙ ap {B = Outcome Element}
            (λ x. done (string x, pos (o + 4 + (length (Utf8.encode t) + 1)))) text
        ∙ ap {B = Outcome Element} (λ n. done (string t, pos n)) k,
  )

  ReadsAs-int32 :
      (f : ℕ) (z : ℤ) {body : Bytes}
      → write_int32_le z ≡ some body
      → ReadsAs platform f (number (integer z)) 0x10 body
  unfolding read_element
  ReadsAs-int32 f z {body} e = (
    refl,
    λ b o r at.
        ap {B = Outcome Element}
          (λ z. checked z then_read λ n. done (number (integer n), pos (o + 4)))
          (read_int32-at b o z r e at).0
        ∙ ap {B = Outcome Element} (λ n. done (number (integer z), pos (o + n)))
            (sym (drop-write_int32_le z [] e).1),
  )

  ReadsAs-double :
      (f n : ℕ)
      → n < 2 ^ 64
      → number_of_bits n ≡ double n
      → ReadsAs platform f (number (double n)) 0x01 (write_word64_le n)
  unfolding read_element
  ReadsAs-double f n h k = (
    refl,
    λ b o r at.
        ap {B = Outcome Element}
          (λ z. checked z then_read λ m. done (number (number_of_bits m), pos (o + 8)))
          (read_word64-at b o n r h at)
        ∙ ap {B = Outcome Element} (λ m. done (number m, pos (o + 8))) k
        ∙ ap {B = Outcome Element} (λ m. done (number (double n), pos (o + m)))
            (sym (length_word n)),
  )

  pub ReadsAs-number :
      (f : ℕ) (n : Number) (type : ℕ) (body : Bytes)
      → IsWire (number n)
      → encode_number n ≡ some (type, body)
      → ReadsAs platform f (number n) type body
  unfolding encode_number
  ReadsAs-number f (integer z) type body h e =
      let (written, t) = coded-eq-some 0x10 (write_int32_le z) (rw h at e) in
      subst (λ k. ReadsAs platform f (number (integer z)) k body) (sym t)
        (ReadsAs-int32 f z written)
  ReadsAs-number f (double n) type body h e =
      subst (λ c. ReadsAs platform f (number (double n)) c.0 c.1) (some_inj e)
        (ReadsAs-double f n h.0 h.1)

  pub ReadsAs-nested :
      (f : ℕ) (type : ℕ) (v : BsonValue) (fs : Fields) (elements : Bytes) {body : Bytes}
      → (type ≡ 0x03) ⊎ (type ≡ 0x04)
      → nested_value type (set_all no_fields fs) ≡ v
      → LoopsTo platform f fs elements
      → close_document elements ≡ some body
      → ReadsAs platform (suc f) v type body
  ReadsAs-nested f type v fs elements {body} k w loops e = (
    k_plain k,
    λ b o r at.
        let (size, decoded) = close_document-reads platform f fs elements loops e b o r at in
        read_nested k (decode_upto platform (suc f) b) b o
        ∙ ap {B = Outcome Element}
            (λ z. checked z then_read λ n. decode_upto platform (suc f) b o then_read λ fs.
              done (nested_value type fs, advance o n))
            size
        ∙ ap {B = Outcome Element}
            (λ z. z then_read λ fs. done (nested_value type fs, pos (o + length body))) decoded
        ∙ ap {B = Outcome Element} (λ x. done (x, pos (o + length body))) w,
  )
