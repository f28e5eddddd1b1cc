-- ===== src/Mongo/Loop/Bounds.antt =====
-- The loop never ends behind the bytes of its buffer.
use cognivox_record.Prelude.{
  ℕ, zero, suc, ◌+◌, ◌≤◌, ◌≡◌, refl, ap, Bool, true, false, ◌||◌, Option, none, some, length, drop,
  ltb, arith, Bool-cases, inl, inr,
}
use cognivox_record.Prelude.Int.{ℤ, pos, negsuc, read_int32_le}
use cognivox_record.Text.Utf8.{Bytes}
use cognivox_record.Bson.{Fields, Platform}
use cognivox_record.Bson.Decode.{Outcome, done, threw, stalled, ◌then_read◌, checked}
use cognivox_record.Mongo.{MongoMessage, header_bytes, read_body, read_whole, read_message}
use cognivox_record.Mongo.Loop.{messages_upto, messages}

abbrev bytes_of : Outcome (Option MongoMessage) → ℕ
bytes_of (done (some m)) = m.bytes
bytes_of (done none) = 0
bytes_of threw = 0
bytes_of stalled = 0

or-false : (a b : Bool) → (a || b) ≡ false → b ≡ false
or-false true b h = cc
or-false false b h = h

size_read :
    (x : Outcome ℤ) (f : ℤ → Outcome (Option MongoMessage)) (m : MongoMessage)
    → (x then_read f) ≡ done (some m)
    → (z : ℤ) × (f z ≡ done (some m))
size_read (done z) f m h = (z, h)
size_read threw f m h = cc
size_read stalled f m h = cc

body_read :
    (id to op : ℤ) (size : ℕ) (x : Outcome Fields) (m : MongoMessage)
    → (x then_read (λ fs. done (
        some
          (record { request_id = id; response_to = to; op_code = op; body = fs; bytes = size }))))
      ≡ done (some m)
    → size ≡ m.bytes
body_read id to op size (done fs) m h = ap bytes_of h
body_read id to op size threw m h = cc
body_read id to op size stalled m h = cc

header_read :
    (id to op : Outcome ℤ) (size : ℕ) (f : ℤ → Outcome Fields) (m : MongoMessage)
    → (id then_read λ i. to then_read λ t. op then_read λ p. f p then_read λ fs.
        done
          (some (record { request_id = i; response_to = t; op_code = p; body = fs; bytes = size })))
      ≡ done (some m)
    → size ≡ m.bytes
header_read (done i) (done t) (done p) size f m h = body_read i t p size (f p) m h
header_read (done i) (done t) threw size f m h = cc
header_read (done i) (done t) stalled size f m h = cc
header_read (done i) threw op size f m h = cc
header_read (done i) stalled op size f m h = cc
header_read threw to op size f m h = cc
header_read stalled to op size f m h = cc

module _ (platform : Platform) where
  read_whole-inside :
      (b : Bytes) (o : ℕ) (z : ℤ) (m : MongoMessage)
      → read_whole platform b o z ≡ done (some m)
      → o + m.bytes ≤ length b
  unfolding read_whole
  read_whole-inside b o (negsuc size) m h = cc
  read_whole-inside b o (pos size) m h =
      elim (Bool-cases (ltb size header_bytes || ltb (length b) (o + size))) [
        | inl short ↦ let no : done none ≡ done (some m) = rw short at h in cc
        | inr whole ↦
            let size_bytes : size ≡ m.bytes =
              header_read (checked (read_int32_le (drop (o + 4) b)))
                (checked (read_int32_le (drop (o + 8) b)))
                (checked (read_int32_le (drop (o + 12) b))) size (read_body platform b o size) m
                (rw whole at h) in
            let inside : ltb (length b) (o + size) ≡ false =
              or-false (ltb size header_bytes) (ltb (length b) (o + size)) whole in
            ground arith
      ]

  read_message-inside :
      (b : Bytes) (o : ℕ) (m : MongoMessage)
      → read_message platform b o ≡ done (some m)
      → o + m.bytes ≤ length b
  unfolding read_message
  read_message-inside b o m h = elim (Bool-cases (ltb (length b) (o + header_bytes))) [
    | inl short ↦ let no : done none ≡ done (some m) = rw short at h in cc
    | inr long ↦
        let (size, h1) =
          size_read (checked (read_int32_le (drop o b))) (read_whole platform b o) m
            (rw long at h) in
        read_whole-inside b o size m h1
  ]

  by_message :
      (fuel : ℕ) (b : Bytes) (o p : ℕ) (r : Outcome (Option MongoMessage))
      → read_message platform b o ≡ r
      → o ≤ length b
      → ((u : ℕ) → u ≤ length b → (messages_upto platform fuel b u).1 ≡ done p → p ≤ length b)
      → (messages_upto platform (suc fuel) b o).1 ≡ done p
      → p ≤ length b
  unfolding messages_upto
  by_message fuel b o p threw e i rec = rw (messages_upto, e) (λ h. cc)
  by_message fuel b o p stalled e i rec = rw (messages_upto, e) (λ h. cc)
  by_message fuel b o p (done none) e i rec =
      rw (messages_upto, e)
        (λ h.
          let same : o ≡ p =
            ap (λ (x : Outcome ℕ). elim x [ done n ↦ n | threw ↦ 0 | stalled ↦ 0 ]) h in
          omega arith)
  by_message fuel b o p (done (some m)) e i rec =
      rw (messages_upto, e) (λ h. rec (o + m.bytes) (read_message-inside b o m e) h)

  messages_upto-inside :
      (fuel : ℕ) (b : Bytes) (o p : ℕ)
      → o ≤ length b
      → (messages_upto platform fuel b o).1 ≡ done p
      → p ≤ length b
  unfolding messages_upto
  messages_upto-inside zero b o p i h = cc
  messages_upto-inside (suc fuel) b o p i h =
      by_message fuel b o p (read_message platform b o) refl i
        (λ u j k. messages_upto-inside fuel b u p j k) h

  pub messages-inside : (b : Bytes) (p : ℕ) → (messages platform b).1 ≡ done p → p ≤ length b
  unfolding messages
  messages-inside b p h = messages_upto-inside (suc (length b)) b 0 p (omega arith) h
