-- ===== src/Mongo/Recorder/Streams.antt =====
-- The bytes of one direction of a connection to MongoDB, and what of them is read.
use cognivox_record.Prelude.{
  ℕ, ◌+◌, ◌-◌, ◌≤◌, ◌≡◌, sym, ◌∙◌, ap, [], ◌++◌, length, drop, arith, length-append, length-drop,
  drop-append_le, drop-drop,
}
use cognivox_record.Text.Utf8.{Bytes}
use cognivox_record.Bson.Decode.{Outcome, done, threw, stalled}

-- The bytes of one direction that count, and how many of them were read as messages.
pub record Stream : Type 0 where
  pub bytes : Bytes
  pub start : ℕ

abbrev pub no_bytes : Stream
no_bytes = record { bytes = []; start = 0 }

abbrev pub unread : Stream → Bytes
unread d = drop d.start d.bytes

abbrev pub with_chunk : Stream → Bytes → Stream
with_chunk d c = record { bytes = d.bytes ++ c; start = d.start }

-- The direction behind a chunk: one at which the reading fails does not count.
abbrev pub advanced : Stream → Bytes → Outcome ℕ → Stream
advanced d c (done p) = record { bytes = d.bytes ++ c; start = d.start + p }
advanced d c threw = d
advanced d c stalled = d

-- A buffer holds what a direction has left unread.
abbrev pub Keeps : Bytes → Stream → Type 0
Keeps buffer d = (buffer ≡ unread d) × (d.start ≤ length d.bytes)

pub Keeps-with_chunk :
    (buffer : Bytes) (d : Stream) (c : Bytes)
    → Keeps buffer d
    → buffer ++ c ≡ unread (with_chunk d c)
Keeps-with_chunk buffer d c (e, i) = ap (λ b. b ++ c) e ∙ sym (drop-append_le d.start d.bytes c i)

pub Keeps-advanced :
    (buffer : Bytes) (d : Stream) (c : Bytes) (p : ℕ)
    → Keeps buffer d
    → p ≤ length (buffer ++ c)
    → Keeps (drop p (buffer ++ c)) (advanced d c (done p))
Keeps-advanced buffer d c p (e, i) h =
    let joined = Keeps-with_chunk buffer d c (e, i) in
    let size : length (buffer ++ c) ≡ length (d.bytes ++ c) - d.start =
      ap length joined ∙ length-drop d.start (d.bytes ++ c) in
    let grown = length-append d.bytes c in
    (ap (drop p) joined ∙ drop-drop d.start p (d.bytes ++ c), omega arith)
