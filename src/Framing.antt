-- ===== src/Framing.antt =====
-- The loop by which the recorders and replay servers of Redis and Postgres cut a byte stream into whole messages
-- (`consume` of src/record/protocols/redisRecorder.ts, and the same loop written out in
-- postgresRecorder.ts and their replay servers; the one of MongoDB is in Mongo/Loop). A position in a buffer is the list of
-- the bytes from there on, so `offset += n` drops `n` bytes.
pub mod Loop
pub mod Chunks
pub mod Encoded
pub mod Invariant
use cognivox_record.Prelude.{
  ℕ, zero, suc, ◌+◌, ◌≤◌, ◌<◌, ◌≡◌, Bool, true, false, List, [], ◌++◌, length, drop,
}
use cognivox_record.Text.Utf8.{Bytes}

-- What a reader finds at a position: too few bytes (the source's `null`), a value with the number
-- of bytes that it took, or a fault (an exception, or a header beyond what is modelled).
pub data Read {ℓ} (A : Type ℓ) : Type ℓ where
  partial : Read A
  frame : A → ℕ → Read A
  fault : Read A

-- Where the loop stopped: the state, the bytes that are left, and whether it met a fault.
pub record Consumed {ℓ} (S : Type ℓ) : Type ℓ where
  pub state : S
  pub rest : Bytes
  pub faulted : Bool

-- Each whole value is handed to `on_value`; each takes a byte at least, so the fuel is the length.
unfoldable pub consume_upto {ℓ κ} :
    {A : Type ℓ} {S : Type κ} → (Bytes → Read A) → (S → A → S) → ℕ → S → Bytes → Consumed S
consume_upto read on_value zero s b = record { state = s; rest = b; faulted = false }
consume_upto read on_value (suc f) s b = elim (read b) [
  | partial ↦ record { state = s; rest = b; faulted = false }
  | frame v n ↦ consume_upto read on_value f (on_value s v) (drop n b)
  | fault ↦ record { state = s; rest = b; faulted = true }
]

unfoldable pub consume {ℓ κ} :
    {A : Type ℓ} {S : Type κ} → (Bytes → Read A) → (S → A → S) → S → Bytes → Consumed S
consume read on_value s b = consume_upto read on_value (length b) s b

-- What the loop needs of a reader: a value takes some of the bytes at hand, and bytes that arrive
-- later change neither a value nor a fault.
pub record IsReader {ℓ} {A : Type ℓ} (read : Bytes → Read A) : Type ℓ where
  pub empty : read [] ≡ partial
  pub bounds : (b : Bytes) (v : A) (n : ℕ) → read b ≡ frame v n → (0 < n) × (n ≤ length b)
  pub stable : (b more : Bytes) (v : A) (n : ℕ) → read b ≡ frame v n → read (b ++ more) ≡ frame v n
  pub fault_stable : (b more : Bytes) → read b ≡ fault → read (b ++ more) ≡ fault
