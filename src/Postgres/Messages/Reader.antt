-- ===== src/Postgres/Messages/Reader.antt =====
-- `readFrame` is a reader in the sense of Framing.
use cognivox_record.Prelude.{
  ℕ, suc, ◌-◌, ◌≤◌, ◌<◌, ◌≡◌, refl, sym, ◌∙◌, ap, [], ◌∷◌, ◌++◌, Option, none, some, arith, length,
  take, drop, length-append, length-drop, drop-append_le, take-append_le, Option-cases, inl, inr,
}
use cognivox_record.Prelude.Int.{ℤ, pos, negsuc, read_int32_be}
use cognivox_record.Text.Utf8.{Bytes}
use cognivox_record.Framing.{partial, frame, fault, IsReader}
use cognivox_record.Postgres.Messages.{PostgresFrame, frame_behind, read_frame}

-- A word that has arrived does not change.
pub read_int32_be-append :
    (r more : Bytes) (z : ℤ)
    → read_int32_be r ≡ some z
    → (read_int32_be (r ++ more) ≡ some z) × (4 ≤ length r)
unfolding read_int32_be
read_int32_be-append [] more z h = cc
read_int32_be-append (a ∷ []) more z h = cc
read_int32_be-append (a ∷ b ∷ []) more z h = cc
read_int32_be-append (a ∷ b ∷ c ∷ []) more z h = cc
read_int32_be-append (a ∷ b ∷ c ∷ d ∷ r) more z h = (h, omega arith)

slice_stable :
    (n : ℕ) (r more : Bytes)
    → 4 ≤ n
    → n ≤ length r
    → take (n - 4) (drop 4 (r ++ more)) ≡ take (n - 4) (drop 4 r)
slice_stable n r more h k =
    rw (drop-append_le 4 r more (omega arith))
      (take-append_le (n - 4) (drop 4 r) more (omega (arith, length-drop 4 r)))

frame_behind-bounds :
    (t : ℕ) (r : Bytes) (o : Option ℤ) (v : PostgresFrame) (n : ℕ)
    → frame_behind t r o ≡ frame v n
    → (0 < n) × (n ≤ suc (length r))
unfolding frame_behind
frame_behind-bounds t r none v n e = cc
frame_behind-bounds t r (some (negsuc z)) v n e = cc
frame_behind-bounds t r (some (pos len)) v n e = ground arith

frame_behind-stable :
    (t : ℕ) (r more : Bytes) (o : Option ℤ) (v : PostgresFrame) (n : ℕ)
    → frame_behind t r o ≡ frame v n
    → frame_behind t (r ++ more) o ≡ frame v n
unfolding frame_behind
frame_behind-stable t r more none v n e = cc
frame_behind-stable t r more (some (negsuc z)) v n e = cc
frame_behind-stable t r more (some (pos len)) v n e =
    ground (arith, slice_stable len r more, length-append r more)

frame_behind-ne_fault : (t : ℕ) (r : Bytes) (o : Option ℤ) → frame_behind t r o ≡ fault → ⊥
unfolding frame_behind
frame_behind-ne_fault t r none e = cc
frame_behind-ne_fault t r (some (negsuc z)) e = cc
frame_behind-ne_fault t r (some (pos len)) e = ground arith

pub read_frame-ne_fault : (b : Bytes) → read_frame b ≡ fault → ⊥
unfolding read_frame
read_frame-ne_fault [] e = cc
read_frame-ne_fault (t ∷ r) e = frame_behind-ne_fault t r (read_int32_be r) e

read_frame-bounds :
    (b : Bytes) (v : PostgresFrame) (n : ℕ) → read_frame b ≡ frame v n → (0 < n) × (n ≤ length b)
unfolding read_frame
read_frame-bounds [] v n e = cc
read_frame-bounds (t ∷ r) v n e = frame_behind-bounds t r (read_int32_be r) v n e

read_frame-stable :
    (b more : Bytes) (v : PostgresFrame) (n : ℕ)
    → read_frame b ≡ frame v n
    → read_frame (b ++ more) ≡ frame v n
unfolding read_frame
read_frame-stable [] more v n e = cc
read_frame-stable (t ∷ r) more v n e = elim (Option-cases (read_int32_be r)) [
  | inl missing ↦ cc (ap (frame_behind t r) missing, frame_behind-none t r)
  | inr (z, found) ↦
      ap (frame_behind t (r ++ more)) ((read_int32_be-append r more z found).0 ∙ sym found)
      ∙ frame_behind-stable t r more (read_int32_be r) v n e
]
  where
    frame_behind-none : (t : ℕ) (r : Bytes) → frame_behind t r none ≡ partial
    frame_behind-none t r = unfold frame_behind in refl

-- Postgres frames are cut out of a stream by a reader that waits for whole frames.
pub read_frame-IsReader : IsReader read_frame
read_frame-IsReader = record {
  empty = unfold read_frame in refl;
  bounds = read_frame-bounds;
  stable = read_frame-stable;
  fault_stable = λ b more e. absurd (read_frame-ne_fault b e);
}
