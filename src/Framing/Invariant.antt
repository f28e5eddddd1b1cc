-- ===== src/Framing/Invariant.antt =====
-- What holds of the state through every turn of the loop.
use cognivox_record.Prelude.{ℕ, zero, suc, ◌≡◌, refl, inl, inr, false, length, drop}
use cognivox_record.Text.Utf8.{Bytes}
use cognivox_record.Framing.{Read, fault, consume_upto, consume}
use cognivox_record.Framing.Loop.{
  Read-cases, consume_upto_partial, consume_upto_frame, consume_upto_fault,
}

module _ {ℓ κ} {A : Type ℓ} {S : Type κ} (read : Bytes → Read A) (on_value : S → A → S) where
  invariant_upto {μ} :
      (P : S → Type μ)
      → ((s : S) (v : A) → P s → P (on_value s v))
      → (f : ℕ) (s : S) (b : Bytes) → P s
      → P (consume_upto read on_value f s b).state
  invariant_upto P keeps zero s b h = unfold consume_upto in h
  invariant_upto P keeps (suc f) s b h = elim (Read-cases (read b)) [
    | inl e ↦ rw (consume_upto_partial read on_value (suc f) s b e) h
    | inr (inl e) ↦ rw (consume_upto_fault read on_value f s b e) h
    | inr (inr (v, n, e)) ↦
        rw (consume_upto_frame read on_value f s b v n e)
          (invariant_upto P keeps f (on_value s v) (drop n b) (keeps s v h))
  ]

  -- A predicate that each value keeps holds of the state behind the loop.
  pub consume-invariant {μ} :
      (P : S → Type μ) (s : S) (b : Bytes)
      → ((s : S) (v : A) → P s → P (on_value s v))
      → P s
      → P (consume read on_value s b).state
  unfolding consume
  consume-invariant P s b keeps h = invariant_upto P keeps (length b) s b h

  unfaulted_upto :
      ((b : Bytes) → read b ≡ fault → ⊥)
      → (f : ℕ) (s : S) (b : Bytes) → (consume_upto read on_value f s b).faulted ≡ false
  unfaulted_upto never zero s b = unfold consume_upto in refl
  unfaulted_upto never (suc f) s b = elim (Read-cases (read b)) [
    | inl e ↦ rw (consume_upto_partial read on_value (suc f) s b e) refl
    | inr (inl e) ↦ absurd (never b e)
    | inr (inr (v, n, e)) ↦
        rw (consume_upto_frame read on_value f s b v n e)
          (unfaulted_upto never f (on_value s v) (drop n b))
  ]

  -- A reader that never faults lets the loop run to its end.
  pub consume-unfaulted :
      (s : S) (b : Bytes)
      → ((b : Bytes) → read b ≡ fault → ⊥)
      → (consume read on_value s b).faulted ≡ false
  unfolding consume
  consume-unfaulted s b never = unfaulted_upto never (length b) s b
