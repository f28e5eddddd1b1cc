-- ===== src/Framing/Loop.antt =====
-- The loop ends by its own test: the fuel is enough, and what is left holds no whole message.
use cognivox_record.Prelude.{
  ℕ, zero, suc, ◌≤◌, ◌≡◌, refl, sym, ◌∙◌, ◌⊎◌, inl, inr, true, false, [], ◌∷◌, arith, length, drop,
  length-drop,
}
use cognivox_record.Text.Utf8.{Bytes}
use cognivox_record.Framing.{Read, partial, frame, fault, consume_upto, consume, IsReader}

pub Read-cases {ℓ} :
    {A : Type ℓ} (r : Read A) → (r ≡ partial) ⊎ (r ≡ fault) ⊎ ((v : A) × (n : ℕ) × (r ≡ frame v n))
Read-cases partial = inl refl
Read-cases (frame v n) = inr (inr (v, n, refl))
Read-cases fault = inr (inl refl)

module _ {ℓ κ} {A : Type ℓ} {S : Type κ} (read : Bytes → Read A) (on_value : S → A → S) where
  pub consume_upto_partial :
      (f : ℕ) (s : S) (b : Bytes)
      → read b ≡ partial
      → consume_upto read on_value f s b ≡ record { state = s; rest = b; faulted = false }
  unfolding consume_upto
  consume_upto_partial zero s b e = refl
  consume_upto_partial (suc f) s b e = rw (e, consume_upto)

  pub consume_upto_fault :
      (f : ℕ) (s : S) (b : Bytes)
      → read b ≡ fault
      → consume_upto read on_value (suc f) s b ≡ record { state = s; rest = b; faulted = true }
  unfolding consume_upto
  consume_upto_fault f s b e = rw (e, consume_upto)

  pub consume_upto_frame :
      (f : ℕ) (s : S) (b : Bytes) (v : A) (n : ℕ)
      → read b ≡ frame v n
      → consume_upto read on_value (suc f) s b
        ≡ consume_upto read on_value f (on_value s v) (drop n b)
  unfolding consume_upto
  consume_upto_frame f s b v n e = rw (e, consume_upto)

module _ {ℓ κ} {A : Type ℓ} {S : Type κ} {read : Bytes → Read A} (laws : IsReader read)
    (on_value : S → A → S) where
  frame_nonempty : (b : Bytes) (v : A) (n : ℕ) → read b ≡ frame v n → length b ≡ 0 → ⊥
  frame_nonempty b v n e h = omega (arith, laws.bounds b v n e)

  drop_shorter :
      (f : ℕ) (b : Bytes) (v : A) (n : ℕ)
      → read b ≡ frame v n
      → length b ≤ suc f
      → length (drop n b) ≤ f
  drop_shorter f b v n e h = omega (arith, laws.bounds b v n e, length-drop n b)

  -- Any two amounts of fuel that cover the bytes give the same run.
  pub consume_upto_enough :
      (f g : ℕ) (s : S) (b : Bytes)
      → length b ≤ f
      → length b ≤ g
      → consume_upto read on_value f s b ≡ consume_upto read on_value g s b
  consume_upto_enough zero g s [] hf hg =
      consume_upto_partial read on_value zero s [] laws.empty
      ∙ sym (consume_upto_partial read on_value g s [] laws.empty)
  consume_upto_enough zero g s (x ∷ b) hf hg = absurd (omega arith)
  consume_upto_enough (suc f) zero s [] hf hg =
      consume_upto_partial read on_value (suc f) s [] laws.empty
      ∙ sym (consume_upto_partial read on_value zero s [] laws.empty)
  consume_upto_enough (suc f) zero s (x ∷ b) hf hg = absurd (omega arith)
  consume_upto_enough (suc f) (suc g) s b hf hg = elim (Read-cases (read b)) [
    | inl e ↦
        consume_upto_partial read on_value (suc f) s b e
        ∙ sym (consume_upto_partial read on_value (suc g) s b e)
    | inr (inl e) ↦
        consume_upto_fault read on_value f s b e ∙ sym (consume_upto_fault read on_value g s b e)
    | inr (inr (v, n, e)) ↦
        consume_upto_frame read on_value f s b v n e
        ∙ consume_upto_enough f g (on_value s v) (drop n b) (drop_shorter f b v n e hf)
            (drop_shorter g b v n e hg)
        ∙ sym (consume_upto_frame read on_value g s b v n e)
  ]

  pub consume_partial :
      (s : S) (b : Bytes)
      → read b ≡ partial
      → consume read on_value s b ≡ record { state = s; rest = b; faulted = false }
  unfolding consume
  consume_partial s b e = consume_upto_partial read on_value (length b) s b e

  -- One turn of the loop.
  pub consume_frame :
      (s : S) (b : Bytes) (v : A) (n : ℕ)
      → read b ≡ frame v n
      → consume read on_value s b ≡ consume read on_value (on_value s v) (drop n b)
  unfolding consume
  consume_frame s b v n e =
      let (lo, hi) = laws.bounds b v n e in
      consume_upto_enough (length b) (suc (length b)) s b (omega arith) (omega arith)
      ∙ consume_upto_frame read on_value (length b) s b v n e
      ∙ consume_upto_enough (length b) (length (drop n b)) (on_value s v) (drop n b)
          (omega (arith, length-drop n b)) (omega arith)

  pub consume_fault :
      (s : S) (b : Bytes)
      → read b ≡ fault
      → consume read on_value s b ≡ record { state = s; rest = b; faulted = true }
  unfolding consume
  consume_fault s b e =
      consume_upto_enough (length b) (suc (length b)) s b (omega arith) (omega arith)
      ∙ consume_upto_fault read on_value (length b) s b e

  rest_partial_upto :
      (f : ℕ) (s : S) (b : Bytes)
      → length b ≤ f
      → (consume_upto read on_value f s b).faulted ≡ false
      → read (consume_upto read on_value f s b).rest ≡ partial
  rest_partial_upto zero s [] h ok = unfold consume_upto in laws.empty
  rest_partial_upto zero s (x ∷ b) h ok = absurd (omega arith)
  rest_partial_upto (suc f) s b h ok = elim (Read-cases (read b)) [
    | inl e ↦ rw (consume_upto_partial read on_value (suc f) s b e) e
    | inr (inl e) ↦ cc (consume_upto_fault read on_value f s b e)
    | inr (inr (v, n, e)) ↦ rw (consume_upto_frame read on_value f s b v n e) (
        rest_partial_upto f (on_value s v) (drop n b) (drop_shorter f b v n e h)
          (rw (consume_upto_frame read on_value f s b v n e) at ok))
  ]

  -- The loop stops only where the reader asks for more bytes, or at a fault.
  pub rest_partial :
      (s : S) (b : Bytes)
      → (consume read on_value s b).faulted ≡ false
      → read (consume read on_value s b).rest ≡ partial
  unfolding consume
  rest_partial s b = rest_partial_upto (length b) s b (omega arith)
