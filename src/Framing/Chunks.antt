-- ===== src/Framing/Chunks.antt =====
-- Where a stream is cut into chunks does not change what the loop makes of it.
use cognivox_record.Prelude.{
  ℕ, zero, suc, ◌<◌, ◌≡◌, refl, sym, ◌∙◌, ap, inl, inr, true, false, ◌++◌, arith, length,
  length-drop, drop, drop-append_le,
}
use cognivox_record.Text.Utf8.{Bytes}
use cognivox_record.Framing.{Read, frame, Consumed, consume, IsReader}
use cognivox_record.Framing.Loop.{Read-cases, consume_partial, consume_frame, consume_fault}

module _ {ℓ κ} {A : Type ℓ} {S : Type κ} {read : Bytes → Read A} (laws : IsReader read)
    (on_value : S → A → S) where
  -- What the loop goes on to do when the bytes `y` arrive behind a run that left `r`.
  abbrev pub resume : Consumed S → Bytes → Consumed S
  resume r y = elim r.faulted [
    | false ↦ consume read on_value r.state (r.rest ++ y)
    | true ↦ record { state = r.state; rest = r.rest ++ y; faulted = true }
  ]

  split_frame :
      (s : S) (x y : Bytes) (v : A) (n : ℕ)
      → read x ≡ frame v n
      → consume read on_value (on_value s v) (drop n x ++ y)
        ≡ resume (consume read on_value (on_value s v) (drop n x)) y
      → consume read on_value s (x ++ y) ≡ resume (consume read on_value s x) y
  split_frame s x y v n e ih =
      consume_frame laws on_value s (x ++ y) v n (laws.stable x y v n e)
      ∙ ap (consume read on_value (on_value s v)) (drop-append_le n x y (laws.bounds x v n e).1)
      ∙ ih
      ∙ ap (λ r. resume r y) (sym (consume_frame laws on_value s x v n e))

  split_upto :
      (f : ℕ) (s : S) (x y : Bytes)
      → length x < f
      → consume read on_value s (x ++ y) ≡ resume (consume read on_value s x) y
  split_upto zero s x y h = elim h [ ]
  split_upto (suc f) s x y h = elim (Read-cases (read x)) [
    | inl e ↦ rw (consume_partial laws on_value s x e) refl
    | inr (inl e) ↦
        rw (consume_fault laws on_value s x e)
          (consume_fault laws on_value s (x ++ y) (laws.fault_stable x y e))
    | inr (inr (v, n, e)) ↦ split_frame s x y v n e (
        split_upto f (on_value s v) (drop n x) y
          (omega (arith, laws.bounds x v n e, length-drop n x)))
  ]

  -- Two chunks read one after the other leave what the one chunk made of both leaves.
  pub consume-append :
      (s : S) (x y : Bytes)
      → consume read on_value s (x ++ y) ≡ resume (consume read on_value s x) y
  consume-append s x y = split_upto (suc (length x)) s x y (omega arith)
