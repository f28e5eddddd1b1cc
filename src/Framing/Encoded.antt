-- ===== src/Framing/Encoded.antt =====
-- A stream that is a row of encoded messages is read as those messages.
use mathlib.Core.List.{foldl}
use cognivox_record.Prelude.{
  ◌≡◌, ◌∙◌, ap, false, List, [], ◌∷◌, ◌++◌, append_assoc, length, drop-length_append, All,
}
use cognivox_record.Text.Utf8.{Bytes}
use cognivox_record.Framing.{Read, partial, frame, consume, IsReader}
use cognivox_record.Framing.Loop.{consume_partial, consume_frame}

abbrev pub concat_map {ℓ} : {A : Type ℓ} → (A → Bytes) → List A → Bytes
concat_map enc [] = []
concat_map enc (v ∷ vs) = enc v ++ concat_map enc vs

module _ {ℓ κ} {A : Type ℓ} {S : Type κ} {read : Bytes → Read A} (laws : IsReader read)
    (on_value : S → A → S) where
  -- `P` are the values whose encoding the reader reads back whatever follows it.
  pub consume-concat_map {μ} :
      (enc : A → Bytes) (P : A → Type μ)
      → ((v : A) (more : Bytes) → P v → read (enc v ++ more) ≡ frame v (length (enc v)))
      → (s : S) (vs : List A) (tail : Bytes) → All P vs
      → read tail ≡ partial
      → consume read on_value s (concat_map enc vs ++ tail)
        ≡ record { state = foldl on_value s vs; rest = tail; faulted = false }
  consume-concat_map enc P reads s [] tail h e = consume_partial laws on_value s tail e
  consume-concat_map enc P reads s (v ∷ vs) tail h e =
      ap (consume read on_value s) (append_assoc (enc v) (concat_map enc vs) tail)
      ∙ consume_frame laws on_value s _ v (length (enc v)) (reads v _ h.0)
      ∙ ap (consume read on_value (on_value s v))
          (drop-length_append (enc v) (concat_map enc vs ++ tail))
      ∙ consume-concat_map enc P reads (on_value s v) vs tail h.1 e
