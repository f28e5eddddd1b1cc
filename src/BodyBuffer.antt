-- ===== src/BodyBuffer.antt =====
-- src/record/bodyBuffer.ts: a body is relayed, and at most `max_bytes` of it are kept for the recording.
use cognivox_record.Prelude.{
  ℕ, ◌+◌, ◌*◌, ◌≤◌, ◌<◌, ◌≡◌, refl, ◌⊎◌, inl, inr, Bool, true, false, List, [], ◌∷◌, ◌++◌,
  append-nil, append_assoc, Option, none, some, arith, length, length-append, ltb, ltb→lt, lt→ltb,
  ltb-false, subst, ◌==◌, if◌then◌else◌, Bool-cases, sym,
}
use cognivox_record.Text.Utf8
use cognivox_record.Text.Utf8.{Text, Bytes, replacement}

abbrev pub max_body_bytes : ℕ
max_body_bytes = 2 * 1024 * 1024

-- What the promise resolves to.
pub record CollectedBody : Type 0 where
  pub text : Option Text
  pub total_bytes : ℕ
  pub retained_bytes : ℕ
  pub truncated : Bool

-- The variables of the closure; the chunks in `retained` stand end to end.
pub record Capture : Type 0 where
  pub retained : Bytes
  pub retained_bytes : ℕ
  pub total_bytes : ℕ
  pub truncated : Bool

abbrev pub start : Capture
start = record { retained = []; retained_bytes = 0; total_bytes = 0; truncated = false }

-- The `data` handler.
unfoldable pub on_chunk : ℕ → Capture → Bytes → Capture
on_chunk max_bytes s chunk =
    let t = record s { total_bytes = s.total_bytes + length chunk } in
    if s.truncated
    then t
    else if ltb max_bytes (s.retained_bytes + length chunk)
    then record t { truncated = true; retained = []; retained_bytes = 0 }
    else record t {
      retained = s.retained ++ chunk;
      retained_bytes = s.retained_bytes + length chunk;
    }

-- `text.includes` of the replacement character.
includes_replacement : Text → Bool
includes_replacement [] = false
includes_replacement (c ∷ t) =
    let rest = includes_replacement t in if c == replacement then true else rest

decoded : Text → Option Text
unfolding includes_replacement
decoded t = if includes_replacement t then none else some t

unfoldable pub decode_text : Bytes → Option Text
unfolding decoded
decode_text [] = none
decode_text (b ∷ raw) = decoded (Utf8.decode (b ∷ raw))

-- The `end` handler.
unfoldable pub finish : Capture → CollectedBody
finish s = record {
  text = if s.truncated then none else decode_text s.retained;
  total_bytes = s.total_bytes;
  retained_bytes = s.retained_bytes;
  truncated = s.truncated;
}

abbrev pub on_chunks : ℕ → Capture → List Bytes → Capture
on_chunks max_bytes s [] = s
on_chunks max_bytes s (c ∷ cs) = on_chunks max_bytes (on_chunk max_bytes s c) cs

-- The body, as the source sent it.
abbrev pub body : List Bytes → Bytes
body [] = []
body (c ∷ cs) = c ++ body cs

-- The state when the bytes `b` have passed.
abbrev State : ℕ → Bytes → Capture → Type 0
State max_bytes b s =
    ((length b ≤ max_bytes)
      × (s ≡ record {
        retained = b;
        retained_bytes = length b;
        total_bytes = length b;
        truncated = false;
      }))
    ⊎ ((max_bytes < length b)
        × (s ≡ record {
          retained = [];
          retained_bytes = 0;
          total_bytes = length b;
          truncated = true;
        }))

on_chunk-State :
    (max_bytes : ℕ) (b : Bytes) (s : Capture) (chunk : Bytes)
    → State max_bytes b s
    → State max_bytes (b ++ chunk) (on_chunk max_bytes s chunk)
unfolding on_chunk
on_chunk-State max_bytes b s chunk (inl (small, e)) =
    rw (e, length-append b chunk)
      (elim (Bool-cases (ltb max_bytes (length b + length chunk))) [
        | inl over ↦ rw over (inr (ltb→lt max_bytes (length b + length chunk) over, refl))
        | inr fits ↦ rw fits (inl (ground arith, refl))
      ])
on_chunk-State max_bytes b s chunk (inr (large, e)) =
    rw (e, length-append b chunk) (inr (omega arith, refl))

on_chunks-State :
    (max_bytes : ℕ) (b : Bytes) (s : Capture) (cs : List Bytes)
    → State max_bytes b s
    → State max_bytes (b ++ body cs) (on_chunks max_bytes s cs)
on_chunks-State max_bytes b s [] h = subst (λ z. State max_bytes z s) (sym (append-nil b)) h
on_chunks-State max_bytes b s (c ∷ cs) h =
    subst (λ z. State max_bytes z (on_chunks max_bytes (on_chunk max_bytes s c) cs))
      (append_assoc b c (body cs))
      (on_chunks-State max_bytes (b ++ c) (on_chunk max_bytes s c) cs
        (on_chunk-State max_bytes b s c h))

-- What a body of a given size is recorded as.
abbrev pub whole : Bytes → CollectedBody
whole b = record {
  text = decode_text b;
  total_bytes = length b;
  retained_bytes = length b;
  truncated = false;
}

abbrev pub discarded : Bytes → CollectedBody
discarded b = record { text = none; total_bytes = length b; retained_bytes = 0; truncated = true }

State-finish :
    (max_bytes : ℕ) (b : Bytes) (s : Capture)
    → State max_bytes b s
    → finish s ≡ (if ltb max_bytes (length b) then discarded b else whole b)
unfolding finish
State-finish max_bytes b s (inl (small, e)) = rw (e, ltb-false max_bytes (length b) small) refl
State-finish max_bytes b s (inr (large, e)) = rw (e, lt→ltb max_bytes (length b) large) refl

-- However the body is cut into chunks: a body within the limit is collected whole, and a larger one
-- not at all, with its size counted in full. So never a prefix is recorded.
pub collected :
    (max_bytes : ℕ) (cs : List Bytes)
    → finish (on_chunks max_bytes start cs)
      ≡ (if ltb max_bytes (length (body cs)) then discarded (body cs) else whole (body cs))
collected max_bytes cs =
    State-finish max_bytes (body cs) (on_chunks max_bytes start cs)
      (on_chunks-State max_bytes [] start cs (inl (omega arith, refl)))

-- After every chunk, what is retained is the bytes counted, and no more than the limit.
pub retained_bounds :
    (max_bytes : ℕ) (cs : List Bytes)
    → let s = on_chunks max_bytes start cs in
      (length s.retained ≡ s.retained_bytes)
      × (s.retained_bytes ≤ max_bytes)
      × (s.total_bytes ≡ length (body cs))
retained_bounds max_bytes cs =
    State-bounds max_bytes (body cs) (on_chunks max_bytes start cs)
      (on_chunks-State max_bytes [] start cs (inl (omega arith, refl)))
  where
    State-bounds :
        (max_bytes : ℕ) (b : Bytes) (s : Capture)
        → State max_bytes b s
        → (length s.retained ≡ s.retained_bytes)
          × (s.retained_bytes ≤ max_bytes)
          × (s.total_bytes ≡ length b)
    State-bounds max_bytes b s (inl (small, e)) = rw e (refl, small, refl)
    State-bounds max_bytes b s (inr (large, e)) = rw e (refl, omega arith, refl)
