-- ===== src/Mongo/Loop/Runs.antt =====
-- The loop with a callback that may throw.
use cognivox_record.Prelude.{
  ℕ, zero, suc, ◌+◌, ◌≡◌, refl, List, [], ◌∷◌, Option, none, some, length,
}
use cognivox_record.Text.Utf8.{Bytes}
use cognivox_record.Bson.{Platform}
use cognivox_record.Bson.Decode.{Outcome, done, threw, stalled}
use cognivox_record.Mongo.{MongoMessage, read_message}
use cognivox_record.Mongo.Loop.{Ending, Scan, scan_upto, scan, messages_upto, messages}

-- The callback runs on each message in turn, without an exception, and leaves the last state.
abbrev pub Runs :
    {S : Type 0} → (S → MongoMessage → S × Ending) → S → List MongoMessage → S → Type 0
Runs on s [] t = s ≡ t
Runs on s (m ∷ ms) t = ((on s m).1 ≡ done tt) × Runs on (on s m).0 ms t

module _ {S : Type 0} (platform : Platform) (on : S → MongoMessage → S × Ending) where
  -- What a loop that ended found: the messages, run through, and the offset.
  abbrev Found : Scan S → List MongoMessage × Outcome ℕ → S → ℕ → Type 0
  Found r q s p = (r.offset ≡ done p) → Runs on s q.0 r.state × (q.1 ≡ done p)

  by_ending :
      (fuel : ℕ) (b : Bytes) (o : ℕ) (s : S) (p : ℕ) (m : MongoMessage) (en : Ending)
      → (on s m).1 ≡ en
      → read_message platform b o ≡ done (some m)
      → ((u : ℕ) (t : S)
          → Found (scan_upto platform on fuel b u t) (messages_upto platform fuel b u) t p)
      → Found (scan_upto platform on (suc fuel) b o s) (messages_upto platform (suc fuel) b o) s p
  unfolding scan_upto messages_upto
  by_ending fuel b o s p m threw k e rec = rw (scan_upto, messages_upto, e, k) (λ h. cc)
  by_ending fuel b o s p m stalled k e rec = rw (scan_upto, messages_upto, e, k) (λ h. cc)
  by_ending fuel b o s p m (done u) k e rec =
      rw (scan_upto, messages_upto, e, k)
        (λ h. let (runs, end) = rec (o + m.bytes) (on s m).0 h in ((refl, runs), end))

  by_message :
      (fuel : ℕ) (b : Bytes) (o : ℕ) (s : S) (p : ℕ) (r : Outcome (Option MongoMessage))
      → read_message platform b o ≡ r
      → ((u : ℕ) (t : S)
          → Found (scan_upto platform on fuel b u t) (messages_upto platform fuel b u) t p)
      → Found (scan_upto platform on (suc fuel) b o s) (messages_upto platform (suc fuel) b o) s p
  unfolding scan_upto messages_upto
  by_message fuel b o s p threw e rec = rw (scan_upto, messages_upto, e) (λ h. cc)
  by_message fuel b o s p stalled e rec = rw (scan_upto, messages_upto, e) (λ h. cc)
  by_message fuel b o s p (done none) e rec = rw (scan_upto, messages_upto, e) (λ h. (refl, h))
  by_message fuel b o s p (done (some m)) e rec = by_ending fuel b o s p m (on s m).1 refl e rec

  scan_upto-Runs :
      (fuel : ℕ) (b : Bytes) (o : ℕ) (s : S) (p : ℕ)
      → Found (scan_upto platform on fuel b o s) (messages_upto platform fuel b o) s p
  unfolding scan_upto messages_upto
  scan_upto-Runs zero b o s p h = cc
  scan_upto-Runs (suc fuel) b o s p h =
      by_message fuel b o s p (read_message platform b o) refl
        (λ u t k. scan_upto-Runs fuel b u t p k) h

  -- A loop that ends has run the callback on every whole message of the buffer.
  pub scan-Runs :
      (b : Bytes) (s : S) (p : ℕ)
      → (scan platform on b s).offset ≡ done p
      → Runs on s (messages platform b).0 (scan platform on b s).state
        × ((messages platform b).1 ≡ done p)
  unfolding scan messages
  scan-Runs b s p h = scan_upto-Runs (suc (length b)) b 0 s p h
