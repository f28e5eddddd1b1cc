-- ===== src/Mongo/Loop.antt =====
-- The loop over the messages of a buffer (`consume` of src/record/protocols/mongoRecorder.ts, and the
-- loop of src/replay/mongoReplayServer.ts).
pub mod Bounds
pub mod Runs
use cognivox_record.Prelude.{
  ℕ, zero, suc, ◌+◌, ◌≡◌, refl, List, [], ◌∷◌, Option, none, some, length,
}
use cognivox_record.Text.Utf8.{Bytes}
use cognivox_record.Bson.{Platform}
use cognivox_record.Bson.Decode.{Outcome, done, threw, stalled}
use cognivox_record.Mongo.{MongoMessage, read_message}

-- The state the callback left behind, and the offset where the loop ended.
pub record Scan {ℓ} (S : Type ℓ) : Type ℓ where
  pub state : S
  pub offset : Outcome ℕ

-- How a handler ended.
abbrev pub Ending : Type 0
Ending = Outcome Unit

unfoldable pub ended : Outcome ℕ → Ending
ended (done o) = done tt
ended threw = threw
ended stalled = stalled

module _ {ℓ} {S : Type ℓ} (platform : Platform) (on_message : S → MongoMessage → S × Ending) where
  -- `on_message` gives the state in which it returned or threw. A message has 16 bytes at least, so
  -- there are fewer rounds than bytes.
  unfoldable pub scan_upto : ℕ → Bytes → ℕ → S → Scan S
  scan_upto zero b o s = record { state = s; offset = stalled }
  scan_upto (suc fuel) b o s = elim (read_message platform b o) [
    | threw ↦ record { state = s; offset = threw }
    | stalled ↦ record { state = s; offset = stalled }
    | done none ↦ record { state = s; offset = done o }
    | done (some m) ↦
        let (t, outcome) = on_message s m in
        elim outcome [
          | done _ ↦ scan_upto fuel b (o + m.bytes) t
          | threw ↦ record { state = t; offset = threw }
          | stalled ↦ record { state = t; offset = stalled }
        ]
  ]

  unfoldable pub scan : Bytes → S → Scan S
  unfolding scan_upto
  scan b s = scan_upto (suc (length b)) b 0 s

-- The whole messages from an offset on, and where they end.
module _ (platform : Platform) where
  unfoldable pub messages_upto : ℕ → Bytes → ℕ → List MongoMessage × Outcome ℕ
  messages_upto zero b o = ([], stalled)
  messages_upto (suc fuel) b o = elim (read_message platform b o) [
    | threw ↦ ([], threw)
    | stalled ↦ ([], stalled)
    | done none ↦ ([], done o)
    | done (some m) ↦ let (ms, e) = messages_upto fuel b (o + m.bytes) in (m ∷ ms, e)
  ]

  unfoldable pub messages : Bytes → List MongoMessage × Outcome ℕ
  unfolding messages_upto
  messages b = messages_upto (suc (length b)) b 0

abbrev pub after_all : {S : Type 0} → (S → MongoMessage → S) → S → List MongoMessage → S
after_all f s [] = s
after_all f s (m ∷ ms) = after_all f (f s m) ms

module _ {S : Type 0} (platform : Platform) (f : S → MongoMessage → S) where
  abbrev folded : List MongoMessage × Outcome ℕ → S → Scan S
  folded (ms, e) s = record { state = after_all f s ms; offset = e }

  by_message :
      (fuel : ℕ) (b : Bytes) (o : ℕ) (s : S) (r : Outcome (Option MongoMessage))
      → read_message platform b o ≡ r
      → ((p : ℕ) (t : S)
          → scan_upto platform (λ s m. (f s m, done tt)) fuel b p t
            ≡ folded (messages_upto platform fuel b p) t)
      → scan_upto platform (λ s m. (f s m, done tt)) (suc fuel) b o s
        ≡ folded (messages_upto platform (suc fuel) b o) s
  unfolding scan_upto messages_upto
  by_message fuel b o s threw e h = rw (e, scan_upto, messages_upto) refl
  by_message fuel b o s stalled e h = rw (e, scan_upto, messages_upto) refl
  by_message fuel b o s (done none) e h = rw (e, scan_upto, messages_upto) refl
  by_message fuel b o s (done (some m)) e h =
      rw (e, scan_upto, messages_upto) (h (o + m.bytes) (f s m))

  scan_upto-after_all :
      (fuel : ℕ) (b : Bytes) (o : ℕ) (s : S)
      → scan_upto platform (λ s m. (f s m, done tt)) fuel b o s
        ≡ folded (messages_upto platform fuel b o) s
  unfolding scan_upto messages_upto
  scan_upto-after_all zero b o s = refl
  scan_upto-after_all (suc fuel) b o s =
      by_message fuel b o s (read_message platform b o) refl (λ p t. scan_upto-after_all fuel b p t)

  -- A callback that does not throw is run on each message of the buffer in turn.
  pub scan-after_all :
      (b : Bytes) (s : S)
      → scan platform (λ s m. (f s m, done tt)) b s
        ≡ record { state = after_all f s (messages platform b).0; offset = (messages platform b).1 }
  unfolding scan messages
  scan-after_all b s = scan_upto-after_all (suc (length b)) b 0 s
