-- ===== src/Mongo/Server/Replies.antt =====
-- What the server writes to a connection for the commands that it reads there.
use cognivox_record.Prelude.{
  ℕ, suc, ◌≡◌, refl, sym, subst, ◌∙◌, ap, List, [], ◌∷◌, ◌++◌, append-nil, append_assoc, Option,
  none, some, ◌>>=◌,
}
use cognivox_record.Prelude.Int.{pos}
use cognivox_record.Text.Utf8.{Text, Bytes}
use cognivox_record.Bson.{Fields, Platform}
use cognivox_record.Bson.Decode.{Outcome, done, threw, stalled}
use cognivox_record.Mongo.{MongoMessage}
use cognivox_record.Mongo.Loop.{ended, scan, messages}
use cognivox_record.Mongo.Loop.Runs.{Runs, scan-Runs}
use cognivox_record.Mongo.Replay.{reply_to}
use cognivox_record.Mongo.Replay.Answers.{reply_all}
use cognivox_record.Mongo.Reply.{encode_reply}
use cognivox_record.Mongo.Server.{Served, Connection, write, answer, on_data}

write-done :
    (s : Served) (o : Option Bytes)
    → (write s o).1 ≡ done tt
    → (bytes : Bytes) × (o ≡ some bytes)
      × ((write s o).0 ≡ record s { written = s.written ++ (bytes ∷ []) })
unfolding write
write-done s none h = cc
write-done s (some bytes) h = (bytes, refl, refl)

ended-done : (o : Outcome ℕ) → ended o ≡ done tt → (p : ℕ) × (o ≡ done p)
unfolding ended
ended-done (done p) h = (p, refl)
ended-done threw h = cc
ended-done stalled h = cc

-- The replies in the frames of the messages that they answer; the first gets the request id behind
-- `n`.
abbrev pub framed : Platform → ℕ → List MongoMessage → List Fields → Option (List Bytes)
framed platform n (m ∷ ms) (v ∷ vs) =
    encode_reply platform m.request_id (pos (suc n)) v m.op_code >>= λ x.
    framed platform (suc n) ms vs >>= λ xs. some (x ∷ xs)
framed platform n _ _ = some []

module _ (platform : Platform) (now : ℕ → Text) where
  -- The commands of messages, each with the time of its reply.
  abbrev pub asked : ℕ → List MongoMessage → List (Text × Fields)
  asked n [] = []
  asked n (m ∷ ms) = (now (suc n), m.body) ∷ asked (suc n) ms

  abbrev pub Written : Served → List MongoMessage → Served → Type 0
  Written s ms t =
      (bs : List Bytes) × (framed platform s.next_request_id ms
          (reply_all platform s.replay (asked s.next_request_id ms))
        ≡ some bs)
      × (t.written ≡ s.written ++ bs)

  Runs-Written :
      (s t : Served) (ms : List MongoMessage) → Runs (answer platform now) s ms t → Written s ms t
  unfolding answer
  Runs-Written s t [] h = ([], refl, sym (ap (λ u. u.written) h) ∙ sym (append-nil s.written))
  Runs-Written s t (m ∷ ms) (first, others) =
      let id = suc s.next_request_id in
      let v = (reply_to platform (now id) s.replay m.body).0 in
      let replay = (reply_to platform (now id) s.replay m.body).1 in
      let reply = encode_reply platform m.request_id (pos id) v m.op_code in
      let rest = framed platform id ms (reply_all platform replay (asked id ms)) in
      let (bytes, e, w) =
        write-done (record s { next_request_id = id; replay = replay }) reply first in
      let after : Served = record {
        next_request_id = id;
        replay = replay;
        written = s.written ++ (bytes ∷ []);
      } in
      let (bs, f, k) =
        Runs-Written after t ms (subst (λ u. Runs (answer platform now) u ms t) w others) in
      (
        bytes ∷ bs,
        ap {B = Option (List Bytes)} (λ o. o >>= λ x. rest >>= λ xs. some (x ∷ xs)) e
            ∙ ap {B = Option (List Bytes)} (λ o. o >>= λ xs. some (bytes ∷ xs)) f,
        k ∙ append_assoc s.written (bytes ∷ []) bs,
      )

  -- A listener that returns has written, in order and behind what was written before, the frames of
  -- the replay's answers to the whole messages at hand: each names the id of its message and is
  -- numbered on from the last, and none is missing.
  pub on_data-replies :
      (c : Connection) (chunk : Bytes)
      → (on_data platform now c chunk).1 ≡ done tt
      → Written c.served
          (messages platform (c.buffered ++ chunk)).0
          (on_data platform now c chunk).0.served
  unfolding on_data
  on_data-replies c chunk h =
      let b = c.buffered ++ chunk in
      let (p, e) = ended-done (scan platform (answer platform now) b c.served).offset h in
      Runs-Written c.served (scan platform (answer platform now) b c.served).state
        (messages platform b).0 (scan-Runs platform (answer platform now) b c.served p e).0
