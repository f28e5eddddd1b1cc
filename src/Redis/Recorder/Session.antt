-- ===== src/Redis/Recorder/Session.antt =====
-- The recorder on the bytes of a whole connection.
use mathlib.Core.List.{foldl}
use cognivox_record.Prelude.{
  ℕ, ◌≡◌, refl, false, sym, ◌∙◌, ap, List, [], ◌∷◌, ◌++◌, append-nil, Option, some, ◌>>=◌, All,
}
use cognivox_record.Framing.{consume}
use cognivox_record.Framing.Encoded.{concat_map, consume-concat_map}
use cognivox_record.Resp.{RespValue, decode, encode}
use cognivox_record.Resp.Reader.{decode-IsReader}
use cognivox_record.Resp.RoundTrip.{IsWire, decode-encode_value}
use cognivox_record.Redis.Recorder.{
  Queue, RedisRecorder, fresh, on_request, on_reply, keep_client, keep_server, on_client_data,
  on_server_data,
}
use cognivox_record.Redis.Recorder.Pairing.{
  Event, request, reply, responses, log, sent, answered, IsAnswerable, run, pairing,
}

-- A burst of whole values from one side.
pub data Turn : Type 0 where
  client server : List RespValue → Turn

abbrev pub IsWireTurn : Turn → Type 0
IsWireTurn (client vs) = All IsWire vs
IsWireTurn (server vs) = All IsWire vs

abbrev as_requests : List RespValue → List Event
as_requests [] = []
as_requests (v ∷ vs) = request v ∷ as_requests vs

abbrev as_replies : List RespValue → List Event
as_replies [] = []
as_replies (v ∷ vs) = reply v ∷ as_replies vs

abbrev pub turn_events : Turn → List Event
turn_events (client vs) = as_requests vs
turn_events (server vs) = as_replies vs

abbrev pub events : List Turn → List Event
events [] = []
events (t ∷ ts) = turn_events t ++ events ts

module _ (clock : ℕ → ℕ) where
  -- The burst as the bytes that the proxy hands to the recorder.
  abbrev pub deliver : RedisRecorder → Turn → Option RedisRecorder
  deliver s (client vs) = on_client_data clock s (concat_map encode vs)
  deliver s (server vs) = on_server_data clock s (concat_map encode vs)

  abbrev pub deliver_all : RedisRecorder → List Turn → Option RedisRecorder
  deliver_all s [] = some s
  deliver_all s (t ∷ ts) = deliver s t >>= λ u. deliver_all u ts

  -- A recorder between two whole messages.
  abbrev at_rest : Queue → RedisRecorder
  at_rest q = record { client_buffer = []; server_buffer = []; queue = q }

  consume_burst :
      (on_value : Queue → RespValue → Queue) (q : Queue) (vs : List RespValue)
      → All IsWire vs
      → consume decode on_value q (concat_map encode vs)
        ≡ record { state = foldl on_value q vs; rest = []; faulted = false }
  consume_burst on_value q vs h =
      ap (consume decode on_value q) (sym (append-nil (concat_map encode vs)))
      ∙ consume-concat_map decode-IsReader on_value encode IsWire decode-encode_value q vs [] h
          decode-IsReader.empty

  run-as_requests :
      (q : Queue) (vs : List RespValue)
      → foldl (on_request clock) q vs ≡ run clock q (as_requests vs)
  run-as_requests q [] = refl
  run-as_requests q (v ∷ vs) = run-as_requests (on_request clock q v) vs

  run-as_replies :
      (q : Queue) (vs : List RespValue) → foldl (on_reply clock) q vs ≡ run clock q (as_replies vs)
  run-as_replies q [] = refl
  run-as_replies q (v ∷ vs) = run-as_replies (on_reply clock q v) vs

  deliver_turn :
      (q : Queue) (t : Turn)
      → IsWireTurn t
      → deliver (at_rest q) t ≡ some (at_rest (run clock q (turn_events t)))
  unfolding on_client_data on_server_data keep_client keep_server
  deliver_turn q (client vs) h =
      ap (keep_client clock (at_rest q)) (consume_burst (on_request clock) q vs h)
      ∙ ap (λ r. some (at_rest r)) (run-as_requests q vs)
  deliver_turn q (server vs) h =
      ap (keep_server clock (at_rest q)) (consume_burst (on_reply clock) q vs h)
      ∙ ap (λ r. some (at_rest r)) (run-as_replies q vs)

  run-append :
      (q : Queue) (es fs : List Event) → run clock q (es ++ fs) ≡ run clock (run clock q es) fs
  run-append q [] fs = refl
  run-append q (request v ∷ es) fs = run-append (on_request clock q v) es fs
  run-append q (reply v ∷ es) fs = run-append (on_reply clock q v) es fs

  deliver_turns :
      (q : Queue) (ts : List Turn)
      → All IsWireTurn ts
      → deliver_all (at_rest q) ts ≡ some (at_rest (run clock q (events ts)))
  deliver_turns q [] h = refl
  deliver_turns q (t ∷ ts) h = rw (deliver_turn q t h.0) (
      deliver_turns (run clock q (turn_events t)) ts h.1
      ∙ ap (λ r. some (at_rest r)) (sym (run-append q (turn_events t) (events ts))))

  -- On the bytes of any conversation in which each reply comes while a command waits, the recorder
  -- runs to its end with both buffers empty, and records the k-th reply for the k-th command.
  pub session :
      (ts : List Turn)
      → All IsWireTurn ts
      → IsAnswerable 0 (events ts)
      → (s : RedisRecorder) × (deliver_all fresh ts ≡ some s)
        × (s.client_buffer ≡ [])
        × (s.server_buffer ≡ [])
        × (log s.queue ≡ sent (events ts))
        × (responses s.queue.completed ≡ answered (events ts))
  session ts h k =
      let (l, r) = pairing clock (events ts) k in
      (
        at_rest (run clock fresh.queue (events ts)),
        deliver_turns fresh.queue ts h,
        refl,
        refl,
        l,
        r,
      )
