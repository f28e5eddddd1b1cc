-- ===== src/Mongo/Recorder/Pairing.antt =====
-- Which reply is recorded for which command, whatever the order in which they cross the proxy.
use cognivox_record.Prelude.{
  ℕ, ◌≤◌, ◌≡◌, refl, sym, ◌∙◌, ap, Bool, true, false, List, [], ◌∷◌, ◌++◌, length, drop, arith,
}
use cognivox_record.Text.Utf8.{Bytes}
use cognivox_record.Handled.{Handled, returned, raised, never}
use cognivox_record.Bson.{Platform}
use cognivox_record.Bson.Decode.{Outcome, done, threw, stalled}
use cognivox_record.Mongo.{MongoMessage}
use cognivox_record.Mongo.Loop.{messages, after_all, scan-after_all}
use cognivox_record.Mongo.Loop.Bounds.{messages-inside}
use cognivox_record.Mongo.Recorder.{
  Table, MongoRecorder, fresh, keep_rest, on_request, on_reply, client_scan, server_scan,
  client_kept, server_kept, on_client_data, on_server_data,
}
use cognivox_record.Mongo.Recorder.Streams.{
  Stream, no_bytes, unread, with_chunk, advanced, Keeps, Keeps-with_chunk, Keeps-advanced,
}
use cognivox_record.Mongo.Recorder.Events.{
  Event, request, reply, expected, exchanges, run, run-append, run-expected,
}

-- `safely`: the run goes on behind an exception, and nothing follows a handler that never returns.
abbrev pub go_on :
    Handled MongoRecorder → (MongoRecorder → Handled MongoRecorder) → Handled MongoRecorder
go_on (returned s) f = f s
go_on (raised s) f = f s
go_on never f = never

module _ (clock : ℕ → ℕ) where
  module _ (platform : Platform) where
    -- A chunk of the client or of the server.
    abbrev pub on_chunk : MongoRecorder → Bool × Bytes → Handled MongoRecorder
    on_chunk s (true, c) = on_client_data clock platform s c
    on_chunk s (false, c) = on_server_data clock platform s c

    abbrev pub record_all : MongoRecorder → List (Bool × Bytes) → Handled MongoRecorder
    record_all s [] = returned s
    record_all s (c ∷ cs) = go_on (on_chunk s c) (λ t. record_all t cs)

    abbrev pub requests_of : List MongoMessage → List Event
    requests_of [] = []
    requests_of (m ∷ ms) = request m ∷ requests_of ms

    abbrev pub replies_of : List MongoMessage → List Event
    replies_of [] = []
    replies_of (m ∷ ms) = reply m ∷ replies_of ms

    -- The messages that become whole with each chunk, of the bytes of its direction behind those that
    -- were read.
    abbrev pub events : Stream → Stream → List (Bool × Bytes) → List Event
    events client server [] = []
    events client server ((true, c) ∷ cs) =
        let (ms, end) = messages platform (unread (with_chunk client c)) in
        requests_of ms ++ events (advanced client c end) server cs
    events client server ((false, c) ∷ cs) =
        let (ms, end) = messages platform (unread (with_chunk server c)) in
        replies_of ms ++ events client (advanced server c end) cs

    run-requests :
        (t : Table) (ms : List MongoMessage)
        → run clock t (requests_of ms) ≡ after_all (on_request clock) t ms
    run-requests t [] = refl
    run-requests t (m ∷ ms) = run-requests (on_request clock t m) ms

    run-replies :
        (t : Table) (ms : List MongoMessage)
        → run clock t (replies_of ms) ≡ after_all (on_reply clock) t ms
    run-replies t [] = refl
    run-replies t (m ∷ ms) = run-replies (on_reply clock t m) ms

    client-run :
        (s : MongoRecorder) (c : Bytes)
        → let joined = s.client_buffer ++ c in
          let (ms, end) = messages platform joined in
          let t = run clock s.table (requests_of ms) in
          on_chunk s (true, c)
          ≡ keep_rest (λ o. client_kept s joined o t) (record s { table = t }) end
    unfolding on_client_data client_scan
    client-run s c =
        let joined = s.client_buffer ++ c in
        let (ms, end) = messages platform joined in
        ap
          (λ r.
            keep_rest (λ o. client_kept s joined o r.state) (record s { table = r.state }) r.offset)
          (scan-after_all platform (on_request clock) joined s.table)
        ∙ ap (λ t. keep_rest (λ o. client_kept s joined o t) (record s { table = t }) end)
            (sym (run-requests s.table ms))

    server-run :
        (s : MongoRecorder) (c : Bytes)
        → let joined = s.server_buffer ++ c in
          let (ms, end) = messages platform joined in
          let t = run clock s.table (replies_of ms) in
          on_chunk s (false, c)
          ≡ keep_rest (λ o. server_kept s joined o t) (record s { table = t }) end
    unfolding on_server_data server_scan
    server-run s c =
        let joined = s.server_buffer ++ c in
        let (ms, end) = messages platform joined in
        ap
          (λ r.
            keep_rest (λ o. server_kept s joined o r.state) (record s { table = r.state }) r.offset)
          (scan-after_all platform (on_reply clock) joined s.table)
        ∙ ap (λ t. keep_rest (λ o. server_kept s joined o t) (record s { table = t }) end)
            (sym (run-replies s.table ms))

    -- The recorder behind the chunks, if it gets behind them, has run the events.
    abbrev Ran :
        MongoRecorder → Stream → Stream → List (Bool × Bytes) → Handled MongoRecorder → Type 0
    Ran s client server cs h =
        (final : MongoRecorder)
        → h ≡ returned final
        → final.table ≡ run clock s.table (events client server cs)

    client_step :
        (s : MongoRecorder) (client server : Stream) (c : Bytes) (cs : List (Bool × Bytes))
        (ms : List MongoMessage) (end : Outcome ℕ)
        → ((p : ℕ) → end ≡ done p → p ≤ length (s.client_buffer ++ c))
        → Keeps s.client_buffer client
        → Keeps s.server_buffer server
        → ((t : MongoRecorder) (client server : Stream)
            → Keeps t.client_buffer client
            → Keeps t.server_buffer server
            → Ran t client server cs (record_all t cs))
        → let joined = s.client_buffer ++ c in
          let t = run clock s.table (requests_of ms) in
          (final : MongoRecorder)
          → go_on
              (keep_rest (λ o. client_kept s joined o t) (record s { table = t }) end)
              (λ q. record_all q cs)
            ≡ returned final
          → final.table
            ≡ run clock s.table (requests_of ms ++ events (advanced client c end) server cs)
    unfolding client_kept
    client_step s client server c cs ms stalled i k l rec final h = cc
    client_step s client server c cs ms threw i k l rec final h =
        let t = run clock s.table (requests_of ms) in
        rec (record s { table = t }) client server k l final h
        ∙ sym (run-append clock s.table (requests_of ms) (events client server cs))
    client_step s client server c cs ms (done p) i k l rec final h =
        let joined = s.client_buffer ++ c in
        let t = run clock s.table (requests_of ms) in
        let next = advanced client c (done p) in
        rec (record s { client_buffer = drop p joined; table = t }) next server
          (Keeps-advanced s.client_buffer client c p k (i p refl)) l final h
        ∙ sym (run-append clock s.table (requests_of ms) (events next server cs))

    server_step :
        (s : MongoRecorder) (client server : Stream) (c : Bytes) (cs : List (Bool × Bytes))
        (ms : List MongoMessage) (end : Outcome ℕ)
        → ((p : ℕ) → end ≡ done p → p ≤ length (s.server_buffer ++ c))
        → Keeps s.client_buffer client
        → Keeps s.server_buffer server
        → ((t : MongoRecorder) (client server : Stream)
            → Keeps t.client_buffer client
            → Keeps t.server_buffer server
            → Ran t client server cs (record_all t cs))
        → let joined = s.server_buffer ++ c in
          let t = run clock s.table (replies_of ms) in
          (final : MongoRecorder)
          → go_on
              (keep_rest (λ o. server_kept s joined o t) (record s { table = t }) end)
              (λ q. record_all q cs)
            ≡ returned final
          → final.table
            ≡ run clock s.table (replies_of ms ++ events client (advanced server c end) cs)
    unfolding server_kept
    server_step s client server c cs ms stalled i k l rec final h = cc
    server_step s client server c cs ms threw i k l rec final h =
        let t = run clock s.table (replies_of ms) in
        rec (record s { table = t }) client server k l final h
        ∙ sym (run-append clock s.table (replies_of ms) (events client server cs))
    server_step s client server c cs ms (done p) i k l rec final h =
        let joined = s.server_buffer ++ c in
        let t = run clock s.table (replies_of ms) in
        let next = advanced server c (done p) in
        rec (record s { server_buffer = drop p joined; table = t }) client next k
          (Keeps-advanced s.server_buffer server c p l (i p refl)) final h
        ∙ sym (run-append clock s.table (replies_of ms) (events client next cs))

    record_all-Ran :
        (s : MongoRecorder) (client server : Stream) (cs : List (Bool × Bytes))
        → Keeps s.client_buffer client
        → Keeps s.server_buffer server
        → Ran s client server cs (record_all s cs)
    record_all-Ran s client server [] k l final h =
        ap
          (λ (r : Handled MongoRecorder). elim r [
            | returned q ↦ q.table
            | raised q ↦ q.table
            | never ↦ s.table
          ])
          (sym h)
    record_all-Ran s client server ((true, c) ∷ cs) k l final h =
        let joined = s.client_buffer ++ c in
        let (ms, end) = messages platform joined in
        client_step s client server c cs ms end (λ p e. messages-inside platform joined p e) k l
          (λ t x y kx ly. record_all-Ran t x y cs kx ly) final
          (ap (λ q. go_on q (λ t. record_all t cs)) (sym (client-run s c)) ∙ h)
        ∙ ap
            (λ b.
              let (ms, end) = messages platform b in
              run clock s.table (requests_of ms ++ events (advanced client c end) server cs))
            (Keeps-with_chunk s.client_buffer client c k)
    record_all-Ran s client server ((false, c) ∷ cs) k l final h =
        let joined = s.server_buffer ++ c in
        let (ms, end) = messages platform joined in
        server_step s client server c cs ms end (λ p e. messages-inside platform joined p e) k l
          (λ t x y kx ly. record_all-Ran t x y cs kx ly) final
          (ap (λ q. go_on q (λ t. record_all t cs)) (sym (server-run s c)) ∙ h)
        ∙ ap
            (λ b.
              let (ms, end) = messages platform b in
              run clock s.table (replies_of ms ++ events client (advanced server c end) cs))
            (Keeps-with_chunk s.server_buffer server c l)

    -- Where each of the chunks that arrive from either side is handled to an end, be it an exception,
    -- the recorder completes exactly the exchanges that are to be recorded of the messages that the
    -- bytes of the two directions make whole: each reply with the last request of the id that it names,
    -- however many others came in between, if that one has had no reply yet; under the name of its
    -- command; and in the order of the replies. The bytes of a chunk whose reading throws do not count
    -- for the chunks behind it.
    pub recorded-expected :
        (cs : List (Bool × Bytes)) (s : MongoRecorder)
        → record_all fresh cs ≡ returned s
        → exchanges s.table.completed ≡ expected [] (events no_bytes no_bytes cs)
    recorded-expected cs s h =
        ap (λ t. exchanges t.completed)
          (record_all-Ran fresh no_bytes no_bytes cs (refl, omega arith) (refl, omega arith) s h)
        ∙ run-expected clock fresh.table [] (events no_bytes no_bytes cs) (λ id. refl)
