-- ===== src/Postgres/Session.antt =====
-- One simple query through the recorder, in the bytes of both sides.
use cognivox_record.Prelude.{
  ℕ, suc, ◌≡◌, refl, sym, ◌∙◌, ap, Bool, true, false, List, [], ◌∷◌, ◌++◌, append-nil, append_assoc,
  Option, none, some, ◌>>=◌, >>=-eq-some, some_inj, All,
}
use cognivox_record.Prelude.Int.{sub_ℕ}
use cognivox_record.Text.Utf8.{Text, Bytes}
use cognivox_record.Framing.{Consumed, consume}
use cognivox_record.Framing.Loop.{consume_partial}
use cognivox_record.Interaction.{PostgresColumn, Row, result_set, postgres}
use cognivox_record.Postgres.Messages.{read_frame, read_cstring}
use cognivox_record.Postgres.Messages.Reader.{read_frame-IsReader}
use cognivox_record.Postgres.Encoder.{message, cstring, ready_for_query}
use cognivox_record.Postgres.Encoder.RoundTrip.{IsName, IsText, read_cstring-cstring}
use cognivox_record.Postgres.Recorder.{
  running, Query, PostgresRecorder, on_client_frame, handle_client_frame, start_clock, read_client,
  read_server, on_client_data, on_server_data, on_server_frame, handle_server_frame,
}
use cognivox_record.Postgres.Recorder.Chunks.{
  on_client_data_running, on_server_data_running, close_client_quiet, close_server_quiet,
}
use cognivox_record.Postgres.Recorded.{consume-message, reading, answered, record_replayed}
use cognivox_record.Postgres.Replay.Server.{concat_buffers, messages_for}

-- The answers that are written together, and the ones behind them.
buffers_apart :
    (xs ys : List (Option Bytes)) {b : Bytes}
    → concat_buffers (xs ++ ys) ≡ some b
    → (x : Bytes) × (y : Bytes) × (concat_buffers xs ≡ some x)
      × (concat_buffers ys ≡ some y)
      × (x ++ y ≡ b)
unfolding concat_buffers
buffers_apart [] ys {b} h = ([], b, refl, h, refl)
buffers_apart (o ∷ xs) ys {b} h =
    let (m, first, n) = >>=-eq-some o _ h in
    let (rest, others, made) = >>=-eq-some (concat_buffers (xs ++ ys)) _ n in
    let (x, y, ex, ey, e) = buffers_apart xs ys others in
    (
      m ++ x,
      y,
      ap (λ o. o >>= λ z. concat_buffers xs >>= λ zs. some (z ++ zs)) first
          ∙ ap (λ o. o >>= λ zs. some (m ++ zs)) ex,
      ey,
      append_assoc m x y ∙ ap (λ r. m ++ r) e ∙ some_inj made,
    )

-- What the replay writes for a simple query with a result.
abbrev pub answer_to : Text → List PostgresColumn → List Row → Text → Option Bytes
answer_to sql cs rs tag = concat_buffers (
    messages_for sql true (some (record { columns = cs; rows = rs; tag = tag; error = none }))
    ++ (ready_for_query ∷ []))

module _ (clock : ℕ → ℕ) where
  -- A plaintext connection with no statement under way and nothing buffered.
  abbrev pub idle : Query → Bool → PostgresRecorder
  idle q encrypted_once = record {
    client_buffer = [];
    server_buffer = [];
    phase = running;
    query = reading clock q [] [];
    was_encrypted = encrypted_once;
  }

  abbrev pub asked : Query → Text → Query
  asked q sql = record q {
    current_sql = sql;
    current_params = [];
    started_at = clock q.readings;
    readings = suc q.readings;
  }

  client_query :
      (q : Query) (sql : Text)
      → IsName sql
      → on_client_frame clock
          (reading clock q [] [])
          (record { type = b'Q'; payload = cstring sql })
        ≡ reading clock (asked q sql) [] []
  unfolding on_client_frame handle_client_frame start_clock
  client_query q sql h =
      let read : (read_cstring (cstring sql)).0 ≡ sql =
        ap (λ p. (read_cstring p).0) (sym (append-nil (cstring sql)))
        ∙ ap (λ p. p.0) (read_cstring-cstring sql [] h) in
      rw read refl

  client_sends :
      (q : Query) (e : Bool) (sql : Text) {m : Bytes}
      → IsName sql
      → message b'Q' (cstring sql) ≡ some m
      → on_client_data clock (idle q e) m ≡ (idle (asked q sql) e, false)
  unfolding read_client
  client_sends q e sql {m} h made =
      let f = on_client_frame clock in
      let run : consume read_frame f (reading clock q [] []) m
          ≡ record { state = reading clock (asked q sql) [] []; rest = []; faulted = false } =
        ap (consume read_frame f (reading clock q [] [])) (sym (append-nil m))
        ∙ consume-message f (reading clock q [] []) b'Q' (cstring sql) [] made
        ∙ ap (λ s. consume read_frame f s []) (client_query q sql h)
        ∙ consume_partial read_frame-IsReader f (reading clock (asked q sql) [] []) []
            read_frame-IsReader.empty in
      on_client_data_running clock (idle q e) m refl
      ∙ close_client_quiet clock (idle q e) m (consume read_frame f (reading clock q [] []) m)
          (ap (λ (r : Consumed Query). r.state.threw) run)
      ∙ ap
          (λ (r : Consumed Query).
            (record (idle q e) { client_buffer = r.rest; query = r.state }, false))
          run

  -- `ReadyForQuery` changes nothing of what is recorded.
  ready_passes :
      (q : Query) {b : Bytes}
      → q.threw ≡ false
      → concat_buffers (ready_for_query ∷ []) ≡ some b
      → consume read_frame (on_server_frame clock) q b
        ≡ record { state = q; rest = []; faulted = false }
  unfolding concat_buffers on_server_frame handle_server_frame
  ready_passes q {b} t m =
      let f = on_server_frame clock in
      let (x, made, n) = >>=-eq-some ready_for_query _ m in
      let same : b ≡ x ++ [] = sym (some_inj n) in
      let kept : f q (record { type = b'Z'; payload = b'I' ∷ [] }) ≡ q = rw t refl in
      ap (consume read_frame f q) same
      ∙ consume-message f q b'Z' (b'I' ∷ []) [] made
      ∙ ap (λ s. consume read_frame f s []) kept
      ∙ consume_partial read_frame-IsReader f q [] read_frame-IsReader.empty

  server_answers :
      (q : Query) (e : Bool) (c : ℕ) (sql tag : Text) (cs : List PostgresColumn) (rs : List Row)
      {b : Bytes}
      → q.current_sql ≡ c ∷ sql
      → IsName tag
      → All (λ c. IsName c.name) cs
      → All (All IsText) rs
      → answer_to (c ∷ sql) cs rs tag ≡ some b
      → on_server_data clock (idle q e) b ≡ (idle (answered clock q (c ∷ sql) cs rs tag) e, false)
  unfolding read_server
  server_answers q e c sql tag cs rs {b} h t n v m =
      let f = on_server_frame clock in
      let (x, y, result, ready, whole) = buffers_apart _ (ready_for_query ∷ []) m in
      let run : consume read_frame f (reading clock q [] []) b
          ≡ record { state = answered clock q (c ∷ sql) cs rs tag; rest = []; faulted = false } =
        ap (consume read_frame f (reading clock q [] [])) (sym whole)
        ∙ record_replayed clock q true cs rs c sql tag y h t n v result
        ∙ ready_passes (answered clock q (c ∷ sql) cs rs tag) refl ready in
      on_server_data_running clock (idle q e) b refl
      ∙ close_server_quiet clock (idle q e) b (consume read_frame f (reading clock q [] []) b)
          (ap (λ (r : Consumed Query). r.state.threw) run)
      ∙ ap
          (λ (r : Consumed Query).
            (record (idle q e) { server_buffer = r.rest; query = r.state }, false))
          run

  -- A simple query with one result, without an error, on a plaintext connection: when the client's
  -- message and the answer have passed, RowDescription where there are columns, a DataRow for each
  -- row, CommandComplete and ReadyForQuery, neither call has thrown, no byte is held back, and exactly
  -- one interaction has been added: the statement, no parameters, the columns, rows and tag, and the
  -- time between the two clock readings.
  pub simple_query_recorded :
      (q : Query) (e : Bool) (c : ℕ) (sql tag : Text) (cs : List PostgresColumn) (rs : List Row)
      {m b : Bytes}
      → IsName (c ∷ sql)
      → IsName tag
      → All (λ c. IsName c.name) cs
      → All (All IsText) rs
      → message b'Q' (cstring (c ∷ sql)) ≡ some m
      → answer_to (c ∷ sql) cs rs tag ≡ some b
      → (t : PostgresRecorder) × (on_client_data clock (idle q e) m
          ≡ (idle (asked q (c ∷ sql)) e, false))
        × (on_server_data clock (idle (asked q (c ∷ sql)) e) b ≡ (t, false))
        × (t.client_buffer ≡ [])
        × (t.server_buffer ≡ [])
        × (t.query.completed
            ≡ q.completed
              ++ (postgres
                    (c ∷ sql)
                    []
                    (result_set cs rs tag)
                    (sub_ℕ (clock (suc q.readings)) (clock q.readings))
                  ∷ []))
  simple_query_recorded q e c sql tag cs rs h t n v sent received = (
    idle (answered clock (asked q (c ∷ sql)) (c ∷ sql) cs rs tag) e,
    client_sends q e (c ∷ sql) h sent,
    server_answers (asked q (c ∷ sql)) e c sql tag cs rs refl t n v received,
    refl,
    refl,
    refl,
  )
