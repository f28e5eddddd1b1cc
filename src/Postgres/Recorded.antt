-- ===== src/Postgres/Recorded.antt =====
-- What the replay answers, read by the recorder: the recording of a replayed statement.
use cognivox_record.Prelude.{
  ℕ, suc, ◌≡◌, refl, sym, subst, ◌∙◌, ap, Bool, true, false, List, [], ◌∷◌, ◌++◌, append_assoc,
  append-nil, none, some, >>=-eq-some, some_inj, length, drop-length_append, All,
}
use cognivox_record.Prelude.Int.{sub_ℕ}
use cognivox_record.Text.Utf8.{Text, Bytes}
use cognivox_record.Framing.{consume}
use cognivox_record.Framing.Loop.{consume_frame}
use cognivox_record.Interaction.{PostgresColumn, Row, result_set, postgres}
use cognivox_record.Postgres.Messages.{PostgresFrame, read_frame, read_cstring}
use cognivox_record.Postgres.Messages.Reader.{read_frame-IsReader}
use cognivox_record.Postgres.Encoder.{
  message, cstring, row_description, row_description_payload, data_row, data_row_payload,
  command_complete,
}
use cognivox_record.Postgres.Encoder.RoundTrip.{
  IsName, IsText, read_cstring-cstring, read_frame-message, read_data_row-payload,
  read_row_description-payload,
}
use cognivox_record.Postgres.Recorder.{
  Query, on_server_frame, handle_server_frame, push_row, set_columns, emit, emit_sql,
}
use cognivox_record.Postgres.Replay.Server.{
  concat_buffers, data_rows, description, result_messages, messages_for,
}

-- One message at the head of the stream is one turn of the loop.
pub consume-message {ℓ} :
    {S : Type ℓ} (f : S → PostgresFrame → S) (s : S) (type : ℕ) (payload more : Bytes) {b : Bytes}
    → message type payload ≡ some b
    → consume read_frame f s (b ++ more)
      ≡ consume read_frame f (f s (record { type = type; payload = payload })) more
consume-message f s type payload more {b} e =
    consume_frame read_frame-IsReader f s (b ++ more) _ (length b)
      (read_frame-message type payload more e)
    ∙ ap (consume read_frame f (f s (record { type = type; payload = payload })))
        (drop-length_append b more)

module _ (clock : ℕ → ℕ) where
  abbrev pub reading : Query → List PostgresColumn → List Row → Query
  reading q cs rs = record q { columns = cs; rows = rs; threw = false }

  server_row :
      (q : Query) (cs : List PostgresColumn) (rs : List Row) (r : Row) {p : Bytes}
      → All IsText r
      → data_row_payload r ≡ some p
      → on_server_frame clock (reading q cs rs) (record { type = b'D'; payload = p })
        ≡ reading q cs (rs ++ (r ∷ []))
  unfolding on_server_frame handle_server_frame push_row
  server_row q cs rs r h e = rw (read_data_row-payload r h e) refl

  server_columns :
      (q : Query) (cs ds : List PostgresColumn) (rs : List Row) {p : Bytes}
      → All (λ c. IsName c.name) cs
      → row_description_payload cs ≡ some p
      → on_server_frame clock (reading q ds rs) (record { type = b'T'; payload = p })
        ≡ reading q cs rs
  unfolding on_server_frame handle_server_frame set_columns
  server_columns q cs ds rs h e = rw (read_row_description-payload cs h e) refl

  -- The query behind the answer, with one interaction more.
  abbrev pub answered : Query → Text → List PostgresColumn → List Row → Text → Query
  answered q sql cs rs tag = record q {
    completed =
        q.completed
        ++ (postgres sql q.current_params (result_set cs rs tag)
              (sub_ℕ (clock q.readings) q.started_at)
            ∷ []);
    readings = suc q.readings;
    columns = [];
    rows = [];
    threw = false;
  }

  server_complete :
      (q : Query) (cs : List PostgresColumn) (rs : List Row) (c : ℕ) (sql tag : Text)
      → q.current_sql ≡ c ∷ sql
      → IsName tag
      → on_server_frame clock (reading q cs rs) (record { type = b'C'; payload = cstring tag })
        ≡ answered q (c ∷ sql) cs rs tag
  unfolding on_server_frame handle_server_frame emit emit_sql
  server_complete q cs rs c sql tag e h =
      let k : read_cstring (cstring tag) ≡ (tag, []) =
        ap read_cstring (sym (append-nil (cstring tag))) ∙ read_cstring-cstring tag [] h in
      rw (k, e) refl

  consume_rows :
      (q : Query) (cs : List PostgresColumn) (rs ss : List Row) (c : ℕ) (sql tag : Text)
      (more : Bytes) {b : Bytes}
      → q.current_sql ≡ c ∷ sql
      → IsName tag
      → All (All IsText) ss
      → concat_buffers (data_rows ss ++ (command_complete tag ∷ [])) ≡ some b
      → consume read_frame (on_server_frame clock) (reading q cs rs) (b ++ more)
        ≡ consume read_frame (on_server_frame clock) (answered q (c ∷ sql) cs (rs ++ ss) tag) more
  unfolding concat_buffers data_rows data_row
  consume_rows q cs rs [] c sql tag more {b} e h k m =
      let (x, first, n) = >>=-eq-some (command_complete tag) _ m in
      let same : x ≡ b = sym (append-nil x) ∙ some_inj n in
      subst
        (λ z.
          consume read_frame (on_server_frame clock) (reading q cs rs) (z ++ more)
          ≡ consume read_frame (on_server_frame clock) (answered q (c ∷ sql) cs (rs ++ []) tag)
              more)
        same
        (consume-message (on_server_frame clock) (reading q cs rs) b'C' (cstring tag) more first
          ∙ ap (λ s. consume read_frame (on_server_frame clock) s more)
              (server_complete q cs rs c sql tag e h
                ∙ ap (λ l. answered q (c ∷ sql) cs l tag) (sym (append-nil rs))))
  consume_rows q cs rs (s ∷ ss) c sql tag more {b} e h k m =
      let (x, first, n) = >>=-eq-some (data_row s) _ m in
      let (y, others, o) =
        >>=-eq-some (concat_buffers (data_rows ss ++ (command_complete tag ∷ []))) _ n in
      let (p, payload, made) = >>=-eq-some (data_row_payload s) _ first in
      subst
        (λ z.
          consume read_frame (on_server_frame clock) (reading q cs rs) (z ++ more)
          ≡ consume read_frame (on_server_frame clock)
              (answered q (c ∷ sql) cs (rs ++ (s ∷ ss)) tag) more)
        (some_inj o)
        (ap (consume read_frame (on_server_frame clock) (reading q cs rs)) (append_assoc x y more)
          ∙ consume-message (on_server_frame clock) (reading q cs rs) b'D' p (y ++ more) made
          ∙ ap (λ t. consume read_frame (on_server_frame clock) t (y ++ more))
              (server_row q cs rs s k.0 payload)
          ∙ consume_rows q cs (rs ++ (s ∷ [])) ss c sql tag more e h k.1 others
          ∙ ap
              (λ l. consume read_frame (on_server_frame clock) (answered q (c ∷ sql) cs l tag) more)
              (append_assoc rs (s ∷ []) ss))

  -- The columns that are known before the answer: those of a portal that was described, none of a
  -- simple query.
  abbrev pub known_columns : Bool → List PostgresColumn → List PostgresColumn
  known_columns true cs = []
  known_columns false cs = cs

  -- Replay, then record: the messages that the replay sends for a recorded result without an error, of
  -- a simple query or of the execution of a portal whose columns the recorder knows, are read by the
  -- recorder as one more interaction with exactly that result, columns, rows with their nulls, and tag,
  -- whatever was recorded before; and the reading goes on with whatever bytes follow them.
  pub record_replayed :
      (q : Query) (simple : Bool) (cs : List PostgresColumn) (rs : List Row) (c : ℕ)
      (sql tag : Text) (more : Bytes) {b : Bytes}
      → q.current_sql ≡ c ∷ sql
      → IsName tag
      → All (λ c. IsName c.name) cs
      → All (All IsText) rs
      → concat_buffers (
          messages_for
            (c ∷ sql)
            simple
            (some (record { columns = cs; rows = rs; tag = tag; error = none })))
        ≡ some b
      → consume read_frame
          (on_server_frame clock)
          (reading q (known_columns simple cs) [])
          (b ++ more)
        ≡ consume read_frame (on_server_frame clock) (answered q (c ∷ sql) cs rs tag) more
  unfolding messages_for result_messages description concat_buffers row_description
  record_replayed q false cs rs c sql tag more e h j k m =
      consume_rows q cs [] rs c sql tag more e h k m
  record_replayed q true [] rs c sql tag more e h j k m =
      consume_rows q [] [] rs c sql tag more e h k m
  record_replayed q true (d ∷ ds) rs c sql tag more {b} e h j k m =
      let (x, first, n) = >>=-eq-some (row_description (d ∷ ds)) _ m in
      let (y, others, o) =
        >>=-eq-some (concat_buffers (data_rows rs ++ (command_complete tag ∷ []))) _ n in
      let (p, payload, made) = >>=-eq-some (row_description_payload (d ∷ ds)) _ first in
      subst
        (λ z.
          consume read_frame (on_server_frame clock) (reading q [] []) (z ++ more)
          ≡ consume read_frame (on_server_frame clock) (answered q (c ∷ sql) (d ∷ ds) rs tag) more)
        (some_inj o)
        (ap (consume read_frame (on_server_frame clock) (reading q [] [])) (append_assoc x y more)
          ∙ consume-message (on_server_frame clock) (reading q [] []) b'T' p (y ++ more) made
          ∙ ap (λ t. consume read_frame (on_server_frame clock) t (y ++ more))
              (server_columns q (d ∷ ds) [] [] j payload)
          ∙ consume_rows q (d ∷ ds) [] rs c sql tag more e h k others)
