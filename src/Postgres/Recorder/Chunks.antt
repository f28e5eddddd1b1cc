-- ===== src/Postgres/Recorder/Chunks.antt =====
-- Where a plaintext stream is cut into chunks does not change the recording, as long as no handler
-- throws.
use cognivox_record.Prelude.{
  ℕ, ◌≡◌, refl, sym, ◌∙◌, ap, true, false, ◌++◌, append_assoc, Bool-cases, inl, inr,
}
use cognivox_record.Text.Utf8.{Bytes}
use cognivox_record.Framing.{Consumed, consume}
use cognivox_record.Framing.Chunks.{resume, consume-append}
use cognivox_record.Framing.Invariant.{consume-invariant, consume-unfaulted}
use cognivox_record.Postgres.Messages.{PostgresFrame, read_frame}
use cognivox_record.Postgres.Messages.Reader.{read_frame-IsReader, read_frame-ne_fault}
use cognivox_record.Postgres.Recorder.{
  running, Query, PostgresRecorder, on_client_frame, on_server_frame, close_client, close_server,
  read_client, read_server, on_client_data, on_server_data,
}

resume-unfaulted :
    (f : Query → PostgresFrame → Query) (r : Consumed Query) (y : Bytes)
    → r.faulted ≡ false
    → resume read_frame-IsReader f r y ≡ consume read_frame f r.state (r.rest ++ y)
resume-unfaulted f r y e = rw e refl

-- The loop over two chunks, as two loops.
consume_twice :
    (f : Query → PostgresFrame → Query) (q : Query) (b y : Bytes)
    → let r = consume read_frame f q b in
      consume read_frame f q (b ++ y) ≡ consume read_frame f r.state (r.rest ++ y)
consume_twice f q b y =
    consume-append read_frame-IsReader f q b y
    ∙ resume-unfaulted f _ y (consume-unfaulted read_frame f q b read_frame-ne_fault)

module _ (clock : ℕ → ℕ) where
  client_frame-threw :
      (q : Query) (f : PostgresFrame) → q.threw ≡ true → (on_client_frame clock q f).threw ≡ true
  unfolding on_client_frame
  client_frame-threw q f h = rw h refl

  server_frame-threw :
      (q : Query) (f : PostgresFrame) → q.threw ≡ true → (on_server_frame clock q f).threw ≡ true
  unfolding on_server_frame
  server_frame-threw q f h = rw h refl

  pub on_client_data_running :
      (s : PostgresRecorder) (x : Bytes)
      → s.phase ≡ running
      → on_client_data clock s x ≡ read_client clock s (s.client_buffer ++ x)
  unfolding on_client_data
  on_client_data_running s x h = rw h refl

  pub on_server_data_running :
      (s : PostgresRecorder) (x : Bytes)
      → s.phase ≡ running
      → on_server_data clock s x ≡ read_server clock s (s.server_buffer ++ x)
  unfolding on_server_data
  on_server_data_running s x h = rw h refl

  pub close_client_quiet :
      (s : PostgresRecorder) (b : Bytes) (r : Consumed Query)
      → r.state.threw ≡ false
      → close_client clock s b r ≡ (record s { client_buffer = r.rest; query = r.state }, false)
  unfolding close_client
  close_client_quiet s b r h = rw h refl

  pub close_server_quiet :
      (s : PostgresRecorder) (b : Bytes) (r : Consumed Query)
      → r.state.threw ≡ false
      → close_server clock s b r ≡ (record s { server_buffer = r.rest; query = r.state }, false)
  unfolding close_server
  close_server_quiet s b r h = rw h refl

  close_client-threw :
      (s : PostgresRecorder) (b : Bytes) (r : Consumed Query)
      → (close_client clock s b r).1 ≡ false
      → r.state.threw ≡ false
  unfolding close_client
  close_client-threw s b r h = elim (Bool-cases r.state.threw) [
    | inl e ↦ cc (rw e at h)
    | inr e ↦ e
  ]

  close_server-threw :
      (s : PostgresRecorder) (b : Bytes) (r : Consumed Query)
      → (close_server clock s b r).1 ≡ false
      → r.state.threw ≡ false
  unfolding close_server
  close_server-threw s b r h = elim (Bool-cases r.state.threw) [
    | inl e ↦ cc (rw e at h)
    | inr e ↦ e
  ]

  read_client-threw :
      (s : PostgresRecorder) (b : Bytes)
      → (read_client clock s b).1 ≡ false
      → (consume read_frame (on_client_frame clock) s.query b).state.threw ≡ false
  unfolding read_client
  read_client-threw s b h =
      close_client-threw s b (consume read_frame (on_client_frame clock) s.query b) h

  client_quiet_before :
      (q : Query) (b y : Bytes)
      → (consume read_frame (on_client_frame clock) q (b ++ y)).state.threw ≡ false
      → (consume read_frame (on_client_frame clock) q b).state.threw ≡ false
  client_quiet_before q b y h =
      let r = consume read_frame (on_client_frame clock) q b in
      elim (Bool-cases r.state.threw) [
        | inl e ↦ cc (
          consume_twice (on_client_frame clock) q b y,
          consume-invariant read_frame (on_client_frame clock) (λ t. t.threw ≡ true) r.state
              (r.rest ++ y) client_frame-threw e,
        )
        | inr e ↦ e
      ]

  read_client-append :
      (s : PostgresRecorder) (x y : Bytes)
      → s.phase ≡ running
      → (consume read_frame
          (on_client_frame clock)
          s.query
          ((s.client_buffer ++ x) ++ y)).state.threw
        ≡ false
      → read_client clock s ((s.client_buffer ++ x) ++ y)
        ≡ on_client_data clock (on_client_data clock s x).0 y
  unfolding read_client
  read_client-append s x y h quiet =
      let b = s.client_buffer ++ x in
      let r = consume read_frame (on_client_frame clock) s.query b in
      let twice = consume_twice (on_client_frame clock) s.query b y in
      close_client_quiet s (b ++ y) (consume read_frame (on_client_frame clock) s.query (b ++ y))
        quiet
      ∙ ap (λ (t : Consumed Query). (record s { client_buffer = t.rest; query = t.state }, false))
          twice
      ∙ sym (
          ap (λ p. on_client_data clock p.0 y)
            (on_client_data_running s x h
              ∙ close_client_quiet s b r (client_quiet_before s.query b y quiet))
          ∙ on_client_data_running (record s { client_buffer = r.rest; query = r.state }) y h
          ∙ close_client_quiet (record s { client_buffer = r.rest; query = r.state }) (r.rest ++ y)
              (consume read_frame (on_client_frame clock) r.state (r.rest ++ y))
              (ap (λ (t : Consumed Query). t.state.threw) (sym twice) ∙ quiet))

  read_server-threw :
      (s : PostgresRecorder) (b : Bytes)
      → (read_server clock s b).1 ≡ false
      → (consume read_frame (on_server_frame clock) s.query b).state.threw ≡ false
  unfolding read_server
  read_server-threw s b h =
      close_server-threw s b (consume read_frame (on_server_frame clock) s.query b) h

  server_quiet_before :
      (q : Query) (b y : Bytes)
      → (consume read_frame (on_server_frame clock) q (b ++ y)).state.threw ≡ false
      → (consume read_frame (on_server_frame clock) q b).state.threw ≡ false
  server_quiet_before q b y h =
      let r = consume read_frame (on_server_frame clock) q b in
      elim (Bool-cases r.state.threw) [
        | inl e ↦ cc (
          consume_twice (on_server_frame clock) q b y,
          consume-invariant read_frame (on_server_frame clock) (λ t. t.threw ≡ true) r.state
              (r.rest ++ y) server_frame-threw e,
        )
        | inr e ↦ e
      ]

  read_server-append :
      (s : PostgresRecorder) (x y : Bytes)
      → s.phase ≡ running
      → (consume read_frame
          (on_server_frame clock)
          s.query
          ((s.server_buffer ++ x) ++ y)).state.threw
        ≡ false
      → read_server clock s ((s.server_buffer ++ x) ++ y)
        ≡ on_server_data clock (on_server_data clock s x).0 y
  unfolding read_server
  read_server-append s x y h quiet =
      let b = s.server_buffer ++ x in
      let r = consume read_frame (on_server_frame clock) s.query b in
      let twice = consume_twice (on_server_frame clock) s.query b y in
      close_server_quiet s (b ++ y) (consume read_frame (on_server_frame clock) s.query (b ++ y))
        quiet
      ∙ ap (λ (t : Consumed Query). (record s { server_buffer = t.rest; query = t.state }, false))
          twice
      ∙ sym (
          ap (λ p. on_server_data clock p.0 y)
            (on_server_data_running s x h
              ∙ close_server_quiet s b r (server_quiet_before s.query b y quiet))
          ∙ on_server_data_running (record s { server_buffer = r.rest; query = r.state }) y h
          ∙ close_server_quiet (record s { server_buffer = r.rest; query = r.state }) (r.rest ++ y)
              (consume read_frame (on_server_frame clock) r.state (r.rest ++ y))
              (ap (λ (t : Consumed Query). t.state.threw) (sym twice) ∙ quiet))

  -- In a plaintext connection, bytes of the client that arrive in two chunks leave the recorder as
  -- one chunk does, if the handling of the one chunk throws nothing.
  pub on_client_data-append_running :
      (s : PostgresRecorder) (x y : Bytes)
      → s.phase ≡ running
      → (on_client_data clock s (x ++ y)).1 ≡ false
      → on_client_data clock s (x ++ y) ≡ on_client_data clock (on_client_data clock s x).0 y
  on_client_data-append_running s x y h quiet =
      let e =
        on_client_data_running s (x ++ y) h
        ∙ ap (read_client clock s) (sym (append_assoc s.client_buffer x y)) in
      e
      ∙ read_client-append s x y h
          (read_client-threw s ((s.client_buffer ++ x) ++ y) (ap (λ p. p.1) (sym e) ∙ quiet))

  -- In a plaintext connection, bytes of the server that arrive in two chunks leave the recorder as
  -- one chunk does, if the handling of the one chunk throws nothing.
  pub on_server_data-append_running :
      (s : PostgresRecorder) (x y : Bytes)
      → s.phase ≡ running
      → (on_server_data clock s (x ++ y)).1 ≡ false
      → on_server_data clock s (x ++ y) ≡ on_server_data clock (on_server_data clock s x).0 y
  on_server_data-append_running s x y h quiet =
      let e =
        on_server_data_running s (x ++ y) h
        ∙ ap (read_server clock s) (sym (append_assoc s.server_buffer x y)) in
      e
      ∙ read_server-append s x y h
          (read_server-threw s ((s.server_buffer ++ x) ++ y) (ap (λ p. p.1) (sym e) ∙ quiet))
