-- ===== src/Postgres/Recorder.antt =====
-- src/record/protocols/postgresRecorder.ts: SQL statements are paired with their results. The k-th
-- call of `Date.now()` on a connection returns `clock k`; the first is made by the constructor.
pub mod Chunks
pub mod Tls
use mathlib.Core.Option
use cognivox_record.Prelude.{
  ℕ, suc, ◌-◌, Bool, true, false, not, List, [], ◌∷◌, ◌++◌, Option, none, some, ◌>>=◌, length, drop,
  ◌==◌, if◌then◌else◌,
}
use cognivox_record.Prelude.Int.{ℤ, pos, negsuc, sub_ℕ}
use cognivox_record.Text.Utf8.{Text, Bytes}
use cognivox_record.Dict.{Dict, get, put}
use cognivox_record.Framing.{Consumed, consume}
use cognivox_record.Interaction.{
  PostgresColumn, Row, SqlResponse, result_set, failure, DependencyInteraction, postgres,
}
use cognivox_record.Postgres.Messages.{
  PostgresFrame, read_frame, StartupKind, ssl_request, startup, incomplete, read_startup, subarray,
  read_cstring, read_row_description, read_data_row, read_bind_parameters, read_parse,
  read_bind_statement,
}

pub data Phase : Type 0 where
  initial awaiting_ssl_reply running encrypted : Phase

-- The fields that the frame handlers change. `threw` says that a handler has thrown: the loop ends
-- there, so the frames behind it are not handled.
pub record Query : Type 0 where
  pub prepared : Dict Text
  pub current_sql : Text
  pub current_params : Row
  pub columns : List PostgresColumn
  pub rows : List Row
  pub started_at : ℕ
  pub completed : List DependencyInteraction
  pub readings : ℕ
  pub threw : Bool

pub record PostgresRecorder : Type 0 where
  pub client_buffer : Bytes
  pub server_buffer : Bytes
  pub phase : Phase
  pub query : Query
  pub was_encrypted : Bool

module _ (clock : ℕ → ℕ) where
  abbrev pub fresh : PostgresRecorder
  fresh = record {
    client_buffer = [];
    server_buffer = [];
    phase = initial;
    query = record {
      prepared = [];
      current_sql = [];
      current_params = [];
      columns = [];
      rows = [];
      started_at = clock 0;
      completed = [];
      readings = 1;
      threw = false;
    };
    was_encrypted = false;
  }

  -- `this.startedAt = Date.now()`
  unfoldable pub start_clock : Query → Query
  start_clock q = record q { started_at = clock q.readings; readings = suc q.readings }

  -- The parameters of a Bind, read after the statement has been set.
  unfoldable pub bind_parameters : Query → Option Row → Query
  bind_parameters q none = record q { threw = true }
  bind_parameters q (some ps) = start_clock (record q { current_params = ps })

  unfoldable pub handle_client_frame : ℕ → Bytes → Query → Query
  unfolding start_clock bind_parameters
  handle_client_frame type payload q =
      if type == b'Q'
      then start_clock (record q { current_sql = (read_cstring payload).0; current_params = [] })
      else if type == b'P'
      then start_clock (record q {
        prepared = put (read_parse payload).0 (read_parse payload).1 q.prepared;
        current_sql = (read_parse payload).1;
      })
      else if type == b'B'
      then bind_parameters
          (record q {
            current_sql =
                Option.get_or (get (read_bind_statement payload) q.prepared) q.current_sql;
          })
          (read_bind_parameters payload)
      else q

  -- A statement that is empty is not recorded, and leaves the columns and the rows.
  unfoldable pub emit_sql : Text → Query → SqlResponse → Query
  emit_sql [] q response = q
  emit_sql (c ∷ sql) q response = record q {
    completed =
        q.completed
        ++ (postgres (c ∷ sql) q.current_params response (sub_ℕ (clock q.readings) q.started_at)
            ∷ []);
    readings = suc q.readings;
    columns = [];
    rows = [];
  }

  unfoldable pub emit : Query → SqlResponse → Query
  unfolding emit_sql
  emit q response = emit_sql q.current_sql q response

  unfoldable pub set_columns : Query → Option (List PostgresColumn) → Query
  set_columns q none = record q { threw = true }
  set_columns q (some cs) = record q { columns = cs }

  unfoldable pub push_row : Query → Option Row → Query
  push_row q none = record q { threw = true }
  push_row q (some r) = record q { rows = q.rows ++ (r ∷ []) }

  unfoldable pub handle_server_frame : ℕ → Bytes → Query → Query
  unfolding set_columns push_row emit
  handle_server_frame type payload q =
      if type == b'T'
      then set_columns q (read_row_description payload)
      else if type == b'D'
      then push_row q (read_data_row payload)
      else if type == b'C'
      then emit q (result_set q.columns q.rows (read_cstring payload).0)
      else if type == b'E'
      then emit q (failure (read_cstring (drop 1 payload)).0)
      else q

  -- One round of the loops.
  unfoldable pub on_client_frame : Query → PostgresFrame → Query
  on_client_frame q f = if q.threw then q else handle_client_frame f.type f.payload q

  unfoldable pub on_server_frame : Query → PostgresFrame → Query
  on_server_frame q f = if q.threw then q else handle_server_frame f.type f.payload q

  -- The loop's outcome: a throw leaves the buffer as it was before the loop, and reaches `safely`
  -- in the proxy, which goes on with the next chunk.
  unfoldable pub close_client : PostgresRecorder → Bytes → Consumed Query → PostgresRecorder × Bool
  close_client s b r =
      if r.state.threw
      then (record s { client_buffer = b; query = record r.state { threw = false } }, true)
      else (record s { client_buffer = r.rest; query = r.state }, false)

  unfoldable pub close_server : PostgresRecorder → Bytes → Consumed Query → PostgresRecorder × Bool
  close_server s b r =
      if r.state.threw
      then (record s { server_buffer = b; query = record r.state { threw = false } }, true)
      else (record s { server_buffer = r.rest; query = r.state }, false)

  unfoldable pub read_client : PostgresRecorder → Bytes → PostgresRecorder × Bool
  unfolding close_client
  read_client s b = close_client s b (consume read_frame on_client_frame s.query b)

  unfoldable pub read_server : PostgresRecorder → Bytes → PostgresRecorder × Bool
  unfolding close_server
  read_server s b = close_server s b (consume read_frame on_server_frame s.query b)

  -- The client's first message.
  begin_client : PostgresRecorder → Bytes → StartupKind → PostgresRecorder × Bool
  begin_client s b incomplete = (record s { client_buffer = b }, false)
  begin_client s b (ssl_request n) =
      (record s { client_buffer = subarray n b; phase = awaiting_ssl_reply }, false)
  begin_client s b (startup n) = read_client (record s { phase = running }) (subarray n b)

  client_in : Phase → PostgresRecorder → Bytes → PostgresRecorder × Bool
  unfolding begin_client read_client
  client_in encrypted s chunk = (s, false)
  client_in initial s chunk = let b = s.client_buffer ++ chunk in begin_client s b (read_startup b)
  client_in awaiting_ssl_reply s chunk =
      (record s { client_buffer = s.client_buffer ++ chunk }, false)
  client_in running s chunk = read_client s (s.client_buffer ++ chunk)

  -- The recorder behind the chunk, and whether the call threw.
  unfoldable pub on_client_data : PostgresRecorder → Bytes → PostgresRecorder × Bool
  unfolding client_in on_client_frame handle_client_frame
  on_client_data s chunk = client_in s.phase s chunk

  -- The reply to an SSLRequest is one byte.
  ssl_reply : PostgresRecorder → Bytes → PostgresRecorder × Bool
  ssl_reply s [] = (s, false)
  ssl_reply s (c ∷ chunk) =
      if c == b'S'
      then (record s { phase = encrypted; was_encrypted = true }, false)
      else (record s { phase = running; was_encrypted = false; server_buffer = chunk }, false)

  server_in : Phase → PostgresRecorder → Bytes → PostgresRecorder × Bool
  unfolding ssl_reply read_server
  server_in encrypted s chunk = (s, false)
  server_in awaiting_ssl_reply s chunk = ssl_reply s chunk
  server_in initial s chunk = read_server s (s.server_buffer ++ chunk)
  server_in running s chunk = read_server s (s.server_buffer ++ chunk)

  unfoldable pub on_server_data : PostgresRecorder → Bytes → PostgresRecorder × Bool
  unfolding server_in on_server_frame handle_server_frame
  on_server_data s chunk = server_in s.phase s chunk

-- The completed pairs since the last call.
unfoldable pub drain : PostgresRecorder → List DependencyInteraction × PostgresRecorder
drain s = (s.query.completed, record s { query = record s.query { completed = [] } })
