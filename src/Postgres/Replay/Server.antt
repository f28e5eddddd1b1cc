-- ===== src/Postgres/Replay/Server.antt =====
-- The connection handler of `startPostgresReplayServer` in src/replay/postgresReplayServer.ts.
use cognivox_record.Prelude.{
  Bool, true, false, List, [], ◌∷◌, ◌++◌, Option, none, some, ◌>>=◌, ◌==◌, if◌then◌else◌,
}
use mathlib.Core.Option
use cognivox_record.Text.Utf8.{Text, Bytes, codes}
use cognivox_record.Dict.{Dict, get, put}
use cognivox_record.Framing.{Consumed, consume}
use cognivox_record.Interaction.{PostgresColumn, Row}
use cognivox_record.Postgres.Messages.{
  PostgresFrame, read_frame, StartupKind, ssl_request, startup, incomplete, read_startup, subarray,
  read_cstring, read_bind_parameters, read_parse, read_bind_statement,
}
use cognivox_record.Postgres.Encoder.{
  authentication_ok, parameter_status, backend_key_data, ready_for_query, parse_complete,
  bind_complete, no_data, row_description, data_row, command_complete, error_response,
}
use cognivox_record.Postgres.Replay.{RecordedResult, normalise, PostgresReplay, result_for, peek}

-- Per-connection state for the extended query protocol.
pub record Session : Type 0 where
  pub prepared : Dict Text
  pub sql : Text
  pub params : Row
  pub started : Bool

-- The replay, which the connections share, the connection's session, and what has been written to
-- its socket, one element for each call of `socket.write`.
pub record Served : Type 0 where
  pub replay : PostgresReplay
  pub session : Session
  pub written : List Bytes

pub record Connection : Type 0 where
  pub buffered : Bytes
  pub served : Served

abbrev pub new_session : Session
new_session = record { prepared = []; sql = []; params = []; started = false }

abbrev pub no_recording : Text → Text
no_recording sql = codes "cognivox has no recording for: " ++ normalise sql

-- `Buffer.concat`; `none` where a message could not be built.
unfoldable pub concat_buffers : List (Option Bytes) → Option Bytes
concat_buffers [] = some []
concat_buffers (b ∷ bs) = b >>= λ x. concat_buffers bs >>= λ xs. some (x ++ xs)

unfoldable pub data_rows : List Row → List (Option Bytes)
data_rows [] = []
data_rows (r ∷ rs) = data_row r ∷ data_rows rs

unfoldable pub description : Bool → List PostgresColumn → List (Option Bytes)
description false cs = []
description true [] = []
description true (c ∷ cs) = row_description (c ∷ cs) ∷ []

-- An empty error text is no error in the source's test.
unfoldable pub result_messages : Bool → RecordedResult → Option Text → List (Option Bytes)
result_messages include v (some (c ∷ e)) = error_response (c ∷ e) ∷ []
result_messages include v _ =
    description include v.columns ++ (data_rows v.rows ++ (command_complete v.tag ∷ []))

unfoldable pub messages_for : Text → Bool → Option RecordedResult → List (Option Bytes)
unfolding result_messages description data_rows
messages_for sql include none = error_response (no_recording sql) ∷ []
messages_for sql include (some v) = result_messages include v v.error

-- The messages answering one statement, and the replay behind it.
unfoldable pub answer_for : PostgresReplay → Session → Bool → List (Option Bytes) × PostgresReplay
answer_for r s include =
    let (found, next) = result_for r s.sql s.params in (messages_for s.sql include found, next)

-- `socket.write(Buffer.concat(...))`
unfoldable pub write : Served → List (Option Bytes) → Option Served
write s ms = concat_buffers ms >>= λ b. some (record s { written = s.written ++ (b ∷ []) })

describe_columns : Option RecordedResult → Option Bytes
describe_columns none = no_data
describe_columns (some v) = elim v.columns [ [] ↦ no_data | c ∷ cs ↦ row_description (c ∷ cs) ]

unfoldable pub on_query : Served → Bytes → Option Served
on_query s payload =
    let n = record s.session { sql = (read_cstring payload).0; params = [] } in
    let (ms, r) = answer_for s.replay n true in
    write (record s { session = n; replay = r }) (ms ++ (ready_for_query ∷ []))

unfoldable pub on_parse : Served → Bytes → Option Served
on_parse s payload =
    let (name, sql) = read_parse payload in
    write
      (record s {
        session = record s.session { prepared = put name sql s.session.prepared; sql = sql };
      })
      (parse_complete ∷ [])

unfoldable pub on_bind : Served → Bytes → Option Served
on_bind s payload =
    let sql = Option.get_or (get (read_bind_statement payload) s.session.prepared) s.session.sql in
    read_bind_parameters payload >>= λ ps.
    write (record s { session = record s.session { sql = sql; params = ps } }) (bind_complete ∷ [])

unfoldable pub on_describe : Served → Option Served
unfolding describe_columns
on_describe s =
    let (found, r) = peek s.replay s.session.sql s.session.params in
    write (record s { replay = r }) (describe_columns found ∷ [])

unfoldable pub on_execute : Served → Option Served
on_execute s =
    let (ms, r) = answer_for s.replay s.session false in write (record s { replay = r }) ms

-- `none` stands for an exception, which the `data` handler does not catch.
unfoldable pub handle_frame : Served → PostgresFrame → Option Served
unfolding on_query on_parse on_bind describe_columns on_describe on_execute
handle_frame s f =
    if f.type == b'Q'
    then on_query s f.payload
    else if f.type == b'P'
    then on_parse s f.payload
    else if f.type == b'B'
    then on_bind s f.payload
    else if f.type == b'D'
    then on_describe s
    else if f.type == b'E'
    then on_execute s
    else if f.type == b'S'
    then write s (ready_for_query ∷ [])
    else some s

abbrev pub greeting : List (Option Bytes)
greeting =
    authentication_ok
    ∷ parameter_status (codes "server_version") (codes "16.0")
    ∷ parameter_status (codes "client_encoding") (codes "UTF8")
    ∷ backend_key_data
    ∷ ready_for_query
    ∷ []

-- The bytes behind the startup message; `none` in the second place is the same buffer.
handle_startup : Served → Bytes → StartupKind → Option Served × Option Bytes
handle_startup s b incomplete = (some s, none)
handle_startup s b (ssl_request n) = (write s (some (b'N' ∷ []) ∷ []), some (subarray n b))
handle_startup s b (startup n) = (
  write s greeting >>= λ t. some (record t { session = record t.session { started = true } }),
  some (subarray n b),
)

unfoldable pub keep : Consumed (Option Served) → Option Connection
keep r = r.state >>= λ s. some (record { buffered = r.rest; served = s })

-- The loop over the frames.
unfoldable pub serve_frames : Served → Bytes → Option Connection
unfolding keep
serve_frames s b = keep (consume read_frame (λ o f. o >>= λ t. handle_frame t f) (some s) b)

begin : Bytes → Option Served → Option Bytes → Option Connection
begin b none rest = none
begin b (some s) none = some (record { buffered = b; served = s })
begin b (some s) (some rest) =
    if s.session.started then serve_frames s rest else some (record { buffered = rest; served = s })

-- The `data` handler; `none` when it throws.
unfoldable pub on_data : Connection → Bytes → Option Connection
unfolding begin handle_startup serve_frames
on_data c chunk =
    let b = c.buffered ++ chunk in
    if c.served.session.started
    then serve_frames c.served b
    else (let (s, rest) = handle_startup c.served b (read_startup b) in begin b s rest)
