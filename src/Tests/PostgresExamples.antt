-- ===== src/Tests/PostgresExamples.antt =====
-- The theorems on Postgres at concrete inputs.
use cognivox_record.Prelude.{
  ℕ, suc, ◌+◌, ◌≡◌, refl, ap, Bool, true, false, List, [], ◌∷◌, ◌++◌, Option, none, some, ◌>>=◌,
  arith, length, All,
}
use cognivox_record.Prelude.Int.{ℤ, pos, negsuc, sub_ℕ}
use cognivox_record.Text.Utf8
use cognivox_record.Text.Utf8.{Text, Bytes, codes}
use cognivox_record.Tests.Plain.{plain-IsScalar, plain-IsName}
use cognivox_record.Text.Words.{equal}
use mathlib.Core.Option
use cognivox_record.Dict.{contains}
use cognivox_record.Framing.{Read, partial, frame, consume}
use cognivox_record.Framing.Loop.{rest_partial}
use cognivox_record.Framing.Invariant.{consume-unfaulted}
use cognivox_record.Interaction.{PostgresColumn, Row, result_set, DependencyInteraction, postgres}
use cognivox_record.Postgres.Messages.{read_frame, read_data_row, read_row_description}
use cognivox_record.Postgres.Messages.Reader.{read_frame-IsReader, read_frame-ne_fault}
use cognivox_record.Postgres.Encoder.{
  message, cstring, row_description_payload, data_row_payload, error_response, ready_for_query,
}
use cognivox_record.Postgres.Encoder.RoundTrip.{
  IsName, IsText, read_frame-message, read_data_row-payload, read_row_description-payload,
}
use cognivox_record.Postgres.Recorder.{
  awaiting_ssl_reply, encrypted, Query, PostgresRecorder, fresh, on_client_frame, on_server_frame,
  on_client_data, on_server_data,
}
use cognivox_record.Postgres.Recorder.Chunks.{on_client_data-append_running}
use cognivox_record.Postgres.Recorder.Tls.{from_client, from_server, feed, tls_accepted}
use cognivox_record.Postgres.Recorded.{reading, answered, record_replayed}
use cognivox_record.Postgres.Session.{idle, asked, answer_to, simple_query_recorded}
use cognivox_record.Postgres.Replay.{normalise, RecordedResult, load, lookup, result_for, peek}
use cognivox_record.Postgres.Replay.Held.{exact_key, recorded}
use cognivox_record.Postgres.Replay.Answers.{lookup_all, expected, lookups_refine, peek_advances}
use cognivox_record.Postgres.Replay.Server.{
  Session, Served, no_recording, concat_buffers, messages_for, handle_frame, on_data,
}
use cognivox_record.Postgres.Replay.Chunks.{on_data-append_started}
use cognivox_record.Postgres.Replay.Unrecorded.{unrecorded_query}

abbrev ticking : ℕ → ℕ
ticking n = n + 100

abbrev columns : List PostgresColumn
columns = record { name = codes "n"; type_oid = pos 23 } ∷ []

abbrev rows : List Row
rows = (some (codes "7") ∷ []) ∷ (none ∷ []) ∷ []

columns-IsName : All (λ c. IsName c.name) columns
columns-IsName = (plain-IsName (codes "n") refl, tt)

rows-IsText : All (All IsText) rows
rows-IsText = ((plain-IsScalar (codes "7") refl, tt), ((tt, tt), tt))

abbrev sql : Text
sql = codes "SELECT n"

-- `SELECT n` twice, with a result of two rows and then with one of none.
abbrev recording : List DependencyInteraction
recording =
    postgres sql [] (result_set columns rows (codes "SELECT 2")) (pos 1)
    ∷ postgres sql [] (result_set columns [] (codes "SELECT 0")) (pos 1)
    ∷ []

abbrev first_result : RecordedResult
first_result = record { columns = columns; rows = rows; tag = codes "SELECT 2"; error = none }

abbrev second_result : RecordedResult
second_result = record { columns = columns; rows = []; tag = codes "SELECT 0"; error = none }

lookups_refine_example :
    lookup_all (load recording) ((sql, []) ∷ (codes "SELECT m", []) ∷ (sql, []) ∷ [])
    ≡ expected recording [] ((sql, []) ∷ (codes "SELECT m", []) ∷ (sql, []) ∷ [])
lookups_refine_example =
    lookups_refine recording ((sql, []) ∷ (codes "SELECT m", []) ∷ (sql, []) ∷ [])

recording-recorded :
    recorded exact_key (exact_key (sql, [])) recording ≡ first_result ∷ second_result ∷ []
unfolding recorded equal cognivox_record.Postgres.Replay.signature_of
    cognivox_record.Text.Words.trim cognivox_record.Text.Words.squeeze
    cognivox_record.Text.Json.stringify
recording-recorded = refl

peek_advances_example :
    ((peek (load recording) sql []).0 ≡ some first_result)
    × ((result_for (peek (load recording) sql []).1 sql []).0 ≡ some second_result)
peek_advances_example =
    peek_advances recording (sql, []) first_result second_result [] recording-recorded

-- What a partial function gives at an input where it is defined.
abbrev bytes_of : Option Bytes → Bytes
bytes_of o = Option.get_or o []

abbrev tag_bytes : Bytes
tag_bytes = bytes_of (message b'C' (cstring (codes "OK")))

tag_bytes-message : message b'C' (cstring (codes "OK")) ≡ some tag_bytes
unfolding message Utf8.encode cognivox_record.Prelude.Int.write_int32_be
tag_bytes-message = refl

read_frame-message_example :
    read_frame (tag_bytes ++ (b'Z' ∷ []))
    ≡ frame (record { type = b'C'; payload = cstring (codes "OK") }) (length tag_bytes)
read_frame-message_example =
    read_frame-message b'C' (cstring (codes "OK")) (b'Z' ∷ []) tag_bytes-message

abbrev row_bytes : Bytes
row_bytes = bytes_of (data_row_payload (some (codes "7") ∷ none ∷ []))

row_bytes-payload : data_row_payload (some (codes "7") ∷ none ∷ []) ≡ some row_bytes
unfolding data_row_payload cognivox_record.Prelude.Int.write_int16_be
    cognivox_record.Postgres.Encoder.column_value cognivox_record.Prelude.Int.write_int32_be
    Utf8.encode
row_bytes-payload = refl

read_data_row-payload_example : read_data_row row_bytes ≡ some (some (codes "7") ∷ none ∷ [])
read_data_row-payload_example =
    read_data_row-payload (some (codes "7") ∷ none ∷ []) (plain-IsScalar (codes "7") refl, (tt, tt))
      row_bytes-payload

abbrev column_bytes : Bytes
column_bytes = bytes_of (row_description_payload columns)

column_bytes-payload : row_description_payload columns ≡ some column_bytes
unfolding row_description_payload cognivox_record.Prelude.Int.write_int16_be
    cognivox_record.Postgres.Encoder.column_field cognivox_record.Prelude.Int.write_int32_be
column_bytes-payload = refl

read_row_description-payload_example : read_row_description column_bytes ≡ some columns
read_row_description-payload_example =
    read_row_description-payload columns columns-IsName column_bytes-payload

abbrev answer_messages : List (Option Bytes)
answer_messages = messages_for sql true (some first_result)

abbrev answer_bytes : Bytes
answer_bytes = bytes_of (concat_buffers answer_messages)

answer_bytes-concat : concat_buffers answer_messages ≡ some answer_bytes
unfolding concat_buffers messages_for cognivox_record.Postgres.Encoder.row_description
    cognivox_record.Prelude.Int.write_int16_be cognivox_record.Postgres.Encoder.column_field
    cognivox_record.Prelude.Int.write_int32_be message Utf8.encode
    cognivox_record.Postgres.Encoder.data_row cognivox_record.Postgres.Encoder.column_value
answer_bytes-concat = refl

abbrev query_bytes : Bytes
query_bytes = bytes_of (message b'Q' (cstring sql))

query_bytes-message : message b'Q' (cstring sql) ≡ some query_bytes
unfolding message cognivox_record.Prelude.Int.write_int32_be Utf8.encode
query_bytes-message = refl

abbrev asking : Query
asking = asked ticking (fresh ticking).query sql

record_replayed_example :
    consume read_frame
      (on_server_frame ticking)
      (reading ticking asking [] [])
      (answer_bytes ++ (b'Z' ∷ []))
    ≡ consume read_frame
        (on_server_frame ticking)
        (answered ticking asking sql columns rows (codes "SELECT 2"))
        (b'Z' ∷ [])
record_replayed_example =
    record_replayed ticking asking true columns rows b'S' (codes "ELECT n") (codes "SELECT 2")
      (b'Z' ∷ []) refl (plain-IsName (codes "SELECT 2") refl) columns-IsName rows-IsText
      answer_bytes-concat

abbrev whole_answer : Bytes
whole_answer = bytes_of (answer_to sql columns rows (codes "SELECT 2"))

whole_answer-concat : answer_to sql columns rows (codes "SELECT 2") ≡ some whole_answer
unfolding concat_buffers messages_for cognivox_record.Postgres.Encoder.row_description
    cognivox_record.Prelude.Int.write_int16_be cognivox_record.Postgres.Encoder.column_field
    cognivox_record.Prelude.Int.write_int32_be message Utf8.encode
    cognivox_record.Postgres.Encoder.data_row cognivox_record.Postgres.Encoder.column_value
whole_answer-concat = refl

simple_query_recorded_example :
    (t : PostgresRecorder) × (on_client_data ticking
        (idle ticking (fresh ticking).query false)
        query_bytes
      ≡ (idle ticking asking false, false))
    × (on_server_data ticking (idle ticking asking false) whole_answer ≡ (t, false))
    × (t.client_buffer ≡ [])
    × (t.server_buffer ≡ [])
    × (t.query.completed
        ≡ []
          ++ (postgres sql []
                (result_set columns rows (codes "SELECT 2"))
                (sub_ℕ (ticking 2) (ticking 1))
              ∷ []))
simple_query_recorded_example =
    simple_query_recorded ticking (fresh ticking).query false b'S' (codes "ELECT n")
      (codes "SELECT 2") columns rows (plain-IsName sql refl) (plain-IsName (codes "SELECT 2") refl)
      columns-IsName rows-IsText query_bytes-message whole_answer-concat

abbrev upgrading : PostgresRecorder
upgrading = record (fresh ticking) { phase = awaiting_ssl_reply }

tls_accepted_example :
    feed ticking upgrading (from_server (b'S' ∷ []) ∷ from_client (22 ∷ 3 ∷ []) ∷ [])
    ≡ record upgrading { phase = encrypted; was_encrypted = true }
tls_accepted_example = tls_accepted ticking upgrading [] (from_client (22 ∷ 3 ∷ []) ∷ []) refl

abbrev plaintext : PostgresRecorder
plaintext = idle ticking (fresh ticking).query false

-- The empty chunk throws nothing, and the rest of a query's bytes follow.
abbrev first_half : Bytes
first_half = b'Q' ∷ 0 ∷ []

abbrev second_half : Bytes
second_half = 0 ∷ 0 ∷ 6 ∷ b'x' ∷ 0 ∷ []

client_quiet : (on_client_data ticking plaintext (first_half ++ second_half)).1 ≡ false
unfolding on_client_data consume cognivox_record.Framing.consume_upto read_frame
    cognivox_record.Prelude.Int.read_int32_be
client_quiet = refl

on_client_data-append_running_example :
    on_client_data ticking plaintext (first_half ++ second_half)
    ≡ on_client_data ticking (on_client_data ticking plaintext first_half).0 second_half
on_client_data-append_running_example =
    on_client_data-append_running ticking plaintext first_half second_half refl client_quiet

server_quiet : (on_server_data ticking plaintext (first_half ++ second_half)).1 ≡ false
unfolding on_server_data consume cognivox_record.Framing.consume_upto read_frame
    cognivox_record.Prelude.Int.read_int32_be
server_quiet = refl

abbrev started_session : Session
started_session = record { prepared = []; sql = []; params = []; started = true }

abbrev served : Served
served = record { replay = load recording; session = started_session; written = [] }

on_data-append_started_example :
    on_data (record { buffered = []; served = served }) (first_half ++ second_half) ≡ (
      on_data (record { buffered = []; served = served }) first_half >>= λ t. on_data t second_half)
on_data-append_started_example =
    on_data-append_started (record { buffered = []; served = served }) first_half second_half refl

abbrev missing_sql : Text
missing_sql = codes "SELECT m"

missing_sql-lookup : (lookup (load recording) missing_sql []).0 ≡ none
unfolding lookup cognivox_record.Dict.get cognivox_record.Postgres.Replay.push
    cognivox_record.Dict.put equal cognivox_record.Postgres.Replay.signature_of
    cognivox_record.Text.Words.trim cognivox_record.Text.Words.squeeze
    cognivox_record.Text.Json.stringify
missing_sql-lookup = refl

abbrev error_bytes : Bytes
error_bytes =
    bytes_of (concat_buffers (error_response (no_recording missing_sql) ∷ ready_for_query ∷ []))

error_bytes-concat :
    concat_buffers (error_response (no_recording missing_sql) ∷ ready_for_query ∷ [])
    ≡ some error_bytes
unfolding concat_buffers message cognivox_record.Prelude.Int.write_int32_be Utf8.encode
    cognivox_record.Text.Words.trim cognivox_record.Text.Words.squeeze
error_bytes-concat = refl

unrecorded_query_example :
    (t : Served) × (handle_frame served (record { type = b'Q'; payload = cstring missing_sql })
      ≡ some t)
    × (t.written ≡ [] ++ (error_bytes ∷ []))
    × (t.replay.matched_count ≡ served.replay.matched_count)
    × (contains (normalise missing_sql) t.replay.missing ≡ true)
unrecorded_query_example =
    unrecorded_query served missing_sql (plain-IsName missing_sql refl) missing_sql-lookup
      error_bytes-concat

rest_partial_example :
    read_frame (consume read_frame (on_client_frame ticking) asking first_half).rest ≡ partial
rest_partial_example =
    rest_partial read_frame-IsReader (on_client_frame ticking) asking first_half
      (consume-unfaulted read_frame (on_client_frame ticking) asking first_half read_frame-ne_fault)
