-- ===== src/Tests/RedisExamples.antt =====
-- The theorems on Redis at concrete inputs.
use cognivox_record.Prelude.{
  ℕ, ◌+◌, ◌≡◌, refl, List, [], ◌∷◌, ◌++◌, none, some, ◌>>=◌, arith, length, All,
}
use cognivox_record.Prelude.Int.{pos, negsuc}
use cognivox_record.Text.Utf8
use cognivox_record.Text.Utf8.{Text, Bytes, codes}
use cognivox_record.Text.Words.{to_upper}
use cognivox_record.Tests.Plain.{plain-IsScalar, plain-IsLine}
use cognivox_record.Framing.{frame, consume}
use cognivox_record.Framing.Chunks.{resume, consume-append}
use cognivox_record.Framing.Encoded.{concat_map}
use cognivox_record.Resp.{
  RespValue, simple, integer, bulk, array_null, array, unsupported, nil, cons, line, byte_length,
  decode, encode,
}
use cognivox_record.Resp.Reader.{decode-IsReader}
use cognivox_record.Resp.RoundTrip.{IsWire, decode-encode_value}
use cognivox_record.Resp.Commands.{
  RespCommand, to_command, command_items, to_command-command_items, IsPlain, inline_command_lost,
}
use cognivox_record.Resp.Stored.{describe, from_stored, from_stored-describe}
use cognivox_record.Redis.Recorder.{RedisRecorder, fresh, on_request, on_client_data}
use cognivox_record.Redis.Recorder.Chunks.{on_client_data-append}
use cognivox_record.Redis.Recorder.Pairing.{
  Event, request, reply, IsAnswerable, responses, log, sent, answered, run, pairing,
}
use cognivox_record.Redis.Recorder.Session.{Turn, client, server, events, deliver_all, session}
use cognivox_record.Redis.Replay.{RedisReplay, empty_replay, load, ReplySequence}
use cognivox_record.Redis.Replay.Answers.{reply_all, expected, replay_refines}
use cognivox_record.Redis.Replay.Recorded.{
  Exchange, interactions, commands, replies, replay_recorded,
}
use cognivox_record.Redis.Replay.Server.{
  Connection, on_data, on_data-append, Sent, as_values, as_commands, encode_all, on_data_answers,
}

abbrev ticking : ℕ → ℕ
ticking n = n + 100

abbrev get_a : RespValue
get_a = array (command_items (codes "GET" ∷ codes "a" ∷ []))

abbrev get_command : RespCommand
get_command = record { command = codes "GET"; args = codes "a" ∷ [] }

-- One key that is read twice, with two replies.
abbrev counted : List Exchange
counted = (get_command, bulk (some (codes "1")), pos 3) ∷ (get_command, bulk none, pos 4) ∷ []

replay_recorded_example :
    (r : RedisReplay) × (load (interactions counted) ≡ some r)
    × ((reply_all r (commands counted)).0 ≡ replies counted)
replay_recorded_example = replay_recorded counted

abbrev counted_replay : RedisReplay
counted_replay = record {
  sequences =
      (codes "GET a", record { replies = bulk (some (codes "1")) ∷ bulk none ∷ []; next = 0 }) ∷ [];
  matched_count = 0;
  missing = [];
}

counted-load : load (interactions counted) ≡ some counted_replay
unfolding load from_stored describe cognivox_record.Dict.put
    cognivox_record.Redis.Replay.signature_of cognivox_record.Text.Words.join to_upper
    cognivox_record.Dict.get
counted-load = refl

replay_refines_example :
    (reply_all counted_replay (commands counted)).0
    ≡ expected (interactions counted) [] (commands counted)
replay_refines_example =
    replay_refines (interactions counted) counted_replay (commands counted) counted-load

abbrev two_turns : List Turn
two_turns = client (get_a ∷ []) ∷ server (bulk (some (codes "1")) ∷ []) ∷ []

get_a-IsWire : IsWire get_a
unfolding command_items Utf8.encode
get_a-IsWire = (
  (
    (plain-IsScalar (codes "GET") refl, omega arith),
    ((plain-IsScalar (codes "a") refl, omega arith), tt),
  ),
  omega arith,
)

reply_one-IsWire : IsWire (bulk (some (codes "1")))
unfolding Utf8.encode
reply_one-IsWire = (plain-IsScalar (codes "1") refl, omega arith)

abbrev two_events : List Event
two_events = request get_a ∷ reply (bulk (some (codes "1"))) ∷ []

IsAnswerable-events : IsAnswerable 0 two_events
unfolding to_command command_items to_upper
IsAnswerable-events = tt

IsAnswerable-turns : IsAnswerable 0 (events two_turns)
unfolding to_command command_items to_upper
IsAnswerable-turns = tt

session_example :
    (s : RedisRecorder) × (deliver_all ticking fresh two_turns ≡ some s)
    × (s.client_buffer ≡ [])
    × (s.server_buffer ≡ [])
    × (log s.queue ≡ sent (events two_turns))
    × (responses s.queue.completed ≡ answered (events two_turns))
session_example =
    session ticking two_turns ((get_a-IsWire, tt), ((reply_one-IsWire, tt), tt)) IsAnswerable-turns

pairing_example :
    (log (run ticking fresh.queue two_events) ≡ sent two_events)
    × (responses (run ticking fresh.queue two_events).completed ≡ answered two_events)
pairing_example = pairing ticking two_events IsAnswerable-events

-- The bytes of a GET, cut in the middle of its verb.
abbrev head_bytes : Bytes
head_bytes = codes "*2" ++ (13 ∷ 10 ∷ (codes "$3" ++ (13 ∷ 10 ∷ codes "GE")))

abbrev tail_bytes : Bytes
tail_bytes = codes "T" ++ (13 ∷ 10 ∷ (codes "$1" ++ (13 ∷ 10 ∷ (codes "a" ++ (13 ∷ 10 ∷ [])))))

on_client_data-append_example :
    on_client_data ticking fresh (head_bytes ++ tail_bytes)
    ≡ (on_client_data ticking fresh head_bytes >>= λ t. on_client_data ticking t tail_bytes)
on_client_data-append_example = on_client_data-append ticking fresh head_bytes tail_bytes

abbrev idle_connection : Connection
idle_connection = record {
  buffered = [];
  served = record { replay = counted_replay; written = [] };
}

on_data-append_example :
    on_data idle_connection (head_bytes ++ tail_bytes)
    ≡ (on_data idle_connection head_bytes >>= λ t. on_data t tail_bytes)
on_data-append_example = on_data-append idle_connection head_bytes tail_bytes

abbrev two_gets : List Sent
two_gets =
    record { verb = codes "get"; args = codes "a" ∷ [] }
    ∷ record { verb = codes "GET"; args = codes "b" ∷ [] }
    ∷ []

two_gets-IsWire : All IsWire (as_values two_gets)
unfolding command_items Utf8.encode
two_gets-IsWire = (
  (
    (
      (plain-IsScalar (codes "get") refl, omega arith),
      ((plain-IsScalar (codes "a") refl, omega arith), tt),
    ),
    omega arith,
  ),
  (
    (
      (
        (plain-IsScalar (codes "GET") refl, omega arith),
        ((plain-IsScalar (codes "b") refl, omega arith), tt),
      ),
      omega arith,
    ),
    tt,
  ),
)

on_data_answers_example :
    (t : Connection) × (on_data idle_connection (concat_map encode (as_values two_gets)) ≡ some t)
    × (t.buffered ≡ [])
    × (t.served.written ≡ encode_all (expected (interactions counted) [] (as_commands two_gets)))
on_data_answers_example =
    on_data_answers (interactions counted) counted_replay two_gets counted-load two_gets-IsWire

abbrev nested : RespValue
nested = array (cons (integer (negsuc 4)) (cons array_null (cons (simple (codes "OK")) nil)))

from_stored-describe_example : from_stored (describe nested) ≡ some nested
from_stored-describe_example = from_stored-describe nested

nested-IsWire : IsWire nested
nested-IsWire = ((omega arith, (tt, (plain-IsLine (codes "OK") refl, tt))), omega arith)

decode-encode_value_example :
    decode (encode nested ++ tail_bytes) ≡ frame nested (length (encode nested))
decode-encode_value_example = decode-encode_value nested tail_bytes nested-IsWire

to_command-command_items_example :
    to_command (array (command_items (codes "get" ∷ codes "a" ∷ [])))
    ≡ some (record { command = to_upper (codes "get"); args = codes "a" ∷ [] })
to_command-command_items_example = to_command-command_items (codes "get") (codes "a" ∷ [])

IsPlain-p : IsPlain b'P'
IsPlain-p = record {
  not_simple = λ e. omega arith;
  not_error = λ e. omega arith;
  not_integer = λ e. omega arith;
  not_bulk = λ e. omega arith;
  not_array = λ e. omega arith;
}

inline_command_lost_example :
    (decode (line b'P' (codes "ING") ++ [])
      ≡ frame (unsupported (b'P' ∷ codes "ING")) (byte_length (codes "ING") + 3))
    × (to_command (unsupported (b'P' ∷ codes "ING")) ≡ none)
inline_command_lost_example =
    inline_command_lost b'P' (codes "ING") [] IsPlain-p (λ e. omega arith)
      (plain-IsLine (codes "ING") refl)

consume-append_example :
    consume decode (on_request ticking) fresh.queue (head_bytes ++ tail_bytes)
    ≡ resume decode-IsReader
        (on_request ticking)
        (consume decode (on_request ticking) fresh.queue head_bytes)
        tail_bytes
consume-append_example =
    consume-append decode-IsReader (on_request ticking) fresh.queue head_bytes tail_bytes
