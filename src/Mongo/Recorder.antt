-- ===== src/Mongo/Recorder.antt =====
-- `MongoRecorder` of src/record/protocols/mongoRecorder.ts: a reply is paired with the command whose
-- id it names. The k-th call of `Date.now()` on a connection returns `clock k`.
pub mod Events
pub mod Streams
pub mod Pairing
use cognivox_record.Prelude.{
  ℕ, zero, suc, Bool, true, false, List, [], ◌∷◌, ◌++◌, Option, none, some, drop, if◌then◌else◌,
}
use cognivox_record.Prelude.Int.{ℤ, sub_ℕ}
use cognivox_record.Text.Utf8.{Bytes}
use cognivox_record.Handled.{Handled, returned, raised, never}
use cognivox_record.Interaction.{DependencyInteraction, mongodb}
use cognivox_record.Bson.{Fields, Platform}
use cognivox_record.Bson.Decode.{Outcome, done, threw, stalled}
use cognivox_record.Mongo.{MongoMessage, same_int, command_name_of}
use cognivox_record.Mongo.Loop.{Scan, scan}

pub record PendingCommand : Type 0 where
  pub body : Fields
  pub sent_at : ℕ

-- What the two callbacks share, with the number of clock readings made so far; `pending` is a map by
-- the id of the request.
pub record Table : Type 0 where
  pub pending : ℤ → Option PendingCommand
  pub completed : List DependencyInteraction
  pub readings : ℕ

pub record MongoRecorder : Type 0 where
  pub client_buffer : Bytes
  pub server_buffer : Bytes
  pub table : Table

abbrev pub fresh : MongoRecorder
fresh = record {
  client_buffer = [];
  server_buffer = [];
  table = record { pending = λ id. none; completed = []; readings = 0 };
}

-- `map.set(id, command)`, and `map.delete(id)` with `none`.
abbrev pub update :
    ℤ → Option PendingCommand → (ℤ → Option PendingCommand) → ℤ → Option PendingCommand
update id command pending k = if same_int id k then command else pending k

-- How a handler ends behind its loop: it keeps the bytes from the offset on, an exception passes, and
-- a loop that never ends never lets it return.
abbrev pub keep_rest {ℓ} : {S : Type ℓ} → (ℕ → S) → S → Outcome ℕ → Handled S
keep_rest keep old (done o) = returned (keep o)
keep_rest keep old threw = raised old
keep_rest keep old stalled = never

client_kept : MongoRecorder → Bytes → ℕ → Table → MongoRecorder
client_kept s joined o t = record s { client_buffer = drop o joined; table = t }

server_kept : MongoRecorder → Bytes → ℕ → Table → MongoRecorder
server_kept s joined o t = record s { server_buffer = drop o joined; table = t }

module _ (clock : ℕ → ℕ) where
  -- The callback of `onClientData`.
  unfoldable pub on_request : Table → MongoMessage → Table
  on_request t m = record t {
    pending =
        update m.request_id (some (record { body = m.body; sent_at = clock t.readings })) t.pending;
    readings = suc t.readings;
  }

  complete : Table → MongoMessage → Option PendingCommand → Table
  complete t m none = t
  complete t m (some awaiting) = record {
    pending = update m.response_to none t.pending;
    completed =
        t.completed
        ++ (mongodb (command_name_of awaiting.body) awaiting.body m.body
              (sub_ℕ (clock t.readings) awaiting.sent_at)
            ∷ []);
    readings = suc t.readings;
  }

  -- The callback of `onServerData`.
  unfoldable pub on_reply : Table → MongoMessage → Table
  unfolding complete
  on_reply t m = complete t m (t.pending m.response_to)

  module _ (platform : Platform) where
    client_scan : Table → Bytes → Scan Table
    client_scan t b = scan platform (λ t m. (on_request t m, done tt)) b t

    server_scan : Table → Bytes → Scan Table
    server_scan t b = scan platform (λ t m. (on_reply t m, done tt)) b t

    -- Of a chunk whose reading throws the messages before the exception are in the table, and the
    -- buffer is the one from before the chunk.
    unfoldable pub on_client_data : MongoRecorder → Bytes → Handled MongoRecorder
    unfolding client_scan client_kept
    on_client_data s chunk =
        let joined = s.client_buffer ++ chunk in
        let r = client_scan s.table joined in
        keep_rest (λ o. client_kept s joined o r.state) (record s { table = r.state }) r.offset

    unfoldable pub on_server_data : MongoRecorder → Bytes → Handled MongoRecorder
    unfolding server_scan server_kept
    on_server_data s chunk =
        let joined = s.server_buffer ++ chunk in
        let r = server_scan s.table joined in
        keep_rest (λ o. server_kept s joined o r.state) (record s { table = r.state }) r.offset

-- The completed pairs since the last call.
unfoldable pub drain : MongoRecorder → List DependencyInteraction × MongoRecorder
drain s = (s.table.completed, record s { table = record s.table { completed = [] } })
