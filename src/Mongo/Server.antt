-- ===== src/Mongo/Server.antt =====
-- `startMongoReplayServer` of src/replay/mongoReplayServer.ts: what the listener of a connection's data
-- does. `now n` is the text of the time when the n-th reply is made.
pub mod Replies
use cognivox_record.Prelude.{ℕ, zero, suc, List, [], ◌∷◌, ◌++◌, Option, none, some, drop}
use cognivox_record.Prelude.Int.{ℤ, pos}
use cognivox_record.Text.Utf8.{Text, Bytes}
use cognivox_record.Bson.{Platform}
use cognivox_record.Bson.Decode.{Outcome, done, threw, stalled}
use cognivox_record.Mongo.{MongoMessage}
use cognivox_record.Mongo.Loop.{Ending, ended, scan}
use cognivox_record.Mongo.Replay.{MongoReplay, reply_to}
use cognivox_record.Mongo.Reply.{encode_reply}

-- What the connections share; `written` is what was written to the connection at hand.
pub record Served : Type 0 where
  pub next_request_id : ℕ
  pub replay : MongoReplay
  pub written : List Bytes

pub record Connection : Type 0 where
  pub buffered : Bytes
  pub served : Served

abbrev pub start : MongoReplay → Connection
start replay = record {
  buffered = [];
  served = record { next_request_id = 1; replay = replay; written = [] };
}

write : Served → Option Bytes → Served × Ending
write s none = (s, threw)
write s (some bytes) = (record s { written = s.written ++ (bytes ∷ []) }, done tt)

rest_from : Bytes → Outcome ℕ → Bytes
rest_from b (done o) = drop o b
rest_from b threw = b
rest_from b stalled = b

module _ (platform : Platform) (now : ℕ → Text) where
  -- One message: the request id is counted up before the reply is made.
  unfoldable pub answer : Served → MongoMessage → Served × Ending
  unfolding write
  answer s m =
      let id = suc s.next_request_id in
      let (body, replay) = reply_to platform (now id) s.replay m.body in
      write (record s { next_request_id = id; replay = replay })
        (encode_reply platform m.request_id (pos id) body m.op_code)

  unfoldable pub on_data : Connection → Bytes → Connection × Ending
  unfolding answer rest_from ended
  on_data c chunk =
      let joined = c.buffered ++ chunk in
      let r = scan platform answer joined c.served in
      (record { buffered = rest_from joined r.offset; served = r.state }, ended r.offset)
