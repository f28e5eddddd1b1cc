-- ===== src/Redis/Recorder.antt =====
-- src/record/protocols/redisRecorder.ts: commands are paired with replies by their order. The k-th
-- call of `Date.now()` on a connection returns `clock k`. A fault of the decoder (Resp) ends the
-- model of the connection: the handlers return `none`.
pub mod Chunks
pub mod Pairing
pub mod Session
use cognivox_record.Prelude.{
  ℕ, zero, suc, Bool, true, false, List, [], ◌∷◌, ◌++◌, Option, none, some, unless,
}
use cognivox_record.Prelude.Int.{sub_ℕ}
use cognivox_record.Text.Utf8.{Bytes}
use cognivox_record.Framing.{Consumed, consume}
use cognivox_record.Resp.{RespValue, decode}
use cognivox_record.Resp.Commands.{RespCommand, to_command}
use cognivox_record.Resp.Stored.{describe}
use cognivox_record.Interaction.{DependencyInteraction, redis}

-- A command awaiting its reply.
pub record PendingCommand : Type 0 where
  pub command : RespCommand
  pub sent_at : ℕ

-- What the two callbacks share, with the number of clock readings made so far.
pub record Queue : Type 0 where
  pub pending : List PendingCommand
  pub completed : List DependencyInteraction
  pub readings : ℕ

pub record RedisRecorder : Type 0 where
  pub client_buffer : Bytes
  pub server_buffer : Bytes
  pub queue : Queue

abbrev pub fresh : RedisRecorder
fresh = record {
  client_buffer = [];
  server_buffer = [];
  queue = record { pending = []; completed = []; readings = 0 };
}

module _ (clock : ℕ → ℕ) where
  push_command : Queue → Option RespCommand → Queue
  push_command q none = q
  push_command q (some c) = record q {
    pending = q.pending ++ (record { command = c; sent_at = clock q.readings } ∷ []);
    readings = suc q.readings;
  }

  -- The callback of `onClientData`: what is no command is passed over.
  unfoldable pub on_request : Queue → RespValue → Queue
  unfolding push_command
  on_request q v = push_command q (to_command v)

  complete : Queue → List PendingCommand → RespValue → Queue
  complete q [] v = q
  complete q (awaiting ∷ others) v = record {
    pending = others;
    completed =
        q.completed
        ++ (redis awaiting.command (describe v) (sub_ℕ (clock q.readings) awaiting.sent_at) ∷ []);
    readings = suc q.readings;
  }

  -- The callback of `onServerData`: a reply with nothing waiting is dropped.
  unfoldable pub on_reply : Queue → RespValue → Queue
  unfolding complete
  on_reply q v = complete q q.pending v

  keep_client : RedisRecorder → Consumed Queue → Option RedisRecorder
  keep_client s r = unless r.faulted (record s { client_buffer = r.rest; queue = r.state })

  keep_server : RedisRecorder → Consumed Queue → Option RedisRecorder
  keep_server s r = unless r.faulted (record s { server_buffer = r.rest; queue = r.state })

  unfoldable pub on_client_data : RedisRecorder → Bytes → Option RedisRecorder
  unfolding keep_client
  on_client_data s chunk =
      keep_client s (consume decode on_request s.queue (s.client_buffer ++ chunk))

  unfoldable pub on_server_data : RedisRecorder → Bytes → Option RedisRecorder
  unfolding keep_server
  on_server_data s chunk =
      keep_server s (consume decode on_reply s.queue (s.server_buffer ++ chunk))

-- The completed pairs since the last call.
unfoldable pub drain : RedisRecorder → List DependencyInteraction × RedisRecorder
drain s = (s.queue.completed, record s { queue = record s.queue { completed = [] } })
