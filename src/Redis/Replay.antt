-- ===== src/Redis/Replay.antt =====
-- src/replay/redisReplayServer.ts: commands are answered from a recording, in recorded order. The
-- server's loop hands each decoded command to `reply_to` and writes the encoded reply.
pub mod Answers
pub mod Recorded
pub mod Server
use cognivox_record.Prelude.{
  ℕ, zero, suc, ◌+◌, ◌-◌, min, List, [], ◌∷◌, ◌++◌, Option, none, some, ◌>>=◌, length, get_elem?,
}
use cognivox_record.Text.Utf8.{Text, codes}
use cognivox_record.Text.Words.{to_upper, join, sort}
use cognivox_record.Dict.{Dict, get, put, add}
use cognivox_record.Resp.{RespValue, error}
use cognivox_record.Resp.Commands.{RespCommand}
use cognivox_record.Resp.Stored.{Stored, from_stored}
use cognivox_record.Interaction.{mongodb, DependencyInteraction, redis, postgres}

-- Recorded replies for one command signature, and the number of answers given from them.
pub record ReplySequence : Type 0 where
  pub replies : List RespValue
  pub next : ℕ

-- `GET user:7`
unfoldable pub signature_of : Text → List Text → Text
signature_of command args = join (to_upper command ∷ args)

pub record RedisReplay : Type 0 where
  pub sequences : Dict ReplySequence
  pub matched_count : ℕ
  pub missing : List Text

abbrev pub empty_replay : RedisReplay
empty_replay = record { sequences = []; matched_count = 0; missing = [] }

extend_sequence : Option ReplySequence → RespValue → ReplySequence
extend_sequence none v = record { replies = v ∷ []; next = 0 }
extend_sequence (some q) v = record q { replies = q.replies ++ (v ∷ []) }

-- One round of the constructor's loop; a response that is no stored reply throws.
add_interaction : RedisReplay → DependencyInteraction → Option RedisReplay
add_interaction r (postgres s p a d) = some r
add_interaction r (mongodb c q a d) = some r
add_interaction r (redis c a d) =
    let key = signature_of c.command c.args in
    from_stored a >>= λ v.
    some (record r { sequences = put key (extend_sequence (get key r.sequences) v) r.sequences })

load_from : RedisReplay → List DependencyInteraction → Option RedisReplay
load_from r [] = some r
load_from r (i ∷ is) = add_interaction r i >>= λ s. load_from s is

-- The constructor.
unfoldable pub load : List DependencyInteraction → Option RedisReplay
unfolding add_interaction load_from extend_sequence
load = load_from empty_replay

abbrev pub no_recording : Text → RespValue
no_recording key = error (codes "ERR cognivox has no recording for: " ++ key)

-- The reply at hand; `none` stands for an index with no element.
answer_from : RedisReplay → Text → Option ReplySequence → Option RespValue × RedisReplay
answer_from r key none = (some (no_recording key), record r { missing = add key r.missing })
answer_from r key (some q) = (
  get_elem? q.replies (min q.next (length q.replies - 1)),
  record r {
    matched_count = suc r.matched_count;
    sequences = put key (record q { next = suc q.next }) r.sequences;
  },
)

unfoldable pub reply_to : RedisReplay → Text → List Text → Option RespValue × RedisReplay
unfolding answer_from
reply_to r command args =
    let key = signature_of command args in answer_from r key (get key r.sequences)

pub record ReplayStats : Type 0 where
  pub matched : ℕ
  pub unmatched : List Text

unfoldable pub stats : RedisReplay → ReplayStats
stats r = record { matched = r.matched_count; unmatched = sort r.missing }
