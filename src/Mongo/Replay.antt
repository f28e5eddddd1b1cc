-- ===== src/Mongo/Replay.antt =====
-- `MongoReplay` of src/replay/mongoReplayServer.ts: the handshake is made up, and everything behind it
-- comes from the recording. `now` is the text of the time at which a reply is made.
pub mod Answers
pub mod Recorded
use cognivox_record.Prelude.{
  ℕ, zero, suc, Bool, true, false, List, [], ◌∷◌, ◌++◌, Option, none, some, if◌then◌else◌,
}
use cognivox_record.Prelude.Int.{ℤ, pos}
use cognivox_record.Text.Utf8.{Text, codes}
use cognivox_record.Text.Words.{trim, sort}
use cognivox_record.Dict.{Dict, get, put, contains, add}
use cognivox_record.Interaction.{DependencyInteraction, redis, postgres, mongodb}
use cognivox_record.Bson.{
  integer, BsonValue, null, boolean, number, string, array, document, Fields, no_fields, field,
  get_field, tagged, Platform,
}
use cognivox_record.Bson.Encode.{text_of}
use cognivox_record.Bson.Json.{is_truthy, json}
use cognivox_record.Mongo.{command_name_of}

-- `HANDSHAKE_COMMANDS`
abbrev pub handshake_commands : List Text
handshake_commands =
    codes "hello"
    ∷ codes "ismaster"
    ∷ codes "isMaster"
    ∷ codes "ping"
    ∷ codes "buildInfo"
    ∷ codes "buildinfo"
    ∷ []

-- `DRIVER_HOUSEKEEPING`
abbrev pub driver_housekeeping : List Text
driver_housekeeping =
    codes "endSessions"
    ∷ codes "killCursors"
    ∷ codes "logout"
    ∷ codes "abortTransaction"
    ∷ codes "getFreeMonitoringStatus"
    ∷ codes "saslStart"
    ∷ codes "saslContinue"
    ∷ []

abbrev pub whole : ℕ → BsonValue
whole n = number (integer (pos n))

abbrev pub handshake_reply : Text → Fields
handshake_reply now = field (codes "ok") (whole 1) (
    field (codes "isWritablePrimary") (boolean true) (
      field (codes "ismaster") (boolean true) (
        field (codes "maxBsonObjectSize") (whole 16777216) (
          field (codes "maxMessageSizeBytes") (whole 48000000) (
            field (codes "maxWriteBatchSize") (whole 100000) (
              field (codes "localTime") (tagged (codes "date") now) (
                field (codes "logicalSessionTimeoutMinutes") (whole 30) (
                  field (codes "minWireVersion") (whole 0) (
                    field (codes "maxWireVersion") (whole 17)
                      (field (codes "readOnly") (boolean false) no_fields))))))))))

abbrev pub plain_ok : Fields
plain_ok = field (codes "ok") (whole 1) no_fields

abbrev pub no_recording : Text → Fields
no_recording key = field (codes "ok") (whole 0) (
    field (codes "code") (whole 59)
      (field (codes "errmsg") (string (codes "cognivox has no recording for: " ++ key)) no_fields))

target_text : Option Text → Text
target_text none = []
target_text (some t) = t

filter_text : Platform → Option BsonValue → Text
filter_text platform none = []
filter_text platform (some v) = if is_truthy v then json platform v else []

-- The replies recorded for a signature that are still to be given.
pub record MongoReplay : Type 0 where
  pub by_command : Dict (List Fields)
  pub matched_count : ℕ
  pub missing : List Text

abbrev pub empty_replay : MongoReplay
empty_replay = record { by_command = []; matched_count = 0; missing = [] }

extend : Option (List Fields) → Fields → List Fields
extend none fs = fs ∷ []
extend (some others) fs = others ++ (fs ∷ [])

answer_from : MongoReplay → Text → Option (List Fields) → Fields × MongoReplay
answer_from r key none = (no_recording key, record r { missing = add key r.missing })
answer_from r key (some []) = (no_recording key, record r { missing = add key r.missing })
answer_from r key (some (v ∷ [])) = (v, record r { matched_count = suc r.matched_count })
answer_from r key (some (v ∷ w ∷ vs)) = (
  v,
  record r { matched_count = suc r.matched_count; by_command = put key (w ∷ vs) r.by_command },
)

module _ (platform : Platform) where
  -- The command, the collection it targets and its filter.
  unfoldable pub signature_of : Fields → Text
  unfolding target_text filter_text
  signature_of fs =
      let command = command_name_of fs in
      trim (
        command
        ++ (32
            ∷ (target_text (text_of (get_field command fs))
                ++ (32 ∷ filter_text platform (get_field (codes "filter") fs)))))

  -- One round of the constructor's loop.
  unfoldable pub add_interaction : MongoReplay → DependencyInteraction → MongoReplay
  unfolding extend
  add_interaction r (redis c a d) = r
  add_interaction r (postgres s p a d) = r
  add_interaction r (mongodb c q a d) =
      let key = signature_of q in
      record r { by_command = put key (extend (get key r.by_command) a) r.by_command }

  abbrev pub load_from : MongoReplay → List DependencyInteraction → MongoReplay
  load_from r [] = r
  load_from r (i ∷ is) = load_from (add_interaction r i) is

  -- The constructor.
  abbrev pub load : List DependencyInteraction → MongoReplay
  load = load_from empty_replay

  unfoldable pub reply_to : Text → MongoReplay → Fields → Fields × MongoReplay
  unfolding answer_from
  reply_to now r fs =
      let command = command_name_of fs in
      let key = signature_of fs in
      if contains command handshake_commands
      then (handshake_reply now, r)
      else if contains command driver_housekeeping
      then (plain_ok, r)
      else answer_from r key (get key r.by_command)

pub record ReplayStats : Type 0 where
  pub matched : ℕ
  pub unmatched : List Text

unfoldable pub stats : MongoReplay → ReplayStats
stats r = record { matched = r.matched_count; unmatched = sort r.missing }
