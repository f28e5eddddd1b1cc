-- ===== src/Postgres/Replay.antt =====
-- `PostgresReplay` of src/replay/postgresReplayServer.ts: statements are answered from a recording.
pub mod Held
pub mod Answers
pub mod Server
pub mod Chunks
pub mod Unrecorded
use cognivox_record.Prelude.{ℕ, suc, Bool, true, false, List, [], ◌∷◌, ◌++◌, Option, none, some}
use cognivox_record.Text.Utf8.{Text, codes}
use cognivox_record.Text.Words.{squeeze, trim, sort}
use cognivox_record.Text.Json.{stringify}
use cognivox_record.Dict.{Dict, get, put, add}
use cognivox_record.Interaction.{
  PostgresColumn, Row, SqlResponse, result_set, failure, DependencyInteraction, redis, postgres,
  mongodb,
}

pub record RecordedResult : Type 0 where
  pub columns : List PostgresColumn
  pub rows : List Row
  pub tag : Text
  pub error : Option Text

abbrev pub normalise : Text → Text
normalise sql = trim (squeeze sql)

-- The SQL and its parameters, as the text that a result is filed under.
unfoldable pub signature_of : Text → Row → Text
signature_of sql params = normalise sql ++ (b'|' ∷ stringify params)

-- `observed` lists the calls of `tracker?.observe`, which give nothing back to the replay.
pub record PostgresReplay : Type 0 where
  pub by_signature : Dict (List RecordedResult)
  pub by_sql : Dict (List RecordedResult)
  pub matched_count : ℕ
  pub missing : List Text
  pub observed : List (Text × Bool)

abbrev pub empty_replay : PostgresReplay
empty_replay = record {
  by_signature = [];
  by_sql = [];
  matched_count = 0;
  missing = [];
  observed = [];
}

-- The constructor's defaults: an error has no columns, rows or tag.
abbrev pub result_of : SqlResponse → RecordedResult
result_of (result_set cs rs t) = record { columns = cs; rows = rs; tag = t; error = none }
result_of (failure e) = record { columns = []; rows = []; tag = []; error = some e }

extend : Option (List RecordedResult) → RecordedResult → List RecordedResult
extend none v = v ∷ []
extend (some vs) v = vs ++ (v ∷ [])

unfoldable pub push :
    Text → RecordedResult → Dict (List RecordedResult) → Dict (List RecordedResult)
unfolding extend
push key v store = put key (extend (get key store) v) store

-- One round of the constructor's loop.
abbrev pub add_interaction : PostgresReplay → DependencyInteraction → PostgresReplay
add_interaction r (redis c a d) = r
add_interaction r (mongodb c q a d) = r
add_interaction r (postgres sql params a d) = record r {
  by_signature = push (signature_of sql params) (result_of a) r.by_signature;
  by_sql = push (normalise sql) (result_of a) r.by_sql;
}

abbrev pub load_from : PostgresReplay → List DependencyInteraction → PostgresReplay
load_from r [] = r
load_from r (i ∷ is) = load_from (add_interaction r i) is

-- The constructor.
abbrev pub load : List DependencyInteraction → PostgresReplay
load = load_from empty_replay

-- `found.length > 1 ? found.shift() : found[0]`, with what is left in the list.
unfoldable pub take_first : List RecordedResult → Option RecordedResult × List RecordedResult
take_first [] = (none, [])
take_first (v ∷ []) = (some v, v ∷ [])
take_first (v ∷ w ∷ vs) = (some v, w ∷ vs)

take_loose :
    PostgresReplay → Text → Option (List RecordedResult) → Option RecordedResult × PostgresReplay
take_loose r name none = (none, r)
take_loose r name (some vs) =
    let (v, rest) = take_first vs in (v, record r { by_sql = put name rest r.by_sql })

-- The exact signature is preferred, and the SQL alone is the fallback.
pub choose :
    PostgresReplay
    → Text
    → Text
    → Option (List RecordedResult)
    → Option RecordedResult × PostgresReplay
choose r key name none = take_loose r name (get name r.by_sql)
choose r key name (some []) = take_loose r name (get name r.by_sql)
choose r key name (some (w ∷ ws)) =
    let (v, rest) = take_first (w ∷ ws) in
    (v, record r { by_signature = put key rest r.by_signature })

unfoldable pub lookup : PostgresReplay → Text → Row → Option RecordedResult × PostgresReplay
unfolding choose take_loose
lookup r sql params =
    let key = signature_of sql params in choose r key (normalise sql) (get key r.by_signature)

abbrev is_found : Option RecordedResult → Bool
is_found none = false
is_found (some v) = true

count : Text → Option RecordedResult → PostgresReplay → PostgresReplay
count sql none r = record r { missing = add (normalise sql) r.missing }
count sql (some v) r = record r { matched_count = suc r.matched_count }

unfoldable pub result_for : PostgresReplay → Text → Row → Option RecordedResult × PostgresReplay
unfolding count
result_for r sql params =
    let (found, s) = lookup r sql params in
    (found, count sql found (record s { observed = s.observed ++ ((sql, is_found found) ∷ []) }))

unfoldable pub peek : PostgresReplay → Text → Row → Option RecordedResult × PostgresReplay
peek r sql params = lookup r sql params

pub record ReplayStats : Type 0 where
  pub matched : ℕ
  pub unmatched : List Text

unfoldable pub stats : PostgresReplay → ReplayStats
stats r = record { matched = r.matched_count; unmatched = sort r.missing }
