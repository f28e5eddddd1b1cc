-- ===== src/ReplaySession/Serving.antt =====
-- Which replay the servers of a session answer from.
use cognivox_record.Prelude.{
  ℕ, zero, suc, ◌≡◌, refl, sym, subst, ◌∙◌, ap, List, [], ◌∷◌, none, some, >>=-eq-some, some_inj,
  get_elem?,
}
use cognivox_record.Text.Utf8.{Text}
use cognivox_record.Text.Words.{equal}
use cognivox_record.Interaction.{DependencyInteraction, redis, postgres, mongodb}
use cognivox_record.Bson.{Platform}
use cognivox_record.Redis.Replay as FromRedis
use cognivox_record.Redis.Replay.{RedisReplay}
use cognivox_record.Mongo.Replay as FromMongo
use cognivox_record.Postgres.Replay as FromPostgres
use cognivox_record.ReplaySession.{
  ReplayServerInfo, StartedServer, Replaying, redis_server, mongodb_server, postgres_server,
  protocol_of, replay_for, start_for, start_all,
}

abbrev pub infos : List StartedServer → List ReplayServerInfo
infos [] = []
infos (s ∷ ss) = s.info ∷ infos ss

-- A server whose info stands at a place.
abbrev pub FoundAt :
    Platform → List DependencyInteraction → List StartedServer → ℕ → ReplayServerInfo → Type 0
FoundAt platform is ss k info =
    (s : StartedServer) × (get_elem? ss k ≡ some s)
    × (s.info ≡ info)
    × (replay_for platform info.protocol is ≡ some s.replaying)

found_behind :
    (platform : Platform) (is : List DependencyInteraction) (s : StartedServer)
    (others : List StartedServer) (k : ℕ) (info : ReplayServerInfo)
    → replay_for platform s.info.protocol is ≡ some s.replaying
    → ((j : ℕ) → get_elem? (infos others) j ≡ some info → FoundAt platform is others j info)
    → get_elem? (infos (s ∷ others)) k ≡ some info
    → FoundAt platform is (s ∷ others) k info
found_behind platform is s others zero info first rest found =
    let same = some_inj found in
    (
      s,
      refl,
      same,
      ap (λ (i : ReplayServerInfo). replay_for platform i.protocol is) (sym same) ∙ first,
    )
found_behind platform is s others (suc k) info first rest found = rest k found

-- The servers of a session that starts, of which each replays the recording by its protocol.
pub start_all-replaying :
    (platform : Platform) (is : List DependencyInteraction) (ps : List Text) (port k : ℕ)
    (ss : List StartedServer) (info : ReplayServerInfo)
    → start_all platform is ps port ≡ some ss
    → get_elem? (infos ss) k ≡ some info
    → FoundAt platform is ss k info
unfolding start_all start_for
start_all-replaying platform is [] port k ss info e found =
    let nothing : none ≡ some info = ap (λ l. get_elem? (infos l) k) (some_inj e) ∙ found in cc
start_all-replaying platform is (p ∷ ps) port k ss info e found =
    let (s, started, e1) = >>=-eq-some (start_for platform p is port) _ e in
    let (others, all, made) = >>=-eq-some (start_all platform is ps (suc port)) _ e1 in
    let (r, loaded, same) = >>=-eq-some (replay_for platform p is) _ started in
    let first : replay_for platform s.info.protocol is ≡ some s.replaying =
      ap (λ t. replay_for platform t.info.protocol is) (sym (some_inj same))
      ∙ loaded
      ∙ ap (λ t. some t.replaying) (some_inj same) in
    subst (λ l. FoundAt platform is l k info) (some_inj made)
      (found_behind platform is s others k info first
        (λ j there. start_all-replaying platform is ps (suc port) j others info all there)
        (ap (λ l. get_elem? (infos l) k) (some_inj made) ∙ found))

-- Which replay a server has that stands for an interaction: the one that its protocol's replay loads
-- from the recording.
abbrev pub Serves :
    Platform → List DependencyInteraction → DependencyInteraction → Replaying → Type 0
Serves platform is (redis c a d) replaying =
    (r : RedisReplay) × (FromRedis.load is ≡ some r) × (replaying ≡ redis_server r)
Serves platform is (mongodb c q a d) replaying =
    replaying ≡ mongodb_server (FromMongo.load platform is)
Serves platform is (postgres s p a d) replaying = replaying ≡ postgres_server (FromPostgres.load is)

pub replay_for-Serves :
    (platform : Platform) (is : List DependencyInteraction) (i : DependencyInteraction)
    (replaying : Replaying)
    → replay_for platform (protocol_of i) is ≡ some replaying
    → Serves platform is i replaying
unfolding replay_for equal
replay_for-Serves platform is (redis c a d) replaying e =
    let (r, loaded, made) = >>=-eq-some (FromRedis.load is) _ e in (r, loaded, sym (some_inj made))
replay_for-Serves platform is (mongodb c q a d) replaying e = sym (some_inj e)
replay_for-Serves platform is (postgres s p a d) replaying e = sym (some_inj e)
