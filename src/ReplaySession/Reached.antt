-- ===== src/ReplaySession/Reached.antt =====
-- The program of a replay reaches a server for each dependency that was recorded.
use cognivox_record.Prelude.{
  ℕ, suc, ◌+◌, ◌≡◌, refl, sym, subst, ◌∙◌, ap, true, false, List, [], ◌∷◌, some, >>=-eq-some,
  some_inj, arith, get_elem?, All, All-map, if◌then◌else◌, ◌⊎◌, Bool-cases, inl, inr,
}
use cognivox_record.Text.Utf8.{Text, codes}
use cognivox_record.Text.Words.{equal, equal→eq, equal_refl}
use cognivox_record.Dict.{Dict, get, put, get-put, contains}
use cognivox_record.Interaction.{DependencyInteraction}
use cognivox_record.Bson.{Platform}
use cognivox_record.ReplaySession.{
  ReplayServerInfo, StartedServer, protocol_of, variable_of, is_served, protocols_in, replay_for,
  start_for, start_all, server_url, publish, environment, start,
}
use cognivox_record.ReplaySession.Serving.{infos, start_all-replaying, Serves, replay_for-Serves}
use cognivox_record.ReplaySession.Protocols.{
  AreDistinct, IsServed, or-false_inv, protocols_in-each, protocols_in-AreDistinct,
  protocols_in-All,
}

abbrev pub server_info : Text → ℕ → ReplayServerInfo
server_info protocol port = record {
  protocol = protocol;
  variable = variable_of protocol;
  port = port;
}

abbrev planned : List Text → ℕ → List ReplayServerInfo
planned [] port = []
planned (p ∷ ps) port = server_info p port ∷ planned ps (suc port)

abbrev publish_infos : Dict Text → List ReplayServerInfo → Dict Text
publish_infos env [] = env
publish_infos env (i ∷ is) = publish_infos (put i.variable (server_url i) env) is

publish-infos :
    (env : Dict Text) (ss : List StartedServer) → publish env ss ≡ publish_infos env (infos ss)
unfolding publish
publish-infos env [] = refl
publish-infos env (s ∷ ss) = publish-infos (put s.info.variable (server_url s.info) env) ss

start_all-planned :
    (platform : Platform) (is : List DependencyInteraction) (ps : List Text) (port : ℕ)
    (ss : List StartedServer)
    → start_all platform is ps port ≡ some ss
    → infos ss ≡ planned ps port
unfolding start_all start_for
start_all-planned platform is [] port ss e = sym (ap infos (some_inj e))
start_all-planned platform is (p ∷ ps) port ss e =
    let (s, started, e1) = >>=-eq-some (start_for platform p is port) _ e in
    let (others, all, made) = >>=-eq-some (start_all platform is ps (suc port)) _ e1 in
    let (r, loaded, info) = >>=-eq-some (replay_for platform p is) _ started in
    sym (ap infos (some_inj made))
    ∙ ap (λ l. s.info ∷ l) (start_all-planned platform is ps (suc port) others all)
    ∙ ap (λ t. t.info ∷ planned ps (suc port)) (sym (some_inj info))

-- A protocol that is served is one of three.
served-cases :
    (p : Text)
    → is_served p ≡ true
    → (codes "postgres" ≡ p) ⊎ ((codes "redis" ≡ p) ⊎ (codes "mongodb" ≡ p))
unfolding is_served get
served-cases p h = elim (Bool-cases (equal (codes "postgres") p)) [
  | inl e ↦ inl (equal→eq (codes "postgres") p e)
  | inr a ↦ elim (Bool-cases (equal (codes "redis") p)) [
    | inl e ↦ inr (inl (equal→eq (codes "redis") p e))
    | inr b ↦ elim (Bool-cases (equal (codes "mongodb") p)) [
      | inl e ↦ inr (inr (equal→eq (codes "mongodb") p e))
      | inr c ↦ let no : false ≡ true = rw (a, b, c) at h in cc
    ]
  ]
]

-- The protocol that a variable stands for.
abbrev protocol_behind : Text → Text
protocol_behind v =
    if equal v (codes "DATABASE_URL")
    then codes "postgres"
    else if equal v (codes "REDIS_URL")
    then codes "redis"
    else codes "mongodb"

protocol_behind-variable_of : (p : Text) → is_served p ≡ true → protocol_behind (variable_of p) ≡ p
unfolding variable_of get equal
protocol_behind-variable_of p h = elim (served-cases p h) [
  | inl e ↦ subst (λ q. protocol_behind (variable_of q) ≡ q) e refl
  | inr (inl e) ↦ subst (λ q. protocol_behind (variable_of q) ≡ q) e refl
  | inr (inr e) ↦ subst (λ q. protocol_behind (variable_of q) ≡ q) e refl
]

variable_of_inj :
    (p q : Text) → is_served p ≡ true → is_served q ≡ true → variable_of p ≡ variable_of q → p ≡ q
variable_of_inj p q h k e =
    sym (protocol_behind-variable_of p h) ∙ ap protocol_behind e ∙ protocol_behind-variable_of q k

-- Other protocols have other variables.
abbrev Apart : Text → Text → Type 0
Apart p q = equal (variable_of q) (variable_of p) ≡ false

All-Apart :
    (p : Text) (ps : List Text)
    → is_served p ≡ true
    → All IsServed ps
    → contains p ps ≡ false
    → All (Apart p) ps
unfolding contains
All-Apart p [] h all absent = tt
All-Apart p (q ∷ ps) h (served, others) absent =
    let (other, rest) = or-false_inv (equal q p) (contains p ps) absent in
    (
      elim (Bool-cases (equal (variable_of q) (variable_of p))) [
        | inl same ↦
            let e : q ≡ p =
              variable_of_inj q p served h (equal→eq (variable_of q) (variable_of p) same) in
            let no : true ≡ false = sym (equal_refl p) ∙ ap (λ x. equal x p) (sym e) ∙ other in cc
        | inr differ ↦ differ
      ],
      All-Apart p ps h others rest,
    )

-- Publishing other variables changes nothing,
publish_other :
    (env : Dict Text) (p : Text) (ps : List Text) (port : ℕ)
    → All (Apart p) ps
    → get (variable_of p) (publish_infos env (planned ps port)) ≡ get (variable_of p) env
publish_other env p [] port h = refl
publish_other env p (q ∷ ps) port (differ, others) =
    let url = server_url (server_info q port) in
    publish_other (put (variable_of q) url env) p ps (suc port) others
    ∙ get-put (variable_of q) (variable_of p) url env
    ∙ ap (λ b. if b then some url else get (variable_of p) env) differ

-- A server that is found at a place, and what its variable is set to.
abbrev pub ReachedAt : List ReplayServerInfo → Dict Text → ℕ → Text → ℕ → Type 0
ReachedAt servers env port p k =
    (get_elem? servers k ≡ some (server_info p (port + k)))
    × (get (variable_of p) env ≡ some (server_url (server_info p (port + k))))

-- and so each variable keeps the address of its server.
publish_reached :
    (env : Dict Text) (p : Text) (ps : List Text) (port : ℕ)
    → All IsServed ps
    → AreDistinct ps
    → contains p ps ≡ true
    → (k : ℕ) × ReachedAt (planned ps port) (publish_infos env (planned ps port)) port p k
unfolding contains
publish_reached env p [] port all d h = cc
publish_reached env p (q ∷ ps) port (served, others) (new, d) h =
    let url = server_url (server_info q port) in
    elim (Bool-cases (equal q p)) [
      | inl same ↦
          let e : port ≡ port + 0 = omega arith in
          subst
            (λ x.
              (k : ℕ) × ReachedAt (planned (q ∷ ps) port)
                (publish_infos env (planned (q ∷ ps) port)) port x k)
            (equal→eq q p same)
            (
              0,
              (
                ap (λ n. some (server_info q n)) e,
                publish_other (put (variable_of q) url env) q ps (suc port)
                      (All-Apart q ps served others new)
                    ∙ get-put (variable_of q) (variable_of q) url env
                    ∙ ap (λ b. if b then some url else get (variable_of q) env)
                        (equal_refl (variable_of q))
                    ∙ ap (λ n. some (server_url (server_info q n))) e,
              ),
            )
      | inr other ↦
          let rest : contains p ps ≡ true = rw other at h in
          let (k, (found, told)) =
            publish_reached (put (variable_of q) url env) p ps (suc port) others d rest in
          let e : suc port + k ≡ port + suc k = omega arith in
          (
            suc k,
            (
              found ∙ ap (λ n. some (server_info p n)) e,
              told ∙ ap (λ n. some (server_url (server_info p n))) e,
            ),
          )
    ]

-- A server at a place that serves an interaction, and what the variable of its protocol is set to.
abbrev pub ReachedIn :
    Platform
    → List DependencyInteraction
    → List StartedServer
    → Dict Text
    → ℕ
    → DependencyInteraction
    → Type 0
ReachedIn platform is servers env port i =
    (k : ℕ) × (s : StartedServer) × (get_elem? servers k ≡ some s)
    × (s.info ≡ server_info (protocol_of i) (port + k))
    × Serves platform is i s.replaying
    × (get (variable_of (protocol_of i)) env ≡ some (server_url s.info))

-- The same of the infos alone.
each_listed :
    (platform : Platform) (is : List DependencyInteraction) (base_port : ℕ) (base : Dict Text)
    (servers : List StartedServer) (env : Dict Text)
    → start platform is base_port base ≡ some (servers, env)
    → All (λ i. (k : ℕ) × ReachedAt (infos servers) env base_port (protocol_of i) k) is
unfolding start environment
each_listed platform is base_port base servers env e =
    let ps = protocols_in is in
    let (started, all, made) = >>=-eq-some (start_all platform is ps base_port) _ e in
    let planned_ones : infos started ≡ planned ps base_port =
      start_all-planned platform is ps base_port started all in
    let first = put (codes "COGNIVOX_REPLAY") (codes "1") base in
    let same_infos : planned ps base_port ≡ infos servers =
      sym planned_ones ∙ ap (λ r. infos r.0) (some_inj made) in
    let same_env : publish_infos first (planned ps base_port) ≡ env =
      ap (publish_infos first) (sym planned_ones)
      ∙ sym (publish-infos first started)
      ∙ ap (λ r. r.1) (some_inj made) in
    All-map (λ i. contains (protocol_of i) ps ≡ true)
      (λ i. (k : ℕ) × ReachedAt (infos servers) env base_port (protocol_of i) k)
      (λ i h.
        subst (λ l. (k : ℕ) × ReachedAt l env base_port (protocol_of i) k) same_infos
          (subst (λ m. (k : ℕ) × ReachedAt (planned ps base_port) m base_port (protocol_of i) k)
            same_env
            (publish_reached first (protocol_of i) ps base_port (protocols_in-All is)
              (protocols_in-AreDistinct is) h)))
      is (protocols_in-each is)

reached_at :
    (platform : Platform) (is : List DependencyInteraction) (base_port : ℕ)
    (servers : List StartedServer) (env : Dict Text) (i : DependencyInteraction) (k : ℕ)
    → start_all platform is (protocols_in is) base_port ≡ some servers
    → ReachedAt (infos servers) env base_port (protocol_of i) k
    → ReachedIn platform is servers env base_port i
reached_at platform is base_port servers env i k e (found, told) =
    let info = server_info (protocol_of i) (base_port + k) in
    let (s, there, same, replays) =
      start_all-replaying platform is (protocols_in is) base_port k servers info e found in
    (
      k,
      s,
      there,
      same,
      replay_for-Serves platform is i s.replaying replays,
      told ∙ ap (λ x. some (server_url x)) (sym same),
    )

-- Of a replay session that starts, each interaction of the recording has a server at the base port plus
-- its place among the servers. The server answers from the replay of the interaction's protocol, loaded
-- from this recording; and the program's environment gives the variable of that protocol the address
-- of this server, whatever it was before.
pub each_reached :
    (platform : Platform) (is : List DependencyInteraction) (base_port : ℕ) (base : Dict Text)
    (servers : List StartedServer) (env : Dict Text)
    → start platform is base_port base ≡ some (servers, env)
    → All (λ i. ReachedIn platform is servers env base_port i) is
unfolding start
each_reached platform is base_port base servers env e =
    let (started, all, made) =
      >>=-eq-some (start_all platform is (protocols_in is) base_port) _ e in
    All-map (λ i. (k : ℕ) × ReachedAt (infos servers) env base_port (protocol_of i) k)
      (λ i. ReachedIn platform is servers env base_port i)
      (λ i (k, at).
        reached_at platform is base_port servers env i k
          (all ∙ ap (λ (r : List StartedServer × Dict Text). some r.0) (some_inj made)) at)
      is (each_listed platform is base_port base servers env e)
