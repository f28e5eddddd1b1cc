-- ===== src/Mongo/Recorder/Events.antt =====
-- The exchanges that are to be recorded of the messages that cross the proxy, and the table that
-- follows them.
use cognivox_record.Prelude.{
  ℕ, ◌≡◌, refl, sym, ◌∙◌, ap, Bool, true, false, List, [], ◌∷◌, ◌++◌, append-nil, append_assoc,
  Option, none, some, if◌then◌else◌, arith, Bool-cases, inl, inr,
}
use cognivox_record.Prelude.Int.{ℤ, pos, negsuc}
use cognivox_record.Text.Utf8.{Text}
use cognivox_record.Interaction.{DependencyInteraction, redis, postgres, mongodb}
use cognivox_record.Bson.{Fields}
use cognivox_record.Mongo.{MongoMessage, same_int, command_name_of}
use cognivox_record.Mongo.Recorder.{PendingCommand, Table, on_request, complete, on_reply}

-- The messages that cross the proxy, in the order in which it reads them.
pub data Event : Type 0 where
  request reply : MongoMessage → Event

-- The command that awaits a reply under an id, behind the events listed newest first: the last request
-- of that id, if no reply to it came after.
abbrev pub waiting : ℤ → List Event → Option Fields
waiting id [] = none
waiting id (request m ∷ past) = if same_int m.request_id id then some m.body else waiting id past
waiting id (reply m ∷ past) = if same_int m.response_to id then none else waiting id past

-- A recorded exchange: the name of the command, its document and the reply.
abbrev pub Exchange : Type 0
Exchange = Text × Fields × Fields

abbrev pub answered : Option Fields → Fields → List Exchange
answered none r = []
answered (some q) r = (command_name_of q, q, r) ∷ []

-- The exchanges that are to be recorded of the events, of which those in `past` are over.
abbrev pub expected : List Event → List Event → List Exchange
expected past [] = []
expected past (request m ∷ es) = expected (request m ∷ past) es
expected past (reply m ∷ es) =
    answered (waiting m.response_to past) m.body ++ expected (reply m ∷ past) es

abbrev pub exchanges : List DependencyInteraction → List Exchange
exchanges [] = []
exchanges (redis c a d ∷ is) = exchanges is
exchanges (postgres s p a d ∷ is) = exchanges is
exchanges (mongodb c q r d ∷ is) = (c, q, r) ∷ exchanges is

exchanges-append :
    (is js : List DependencyInteraction) → exchanges (is ++ js) ≡ exchanges is ++ exchanges js
exchanges-append [] js = refl
exchanges-append (redis c a d ∷ is) js = exchanges-append is js
exchanges-append (postgres s p a d ∷ is) js = exchanges-append is js
exchanges-append (mongodb c q r d ∷ is) js = ap (◌∷◌ (c, q, r)) (exchanges-append is js)

abbrev pub body_of : Option PendingCommand → Option Fields
body_of none = none
body_of (some p) = some p.body

same_int→eq : (a b : ℤ) → same_int a b ≡ true → a ≡ b
same_int→eq (pos m) (pos n) h = ap pos (ground arith)
same_int→eq (negsuc m) (negsuc n) h = ap negsuc (ground arith)
same_int→eq (pos m) (negsuc n) h = cc
same_int→eq (negsuc m) (pos n) h = cc

-- The table holds what the events leave waiting.
abbrev pub Holds : Table → List Event → Type 0
Holds t past = (id : ℤ) → body_of (t.pending id) ≡ waiting id past

body_of-if :
    (b : Bool) (p q : Option PendingCommand)
    → body_of (if b then p else q) ≡ (if b then body_of p else body_of q)
body_of-if true p q = refl
body_of-if false p q = refl

module _ (clock : ℕ → ℕ) where
  abbrev pub step : Table → Event → Table
  step t (request m) = on_request clock t m
  step t (reply m) = on_reply clock t m

  abbrev pub run : Table → List Event → Table
  run t [] = t
  run t (e ∷ es) = run (step t e) es

  pub run-append : (t : Table) (es fs : List Event) → run t (es ++ fs) ≡ run (run t es) fs
  run-append t [] fs = refl
  run-append t (e ∷ es) fs = run-append (step t e) es fs

  Holds-request :
      (t : Table) (past : List Event) (m : MongoMessage)
      → Holds t past
      → Holds (on_request clock t m) (request m ∷ past)
  unfolding on_request
  Holds-request t past m h id =
      body_of-if (same_int m.request_id id)
        (some (record { body = m.body; sent_at = clock t.readings })) (t.pending id)
      ∙ ap (λ o. if same_int m.request_id id then some m.body else o) (h id)

  complete-Holds :
      (t : Table) (past : List Event) (m : MongoMessage) (o : Option PendingCommand)
      → Holds t past
      → t.pending m.response_to ≡ o
      → Holds (complete clock t m o) (reply m ∷ past)
  unfolding complete
  complete-Holds t past m none h e id = elim (Bool-cases (same_int m.response_to id)) [
    | inl same ↦
        rw same
          (ap (λ k. body_of (t.pending k)) (sym (same_int→eq m.response_to id same)) ∙ ap body_of e)
    | inr other ↦ rw other (h id)
  ]
  complete-Holds t past m (some p) h e id =
      body_of-if (same_int m.response_to id) none (t.pending id)
      ∙ ap (λ o. if same_int m.response_to id then none else o) (h id)

  complete-exchanges :
      (t : Table) (m : MongoMessage) (o : Option PendingCommand)
      → exchanges (complete clock t m o).completed
        ≡ exchanges t.completed ++ answered (body_of o) m.body
  unfolding complete
  complete-exchanges t m none = sym (append-nil _)
  complete-exchanges t m (some p) = exchanges-append t.completed _

  on_reply-exchanges :
      (t : Table) (past : List Event) (m : MongoMessage)
      → Holds t past
      → exchanges (on_reply clock t m).completed
        ≡ exchanges t.completed ++ answered (waiting m.response_to past) m.body
  unfolding on_reply
  on_reply-exchanges t past m h =
      complete-exchanges t m (t.pending m.response_to)
      ∙ ap (λ o. exchanges t.completed ++ answered o m.body) (h m.response_to)

  pub run-expected :
      (t : Table) (past es : List Event)
      → Holds t past
      → exchanges (run t es).completed ≡ exchanges t.completed ++ expected past es
  run-expected t past [] h = sym (append-nil _)
  run-expected t past (request m ∷ es) h =
      run-expected (on_request clock t m) (request m ∷ past) es (Holds-request t past m h)
      ∙ (unfold on_request in refl)
  run-expected t past (reply m ∷ es) h =
      run-expected (on_reply clock t m) (reply m ∷ past) es
        (unfold on_reply in complete-Holds t past m (t.pending m.response_to) h refl)
      ∙ ap (λ l. l ++ expected (reply m ∷ past) es) (on_reply-exchanges t past m h)
      ∙ append_assoc (exchanges t.completed) (answered (waiting m.response_to past) m.body)
          (expected (reply m ∷ past) es)
