-- ===== src/Redis/Recorder/Pairing.antt =====
-- Which reply is recorded for which command.
use cognivox_record.Prelude.{
  ℕ, zero, suc, ◌+◌, ◌≡◌, refl, sym, subst, ◌∙◌, ap, List, [], ◌∷◌, ◌++◌, append-nil, append_assoc,
  Option, none, some, arith, length, length-append,
}
use cognivox_record.Resp.{RespValue}
use cognivox_record.Resp.Commands.{RespCommand, to_command}
use cognivox_record.Resp.Stored.{Stored, describe}
use cognivox_record.Interaction.{mongodb, DependencyInteraction, redis, postgres}
use cognivox_record.Redis.Recorder.{
  PendingCommand, Queue, fresh, push_command, on_request, complete, on_reply,
}

-- The values that cross the proxy, in the order in which it sees them.
pub data Event : Type 0 where
  request reply : RespValue → Event

-- What is in the recording, and what still waits.
abbrev pub requests : List DependencyInteraction → List RespCommand
requests [] = []
requests (redis c r d ∷ is) = c ∷ requests is
requests (postgres s p r d ∷ is) = requests is
requests (mongodb c q r d ∷ is) = requests is

abbrev pub responses : List DependencyInteraction → List Stored
responses [] = []
responses (redis c r d ∷ is) = r ∷ responses is
responses (postgres s p r d ∷ is) = responses is
responses (mongodb c q r d ∷ is) = responses is

abbrev pub awaiting : List PendingCommand → List RespCommand
awaiting [] = []
awaiting (p ∷ ps) = p.command ∷ awaiting ps

-- The commands among the client's values, and the replies in the shape that is stored.
abbrev pub command_list : Option RespCommand → List RespCommand
command_list none = []
command_list (some c) = c ∷ []

abbrev pub sent : List Event → List RespCommand
sent [] = []
sent (request v ∷ es) = command_list (to_command v) ++ sent es
sent (reply v ∷ es) = sent es

abbrev pub answered : List Event → List Stored
answered [] = []
answered (request v ∷ es) = answered es
answered (reply v ∷ es) = describe v ∷ answered es

-- Each reply comes while a command waits; `n` commands wait at the start.
abbrev pub IsAnswerable : ℕ → List Event → Type 0
IsAnswerable n [] = Unit
IsAnswerable n (request v ∷ es) = IsAnswerable (length (command_list (to_command v)) + n) es
IsAnswerable zero (reply v ∷ es) = ⊥
IsAnswerable (suc n) (reply v ∷ es) = IsAnswerable n es

requests-append :
    (is js : List DependencyInteraction) → requests (is ++ js) ≡ requests is ++ requests js
requests-append [] js = refl
requests-append (redis c r d ∷ is) js = ap (◌∷◌ c) (requests-append is js)
requests-append (postgres s p r d ∷ is) js = requests-append is js
requests-append (mongodb c q r d ∷ is) js = requests-append is js

responses-append :
    (is js : List DependencyInteraction) → responses (is ++ js) ≡ responses is ++ responses js
responses-append [] js = refl
responses-append (redis c r d ∷ is) js = ap (◌∷◌ r) (responses-append is js)
responses-append (postgres s p r d ∷ is) js = responses-append is js
responses-append (mongodb c q r d ∷ is) js = responses-append is js

awaiting-append : (ps qs : List PendingCommand) → awaiting (ps ++ qs) ≡ awaiting ps ++ awaiting qs
awaiting-append [] qs = refl
awaiting-append (p ∷ ps) qs = ap (◌∷◌ p.command) (awaiting-append ps qs)

-- Every command seen so far, recorded or waiting, in order.
abbrev pub log : Queue → List RespCommand
log q = requests q.completed ++ awaiting q.pending

module _ (clock : ℕ → ℕ) where
  abbrev pub step : Queue → Event → Queue
  step q (request v) = on_request clock q v
  step q (reply v) = on_reply clock q v

  log-push_command :
      (q : Queue) (o : Option RespCommand) → log (push_command clock q o) ≡ log q ++ command_list o
  unfolding push_command
  log-push_command q none = sym (append-nil (log q))
  log-push_command q (some c) = rw (awaiting-append, append_assoc) refl

  log-complete :
      (done : List DependencyInteraction) (p : PendingCommand) (ps : List PendingCommand) (n : ℕ)
      (v : RespValue)
      → log
          (complete clock (record { pending = p ∷ ps; completed = done; readings = n }) (p ∷ ps) v)
        ≡ requests done ++ awaiting (p ∷ ps)
  unfolding complete
  log-complete done p ps n v = rw (requests-append, append_assoc) refl

  -- One step keeps the order of the commands: a client's value adds its command behind all others,
  -- and a reply drops, adds and reorders none.
  pub log-step : (q : Queue) (e : Event) → log (step q e) ≡ log q ++ sent (e ∷ [])
  unfolding on_request on_reply complete
  log-step q (request v) =
      log-push_command q (to_command v) ∙ ap (λ l. log q ++ l) (sym (append-nil _))
  log-step q (reply v) = log_reply q.completed q.pending q.readings ∙ sym (append-nil (log q))
    where
      log_reply :
          (done : List DependencyInteraction) (ps : List PendingCommand) (n : ℕ)
          → log (complete clock (record { pending = ps; completed = done; readings = n }) ps v)
            ≡ requests done ++ awaiting ps
      log_reply done [] n = refl
      log_reply done (p ∷ ps) n = log-complete done p ps n v

  abbrev pub run : Queue → List Event → Queue
  run q [] = q
  run q (e ∷ es) = run (step q e) es

  log-run : (q : Queue) (es : List Event) → log (run q es) ≡ log q ++ sent es
  log-run q [] = sym (append-nil (log q))
  log-run q (e ∷ es) = log-run (step q e) es ∙ ap (λ l. l ++ sent es) (log-step q e) ∙ sent_cons e
    where
      sent_cons : (e : Event) → (log q ++ sent (e ∷ [])) ++ sent es ≡ log q ++ sent (e ∷ es)
      sent_cons (request v) = simp (append_assoc, append-nil)
      sent_cons (reply v) = simp append-nil

  pending-push_command :
      (q : Queue) (o : Option RespCommand)
      → length (push_command clock q o).pending ≡ length (command_list o) + length q.pending
  unfolding push_command
  pending-push_command q none = omega arith
  pending-push_command q (some c) = omega (arith, length-append {0} q.pending)

  completed-push_command :
      (q : Queue) (o : Option RespCommand) → (push_command clock q o).completed ≡ q.completed
  unfolding push_command
  completed-push_command q none = refl
  completed-push_command q (some c) = refl

  responses-run :
      (ps : List PendingCommand) (done : List DependencyInteraction) (n : ℕ) (es : List Event)
      → IsAnswerable (length ps) es
      → responses (run (record { pending = ps; completed = done; readings = n }) es).completed
        ≡ responses done ++ answered es
  unfolding on_request on_reply complete
  responses-run ps done n [] h = sym (append-nil (responses done))
  responses-run ps done n (request v ∷ es) h =
      let q : Queue = record { pending = ps; completed = done; readings = n } in
      let q' = push_command clock q (to_command v) in
      responses-run q'.pending q'.completed q'.readings es
        (subst (λ k. IsAnswerable k es) (sym (pending-push_command q (to_command v))) h)
      ∙ ap (λ d. responses d ++ answered es) (completed-push_command q (to_command v))
  responses-run [] done n (reply v ∷ es) h = absurd h
  responses-run (p ∷ ps) done n (reply v ∷ es) h =
      responses-run ps _ (suc n) es h ∙ rw (responses-append, append_assoc) refl

  -- Whatever the interleaving of commands and replies, as long as each reply comes while a command
  -- waits: the commands recorded and those that still wait are the commands sent, in the order in
  -- which they were sent, and the replies recorded are the replies received, in their order. So the
  -- k-th reply is recorded for the k-th command.
  pub pairing :
      (es : List Event)
      → IsAnswerable 0 es
      → (log (run fresh.queue es) ≡ sent es)
        × (responses (run fresh.queue es).completed ≡ answered es)
  pairing es h = (log-run fresh.queue es, responses-run [] [] 0 es h)
