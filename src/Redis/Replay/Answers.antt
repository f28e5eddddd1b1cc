-- ===== src/Redis/Replay/Answers.antt =====
-- What a replay answers, as a function of the recording and of the commands already asked.
use cognivox_record.Prelude.{
  ℕ, suc, ◌+◌, min, ◌≡◌, refl, sym, subst, ◌∙◌, ap, true, List, [], ◌∷◌, ◌++◌, append-nil,
  append_assoc, Option, none, some, >>=-eq-some, some_inj, arith, length, get_elem?, if◌then◌else◌,
  Bool-cases, inl, inr,
}
use cognivox_record.Prelude.Int.{ℤ}
use cognivox_record.Text.Utf8.{Text}
use cognivox_record.Text.Words.{equal, equal→eq}
use cognivox_record.Dict.{get, put, get-put}
use cognivox_record.Resp.{RespValue}
use cognivox_record.Resp.Commands.{RespCommand}
use cognivox_record.Resp.Stored.{Stored, from_stored}
use cognivox_record.Interaction.{mongodb, DependencyInteraction, redis, postgres}
use cognivox_record.Redis.Replay.{
  ReplySequence, signature_of, RedisReplay, empty_replay, extend_sequence, add_interaction,
  load_from, load, no_recording, answer_from, reply_to,
}

abbrev pub reply_list : Option RespValue → List RespValue
reply_list none = []
reply_list (some v) = v ∷ []

-- The replies recorded for a signature, in recorded order.
unfoldable pub recorded : Text → List DependencyInteraction → List RespValue
recorded key [] = []
recorded key (redis c a d ∷ is) =
    (if equal (signature_of c.command c.args) key then reply_list (from_stored a) else [])
    ++ recorded key is
recorded key (postgres s p a d ∷ is) = recorded key is
recorded key (mongodb c q a d ∷ is) = recorded key is

-- How often a signature is among the commands asked.
unfoldable pub times : Text → List RespCommand → ℕ
times key [] = 0
times key (c ∷ cs) = (if equal (signature_of c.command c.args) key then 1 else 0) + times key cs

-- The (n + 1)-th answer to a signature: the replies in order, the last one for ever after, and an
-- error where there is none.
abbrev pub nth_answer : Text → List RespValue → ℕ → Option RespValue
nth_answer key [] n = some (no_recording key)
nth_answer key (v ∷ vs) n = get_elem? (v ∷ vs) (min n (length vs))

abbrev sequence_of : List RespValue → ℕ → Option ReplySequence
sequence_of [] n = none
sequence_of (v ∷ vs) n = some (record { replies = v ∷ vs; next = n })

-- The replay holds what the recording and the history say.
abbrev pub Refines : RedisReplay → List DependencyInteraction → List RespCommand → Type 0
Refines r is asked =
    (key : Text) → get key r.sequences ≡ sequence_of (recorded key is) (times key asked)

pub recorded-append :
    (key : Text) (is js : List DependencyInteraction)
    → recorded key (is ++ js) ≡ recorded key is ++ recorded key js
unfolding recorded
recorded-append key [] js = refl
recorded-append key (redis c a d ∷ is) js =
    rw (recorded-append key is js) (sym (append_assoc _ (recorded key is) (recorded key js)))
recorded-append key (postgres s p a d ∷ is) js = recorded-append key is js
recorded-append key (mongodb c q a d ∷ is) js = recorded-append key is js

sequence_of-extend :
    (vs : List RespValue) (v : RespValue)
    → some (extend_sequence (sequence_of vs 0) v) ≡ sequence_of (vs ++ (v ∷ [])) 0
unfolding extend_sequence
sequence_of-extend [] v = refl
sequence_of-extend (w ∷ vs) v = refl

pub recorded_one :
    (key : Text) (c : RespCommand) (a : Stored) (d : ℤ) (v : RespValue)
    → from_stored a ≡ some v
    → recorded key (redis c a d ∷ [])
      ≡ (if equal (signature_of c.command c.args) key then v ∷ [] else [])
unfolding recorded
recorded_one key c a d v e = rw e (append-nil _)

-- The same replies under a signature that two texts spell.
same_signature :
    (k key : Text) (is : List DependencyInteraction) (o : Option ReplySequence) (n : ℕ)
    → equal k key ≡ true
    → o ≡ sequence_of (recorded k is) n
    → o ≡ sequence_of (recorded key is) n
same_signature k key is o n same h =
    subst (λ j. o ≡ sequence_of (recorded j is) n) (equal→eq k key same) h

add_redis-Refines :
    (r : RedisReplay) (is : List DependencyInteraction) (c : RespCommand) (a : Stored) (d : ℤ)
    (v : RespValue)
    → from_stored a ≡ some v
    → Refines r is []
    → (key : Text)
    → get key (
        put
          (signature_of c.command c.args)
          (extend_sequence (get (signature_of c.command c.args) r.sequences) v)
          r.sequences)
      ≡ sequence_of (recorded key (is ++ (redis c a d ∷ []))) 0
add_redis-Refines r is c a d v e h key =
    let k = signature_of c.command c.args in
    rw (get-put k key, recorded-append key is, recorded_one key c a d v e)
      (elim (Bool-cases (equal k key)) [
        | inl same ↦ rw same (
            ap (λ o. some (extend_sequence o v))
              (same_signature k key is (get k r.sequences) 0 same (unfold times in h k))
            ∙ sequence_of-extend (recorded key is) v)
        | inr other ↦ rw (other, append-nil) (unfold times in h key)
      ])

-- An interaction of another protocol changes nothing.
skip-Refines :
    (r s : RedisReplay) (is : List DependencyInteraction) (i : DependencyInteraction)
    → ((key : Text) → recorded key (i ∷ []) ≡ [])
    → Refines r is []
    → r ≡ s
    → Refines s (is ++ (i ∷ [])) []
skip-Refines r s is i none_of_it h e =
    subst (λ t. Refines t (is ++ (i ∷ [])) []) e
      (λ key.
        h key
        ∙ ap (λ vs. sequence_of vs (times key []))
            (sym (
              recorded-append key is (i ∷ [])
              ∙ ap (◌++◌ (recorded key is)) (none_of_it key)
              ∙ append-nil (recorded key is))))

add_interaction-Refines :
    (r s : RedisReplay) (is : List DependencyInteraction) (i : DependencyInteraction)
    → Refines r is []
    → add_interaction r i ≡ some s
    → Refines s (is ++ (i ∷ [])) []
unfolding add_interaction times
add_interaction-Refines r s is (postgres q p a d) h e =
    skip-Refines r s is (postgres q p a d) (unfold recorded in λ key. refl) h (some_inj e)
add_interaction-Refines r s is (mongodb c q a d) h e =
    skip-Refines r s is (mongodb c q a d) (unfold recorded in λ key. refl) h (some_inj e)
add_interaction-Refines r s is (redis c a d) h e =
    let (v, stored, f) = >>=-eq-some (from_stored a) _ e in
    subst (λ t. Refines t (is ++ (redis c a d ∷ [])) []) (some_inj f)
      (add_redis-Refines r is c a d v stored h)

load_from-Refines :
    (r s : RedisReplay) (is js : List DependencyInteraction)
    → Refines r is []
    → load_from r js ≡ some s
    → Refines s (is ++ js) []
unfolding load_from
load_from-Refines r s is [] h e =
    subst (λ t. Refines t (is ++ []) []) (some_inj e)
      (subst (λ l. Refines r l []) (sym (append-nil is)) h)
load_from-Refines r s is (i ∷ js) h e =
    let (t, added, f) = >>=-eq-some (add_interaction r i) _ e in
    subst (λ l. Refines s l []) (append_assoc is (i ∷ []) js)
      (load_from-Refines t s (is ++ (i ∷ [])) js (add_interaction-Refines r t is i h added) f)

-- A replay that was loaded holds the recording, and has answered nothing yet.
pub load-Refines :
    (is : List DependencyInteraction) (r : RedisReplay) → load is ≡ some r → Refines r is []
unfolding load
load-Refines is r e = load_from-Refines empty_replay r [] is (λ key. unfold get recorded in refl) e

answer_from-nth :
    (r : RedisReplay) (key : Text) (vs : List RespValue) (n : ℕ) (o : Option ReplySequence)
    → o ≡ sequence_of vs n
    → (answer_from r key o).0 ≡ nth_answer key vs n
unfolding answer_from
answer_from-nth r key vs n o e = rw e (at_list vs)
  where
    at_list : (vs : List RespValue) → (answer_from r key (sequence_of vs n)).0 ≡ nth_answer key vs n
    at_list [] = refl
    at_list (v ∷ vs) = ap (λ k. get_elem? (v ∷ vs) (min n k)) (omega arith)

-- What an answer does to the sequences: it counts one under its own signature, if there is one.
answer_from-get :
    (r : RedisReplay) (k key : Text) (vs : List RespValue) (n : ℕ)
    → get k r.sequences ≡ sequence_of vs n
    → get key (answer_from r k (get k r.sequences)).1.sequences
      ≡ (if equal k key then sequence_of vs (suc n) else get key r.sequences)
unfolding answer_from
answer_from-get r k key [] n e = rw e (elim (Bool-cases (equal k key)) [
  | inl same ↦ rw same (subst (λ j. get j r.sequences ≡ none) (equal→eq k key same) e)
  | inr other ↦ rw other
])
answer_from-get r k key (v ∷ vs) n e = rw e (get-put k key _ r.sequences)

-- The server's answers to a row of commands, and the state behind them.
abbrev pub reply_all : RedisReplay → List RespCommand → List (Option RespValue) × RedisReplay
reply_all r [] = ([], r)
reply_all r (c ∷ cs) =
    let (v, s) = reply_to r c.command c.args in let (vs, t) = reply_all s cs in (v ∷ vs, t)

module _ (is : List DependencyInteraction) where
  -- The state behind an answer holds the same recording, with one more command asked.
  reply_to-Refines :
      (r : RedisReplay) (asked : List RespCommand) (c : RespCommand)
      → Refines r is asked
      → Refines (reply_to r c.command c.args).1 is (c ∷ asked)
  unfolding reply_to times
  reply_to-Refines r asked c h key =
      let k = signature_of c.command c.args in
      rw (answer_from-get r k key (recorded k is) (times k asked) (h k))
        (elim (Bool-cases (equal k key)) [
          | inl same ↦ rw same (
              subst
                (λ j.
                  sequence_of (recorded k is) (suc (times k asked))
                  ≡ sequence_of (recorded j is) (1 + times j asked))
                (equal→eq k key same) (ap (sequence_of (recorded k is)) (omega arith)))
          | inr other ↦ rw other (h key ∙ ap (sequence_of (recorded key is)) (omega arith))
        ])

  reply_to-nth :
      (r : RedisReplay) (asked : List RespCommand) (c : RespCommand)
      → Refines r is asked
      → let key = signature_of c.command c.args in
        (reply_to r c.command c.args).0 ≡ nth_answer key (recorded key is) (times key asked)
  unfolding reply_to
  reply_to-nth r asked c h =
      let key = signature_of c.command c.args in
      answer_from-nth r key (recorded key is) (times key asked) (get key r.sequences) (h key)

  -- The answers by the specification; the commands asked so far are listed newest first.
  abbrev pub expected : List RespCommand → List RespCommand → List (Option RespValue)
  expected asked [] = []
  expected asked (c ∷ cs) =
      let key = signature_of c.command c.args in
      nth_answer key (recorded key is) (times key asked) ∷ expected (c ∷ asked) cs

  replies-expected :
      (r : RedisReplay) (asked cs : List RespCommand)
      → Refines r is asked
      → (reply_all r cs).0 ≡ expected asked cs
  replies-expected r asked [] h = refl
  replies-expected r asked (c ∷ cs) h =
      let key = signature_of c.command c.args in
      let s = (reply_to r c.command c.args).1 in
      ap (λ v. v ∷ (reply_all s cs).0) (reply_to-nth r asked c h)
      ∙ ap (◌∷◌ (nth_answer key (recorded key is) (times key asked)))
          (replies-expected s (c ∷ asked) cs (reply_to-Refines r asked c h))

  -- The replay implements its specification: whatever commands are asked, in whatever order, the
  -- (n + 1)-th occurrence of a signature gets its (n + 1)-th recorded reply, the last one when they
  -- are used up, and an error that names it when none was recorded. Other commands in between do
  -- not change it, and no answer is ever undefined.
  pub replay_refines :
      (r : RedisReplay) (cs : List RespCommand)
      → load is ≡ some r
      → (reply_all r cs).0 ≡ expected [] cs
  replay_refines r cs e = replies-expected r [] cs (load-Refines is r e)
