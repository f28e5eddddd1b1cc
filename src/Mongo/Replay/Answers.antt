-- ===== src/Mongo/Replay/Answers.antt =====
-- What a replay answers, as a function of the recording and of the commands already asked.
use cognivox_record.Prelude.{
  ℕ, zero, suc, ◌≡◌, refl, sym, subst, ◌∙◌, ap, Bool, true, false, ◌||◌, List, [], ◌∷◌, ◌++◌,
  append-nil, append_assoc, Option, none, some, if◌then◌else◌, Bool-cases, inl, inr,
}
use cognivox_record.Sequences.{
  nth_answer, held, left_over_zero, nth_answer_first, nth_answer_single, nth_answer-suc,
}
use cognivox_record.Text.Utf8.{Text}
use cognivox_record.Text.Words.{equal, equal→eq}
use cognivox_record.Dict.{Dict, get, get-put, contains}
use cognivox_record.Interaction.{DependencyInteraction, redis, postgres, mongodb}
use cognivox_record.Bson.{Fields, Platform}
use cognivox_record.Mongo.{command_name_of}
use cognivox_record.Mongo.Replay.{
  handshake_commands, driver_housekeeping, handshake_reply, plain_ok, no_recording, MongoReplay,
  empty_replay, extend, answer_from, signature_of, add_interaction, load_from, load, reply_to,
}

abbrev pub answer : Text → Option Fields → Fields
answer key none = no_recording key
answer key (some v) = v

answer_from-held :
    (r : MongoReplay) (key : Text) (vs : List Fields) (n : ℕ)
    → (answer_from r key (held vs n)).0 ≡ answer key (nth_answer vs n)
unfolding answer_from
answer_from-held r key [] n = refl
answer_from-held r key (v ∷ []) n = ap (answer key) (sym (nth_answer_single v n))
answer_from-held r key (v ∷ w ∷ vs) zero = ap (answer key) (sym (nth_answer_first v (w ∷ vs)))
answer_from-held r key (v ∷ w ∷ vs) (suc n) =
    answer_from-held r key (w ∷ vs) n ∙ ap (answer key) (sym (nth_answer-suc v w vs n))

same_key :
    (m : Dict (List Fields)) (key j : Text) (o : Option (List Fields))
    → get key m ≡ o
    → get j m ≡ (if equal key j then o else get j m)
same_key m key j o h = elim (Bool-cases (equal key j)) [
  | inl same ↦ rw same (subst (λ k. get k m ≡ o) (equal→eq key j same) h)
  | inr other ↦ rw other refl
]

-- What an answer does to the sequences: it takes one reply of its own signature.
get-answer_from :
    (r : MongoReplay) (key j : Text) (vs : List Fields) (n : ℕ)
    → get key r.by_command ≡ held vs n
    → get j (answer_from r key (held vs n)).1.by_command
      ≡ (if equal key j then held vs (suc n) else get j r.by_command)
unfolding answer_from
get-answer_from r key j [] n h = same_key r.by_command key j none h
get-answer_from r key j (v ∷ []) n h = same_key r.by_command key j (some (v ∷ [])) h
get-answer_from r key j (v ∷ w ∷ vs) zero h =
    get-put key j (w ∷ vs) r.by_command
    ∙ ap (λ l. if equal key j then some l else get j r.by_command) (sym (left_over_zero (w ∷ vs)))
get-answer_from r key j (v ∷ w ∷ vs) (suc n) h = get-answer_from r key j (w ∷ vs) n h

held-extend :
    (vs : List Fields) (v : Fields) → some (extend (held vs 0) v) ≡ held (vs ++ (v ∷ [])) 0
unfolding extend
held-extend [] v = refl
held-extend (w ∷ vs) v =
    ap (λ l. some (l ++ (v ∷ []))) (left_over_zero (w ∷ vs))
    ∙ ap some (sym (left_over_zero (w ∷ (vs ++ (v ∷ [])))))

abbrev pub is_own : Fields → Bool
is_own q =
    contains (command_name_of q) handshake_commands
    || contains (command_name_of q) driver_housekeeping

abbrev pub bump : Bool → ℕ → ℕ
bump false n = n
bump true n = suc n

module _ (platform : Platform) where
  -- The replies recorded for a signature, in recorded order.
  unfoldable pub recorded : Text → List DependencyInteraction → List Fields
  recorded key [] = []
  recorded key (redis c a d ∷ is) = recorded key is
  recorded key (postgres s p a d ∷ is) = recorded key is
  recorded key (mongodb c q a d ∷ is) =
      (if equal (signature_of platform q) key then a ∷ [] else []) ++ recorded key is

  -- How often a signature is among the commands asked; the driver's own do not count.
  unfoldable pub times : Text → List Fields → ℕ
  times key [] = 0
  times key (q ∷ qs) =
      bump (if is_own q then false else equal (signature_of platform q) key) (times key qs)

  -- The replay holds what the recording and the history say.
  abbrev Refines : MongoReplay → List DependencyInteraction → List Fields → Type 0
  Refines r is asked =
      (key : Text) → get key r.by_command ≡ held (recorded key is) (times key asked)

  pub recorded-append :
      (key : Text) (is js : List DependencyInteraction)
      → recorded key (is ++ js) ≡ recorded key is ++ recorded key js
  unfolding recorded
  recorded-append key [] js = refl
  recorded-append key (redis c a d ∷ is) js = recorded-append key is js
  recorded-append key (postgres s p a d ∷ is) js = recorded-append key is js
  recorded-append key (mongodb c q a d ∷ is) js =
      ap (◌++◌ (if equal (signature_of platform q) key then a ∷ [] else []))
        (recorded-append key is js)
      ∙ sym (append_assoc _ (recorded key is) (recorded key js))

  -- An interaction files what it adds to the replies recorded.
  add_interaction-Refines :
      (r : MongoReplay) (is : List DependencyInteraction) (i : DependencyInteraction)
      → Refines r is []
      → Refines (add_interaction platform r i) (is ++ (i ∷ [])) []
  unfolding recorded times add_interaction
  add_interaction-Refines r is (redis c a d) h key =
      h key ∙ ap (λ l. held l 0) (sym (recorded-append key is (redis c a d ∷ []) ∙ append-nil _))
  add_interaction-Refines r is (postgres s p a d) h key =
      h key
      ∙ ap (λ l. held l 0) (sym (recorded-append key is (postgres s p a d ∷ []) ∙ append-nil _))
  add_interaction-Refines r is (mongodb c q a d) h key =
      let k = signature_of platform q in
      get-put k key (extend (get k r.by_command) a) r.by_command ∙ elim (Bool-cases (equal k key)) [
        | inl same ↦
            let e : recorded key (mongodb c q a d ∷ []) ≡ a ∷ [] = rw same refl in
            rw same (
              ap (λ o. some (extend o a))
                (ap (λ j. get j r.by_command) (equal→eq k key same) ∙ h key)
              ∙ held-extend (recorded key is) a
              ∙ ap (λ l. held l 0)
                  (sym (
                    recorded-append key is (mongodb c q a d ∷ []) ∙ ap (◌++◌ (recorded key is)) e)))
        | inr other ↦
            let e : recorded key (mongodb c q a d ∷ []) ≡ [] = rw other refl in
            rw other (
              h key
              ∙ ap (λ l. held l 0)
                  (sym (
                    recorded-append key is (mongodb c q a d ∷ [])
                    ∙ ap (◌++◌ (recorded key is)) e
                    ∙ append-nil (recorded key is))))
      ]

  load_from-Refines :
      (r : MongoReplay) (is js : List DependencyInteraction)
      → Refines r is []
      → Refines (load_from platform r js) (is ++ js) []
  load_from-Refines r is [] h = subst (λ l. Refines r l []) (sym (append-nil is)) h
  load_from-Refines r is (i ∷ js) h =
      subst (λ l. Refines (load_from platform r (i ∷ js)) l []) (append_assoc is (i ∷ []) js)
        (load_from-Refines (add_interaction platform r i) (is ++ (i ∷ [])) js
          (add_interaction-Refines r is i h))

  -- The answers by the specification; `asked` is newest first.
  abbrev pub prescribed : List DependencyInteraction → List Fields → Text → Fields → Fields
  prescribed is asked now q =
      let key = signature_of platform q in
      if contains (command_name_of q) handshake_commands
      then handshake_reply now
      else if contains (command_name_of q) driver_housekeeping
      then plain_ok
      else answer key (nth_answer (recorded key is) (times key asked))

  -- An answer from the recording, and what is held behind it.
  answer_from-counts :
      (r : MongoReplay) (is : List DependencyInteraction) (asked : List Fields) (key j : Text)
      → Refines r is asked
      → get j (answer_from r key (get key r.by_command)).1.by_command
        ≡ held (recorded j is) (bump (equal key j) (times j asked))
  answer_from-counts r is asked key j h =
      ap (λ o. get j (answer_from r key o).1.by_command) (h key)
      ∙ get-answer_from r key j (recorded key is) (times key asked) (h key)
      ∙ elim (Bool-cases (equal key j)) [
        | inl same ↦
            rw same (ap (λ k. held (recorded k is) (suc (times k asked))) (equal→eq key j same))
        | inr other ↦ rw other (h j)
      ]

  reply_to-prescribed :
      (r : MongoReplay) (is : List DependencyInteraction) (asked : List Fields) (now : Text)
      (q : Fields)
      → Refines r is asked
      → ((reply_to platform now r q).0 ≡ prescribed is asked now q)
        × Refines (reply_to platform now r q).1 is (q ∷ asked)
  unfolding reply_to times
  reply_to-prescribed r is asked now q h =
      let key = signature_of platform q in
      elim (Bool-cases (contains (command_name_of q) handshake_commands)) [
        | inl own ↦ rw own (refl, h)
        | inr other ↦
            rw other (elim (Bool-cases (contains (command_name_of q) driver_housekeeping)) [
              | inl own ↦ rw own (refl, h)
              | inr plain ↦ rw plain (
                ap (λ o. (answer_from r key o).0) (h key)
                    ∙ answer_from-held r key (recorded key is) (times key asked),
                λ j. answer_from-counts r is asked key j h,
              )
            ])
      ]

  -- The answers to a row of commands, each with the time at which it is made.
  abbrev pub reply_all : MongoReplay → List (Text × Fields) → List Fields
  reply_all r [] = []
  reply_all r ((now, q) ∷ qs) =
      (reply_to platform now r q).0 ∷ reply_all (reply_to platform now r q).1 qs

  abbrev pub expected :
      List DependencyInteraction → List Fields → List (Text × Fields) → List Fields
  expected is asked [] = []
  expected is asked ((now, q) ∷ qs) = prescribed is asked now q ∷ expected is (q ∷ asked) qs

  replies-expected :
      (r : MongoReplay) (is : List DependencyInteraction) (asked : List Fields)
      (qs : List (Text × Fields))
      → Refines r is asked
      → reply_all r qs ≡ expected is asked qs
  replies-expected r is asked [] h = refl
  replies-expected r is asked ((now, q) ∷ qs) h =
      let (e, k) = reply_to-prescribed r is asked now q h in
      ap (λ v. v ∷ reply_all (reply_to platform now r q).1 qs) e
      ∙ ap (◌∷◌ (prescribed is asked now q))
          (replies-expected (reply_to platform now r q).1 is (q ∷ asked) qs k)

  -- The replay of MongoDB implements its specification: whatever commands are asked, in whatever
  -- order, a handshake gets the handshake's reply and the driver's housekeeping a plain success,
  -- recorded or not; the (n + 1)-th command of any other signature gets the (n + 1)-th reply recorded
  -- for it, the last one for ever after, and a failure that names the signature where there is none.
  pub replies_refine :
      (is : List DependencyInteraction) (qs : List (Text × Fields))
      → reply_all (load platform is) qs ≡ expected is [] qs
  replies_refine is qs =
      replies-expected (load platform is) is [] qs
        (load_from-Refines empty_replay [] is (λ key. unfold get recorded times in refl))
