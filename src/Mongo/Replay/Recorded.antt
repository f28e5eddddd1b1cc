-- ===== src/Mongo/Replay/Recorded.antt =====
-- A recorded conversation with MongoDB is replayed.
use cognivox_record.Prelude.{
  ◌+◌, ◌≡◌, refl, sym, subst, ◌∙◌, ap, true, false, List, [], ◌∷◌, ◌++◌, append_assoc, some, arith,
  length, length-append, All, if◌then◌else◌, Bool-cases, inl, inr,
}
use cognivox_record.Prelude.Int.{ℤ}
use cognivox_record.Sequences.{nth_answer, nth_answer-middle}
use cognivox_record.Text.Utf8.{Text}
use cognivox_record.Text.Words.{equal, equal_refl}
use cognivox_record.Dict.{contains}
use cognivox_record.Interaction.{DependencyInteraction, mongodb}
use cognivox_record.Bson.{Fields, Platform}
use cognivox_record.Mongo.{command_name_of}
use cognivox_record.Mongo.Replay.{
  handshake_commands, driver_housekeeping, handshake_reply, plain_ok, signature_of, load,
}
use cognivox_record.Mongo.Replay.Answers.{
  answer, is_own, recorded, times, recorded-append, prescribed, reply_all, expected, replies_refine,
}

-- A command, its reply and the time between.
abbrev pub Exchange : Type 0
Exchange = Fields × Fields × ℤ

-- What the recorder stores of them.
abbrev pub interactions : List Exchange → List DependencyInteraction
interactions [] = []
interactions ((q, r, d) ∷ xs) = mongodb (command_name_of q) q r d ∷ interactions xs

-- The same commands, all asked at the time `now`.
abbrev pub asked_again : Text → List Exchange → List (Text × Fields)
asked_again now [] = []
asked_again now ((q, r, d) ∷ xs) = (now, q) ∷ asked_again now xs

-- The replies that they had; the driver's own commands have those that are made up.
abbrev pub replies_again : Text → List Exchange → List Fields
replies_again now [] = []
replies_again now ((q, r, d) ∷ xs) =
    (if contains (command_name_of q) handshake_commands
      then handshake_reply now
      else if contains (command_name_of q) driver_housekeeping
      then plain_ok
      else r)
    ∷ replies_again now xs

All-middle :
    (P : Exchange → Type 0) (done : List Exchange) (x : Exchange) (rest : List Exchange)
    → All P (done ++ (x ∷ rest))
    → P x
All-middle P [] x rest h = h.0
All-middle P (y ∷ done) x rest h = All-middle P done x rest h.1

interactions-append :
    (xs ys : List Exchange) → interactions (xs ++ ys) ≡ interactions xs ++ interactions ys
interactions-append [] ys = refl
interactions-append ((q, r, d) ∷ xs) ys =
    ap (◌∷◌ (mongodb (command_name_of q) q r d)) (interactions-append xs ys)

module _ (platform : Platform) where
  -- No command of the driver's own has this signature.
  abbrev pub OwnApart : Text → List Exchange → Type 0
  OwnApart key xs =
      All (λ (q, r, d). is_own q ≡ true → equal (signature_of platform q) key ≡ false) xs

  -- The driver's own commands share no signature with the program's.
  abbrev pub AreApart : List Exchange → Type 0
  AreApart xs = All (λ (q, r, d). is_own q ≡ false → OwnApart (signature_of platform q) xs) xs

  abbrev Counts : List Exchange → List Fields → List Exchange → Type 0
  Counts all asked done =
      (key : Text)
      → OwnApart key all
      → times platform key asked ≡ length (recorded platform key (interactions done))

  Counts-next :
      (all : List Exchange) (asked : List Fields) (done : List Exchange) (q r : Fields) (d : ℤ)
      (rest : List Exchange)
      → all ≡ done ++ ((q, r, d) ∷ rest)
      → Counts all asked done
      → Counts all (q ∷ asked) (done ++ ((q, r, d) ∷ []))
  unfolding times recorded
  Counts-next all asked done q r d rest e h key apart =
      let here : is_own q ≡ true → equal (signature_of platform q) key ≡ false =
        All-middle (λ (q, r, d). is_own q ≡ true → equal (signature_of platform q) key ≡ false) done
          (q, r, d) rest (subst (OwnApart key) e apart) in
      let one = recorded platform key (interactions ((q, r, d) ∷ [])) in
      let before_it = recorded platform key (interactions done) in
      let size : length (recorded platform key (interactions (done ++ ((q, r, d) ∷ []))))
          ≡ length before_it + length one =
        ap length (
          ap (recorded platform key) (interactions-append done ((q, r, d) ∷ []))
          ∙ recorded-append platform key (interactions done) (interactions ((q, r, d) ∷ [])))
        ∙ length-append before_it one in
      elim (Bool-cases (equal (signature_of platform q) key)) [
        | inl same ↦
            let made : one ≡ r ∷ [] = rw same refl in
            elim (Bool-cases (is_own q)) [
              | inl own ↦ let no : true ≡ false = sym same ∙ here own in cc
              | inr plain ↦ rw (plain, same) (omega (arith, h key apart, size, ap length made))
            ]
        | inr other ↦
            let made : one ≡ [] = rw other refl in
            elim (Bool-cases (is_own q)) [
              | inl own ↦ rw own (omega (arith, h key apart, size, ap length made))
              | inr plain ↦ rw (plain, other) (omega (arith, h key apart, size, ap length made))
            ]
      ]

  -- What is recorded for the signature of an exchange in the middle.
  recorded-middle :
      (all done : List Exchange) (q r : Fields) (d : ℤ) (rest : List Exchange)
      → all ≡ done ++ ((q, r, d) ∷ rest)
      → let key = signature_of platform q in
        recorded platform key (interactions all)
        ≡ recorded platform key (interactions done)
          ++ (r ∷ recorded platform key (interactions rest))
  unfolding recorded
  recorded-middle all done q r d rest e =
      let key = signature_of platform q in
      ap (λ l. recorded platform key (interactions l)) e
      ∙ ap (recorded platform key) (interactions-append done ((q, r, d) ∷ rest))
      ∙ recorded-append platform key (interactions done) (interactions ((q, r, d) ∷ rest))
      ∙ ap
          (λ b.
            recorded platform key (interactions done)
            ++ ((if b then r ∷ [] else []) ++ recorded platform key (interactions rest)))
          (equal_refl key)

  reply-again :
      (now : Text) (all done : List Exchange) (asked : List Fields) (q r : Fields) (d : ℤ)
      (rest : List Exchange)
      → all ≡ done ++ ((q, r, d) ∷ rest)
      → AreApart all
      → Counts all asked done
      → prescribed platform (interactions all) asked now q ∷ [] ≡ replies_again now ((q, r, d) ∷ [])
  reply-again now all done asked q r d rest e apart h =
      let key = signature_of platform q in
      let p = is_own q in
      elim (Bool-cases (contains (command_name_of q) handshake_commands)) [
        | inl own ↦ rw own refl
        | inr a ↦ elim (Bool-cases (contains (command_name_of q) driver_housekeeping)) [
          | inl own ↦ rw (a, own) refl
          | inr b ↦
              let plain : is_own q ≡ false = rw (a, b) refl in
              let here : is_own q ≡ false → OwnApart key all =
                All-middle (λ (q, r, d). is_own q ≡ false → OwnApart (signature_of platform q) all)
                  done (q, r, d) rest
                  (subst
                    (All (λ (q, r, d). is_own q ≡ false → OwnApart (signature_of platform q) all)) e
                    apart) in
              let nth : nth_answer (recorded platform key (interactions all))
                    (times platform key asked)
                  ≡ some r =
                ap (λ l. nth_answer l (times platform key asked))
                  (recorded-middle all done q r d rest e)
                ∙ ap
                    (nth_answer (
                      recorded platform key (interactions done)
                      ++ (r ∷ recorded platform key (interactions rest))))
                    (h key (here plain))
                ∙ nth_answer-middle (recorded platform key (interactions done)) r
                    (recorded platform key (interactions rest)) in
              rw (a, b) (ap (λ o. answer key o ∷ []) nth)
        ]
      ]

  expected-again :
      (now : Text) (all done : List Exchange) (asked : List Fields) (xs : List Exchange)
      → all ≡ done ++ xs
      → AreApart all
      → Counts all asked done
      → expected platform (interactions all) asked (asked_again now xs) ≡ replies_again now xs
  expected-again now all done asked [] e apart h = refl
  expected-again now all done asked ((q, r, d) ∷ xs) e apart h =
      ap (λ l. l ++ expected platform (interactions all) (q ∷ asked) (asked_again now xs))
        (reply-again now all done asked q r d xs e apart h)
      ∙ ap (λ l. replies_again now ((q, r, d) ∷ []) ++ l)
          (expected-again now all (done ++ ((q, r, d) ∷ [])) (q ∷ asked) xs
            (e ∙ sym (append_assoc done ((q, r, d) ∷ []) xs)) apart
            (Counts-next all asked done q r d xs e h))

  -- Record and replay: from the recording of a conversation in which the driver's own commands share no
  -- signature with the program's, the replay answers the same commands in the same order with exactly
  -- the replies recorded, and the driver's own with the replies that are made up for them.
  pub conversation_replayed :
      (now : Text) (xs : List Exchange)
      → AreApart xs
      → reply_all platform (load platform (interactions xs)) (asked_again now xs)
        ≡ replies_again now xs
  conversation_replayed now xs apart =
      replies_refine platform (interactions xs) (asked_again now xs)
      ∙ expected-again now xs [] [] xs refl apart (λ key own. unfold times recorded in refl)
