-- ===== src/Redis/Replay/Recorded.antt =====
-- A recording replayed to the program that made it.
use cognivox_record.Prelude.{
  suc, min, ◌≡◌, refl, sym, ◌∙◌, ap, List, [], ◌∷◌, ◌++◌, append_assoc, Option, some, arith, length,
  length-append, get_elem?, if◌then◌else◌, Bool-cases, inl, inr,
}
use cognivox_record.Prelude.Int.{ℤ}
use cognivox_record.Text.Utf8.{Text}
use cognivox_record.Text.Words.{equal, equal_refl}
use cognivox_record.Dict.{get, put}
use cognivox_record.Resp.{RespValue}
use cognivox_record.Resp.Commands.{RespCommand}
use cognivox_record.Resp.Stored.{describe, from_stored-describe}
use cognivox_record.Interaction.{DependencyInteraction, redis}
use cognivox_record.Redis.Replay.{
  RedisReplay, empty_replay, signature_of, extend_sequence, add_interaction, load_from, load,
}
use cognivox_record.Redis.Replay.Answers.{
  recorded, times, nth_answer, expected, reply_all, replay_refines, recorded-append, recorded_one,
}

-- A command, its reply and the time that it took.
abbrev pub Exchange : Type 0
Exchange = RespCommand × RespValue × ℤ

-- What the recorder stores of them.
abbrev pub interactions : List Exchange → List DependencyInteraction
interactions [] = []
interactions ((c, v, d) ∷ xs) = redis c (describe v) d ∷ interactions xs

abbrev pub commands : List Exchange → List RespCommand
commands [] = []
commands ((c, v, d) ∷ xs) = c ∷ commands xs

abbrev pub replies : List Exchange → List (Option RespValue)
replies [] = []
replies ((c, v, d) ∷ xs) = some v ∷ replies xs

-- Such a recording loads.
load_from-interactions :
    (r : RedisReplay) (xs : List Exchange)
    → (s : RedisReplay) × (load_from r (interactions xs) ≡ some s)
unfolding load_from add_interaction
load_from-interactions r [] = (r, refl)
load_from-interactions r ((c, v, d) ∷ xs) =
    let key = signature_of c.command c.args in
    let s = record r {
      sequences = put key (extend_sequence (get key r.sequences) v) r.sequences;
    } in
    let (t, e) = load_from-interactions s xs in (t, rw (from_stored-describe v) e)

get_elem?-middle {ℓ} :
    {A : Type ℓ} (xs : List A) (v : A) (ys : List A)
    → get_elem? (xs ++ (v ∷ ys)) (length xs) ≡ some v
get_elem?-middle [] v ys = refl
get_elem?-middle (x ∷ xs) v ys = get_elem?-middle xs v ys

nth_answer-middle :
    (key : Text) (xs : List RespValue) (v : RespValue) (ys : List RespValue)
    → nth_answer key (xs ++ (v ∷ ys)) (length xs) ≡ some v
nth_answer-middle key [] v ys =
    ap (get_elem? (v ∷ ys)) (let e : min 0 (length ys) ≡ 0 = omega arith in e)
nth_answer-middle key (x ∷ xs) v ys =
    let e : min (suc (length xs)) (length (xs ++ (v ∷ ys))) ≡ suc (length xs) =
      omega (arith, length-append {0} xs (v ∷ ys)) in
    ap (get_elem? (x ∷ (xs ++ (v ∷ ys)))) e ∙ get_elem?-middle xs v ys

-- The history `asked` is what the exchanges `done` asked.
abbrev Counts : List RespCommand → List DependencyInteraction → Type 0
Counts asked done = (key : Text) → times key asked ≡ length (recorded key done)

Counts-next :
    (asked : List RespCommand) (done : List DependencyInteraction) (c : RespCommand) (v : RespValue)
    (d : ℤ)
    → Counts asked done
    → Counts (c ∷ asked) (done ++ (redis c (describe v) d ∷ []))
unfolding times
Counts-next asked done c v d h key =
    rw (recorded-append key done, recorded_one key c (describe v) d v (from_stored-describe v))
      (elim (Bool-cases (equal (signature_of c.command c.args) key)) [
        | inl same ↦ rw same (omega (arith, h key, length-append {0} (recorded key done) (v ∷ [])))
        | inr other ↦ rw other (omega (arith, h key, length-append {0} (recorded key done) []))
      ])

recorded_next :
    (is done : List DependencyInteraction) (c : RespCommand) (v : RespValue) (d : ℤ)
    (rest : List DependencyInteraction)
    → is ≡ done ++ (redis c (describe v) d ∷ rest)
    → let key = signature_of c.command c.args in
      recorded key is ≡ recorded key done ++ (v ∷ recorded key rest)
recorded_next is done c v d rest e =
    let key = signature_of c.command c.args in
    ap (recorded key) e
    ∙ recorded-append key done (redis c (describe v) d ∷ rest)
    ∙ ap (λ l. recorded key done ++ l)
        (recorded-append key (redis c (describe v) d ∷ []) rest
          ∙ ap (λ l. l ++ recorded key rest)
              (recorded_one key c (describe v) d v (from_stored-describe v)
                ∙ ap (λ b. if b then v ∷ [] else []) (equal_refl key)))

expected-replies :
    (is done : List DependencyInteraction) (asked : List RespCommand) (xs : List Exchange)
    → is ≡ done ++ interactions xs
    → Counts asked done
    → expected is asked (commands xs) ≡ replies xs
expected-replies is done asked [] e h = refl
expected-replies is done asked ((c, v, d) ∷ xs) e h =
    let key = signature_of c.command c.args in
    let rest = interactions xs in
    let first : nth_answer key (recorded key is) (times key asked) ≡ some v =
      ap (λ l. nth_answer key l (times key asked)) (recorded_next is done c v d rest e)
      ∙ ap (nth_answer key (recorded key done ++ (v ∷ recorded key rest))) (h key)
      ∙ nth_answer-middle key (recorded key done) v (recorded key rest) in
    ap (λ o. o ∷ expected is (c ∷ asked) (commands xs)) first
    ∙ ap (◌∷◌ (some v)) (
        expected-replies is (done ++ (redis c (describe v) d ∷ [])) (c ∷ asked) xs
          (e ∙ sym (append_assoc done (redis c (describe v) d ∷ []) rest))
          (Counts-next asked done c v d h))

load-interactions : (xs : List Exchange) → (r : RedisReplay) × (load (interactions xs) ≡ some r)
unfolding load
load-interactions xs = load_from-interactions empty_replay xs

-- Record and replay: the recording of any conversation loads, and a program that asks the same
-- commands in the same order gets, from the replay, exactly the replies that it got then.
pub replay_recorded :
    (xs : List Exchange)
    → (r : RedisReplay) × (load (interactions xs) ≡ some r)
      × ((reply_all r (commands xs)).0 ≡ replies xs)
replay_recorded xs =
    let (r, e) = load-interactions xs in
    (
      r,
      e,
      replay_refines (interactions xs) r (commands xs) e
          ∙ expected-replies (interactions xs) [] [] xs refl (λ key. unfold times recorded in refl),
    )
