-- ===== src/Postgres/Replay/Answers.antt =====
-- What a replay answers, as a function of the recording and of the statements already asked.
use cognivox_record.Prelude.{
  ℕ, suc, min, ◌≡◌, refl, sym, subst, ◌∙◌, ap, Bool, ◌&&◌, List, [], ◌∷◌, ◌++◌, append_assoc,
  append-nil, Option, some, arith, length, get_elem?, Bool-cases, inl, inr,
}
use cognivox_record.Prelude.Int.{ℤ}
use cognivox_record.Sequences.{nth_answer, held, left_over_zero}
use cognivox_record.Text.Utf8.{Text}
use cognivox_record.Text.Words.{equal, equal→eq, equal_refl}
use cognivox_record.Dict.{Dict, get, get-put}
use cognivox_record.Interaction.{mongodb, Row, SqlResponse, DependencyInteraction, redis, postgres}
use cognivox_record.Postgres.Replay.{
  RecordedResult, PostgresReplay, empty_replay, result_of, extend, push, add_interaction, load_from,
  load, lookup,
}
use cognivox_record.Postgres.Replay.Held.{
  Statement, exact_key, loose_key, recorded, either_answer, is_empty, times, choose-held, Holds,
  get-step_exact, get-step_loose,
}
use cognivox_record.Postgres.Replay.{result_for, peek}

recorded-append :
    (key_of : Statement → Text) (key : Text) (is js : List DependencyInteraction)
    → recorded key_of key (is ++ js) ≡ recorded key_of key is ++ recorded key_of key js
unfolding recorded
recorded-append key_of key [] js = refl
recorded-append key_of key (redis c a d ∷ is) js = recorded-append key_of key is js
recorded-append key_of key (mongodb c q a d ∷ is) js = recorded-append key_of key is js
recorded-append key_of key (postgres sql params a d ∷ is) js =
    rw (recorded-append key_of key is js)
      (sym (append_assoc _ (recorded key_of key is) (recorded key_of key js)))

recorded_skip :
    (key_of : Statement → Text) (key : Text) (is : List DependencyInteraction)
    (i : DependencyInteraction)
    → recorded key_of key (i ∷ []) ≡ []
    → recorded key_of key (is ++ (i ∷ [])) ≡ recorded key_of key is
recorded_skip key_of key is i e =
    recorded-append key_of key is (i ∷ [])
    ∙ ap (◌++◌ (recorded key_of key is)) e
    ∙ append-nil (recorded key_of key is)

held_zero : (w : RecordedResult) (vs : List RecordedResult) → held (w ∷ vs) 0 ≡ some (w ∷ vs)
held_zero w vs = ap some (left_over_zero (w ∷ vs))

held-extend :
    (vs : List RecordedResult) (v : RecordedResult)
    → some (extend (held vs 0) v) ≡ held (vs ++ (v ∷ [])) 0
unfolding extend
held-extend [] v = refl
held-extend (w ∷ vs) v =
    ap (λ o. some (extend o v)) (held_zero w vs) ∙ sym (held_zero w (vs ++ (v ∷ [])))

-- The constructor files each result under its signature and under its SQL.
push-Holds :
    (key_of : Statement → Text) (m : Dict (List RecordedResult)) (is : List DependencyInteraction)
    (sql : Text) (params : Row) (a : SqlResponse) (d : ℤ)
    → Holds m (λ key. recorded key_of key is) (λ key. 0)
    → Holds
        (push (key_of (sql, params)) (result_of a) m)
        (λ key. recorded key_of key (is ++ (postgres sql params a d ∷ [])))
        (λ key. 0)
unfolding push recorded
push-Holds key_of m is sql params a d h key =
    let k = key_of (sql, params) in
    rw (get-put k key, recorded-append key_of key is)
      (elim (Bool-cases (equal k key)) [
        | inl same ↦ rw same (
            ap (λ o. some (extend o (result_of a)))
              (ap (λ j. get j m) (equal→eq k key same) ∙ h key)
            ∙ held-extend (recorded key_of key is) (result_of a))
        | inr other ↦ rw (other, append-nil) (h key)
      ])

-- The replay holds what the recording and the history say.
abbrev pub loose_test : List DependencyInteraction → Text → Statement → Bool
loose_test is name c = equal (loose_key c) name && is_empty (recorded exact_key (exact_key c) is)

abbrev pub times_exact : List Statement → Text → ℕ
times_exact asked key = times (λ c. equal (exact_key c) key) asked

abbrev pub times_loose : List DependencyInteraction → List Statement → Text → ℕ
times_loose is asked name = times (loose_test is name) asked

abbrev Refines : PostgresReplay → List DependencyInteraction → List Statement → Type 0
Refines r is asked =
    Holds r.by_signature (λ key. recorded exact_key key is) (times_exact asked)
    × Holds r.by_sql (λ name. recorded loose_key name is) (times_loose is asked)

abbrev Filed : PostgresReplay → List DependencyInteraction → Type 0
Filed r is =
    Holds r.by_signature (λ key. recorded exact_key key is) (λ key. 0)
    × Holds r.by_sql (λ name. recorded loose_key name is) (λ name. 0)

-- An interaction of another protocol files nothing.
skip-Filed :
    (r : PostgresReplay) (is : List DependencyInteraction) (i : DependencyInteraction)
    → ((key_of : Statement → Text) (key : Text) → recorded key_of key (i ∷ []) ≡ [])
    → Filed r is
    → Filed r (is ++ (i ∷ []))
skip-Filed r is i none_of_it h = (
  λ key.
      h.0 key
      ∙ ap (λ vs. held vs 0) (sym (recorded_skip exact_key key is i (none_of_it exact_key key))),
  λ key.
      h.1 key
      ∙ ap (λ vs. held vs 0) (sym (recorded_skip loose_key key is i (none_of_it loose_key key))),
)

load_from-Filed :
    (r : PostgresReplay) (is js : List DependencyInteraction)
    → Filed r is
    → Filed (load_from r js) (is ++ js)
load_from-Filed r is [] h = subst (Filed r) (sym (append-nil is)) h
load_from-Filed r is (redis c a d ∷ js) h =
    subst (Filed (load_from r js)) (append_assoc is (redis c a d ∷ []) js) (
      load_from-Filed r (is ++ (redis c a d ∷ [])) js
        (skip-Filed r is (redis c a d) (unfold recorded in λ key_of key. refl) h))
load_from-Filed r is (mongodb c q a d ∷ js) h =
    subst (Filed (load_from r js)) (append_assoc is (mongodb c q a d ∷ []) js) (
      load_from-Filed r (is ++ (mongodb c q a d ∷ [])) js
        (skip-Filed r is (mongodb c q a d) (unfold recorded in λ key_of key. refl) h))
load_from-Filed r is (postgres sql params a d ∷ js) h =
    let i = postgres sql params a d in
    subst (Filed (load_from (add_interaction r i) js)) (append_assoc is (i ∷ []) js) (
      load_from-Filed (add_interaction r i) (is ++ (i ∷ [])) js (
        push-Holds exact_key r.by_signature is sql params a d h.0,
        push-Holds loose_key r.by_sql is sql params a d h.1,
      ))

load-Refines : (is : List DependencyInteraction) → Refines (load is) is []
unfolding times
load-Refines is =
    load_from-Filed empty_replay [] is
      ((λ key. unfold get recorded in refl), (λ key. unfold get recorded in refl))

-- The answer that the recording prescribes to a statement, when `asked` were asked before it.
abbrev pub prescribed :
    List DependencyInteraction → List Statement → Statement → Option RecordedResult
prescribed is asked c =
    either_answer (recorded exact_key (exact_key c) is) (times_exact asked (exact_key c))
      (recorded loose_key (loose_key c) is) (times_loose is asked (loose_key c))

lookup-Refines :
    (r : PostgresReplay) (is : List DependencyInteraction) (asked : List Statement) (c : Statement)
    → Refines r is asked
    → ((lookup r c.0 c.1).0 ≡ prescribed is asked c) × Refines (lookup r c.0 c.1).1 is (c ∷ asked)
unfolding lookup times
lookup-Refines r is asked c h =
    let key = exact_key c in
    let name = loose_key c in
    let ws = recorded exact_key key is in
    let vs = recorded loose_key name is in
    let e =
      choose-held r key name ws (times_exact asked key) vs (times_loose is asked name) (h.0 key)
        (h.1 name) in
    (
      ap (λ p. p.0) e,
      subst (λ s. Refines s is (c ∷ asked)) (sym (ap (λ p. p.1) e))
          (
            get-step_exact r.by_signature (λ j. recorded exact_key j is) (times_exact asked) key ws
                h.0 refl,
            get-step_loose r.by_sql (λ j. recorded loose_key j is) (times_loose is asked) name ws vs
                h.1 refl,
          ),
    )

-- A row of lookups, of which `result_for` and `peek` each make one.
abbrev pub lookup_all : PostgresReplay → List Statement → List (Option RecordedResult)
lookup_all r [] = []
lookup_all r (c ∷ cs) = (lookup r c.0 c.1).0 ∷ lookup_all (lookup r c.0 c.1).1 cs

abbrev pub expected :
    List DependencyInteraction → List Statement → List Statement → List (Option RecordedResult)
expected is asked [] = []
expected is asked (c ∷ cs) = prescribed is asked c ∷ expected is (c ∷ asked) cs

lookup_all-expected :
    (r : PostgresReplay) (is : List DependencyInteraction) (asked cs : List Statement)
    → Refines r is asked
    → lookup_all r cs ≡ expected is asked cs
lookup_all-expected r is asked [] h = refl
lookup_all-expected r is asked (c ∷ cs) h =
    let (e, k) = lookup-Refines r is asked c h in
    ap (λ o. o ∷ lookup_all (lookup r c.0 c.1).1 cs) e
    ∙ ap (◌∷◌ (prescribed is asked c))
        (lookup_all-expected (lookup r c.0 c.1).1 is (c ∷ asked) cs k)

-- The replay of Postgres implements its specification: whatever statements are looked up, in
-- whatever order, the (n + 1)-th lookup of a signature that was recorded gets its (n + 1)-th result,
-- the last one for ever after. A statement whose signature was not recorded gets the results of the
-- same SQL under any parameters, counted among such statements only, and nothing where there is none.
pub lookups_refine :
    (is : List DependencyInteraction) (cs : List Statement)
    → lookup_all (load is) cs ≡ expected is [] cs
lookups_refine is cs = lookup_all-expected (load is) is [] cs (load-Refines is)

nth_answer_zero : (v : RecordedResult) (vs : List RecordedResult) → nth_answer (v ∷ vs) 0 ≡ some v
nth_answer_zero v vs = let e : min 0 (length vs) ≡ 0 = omega arith in ap (get_elem? (v ∷ vs)) e

nth_answer_one :
    (v w : RecordedResult) (vs : List RecordedResult) → nth_answer (v ∷ w ∷ vs) 1 ≡ some w
nth_answer_one v w vs =
    let e : min 1 (suc (length vs)) ≡ 1 = omega arith in ap (get_elem? (v ∷ w ∷ vs)) e

asked_once : (c : Statement) → times_exact (c ∷ []) (exact_key c) ≡ 1
unfolding times
asked_once c = rw (equal_refl (exact_key c)) refl

-- What the next Describe or Execute of a statement answers is moved on by a Describe: of two results
-- or more that were recorded for a signature, a `peek` of a fresh replay reads the first, and the
-- statement that is executed after it is answered with the second.
pub peek_advances :
    (is : List DependencyInteraction) (c : Statement) (v w : RecordedResult)
    (vs : List RecordedResult)
    → recorded exact_key (exact_key c) is ≡ v ∷ w ∷ vs
    → ((peek (load is) c.0 c.1).0 ≡ some v)
      × ((result_for (peek (load is) c.0 c.1).1 c.0 c.1).0 ≡ some w)
unfolding peek result_for times
peek_advances is c v w vs e =
    let (first, h) = lookup-Refines (load is) is [] c (load-Refines is) in
    let (second, k) = lookup-Refines (lookup (load is) c.0 c.1).1 is (c ∷ []) c h in
    (
      first
          ∙ ap (λ l. either_answer l 0 (recorded loose_key (loose_key c) is) 0) e
          ∙ nth_answer_zero v (w ∷ vs),
      second
          ∙ ap
              (λ l.
                either_answer l (times_exact (c ∷ []) (exact_key c))
                  (recorded loose_key (loose_key c) is) (times_loose is (c ∷ []) (loose_key c)))
              e
          ∙ ap (nth_answer (v ∷ w ∷ vs)) (asked_once c)
          ∙ nth_answer_one v w vs,
    )
