-- ===== src/Postgres/Replay/Held.antt =====
-- The list of results that is filed under one key, before and after an answer.
use cognivox_record.Prelude.{
  ℕ, zero, suc, min, ◌≡◌, refl, sym, subst, ◌∙◌, ap, Bool, true, false, ◌&&◌, List, [], ◌∷◌, ◌++◌,
  Option, some, arith, length, get_elem?, if◌then◌else◌, Bool-cases, inl, inr,
}
use cognivox_record.Sequences.{nth_answer, left_over, held, left_over_zero}
use cognivox_record.Text.Utf8.{Text}
use cognivox_record.Text.Words.{equal, equal→eq}
use cognivox_record.Dict.{Dict, get, put, get-put}
use cognivox_record.Interaction.{mongodb, Row, DependencyInteraction, redis, postgres}
use cognivox_record.Postgres.Replay.{
  RecordedResult, normalise, signature_of, PostgresReplay, result_of, take_first, take_loose,
  choose,
}

-- A statement: its SQL and its parameters.
abbrev pub Statement : Type 0
Statement = Text × Row

abbrev pub exact_key : Statement → Text
exact_key c = signature_of c.0 c.1

abbrev pub loose_key : Statement → Text
loose_key c = normalise c.0

-- The results recorded under a key, in recorded order.
unfoldable pub recorded :
    (Statement → Text) → Text → List DependencyInteraction → List RecordedResult
recorded key_of key [] = []
recorded key_of key (redis c a d ∷ is) = recorded key_of key is
recorded key_of key (mongodb c q a d ∷ is) = recorded key_of key is
recorded key_of key (postgres sql params a d ∷ is) =
    (if equal (key_of (sql, params)) key then result_of a ∷ [] else []) ++ recorded key_of key is

take_first-left_over :
    (v : RecordedResult) (vs : List RecordedResult) (n : ℕ)
    → take_first (left_over (v ∷ vs) n) ≡ (nth_answer (v ∷ vs) n, left_over (v ∷ vs) (suc n))
unfolding take_first
take_first-left_over v [] n =
    let e : min n 0 ≡ 0 = omega arith in ap (λ k. (get_elem? (v ∷ []) k, v ∷ [])) (sym e)
take_first-left_over v (w ∷ vs) zero =
    let e : min 0 (suc (length vs)) ≡ 0 = omega arith in
    ap (λ l. (some v, l)) (sym (left_over_zero (w ∷ vs)))
    ∙ ap (λ k. (get_elem? (v ∷ w ∷ vs) k, left_over (v ∷ w ∷ vs) 1)) (sym e)
take_first-left_over v (w ∷ vs) (suc n) =
    let e : min (suc n) (suc (length vs)) ≡ suc (min n (length vs)) = omega arith in
    take_first-left_over w vs n
    ∙ ap (λ k. (get_elem? (v ∷ w ∷ vs) k, left_over (w ∷ vs) (suc n))) (sym e)

choose-left_over :
    (r : PostgresReplay) (key name : Text) (v : RecordedResult) (vs : List RecordedResult) (n : ℕ)
    → choose r key name (some (left_over (v ∷ vs) n)) ≡ (
      (take_first (left_over (v ∷ vs) n)).0,
      record r { by_signature = put key (take_first (left_over (v ∷ vs) n)).1 r.by_signature },
    )
unfolding choose
choose-left_over r key name v [] n = refl
choose-left_over r key name v (w ∷ vs) zero = refl
choose-left_over r key name v (w ∷ vs) (suc n) = choose-left_over r key name w vs n

-- The lists that the two stores hold give the answer and the next stores.
abbrev pub either_answer : List RecordedResult → ℕ → List RecordedResult → ℕ → Option RecordedResult
either_answer [] n vs m = nth_answer vs m
either_answer (w ∷ ws) n vs m = nth_answer (w ∷ ws) n

abbrev pub is_empty : List RecordedResult → Bool
is_empty [] = true
is_empty (v ∷ vs) = false

abbrev pub bump : Bool → ℕ → ℕ
bump false n = n
bump true n = suc n

-- How often a key is among the statements asked.
unfoldable pub times : (Statement → Bool) → List Statement → ℕ
times test [] = 0
times test (c ∷ cs) = bump (test c) (times test cs)

unfoldable pub step_exact :
    List RecordedResult → ℕ → Text → Dict (List RecordedResult) → Dict (List RecordedResult)
step_exact [] n key m = m
step_exact (w ∷ ws) n key m = put key (left_over (w ∷ ws) (suc n)) m

unfoldable pub step_loose :
    List RecordedResult
    → List RecordedResult
    → ℕ
    → Text
    → Dict (List RecordedResult)
    → Dict (List RecordedResult)
step_loose [] [] n name m = m
step_loose [] (v ∷ vs) n name m = put name (left_over (v ∷ vs) (suc n)) m
step_loose (w ∷ ws) vs n name m = m

-- One lookup, in terms of what was recorded and of how much was asked.
pub choose-held :
    (r : PostgresReplay) (key name : Text) (ws : List RecordedResult) (n : ℕ)
    (vs : List RecordedResult) (m : ℕ)
    → get key r.by_signature ≡ held ws n
    → get name r.by_sql ≡ held vs m
    → choose r key name (get key r.by_signature) ≡ (
      either_answer ws n vs m,
      record r {
        by_signature = step_exact ws n key r.by_signature;
        by_sql = step_loose ws vs m name r.by_sql;
      },
    )
unfolding choose take_loose step_exact step_loose
choose-held r key name [] n [] m e f = rw (e, f) refl
choose-held r key name [] n (v ∷ vs) m e f =
    rw (e, f)
      (ap (λ p. (p.0, record r { by_sql = put name p.1 r.by_sql })) (take_first-left_over v vs m))
choose-held r key name (w ∷ ws) n vs m e f =
    ap (choose r key name) e
    ∙ choose-left_over r key name w ws n
    ∙ ap (λ p. (p.0, record r { by_signature = put key p.1 r.by_signature }))
        (take_first-left_over w ws n)

-- A store holds what was recorded under each key, less what was taken.
abbrev pub Holds : Dict (List RecordedResult) → (Text → List RecordedResult) → (Text → ℕ) → Type 0
Holds m of taken = (key : Text) → get key m ≡ held (of key) (taken key)

pub get-step_exact :
    (m : Dict (List RecordedResult)) (of : Text → List RecordedResult) (taken : Text → ℕ)
    (key : Text) (ws : List RecordedResult)
    → Holds m of taken
    → of key ≡ ws
    → Holds (step_exact ws (taken key) key m) of (λ j. bump (equal key j) (taken j))
unfolding step_exact
get-step_exact m of taken key [] h e j = elim (Bool-cases (equal key j)) [
  | inl same ↦
      let z : of j ≡ [] = subst (λ k. of k ≡ []) (equal→eq key j same) e in rw (same, h j, z) refl
  | inr other ↦ rw (other, h j) refl
]
get-step_exact m of taken key (w ∷ ws) h e j = get-put key j _ m ∙ elim (Bool-cases (equal key j)) [
  | inl same ↦
      let z : of j ≡ w ∷ ws = subst (λ k. of k ≡ w ∷ ws) (equal→eq key j same) e in
      let k : taken key ≡ taken j = ap taken (equal→eq key j same) in rw (same, k, z) refl
  | inr other ↦ rw (other, h j) refl
]

pub get-step_loose :
    (m : Dict (List RecordedResult)) (of : Text → List RecordedResult) (taken : Text → ℕ)
    (name : Text) (ws vs : List RecordedResult)
    → Holds m of taken
    → of name ≡ vs
    → Holds
        (step_loose ws vs (taken name) name m)
        of
        (λ j. bump (equal name j && is_empty ws) (taken j))
unfolding step_loose
get-step_loose m of taken name (w ∷ ws) vs h e j = elim (Bool-cases (equal name j)) [
  | inl same ↦ rw (same, h j) refl
  | inr other ↦ rw (other, h j) refl
]
get-step_loose m of taken name [] [] h e j = elim (Bool-cases (equal name j)) [
  | inl same ↦
      let z : of j ≡ [] = subst (λ k. of k ≡ []) (equal→eq name j same) e in rw (same, h j, z) refl
  | inr other ↦ rw (other, h j) refl
]
get-step_loose m of taken name [] (v ∷ vs) h e j =
    get-put name j _ m ∙ elim (Bool-cases (equal name j)) [
      | inl same ↦
          let z : of j ≡ v ∷ vs = subst (λ k. of k ≡ v ∷ vs) (equal→eq name j same) e in
          let k : taken name ≡ taken j = ap taken (equal→eq name j same) in rw (same, k, z) refl
      | inr other ↦ rw (other, h j) refl
    ]
