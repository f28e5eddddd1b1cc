-- ===== src/Sequences.antt =====
-- The replies that a replay keeps for one command: they are given in recorded order, and the last
-- one for ever after.
use cognivox_record.Prelude.{
  ℕ, zero, suc, min, ◌≡◌, refl, ◌∙◌, ap, List, [], ◌∷◌, ◌++◌, Option, none, some, arith, length,
  length-append, get_elem?,
}

-- The (n + 1)-th answer from a list of results: in order, and the last one for ever after.
abbrev pub nth_answer {ℓ} : {A : Type ℓ} → List A → ℕ → Option A
nth_answer [] n = none
nth_answer (v ∷ vs) n = get_elem? (v ∷ vs) (min n (length vs))

-- What is left of a list of results after n answers.
abbrev pub left_over {ℓ} : {A : Type ℓ} → List A → ℕ → List A
left_over [] n = []
left_over (v ∷ []) n = v ∷ []
left_over (v ∷ w ∷ vs) zero = v ∷ w ∷ vs
left_over (v ∷ w ∷ vs) (suc n) = left_over (w ∷ vs) n

abbrev pub held {ℓ} : {A : Type ℓ} → List A → ℕ → Option (List A)
held [] n = none
held (v ∷ vs) n = some (left_over (v ∷ vs) n)

pub left_over_zero {ℓ} : {A : Type ℓ} (vs : List A) → left_over vs 0 ≡ vs
left_over_zero [] = refl
left_over_zero (v ∷ []) = refl
left_over_zero (v ∷ w ∷ vs) = refl

pub nth_answer_first {ℓ} : {A : Type ℓ} (v : A) (vs : List A) → nth_answer (v ∷ vs) 0 ≡ some v
nth_answer_first v vs = let e : min 0 (length vs) ≡ 0 = omega arith in ap (get_elem? (v ∷ vs)) e

pub nth_answer_single {ℓ} : {A : Type ℓ} (v : A) (n : ℕ) → nth_answer (v ∷ []) n ≡ some v
nth_answer_single v n = let e : min n 0 ≡ 0 = omega arith in ap (get_elem? (v ∷ [])) e

-- Later answers of a list of two or more are the answers of its tail.
pub nth_answer-suc {ℓ} :
    {A : Type ℓ} (v w : A) (vs : List A) (n : ℕ)
    → nth_answer (v ∷ w ∷ vs) (suc n) ≡ nth_answer (w ∷ vs) n
nth_answer-suc v w vs n =
    let e : min (suc n) (suc (length vs)) ≡ suc (min n (length vs)) = omega arith in
    ap (get_elem? (v ∷ w ∷ vs)) e

get_elem?-middle {ℓ} :
    {A : Type ℓ} (xs : List A) (v : A) (ys : List A)
    → get_elem? (xs ++ (v ∷ ys)) (length xs) ≡ some v
get_elem?-middle [] v ys = refl
get_elem?-middle (x ∷ xs) v ys = get_elem?-middle xs v ys

-- The answer behind the ones before it.
pub nth_answer-middle {ℓ} :
    {A : Type ℓ} (xs : List A) (v : A) (ys : List A)
    → nth_answer (xs ++ (v ∷ ys)) (length xs) ≡ some v
nth_answer-middle [] v ys = nth_answer_first v ys
nth_answer-middle (x ∷ xs) v ys =
    let e : min (suc (length xs)) (length (xs ++ (v ∷ ys))) ≡ suc (length xs) =
      omega (arith, length-append xs (v ∷ ys)) in
    ap (get_elem? (x ∷ (xs ++ (v ∷ ys)))) e ∙ get_elem?-middle xs v ys
