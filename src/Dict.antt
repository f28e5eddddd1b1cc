-- ===== src/Dict.antt =====
-- JavaScript's `Map` and `Set` with string keys, in the order of insertion.
use cognivox_record.Prelude.{
  ◌≡◌, refl, Bool, false, ◌||◌, List, [], ◌∷◌, ◌++◌, Option, none, some, arith, if◌then◌else◌,
  Bool-cases, inl, inr,
}
use cognivox_record.Text.Utf8.{Text}
use cognivox_record.Text.Words.{equal, equal→eq, equal_refl}

abbrev pub Dict {ℓ} : Type ℓ → Type ℓ
Dict V = List (Text × V)

module _ {ℓ} {V : Type ℓ} where
  -- `map.get(key)`
  unfoldable pub get : Text → Dict V → Option V
  get k [] = none
  get k ((j, v) ∷ m) = if equal j k then some v else get k m

  -- `map.set(key, value)`
  unfoldable pub put : Text → V → Dict V → Dict V
  put k v [] = (k, v) ∷ []
  put k v ((j, w) ∷ m) = if equal j k then (j, v) ∷ m else (j, w) ∷ put k v m

  -- A key that was set has the value that was set, and every other key what it had.
  pub get-put :
      (k j : Text) (v : V) (m : Dict V)
      → get j (put k v m) ≡ (if equal k j then some v else get j m)
  unfolding get put
  get-put k j v [] = refl
  get-put k j v ((i, w) ∷ m) = elim (Bool-cases (equal i k)) [
    | inl same ↦ ground (arith, equal→eq i k same)
    | inr other ↦ ground (arith, get-put k j v m, equal→eq i j, equal→eq k j, equal_refl i)
  ]

-- `set.has(key)`
unfoldable pub contains : Text → List Text → Bool
contains k [] = false
contains k (j ∷ s) = equal j k || contains k s

-- `set.add(key)`
unfoldable pub add : Text → List Text → List Text
unfolding contains
add k s = if contains k s then s else s ++ (k ∷ [])

contains-concat :
    (k j : Text) (s : List Text) → contains k (s ++ (j ∷ [])) ≡ (contains k s || equal j k)
unfolding contains
contains-concat k j [] = ground arith
contains-concat k j (i ∷ s) = ground (arith, contains-concat k j s)

-- What was in the set is in it still, and so is the key that was added.
pub contains-add : (k j : Text) (s : List Text) → contains k (add j s) ≡ (contains k s || equal j k)
unfolding add
contains-add k j s = elim (Bool-cases (contains j s)) [
  | inl old ↦ elim (Bool-cases (equal j k)) [
    | inl same ↦ ground (arith, rw (equal→eq j k same) at old)
    | inr other ↦ ground arith
  ]
  | inr new ↦ rw new (contains-concat k j s)
]
