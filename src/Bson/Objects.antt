-- ===== src/Bson/Objects.antt =====
-- Objects whose keys are the indices of an array.
use cognivox_record.Prelude.{
  ℕ, suc, ◌+◌, ◌≤◌, ◌<◌, ◌≡◌, refl, sym, ◌∙◌, ap, false, some, some_inj, arith, lt→ltb, Bool-cases,
  inl, inr,
}
use cognivox_record.Text.Utf8.{Text}
use cognivox_record.Text.Decimal.{print_nat, parse_nat-print_nat}
use cognivox_record.Text.Words.{equal, equal→eq, equal_refl}
use cognivox_record.Bson.{
  BsonValue, BsonValues, no_values, value, Fields, no_fields, field, index_of, canonical, is_below,
  set_index, set_by, set_field, set_all, values_of,
}

abbrev pub indexed : ℕ → BsonValues → Fields
indexed n no_values = no_fields
indexed n (value v vs) = field (print_nat n) v (indexed (suc n) vs)

abbrev pub count : BsonValues → ℕ
count no_values = 0
count (value v vs) = suc (count vs)

-- The number of array indices.
abbrev pub index_bound : ℕ
index_bound = 4294967295

abbrev append_values : BsonValues → BsonValues → BsonValues
append_values no_values ws = ws
append_values (value v vs) ws = value v (append_values vs ws)

append_values-nil : (vs : BsonValues) → append_values vs no_values ≡ vs
append_values-nil no_values = refl
append_values-nil (value v vs) = ap (value v) (append_values-nil vs)

append_values_assoc :
    (us vs ws : BsonValues)
    → append_values (append_values us vs) ws ≡ append_values us (append_values vs ws)
append_values_assoc no_values vs ws = refl
append_values_assoc (value u us) vs ws = ap (value u) (append_values_assoc us vs ws)

index_of-print_nat : (n : ℕ) → n < index_bound → index_of (print_nat n) ≡ some n
unfolding index_of
index_of-print_nat n h =
    rw (parse_nat-print_nat n, canonical, equal_refl (print_nat n), lt→ltb n index_bound h) refl

-- All keys are indices below `n`.
abbrev Below : ℕ → Fields → Type 0
Below n no_fields = Unit
Below n (field j w m) = ((k : ℕ) × (k < n) × (j ≡ print_nat k)) × Below n m

abbrev append_field : Fields → Text → BsonValue → Fields
append_field no_fields k v = field k v no_fields
append_field (field j w m) k v = field j w (append_field m k v)

values_of-append_field :
    (m : Fields) (k : Text) (v : BsonValue)
    → values_of (append_field m k v) ≡ append_values (values_of m) (value v no_values)
values_of-append_field no_fields k v = refl
values_of-append_field (field j w m) k v = ap (value w) (values_of-append_field m k v)

print_nat_ne : (k n : ℕ) → k < n → n < index_bound → equal (print_nat k) (print_nat n) ≡ false
print_nat_ne k n h b = elim (Bool-cases (equal (print_nat k) (print_nat n))) [
  | inl same ↦
      let e : k ≡ n = some_inj (
        sym (index_of-print_nat k (omega arith))
        ∙ ap index_of (equal→eq (print_nat k) (print_nat n) same)
        ∙ index_of-print_nat n b) in
      absurd (omega arith)
  | inr other ↦ other
]

set_index_last :
    (n : ℕ) (v : BsonValue) (m : Fields)
    → n < index_bound
    → Below n m
    → set_index n (print_nat n) v m ≡ append_field m (print_nat n) v
unfolding set_index is_below
set_index_last n v no_fields b h = refl
set_index_last n v (field j w m) b ((k, below, e), h) =
    rw
      (
        e,
        print_nat_ne k n below b,
        index_of-print_nat k (omega arith),
        lt→ltb k n below,
        set_index_last n v m b h,
      )
      refl

set_field_last :
    (n : ℕ) (v : BsonValue) (m : Fields)
    → n < index_bound
    → Below n m
    → set_field (print_nat n) v m ≡ append_field m (print_nat n) v
unfolding set_field
set_field_last n v m b h =
    ap (λ o. set_by o (print_nat n) v m) (index_of-print_nat n b) ∙ set_index_last n v m b h

Below-append_field :
    (n : ℕ) (v : BsonValue) (m : Fields)
    → Below n m
    → Below (suc n) (append_field m (print_nat n) v)
Below-append_field n v no_fields h = ((n, omega arith, refl), tt)
Below-append_field n v (field j w m) ((k, below, e), h) =
    ((k, omega arith, e), Below-append_field n v m h)

values_of-set_all :
    (n : ℕ) (m : Fields) (vs : BsonValues)
    → n + count vs ≤ index_bound
    → Below n m
    → values_of (set_all m (indexed n vs)) ≡ append_values (values_of m) vs
unfolding set_all
values_of-set_all n m no_values b h = sym (append_values-nil (values_of m))
values_of-set_all n m (value v vs) b h =
    ap (λ x. values_of (set_all x (indexed (suc n) vs))) (set_field_last n v m (omega arith) h)
    ∙ values_of-set_all (suc n) (append_field m (print_nat n) v) vs (omega arith)
        (Below-append_field n v m h)
    ∙ ap (λ x. append_values x vs) (values_of-append_field m (print_nat n) v)
    ∙ append_values_assoc (values_of m) (value v no_values) vs

-- An array that is spelled as an object and read back is the array.
pub values_of-indexed :
    (vs : BsonValues) → count vs ≤ index_bound → values_of (set_all no_fields (indexed 0 vs)) ≡ vs
values_of-indexed vs h = values_of-set_all 0 no_fields vs (omega arith) tt
