-- ===== src/ReplaySession/Protocols.antt =====
-- The protocols of a recording are listed once each.
use cognivox_record.Prelude.{
  All, ◌≡◌, ◌≢◌, refl, sym, ◌∙◌, ap, Bool, true, false, ◌||◌, List, [], ◌∷◌, ◌++◌, Bool-cases, inl,
  inr,
}
use cognivox_record.Text.Utf8.{Text}
use cognivox_record.Text.Words.{equal, equal→eq, equal_refl, sort, insert_sorted, text_le}
use cognivox_record.Dict.{get, contains, add, contains-add}
use cognivox_record.Interaction.{DependencyInteraction, redis, postgres, mongodb}
use cognivox_record.ReplaySession.{protocol_of, seen_in, served_only, is_served, protocols_in}

bools_differ : true ≢ false
bools_differ e = cc

abbrev pub AreDistinct : List Text → Type 0
AreDistinct [] = Unit
AreDistinct (t ∷ ts) = (contains t ts ≡ false) × AreDistinct ts

or_swap : (a b c : Bool) → (a || (b || c)) ≡ (b || (a || c))
or_swap true true c = refl
or_swap true false c = refl
or_swap false true c = refl
or_swap false false c = refl

or_assoc : (a b c : Bool) → (a || (b || c)) ≡ ((a || b) || c)
or_assoc true b c = refl
or_assoc false b c = refl

pub or-false_inv : (a b : Bool) → (a || b) ≡ false → (a ≡ false) × (b ≡ false)
or-false_inv true b h = cc
or-false_inv false b h = (refl, h)

or_none : (a b : Bool) → a ≡ false → b ≡ false → (a || b) ≡ false
or_none a b e f = rw (e, f) refl

equal_sym : (a b : Text) → equal a b ≡ equal b a
equal_sym a b = elim (Bool-cases (equal a b)) [
  | inl same ↦ ap (equal a) (sym (equal→eq a b same)) ∙ ap (λ x. equal x a) (equal→eq a b same)
  | inr other ↦ elim (Bool-cases (equal b a)) [
    | inl same ↦ ap (equal a) (equal→eq b a same) ∙ ap (λ x. equal x a) (sym (equal→eq b a same))
    | inr also ↦ other ∙ sym also
  ]
]

contains-insert_sorted :
    (x t : Text) (l : List Text) → contains x (insert_sorted t l) ≡ (equal t x || contains x l)
unfolding contains insert_sorted
contains-insert_sorted x t [] = refl
contains-insert_sorted x t (s ∷ ss) = elim (Bool-cases (text_le t s)) [
  | inl first ↦ rw first refl
  | inr later ↦ rw later (
      ap (λ b. equal s x || b) (contains-insert_sorted x t ss)
      ∙ or_swap (equal s x) (equal t x) (contains x ss))
]

insert_sorted-AreDistinct :
    (t : Text) (l : List Text)
    → contains t l ≡ false
    → AreDistinct l
    → AreDistinct (insert_sorted t l)
unfolding contains insert_sorted
insert_sorted-AreDistinct t [] h d = (refl, tt)
insert_sorted-AreDistinct t (s ∷ ss) h (new, d) =
    let (apart, absent) = or-false_inv (equal s t) (contains t ss) h in
    elim (Bool-cases (text_le t s)) [
      | inl first ↦ rw first (h, (new, d))
      | inr later ↦ rw later (
        contains-insert_sorted s t ss
            ∙ or_none (equal t s) (contains s ss) (equal_sym t s ∙ apart) new,
        insert_sorted-AreDistinct t ss absent d,
      )
    ]

contains-sort : (x : Text) (l : List Text) → contains x (sort l) ≡ contains x l
unfolding contains sort
contains-sort x [] = refl
contains-sort x (t ∷ ts) =
    contains-insert_sorted x t (sort ts) ∙ ap (λ b. equal t x || b) (contains-sort x ts)

sort-AreDistinct : (l : List Text) → AreDistinct l → AreDistinct (sort l)
unfolding sort
sort-AreDistinct [] d = tt
sort-AreDistinct (t ∷ ts) (new, d) =
    insert_sorted-AreDistinct t (sort ts) (contains-sort t ts ∙ new) (sort-AreDistinct ts d)

contains-served_only :
    (x : Text) (l : List Text) → is_served x ≡ true → contains x (served_only l) ≡ contains x l
unfolding contains served_only
contains-served_only x [] h = refl
contains-served_only x (p ∷ ps) h = elim (Bool-cases (is_served p)) [
  | inl kept ↦ rw kept (ap (λ b. equal p x || b) (contains-served_only x ps h))
  | inr gone ↦ rw gone (elim (Bool-cases (equal p x)) [
    | inl same ↦ absurd (bools_differ (sym h ∙ ap is_served (sym (equal→eq p x same)) ∙ gone))
    | inr other ↦ rw other (contains-served_only x ps h)
  ])
]

served_only-none :
    (x : Text) (l : List Text) → contains x l ≡ false → contains x (served_only l) ≡ false
unfolding contains served_only
served_only-none x [] h = refl
served_only-none x (p ∷ ps) h =
    let (apart, absent) = or-false_inv (equal p x) (contains x ps) h in
    elim (Bool-cases (is_served p)) [
      | inl kept ↦
          rw kept
            (or_none (equal p x) (contains x (served_only ps)) apart (served_only-none x ps absent))
      | inr gone ↦ rw gone (served_only-none x ps absent)
    ]

served_only-AreDistinct : (l : List Text) → AreDistinct l → AreDistinct (served_only l)
unfolding served_only
served_only-AreDistinct [] d = tt
served_only-AreDistinct (p ∷ ps) (new, d) = elim (Bool-cases (is_served p)) [
  | inl kept ↦ rw kept (served_only-none p ps new, served_only-AreDistinct ps d)
  | inr gone ↦ rw gone (served_only-AreDistinct ps d)
]

contains-end :
    (x t : Text) (l : List Text) → contains x (l ++ (t ∷ [])) ≡ (contains x l || equal t x)
unfolding contains
contains-end x t [] = elim (Bool-cases (equal t x)) [ inl e ↦ rw e refl | inr e ↦ rw e refl ]
contains-end x t (s ∷ ss) =
    ap (λ b. equal s x || b) (contains-end x t ss)
    ∙ or_assoc (equal s x) (contains x ss) (equal t x)

AreDistinct-end :
    (t : Text) (l : List Text) → contains t l ≡ false → AreDistinct l → AreDistinct (l ++ (t ∷ []))
unfolding contains
AreDistinct-end t [] h d = (refl, tt)
AreDistinct-end t (s ∷ ss) h (new, d) =
    let (apart, absent) = or-false_inv (equal s t) (contains t ss) h in
    (
      contains-end s t ss ∙ or_none (contains s ss) (equal t s) new (equal_sym t s ∙ apart),
      AreDistinct-end t ss absent d,
    )

add-AreDistinct : (t : Text) (l : List Text) → AreDistinct l → AreDistinct (add t l)
unfolding add
add-AreDistinct t l d = elim (Bool-cases (contains t l)) [
  | inl old ↦ rw old d
  | inr new ↦ rw new (AreDistinct-end t l new d)
]

seen_in-AreDistinct :
    (seen : List Text) (is : List DependencyInteraction)
    → AreDistinct seen
    → AreDistinct (seen_in seen is)
unfolding seen_in
seen_in-AreDistinct seen [] d = d
seen_in-AreDistinct seen (i ∷ is) d =
    seen_in-AreDistinct (add (protocol_of i) seen) is (add-AreDistinct (protocol_of i) seen d)

seen_in-kept :
    (x : Text) (seen : List Text) (is : List DependencyInteraction)
    → contains x seen ≡ true
    → contains x (seen_in seen is) ≡ true
unfolding seen_in
seen_in-kept x seen [] h = h
seen_in-kept x seen (i ∷ is) h =
    seen_in-kept x (add (protocol_of i) seen) is
      (contains-add x (protocol_of i) seen ∙ ap (λ b. b || equal (protocol_of i) x) h)

protocol_of-is_served : (i : DependencyInteraction) → is_served (protocol_of i) ≡ true
unfolding is_served get equal
protocol_of-is_served (redis c a d) = refl
protocol_of-is_served (postgres s p a d) = refl
protocol_of-is_served (mongodb c q a d) = refl

or_true : (b : Bool) → (b || true) ≡ true
or_true true = refl
or_true false = refl

seen_in-each :
    (seen : List Text) (is : List DependencyInteraction)
    → All (λ i. contains (protocol_of i) (seen_in seen is) ≡ true) is
unfolding seen_in
seen_in-each seen [] = tt
seen_in-each seen (i ∷ is) =
    let p = protocol_of i in
    (
      seen_in-kept p (add p seen) is (
          contains-add p p seen
          ∙ ap (λ b. contains p seen || b) (equal_refl p)
          ∙ or_true (contains p seen)),
      seen_in-each (add p seen) is,
    )

listed :
    (seen : List Text) (js : List DependencyInteraction)
    → All (λ i. contains (protocol_of i) seen ≡ true) js
    → All (λ i. contains (protocol_of i) (sort (served_only seen)) ≡ true) js
listed seen [] h = tt
listed seen (i ∷ js) (first, others) =
    let p = protocol_of i in
    (
      contains-sort p (served_only seen)
          ∙ contains-served_only p seen (protocol_of-is_served i)
          ∙ first,
      listed seen js others,
    )

-- Each protocol of a recording is among those listed,
pub protocols_in-each :
    (is : List DependencyInteraction)
    → All (λ i. contains (protocol_of i) (protocols_in is) ≡ true) is
unfolding protocols_in
protocols_in-each is = listed (seen_in [] is) is (seen_in-each [] is)

-- and all of them differ.
pub protocols_in-AreDistinct : (is : List DependencyInteraction) → AreDistinct (protocols_in is)
unfolding protocols_in
protocols_in-AreDistinct is =
    sort-AreDistinct (served_only (seen_in [] is))
      (served_only-AreDistinct (seen_in [] is) (seen_in-AreDistinct [] is tt))

insert_sorted-All :
    (P : Text → Type 0) (t : Text) (l : List Text) → P t → All P l → All P (insert_sorted t l)
unfolding insert_sorted
insert_sorted-All P t [] h all = (h, tt)
insert_sorted-All P t (s ∷ ss) h (first, others) = elim (Bool-cases (text_le t s)) [
  | inl front ↦ rw front (h, (first, others))
  | inr later ↦ rw later (first, insert_sorted-All P t ss h others)
]

sort-All : (P : Text → Type 0) (l : List Text) → All P l → All P (sort l)
unfolding sort
sort-All P [] all = tt
sort-All P (t ∷ ts) (first, others) = insert_sorted-All P t (sort ts) first (sort-All P ts others)

abbrev pub IsServed : Text → Type 0
IsServed p = is_served p ≡ true

served_only-All : (l : List Text) → All IsServed (served_only l)
unfolding served_only
served_only-All [] = tt
served_only-All (p ∷ ps) = elim (Bool-cases (is_served p)) [
  | inl kept ↦ rw kept (kept, served_only-All ps)
  | inr gone ↦ rw gone (served_only-All ps)
]

pub protocols_in-All : (is : List DependencyInteraction) → All IsServed (protocols_in is)
unfolding protocols_in
protocols_in-All is =
    sort-All IsServed (served_only (seen_in [] is)) (served_only-All (seen_in [] is))
