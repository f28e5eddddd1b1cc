-- ===== src/Divergence/History.antt =====
-- The warnings of a run, as a function of the statements observed.
use cognivox_record.Prelude.{
  ◌≡◌, refl, sym, subst, ◌∙◌, ap, Bool, true, false, not, ◌&&◌, ◌||◌, List, [], ◌∷◌, ◌++◌,
  append-nil, append_assoc, Option, none, some, if◌then◌else◌, Bool-cases, inl, inr,
}
use cognivox_record.Text.Utf8.{Text}
use cognivox_record.Text.Words.{equal, equal→eq}
use cognivox_record.Dict.{contains, contains-add}
use cognivox_record.Divergence.Classes.{
  writes, reads, is_write-writes, is_read-reads, writes-not_reads,
}
use cognivox_record.Divergence.{
  DivergenceWarning, DivergenceTracker, new_tracker, non_deterministic_patterns, is_write, table_of,
  reason_of, unrecorded_write, read_after_write, stale_warning, note_write, evaluate, warning_key,
  report, observe, all,
}

-- A statement, and whether it was recorded.
abbrev pub Observed : Type 0
Observed = Text × Bool

abbrev pub names : Option Text → Text → Bool
names none x = false
names (some table) x = equal table x

-- Whether a table was written; the past is listed newest first.
abbrev pub wrote : Text → List Observed → Bool
wrote x [] = false
wrote x ((sql, r) ∷ past) = wrote x past || (writes sql && names (table_of sql) x)

-- The first of two warnings that is there.
abbrev pub or_else : Option DivergenceWarning → Option DivergenceWarning → Option DivergenceWarning
or_else none o = o
or_else (some w) o = some w

abbrev pub when : Bool → DivergenceWarning → Option DivergenceWarning
when b w = if b then some w else none

abbrev pub stale : List Observed → Option Text → Text → Option DivergenceWarning
stale past none sql = none
stale past (some table) sql = when (reads sql && wrote table past) (read_after_write table sql)

-- The warning that a statement deserves behind a past, by the first that applies: it is a write that was
-- not recorded, a read of a table that was written before, or has a reason in its text.
abbrev pub deserved : List Observed → Observed → Option DivergenceWarning
deserved past (sql, recorded) =
    or_else (when (writes sql && not recorded) (unrecorded_write sql))
      (or_else (stale past (table_of sql) sql) (reason_of non_deterministic_patterns sql))

abbrev pub has_key : Text → Option DivergenceWarning → Bool
has_key k none = false
has_key k (some w) = equal (warning_key w) k

abbrev pub warned : Text → List Observed → Bool
warned k [] = false
warned k (c ∷ past) = warned k past || has_key k (deserved past c)

abbrev pub unless_warned : List Observed → Option DivergenceWarning → Option DivergenceWarning
unless_warned past none = none
unless_warned past (some w) = if warned (warning_key w) past then none else some w

abbrev pub expected : List Observed → List Observed → List (Option DivergenceWarning)
expected past [] = []
expected past (c ∷ cs) = unless_warned past (deserved past c) ∷ expected (c ∷ past) cs

abbrev pub given : Option DivergenceWarning → List DivergenceWarning
given none = []
given (some w) = w ∷ []

abbrev pub all_given : List (Option DivergenceWarning) → List DivergenceWarning
all_given [] = []
all_given (o ∷ os) = given o ++ all_given os

-- A run: what each call returns, and the tracker behind it.
abbrev pub observe_all :
    DivergenceTracker → List Observed → List (Option DivergenceWarning) × DivergenceTracker
observe_all t [] = ([], t)
observe_all t ((sql, recorded) ∷ cs) =
    let (w, u) = observe t sql recorded in let (ws, v) = observe_all u cs in (w ∷ ws, v)

-- The tracker knows what the past says.
abbrev Holds : DivergenceTracker → List Observed → Type 0
Holds t past =
    ((x : Text) → contains x t.written_tables ≡ wrote x past)
    × ((k : Text) → contains k t.seen ≡ warned k past)

or_false : (b : Bool) → b ≡ (b || false)
or_false true = refl
or_false false = refl

contains-note_write :
    (b : Bool) (o : Option Text) (written : List Text) (x : Text)
    → contains x (note_write b o written) ≡ (contains x written || (b && names o x))
unfolding note_write
contains-note_write false o written x = or_false (contains x written)
contains-note_write true none written x = or_false (contains x written)
contains-note_write true (some table) written x = contains-add x table written

stale-none :
    (past : List Observed) (o : Option Text) (sql : Text)
    → reads sql ≡ false
    → stale past o sql ≡ none
stale-none past none sql h = refl
stale-none past (some table) sql h = rw h refl

or_else-when :
    (b : Bool) (w : DivergenceWarning) (o : Option DivergenceWarning)
    → (if b then some w else o) ≡ or_else (when b w) o
or_else-when true w o = refl
or_else-when false w o = refl

stale_warning-stale :
    (written : List Text) (past : List Observed) (o : Option Text) (sql : Text)
    → ((x : Text) → contains x written ≡ wrote x past)
    → stale_warning written o sql
      ≡ or_else (stale past o sql) (reason_of non_deterministic_patterns sql)
unfolding stale_warning
stale_warning-stale written past none sql h = refl
stale_warning-stale written past (some table) sql h =
    let reason = reason_of non_deterministic_patterns sql in
    ap (λ b. if b && contains table written then some (read_after_write table sql) else reason)
      (is_read-reads sql)
    ∙ ap (λ b. if reads sql && b then some (read_after_write table sql) else reason) (h table)
    ∙ or_else-when (reads sql && wrote table past) (read_after_write table sql) reason

evaluate-deserved :
    (written : List Text) (past : List Observed) (sql : Text) (recorded : Bool)
    → ((x : Text) → contains x written ≡ wrote x past)
    → (evaluate written sql recorded).0 ≡ deserved past (sql, recorded)
unfolding evaluate
evaluate-deserved written past sql recorded h = elim (Bool-cases (is_write sql)) [
  | inl e ↦
      let known : writes sql ≡ true = sym (is_write-writes sql) ∙ e in
      let quiet = stale-none past (table_of sql) sql (writes-not_reads sql known) in
      elim (Bool-cases recorded) [
        | inl r ↦ rw (e, known, r, quiet) refl
        | inr r ↦ rw (e, known, r) refl
      ]
  | inr e ↦
      let known : writes sql ≡ false = sym (is_write-writes sql) ∙ e in
      rw (e, known) (stale_warning-stale written past (table_of sql) sql h)
]

-- A key that was there already adds nothing.
warned_again :
    (past : List Observed) (key k : Text)
    → warned key past ≡ true
    → warned k past ≡ (warned k past || equal key k)
warned_again past key k e = elim (Bool-cases (equal key k)) [
  | inl same ↦
      let f : warned k past ≡ true = subst (λ j. warned j past ≡ true) (equal→eq key k same) e in
      rw f refl
  | inr other ↦ rw other (or_false (warned k past))
]

evaluate-wrote :
    (written : List Text) (past : List Observed) (sql : Text) (recorded : Bool) (x : Text)
    → ((x : Text) → contains x written ≡ wrote x past)
    → contains x (evaluate written sql recorded).1 ≡ wrote x ((sql, recorded) ∷ past)
unfolding evaluate
evaluate-wrote written past sql recorded x h =
    contains-note_write (is_write sql) (table_of sql) written x
    ∙ ap (λ b. b || (is_write sql && names (table_of sql) x)) (h x)
    ∙ ap (λ b. wrote x past || (b && names (table_of sql) x)) (is_write-writes sql)

report-unless_warned :
    (t : DivergenceTracker) (past : List Observed) (o : Option DivergenceWarning)
    → ((k : Text) → contains k t.seen ≡ warned k past)
    → ((report t o).0 ≡ unless_warned past o)
      × ((report t o).1.warnings ≡ t.warnings ++ given (unless_warned past o))
      × ((report t o).1.written_tables ≡ t.written_tables)
      × ((k : Text) → contains k (report t o).1.seen ≡ (warned k past || has_key k o))
unfolding report
report-unless_warned t past none h =
    (refl, sym (append-nil t.warnings), refl, λ k. h k ∙ or_false (warned k past))
report-unless_warned t past (some w) h =
    let key = warning_key w in
    elim (Bool-cases (contains key t.seen)) [
      | inl old ↦
          let e : warned key past ≡ true = sym (h key) ∙ old in
          rw (old, e)
            (refl, sym (append-nil t.warnings), refl, λ k. h k ∙ warned_again past key k e)
      | inr new ↦
          let e : warned key past ≡ false = sym (h key) ∙ new in
          rw (new, e)
            (refl, refl, refl, λ k. contains-add k key t.seen ∙ ap (λ b. b || equal key k) (h k))
    ]

-- One call: what it returns and reports, and what the tracker knows behind it.
observe-unless_warned :
    (t : DivergenceTracker) (past : List Observed) (sql : Text) (recorded : Bool)
    → Holds t past
    → ((observe t sql recorded).0 ≡ unless_warned past (deserved past (sql, recorded)))
      × ((observe t sql recorded).1.warnings
          ≡ t.warnings ++ given (unless_warned past (deserved past (sql, recorded))))
      × Holds (observe t sql recorded).1 ((sql, recorded) ∷ past)
unfolding observe
observe-unless_warned t past sql recorded h =
    let tables = (evaluate t.written_tables sql recorded).1 in
    let o = (evaluate t.written_tables sql recorded).0 in
    let e : o ≡ deserved past (sql, recorded) =
      evaluate-deserved t.written_tables past sql recorded h.0 in
    let (returned, warnings, written, seen) =
      report-unless_warned (record t { written_tables = tables }) past o h.1 in
    (
      returned ∙ ap (unless_warned past) e,
      warnings ∙ ap (λ w. t.warnings ++ given (unless_warned past w)) e,
      (
        λ x. ap (contains x) written ∙ evaluate-wrote t.written_tables past sql recorded x h.0,
        λ k. seen k ∙ ap (λ w. warned k past || has_key k w) e,
      ),
    )

observe_all-expected :
    (t : DivergenceTracker) (past cs : List Observed)
    → Holds t past
    → ((observe_all t cs).0 ≡ expected past cs)
      × (all (observe_all t cs).1 ≡ all t ++ all_given (expected past cs))
observe_all-expected t past [] h = (refl, sym (append-nil t.warnings))
observe_all-expected t past ((sql, recorded) ∷ cs) h =
    let (returned, warnings, knows) = observe-unless_warned t past sql recorded h in
    let u = (observe t sql recorded).1 in
    let w = unless_warned past (deserved past (sql, recorded)) in
    let (others, reported) = observe_all-expected u ((sql, recorded) ∷ past) cs knows in
    let rest = expected ((sql, recorded) ∷ past) cs in
    (
      ap (λ o. o ∷ (observe_all u cs).0) returned ∙ ap (◌∷◌ w) others,
      reported
          ∙ ap (λ l. l ++ all_given rest) warnings
          ∙ append_assoc t.warnings (given w) (all_given rest),
    )

-- Whatever statements a run observes, each call returns the warning that the statement deserves by the
-- statements before it, unless one of the same kind and compacted text was given before; and `all`
-- lists the warnings that were returned, in order. A statement is a write if its first word is INSERT,
-- UPDATE, DELETE, TRUNCATE or MERGE in any case, and a read if it is SELECT or WITH. A write that was
-- not recorded deserves a warning; so does a read of a table that an earlier write of the run names,
-- recorded or not; and so does a text that is not deterministic.
pub warnings_refine :
    (cs : List Observed)
    → ((observe_all new_tracker cs).0 ≡ expected [] cs)
      × (all (observe_all new_tracker cs).1 ≡ all_given (expected [] cs))
warnings_refine cs =
    observe_all-expected new_tracker [] cs (unfold contains in (λ x. refl, λ k. refl))
