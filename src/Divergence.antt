-- ===== src/Divergence.antt =====
-- src/replay/divergence.ts: the warnings about statements whose recorded answers may not fit.
pub mod Classes
pub mod History
use cognivox_record.Prelude.{
  ℕ, zero, suc, ◌+◌, ◌*◌, ◌-◌, ◌/◌, Bool, true, false, not, ◌&&◌, List, [], ◌∷◌, ◌++◌, Option, none,
  some, leb, ltb, if◌then◌else◌,
}
use cognivox_record.Text.Utf8.{Text, codes}
use cognivox_record.Text.Words.{squeeze, trim}
use cognivox_record.Text.Patterns.{
  Pattern, literal, any_spaces, some_spaces, boundary, maybe, either, both, test, one_of,
  test_start, capture_name,
}
use cognivox_record.Dict.{contains, add}

abbrev pub DivergenceKind : Type 0
DivergenceKind = Text

abbrev pub stale_read : DivergenceKind
stale_read = codes "stale-read"

abbrev pub non_deterministic : DivergenceKind
non_deterministic = codes "non-deterministic"

pub record DivergenceWarning : Type 0 where
  pub kind : DivergenceKind
  pub statement : Text
  pub detail : Text

abbrev pub word : Text → Pattern
word t = both (literal t) boundary

abbrev pub call : Text → Text → Pattern
call name behind = both boundary (both (literal name) (both any_spaces (literal behind)))

-- `NON_DETERMINISTIC`, each pattern with its reason.
abbrev pub non_deterministic_patterns : List (Pattern × Text)
non_deterministic_patterns =
    (
      either (call (codes "NOW") (codes "()")) (
          either (both boundary (word (codes "CURRENT_TIMESTAMP")))
            (both boundary (word (codes "CURRENT_DATE")))),
      codes "reads the clock",
    )
    ∷ (
      either (call (codes "RANDOM") (codes "()")) (call (codes "GEN_RANDOM_UUID") (codes "()")),
      codes "is random",
    )
    ∷ (
      either (call (codes "NEXTVAL") (codes "("))
          (both boundary (both (literal (codes "RETURNING")) some_spaces)),
      codes "allocates an identifier",
    )
    ∷ []

-- `WRITE_STATEMENT` and `READ_STATEMENT`.
unfoldable pub is_write : Text → Bool
is_write sql =
    test_start
      (both any_spaces (
        both
          (one_of (codes "INSERT")
            (codes "UPDATE" ∷ codes "DELETE" ∷ codes "TRUNCATE" ∷ codes "MERGE" ∷ []))
          boundary))
      sql

unfoldable pub is_read : Text → Bool
is_read sql =
    test_start (both any_spaces (both (one_of (codes "SELECT") (codes "WITH" ∷ [])) boundary)) sql

-- The words in front of a table's name.
abbrev pub table_pattern : Pattern
table_pattern = both boundary (
    both
      (either (both (literal (codes "INSERT")) (both some_spaces (literal (codes "INTO")))) (
        either (literal (codes "UPDATE")) (
          either (both (literal (codes "DELETE")) (both some_spaces (literal (codes "FROM")))) (
            either
              (both (literal (codes "TRUNCATE"))
                (maybe (both some_spaces (literal (codes "TABLE")))))
              (either (literal (codes "FROM")) (literal (codes "JOIN")))))))
      (both some_spaces (maybe (either (literal (codes "\"")) (literal (codes "`"))))))

-- `toLowerCase` of a name, which is ASCII.
abbrev pub lower_name : Text → Text
lower_name [] = []
lower_name (c ∷ t) = (if leb b'A' c && leb c b'Z' then c + 32 else c) ∷ lower_name t

abbrev pub lower_option : Option Text → Option Text
lower_option none = none
lower_option (some t) = some (lower_name t)

unfoldable pub table_of : Text → Option Text
table_of sql = lower_option (capture_name table_pattern sql)

-- `length` and `slice(0, n)` count UTF-16 code units; a pair that is cut leaves its first half.
units : Text → ℕ
units [] = 0
units (c ∷ t) = (if leb 0x10000 c then 2 else 1) + units t

slice_units : ℕ → Text → Text
slice_units n [] = []
slice_units zero (c ∷ t) = []
slice_units (suc zero) (c ∷ t) = (if leb 0x10000 c then 0xd800 + (c - 0x10000) / 0x400 else c) ∷ []
slice_units (suc (suc n)) (c ∷ t) =
    let narrow = slice_units (suc n) t in
    let wide = slice_units n t in if leb 0x10000 c then c ∷ wide else c ∷ narrow

unfoldable pub compact : Text → Text
unfolding units slice_units
compact sql =
    let single = trim (squeeze sql) in
    if ltb 90 (units single) then slice_units 87 single ++ codes "..." else single

pub record DivergenceTracker : Type 0 where
  pub written_tables : List Text
  pub warnings : List DivergenceWarning
  pub seen : List Text

abbrev pub new_tracker : DivergenceTracker
new_tracker = record { written_tables = []; warnings = []; seen = [] }

-- The first reason for which a statement is not deterministic.
unfoldable pub reason_of : List (Pattern × Text) → Text → Option DivergenceWarning
reason_of [] sql = none
reason_of ((pattern, reason) ∷ ps) sql =
    let rest = reason_of ps sql in
    if test pattern sql
    then some (record {
      kind = non_deterministic;
      statement = compact sql;
      detail = reason ++ codes ", so it replays the value recorded rather than a fresh one";
    })
    else rest

unfoldable pub unrecorded_write : Text → DivergenceWarning
unrecorded_write sql = record {
  kind = stale_read;
  statement = compact sql;
  detail = codes "this write was not in the recording, so it changes nothing";
}

unfoldable pub read_after_write : Text → Text → DivergenceWarning
read_after_write table sql = record {
  kind = stale_read;
  statement = compact sql;
  detail =
      codes "reads \""
      ++ (table
          ++ codes "\" after this run wrote to it — the recorded rows are from before that write");
}

-- A read of a table that this run has written, where the table is known.
stale_warning : List Text → Option Text → Text → Option DivergenceWarning
stale_warning written none sql = reason_of non_deterministic_patterns sql
stale_warning written (some table) sql =
    if is_read sql && contains table written
    then some (read_after_write table sql)
    else reason_of non_deterministic_patterns sql

note_write : Bool → Option Text → List Text → List Text
note_write false table written = written
note_write true none written = written
note_write true (some table) written = add table written

-- The warning of a statement, and the tables written behind it.
unfoldable pub evaluate : List Text → Text → Bool → Option DivergenceWarning × List Text
unfolding reason_of unrecorded_write read_after_write stale_warning note_write
evaluate written sql was_recorded =
    let table = table_of sql in
    let tables = note_write (is_write sql) table written in
    (
      if is_write sql && not was_recorded
          then some (unrecorded_write sql)
          else if is_write sql
          then reason_of non_deterministic_patterns sql
          else stale_warning tables table sql,
      tables,
    )

-- `${kind}:${statement}`
abbrev pub warning_key : DivergenceWarning → Text
warning_key w = w.kind ++ (b':' ∷ w.statement)

report : DivergenceTracker → Option DivergenceWarning → Option DivergenceWarning × DivergenceTracker
report t none = (none, t)
report t (some w) =
    if contains (warning_key w) t.seen
    then (none, t)
    else (some w, record t { seen = add (warning_key w) t.seen; warnings = t.warnings ++ (w ∷ []) })

unfoldable pub observe :
    DivergenceTracker → Text → Bool → Option DivergenceWarning × DivergenceTracker
unfolding evaluate report
observe t sql was_recorded =
    let (warning, tables) = evaluate t.written_tables sql was_recorded in
    report (record t { written_tables = tables }) warning

-- `all()`
abbrev pub all : DivergenceTracker → List DivergenceWarning
all t = t.warnings
