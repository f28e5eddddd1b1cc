-- ===== src/Tests/DivergenceExamples.antt =====
-- The theorem on the divergence tracker at a concrete run, and tests of the patterns.
use cognivox_record.Prelude.{◌≡◌, refl, true, false, List, [], ◌∷◌, some, none}
use cognivox_record.Text.Utf8.{codes}
use cognivox_record.Divergence.{
  new_tracker, table_of, is_write, non_deterministic_patterns, reason_of, compact, all,
}
use cognivox_record.Divergence.History.{Observed, observe_all, expected, all_given, warnings_refine}

table_of-insert : table_of (codes "insert  into \"Users\" values (1)") ≡ some (codes "users")
unfolding table_of cognivox_record.Text.Patterns.capture_name cognivox_record.Text.Patterns.match
table_of-insert = refl

table_of-join :
    table_of (codes "select 1 from (select 2) join app.t_1 on x") ≡ some (codes "app.t_1")
unfolding table_of cognivox_record.Text.Patterns.capture_name cognivox_record.Text.Patterns.match
table_of-join = refl

table_of-none : table_of (codes "SELECT fromage, updated FROM 1") ≡ none
unfolding table_of cognivox_record.Text.Patterns.capture_name cognivox_record.Text.Patterns.match
table_of-none = refl

is_write-boundary : is_write (codes "  INSERTED INTO t") ≡ false
unfolding is_write cognivox_record.Text.Patterns.test_start cognivox_record.Text.Patterns.match
is_write-boundary = refl

reason_of-now : reason_of non_deterministic_patterns (codes "SELECT KNOW()") ≡ none
unfolding reason_of cognivox_record.Text.Patterns.test cognivox_record.Text.Patterns.match
reason_of-now = refl

compact-spaces : compact (codes " SELECT  1\n") ≡ codes "SELECT 1"
unfolding compact cognivox_record.Text.Words.trim cognivox_record.Text.Words.squeeze
compact-spaces = refl

abbrev statements : List Observed
statements =
    (codes "INSERT INTO users VALUES (1)", true)
    ∷ (codes "SELECT * FROM users", true)
    ∷ (codes "SELECT  * FROM users", true)
    ∷ (codes "UPDATE orders SET n = 2", false)
    ∷ (codes "SELECT now()", true)
    ∷ []

warnings_refine_example :
    ((observe_all new_tracker statements).0 ≡ expected [] statements)
    × (all (observe_all new_tracker statements).1 ≡ all_given (expected [] statements))
warnings_refine_example = warnings_refine statements
