-- ===== src/Interaction.antt =====
-- src/record/tcp/protocol.ts: one recorded exchange with a dependency. The source's `protocol`
-- string is the constructor, and the two loose records are typed by it.
use cognivox_record.Prelude.{List, Option}
use cognivox_record.Prelude.Int.{ℤ}
use cognivox_record.Text.Utf8.{Text}
use cognivox_record.Bson.{Fields}
use cognivox_record.Resp.Commands.{RespCommand}
use cognivox_record.Resp.Stored.{Stored}

-- `PostgresColumn` of src/record/protocols/postgresMessages.ts.
pub record PostgresColumn : Type 0 where
  pub name : Text
  pub type_oid : ℤ

-- A row; a null column is `none`.
abbrev pub Row : Type 0
Row = List (Option Text)

-- { columns, rows, tag } or { error }.
pub data SqlResponse : Type 0 where
  result_set : List PostgresColumn → List Row → Text → SqlResponse
  failure : Text → SqlResponse

pub data DependencyInteraction : Type 0 where
  redis : RespCommand → Stored → ℤ → DependencyInteraction
  postgres : Text → Row → SqlResponse → ℤ → DependencyInteraction
  mongodb : Text → Fields → Fields → ℤ → DependencyInteraction
