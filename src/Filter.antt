-- ===== src/Filter.antt =====
-- src/filter.rs: the types of a parsed filter expression.
pub mod Scan
pub mod Parser
pub mod Checked
pub mod Sql
pub mod Eval
pub mod Like
pub mod Where
pub mod Print
pub mod Runs
pub mod Messages
mod Tests
use rockbase.Prelude.{ℕ, String, Bool, Text, bytes}
use rockbase.Prelude.Int.{ℤ}

pub data Mode : Type 0 where
  filter rule : Mode

pub data Op : Type 0 where
  eq ne gt ge lt le like not_like : Op

-- the spelling of an operator, in the expression and in SQL
unfoldable pub spelling : Op → Text
unfolding bytes
spelling eq = bytes "="
spelling ne = bytes "!="
spelling gt = bytes ">"
spelling ge = bytes ">="
spelling lt = bytes "<"
spelling le = bytes "<="
spelling like = bytes "~"
spelling not_like = bytes "!~"

-- `rusqlite::types::Value`; a `real` is the bits of a float
pub data SqlValue : Type 0 where
  null : SqlValue
  integer : ℤ → SqlValue
  real : ℕ → SqlValue
  text : Text → SqlValue
  blob : Text → SqlValue

pub data Operand : Type 0 where
  col : Text → Operand
  auth : Operand
  val : SqlValue → Operand
  null : Operand

pub data Node : Type 0 where
  or : Node → Node → Node
  and : Node → Node → Node
  cmp : Operand → Op → Operand → Node
