-- ===== src/Env.antt =====
-- What the program calls and does not implement: the machine's floats, and the crates serde_json,
-- bcrypt and rusqlite with SQLite behind it. What is relied on is a hypothesis of the theorems.
pub mod Samples
use rockbase.Prelude.{ℕ, Bool, Option, List, Text, Result}
use rockbase.Prelude.Int.{ℤ}
use rockbase.Json.{Json, Fields}

-- `f64`, a value by its bits
pub record F64 : Type 0 where
  -- `str::parse::<f64>`
  pub parse : Text → Option ℕ
  -- `n as f64`
  pub of_int : ℤ → ℕ
  pub eq : ℕ → ℕ → Bool
  pub lt : ℕ → ℕ → Bool
  pub le : ℕ → ℕ → Bool
  -- `f.to_string()`
  pub print : ℕ → Text

-- serde_json: `to_string`, and `from_str` at the two types that the program reads, `none` an error
pub record Serde : Type 0 where
  pub to_string : Json → Text
  pub from_str : Text → Option Fields
  pub from_str_list : Text → Option (List Json)

-- the hash of a password or the text of an error; a failed verification is `none`
pub record Bcrypt : Type 0 where
  pub hash : Text → Result Text Text
  pub verify : Text → Text → Option Bool
