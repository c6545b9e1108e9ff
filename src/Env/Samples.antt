-- ===== src/Env/Samples.antt =====
-- Concrete values for what the program calls, for runs of the model.
use rockbase.Prelude.{ℕ, none, [], ◌==◌, ltb, leb}
use rockbase.Prelude.Int.{ℤ, pos, negsuc}
use rockbase.Env.{F64, Serde}

-- floats as their whole parts, which is enough for the runs below
abbrev pub whole : ℤ → ℕ
whole (pos n) = n
whole (negsuc n) = 0

abbrev pub f64_sample : F64
f64_sample = record {
  parse = λ s. none;
  of_int = whole;
  eq = λ a b. a == b;
  lt = λ a b. ltb a b;
  le = λ a b. leb a b;
  print = λ n. [];
}

abbrev pub serde_sample : Serde
serde_sample = record { to_string = λ v. []; from_str = λ s. none; from_str_list = λ s. none }
