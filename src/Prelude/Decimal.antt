-- ===== src/Prelude/Decimal.antt =====
-- `to_string` of an unsigned number and of an `i64`.
use Prim.Native.Nat.{ℕ, zero, suc, ◌+◌, ◌/◌, ◌%◌}
use mathlib.Core.List.{[], ◌∷◌}
use rockbase.Prelude.Tests.{ltb, if◌then◌else◌}
use rockbase.Prelude.Bytes.{Text}
use rockbase.Prelude.Int.{ℤ, pos, negsuc}

digits_before : ℕ → ℕ → Text → Text
digits_before zero n acc = acc
digits_before (suc f) n acc =
    let acc' = (b'0' + n % 10) ∷ acc in
    let more = digits_before f (n / 10) acc' in if ltb n 10 then acc' else more

-- A number below ten to the k has k digits at most, so its successor is fuel enough.
unfoldable pub nat_text : ℕ → Text
unfolding digits_before
nat_text n = digits_before (suc n) n []

unfoldable pub int_text : ℤ → Text
unfolding nat_text
int_text (pos n) = nat_text n
int_text (negsuc n) = b'-' ∷ nat_text (n + 1)
