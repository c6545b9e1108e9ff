-- ===== src/Auth/Compare.antt =====
-- `ct_eq` of src/auth.rs, the comparison of the admin token that reads every byte.
use rockbase.Prelude.{
  ℕ, zero, suc, ◌+◌, ◌*◌, ◌/◌, ◌%◌, ◌^◌, ◌<◌, ◌≡◌, refl, Bool, true, false, ◌&&◌, [], ◌∷◌, Text,
  arith, ◌==◌, same, length, if◌then◌else◌, All,
}

-- `^` and `|` on numbers of `k` bits
unfoldable pub bit_xor : ℕ → ℕ → ℕ → ℕ
bit_xor zero a b = 0
bit_xor (suc k) a b = (a % 2 + b % 2) % 2 + 2 * bit_xor k (a / 2) (b / 2)

unfoldable pub bit_or : ℕ → ℕ → ℕ → ℕ
bit_or zero a b = 0
bit_or (suc k) a b = (if a % 2 + b % 2 == 0 then 0 else 1) + 2 * bit_or k (a / 2) (b / 2)

-- the fold over the zipped bytes
unfoldable pub difference : ℕ → Text → Text → ℕ
unfolding bit_xor bit_or
difference acc (x ∷ xs) (y ∷ ys) = difference (bit_or 8 acc (bit_xor 8 x y)) xs ys
difference acc _ _ = acc

unfoldable pub ct_eq : Text → Text → Bool
unfolding difference
ct_eq a b = if length a == length b then difference 0 a b == 0 else false

bit_xor-zero : (k a b : ℕ) → a < 2 ^ k → b < 2 ^ k → (bit_xor k a b == 0) ≡ (a == b)
unfolding bit_xor
bit_xor-zero zero a b ha hb = ground arith
bit_xor-zero (suc k) a b ha hb = ground (arith, bit_xor-zero k (a / 2) (b / 2))

bit_or-zero : (k a b : ℕ) → a < 2 ^ k → b < 2 ^ k → (bit_or k a b == 0) ≡ ((a == 0) && (b == 0))
unfolding bit_or
bit_or-zero zero a b ha hb = ground arith
bit_or-zero (suc k) a b ha hb = ground (arith, bit_or-zero k (a / 2) (b / 2))

bit_or-lt : (k a b : ℕ) → bit_or k a b < 2 ^ k
unfolding bit_or
bit_or-lt zero a b = omega arith
bit_or-lt (suc k) a b = ground (arith, bit_or-lt k (a / 2) (b / 2))

bit_xor-lt : (k a b : ℕ) → bit_xor k a b < 2 ^ k
unfolding bit_xor
bit_xor-lt zero a b = omega arith
bit_xor-lt (suc k) a b = omega (arith, bit_xor-lt k (a / 2) (b / 2))

-- bytes, as `u8` has them
abbrev pub IsBytes : Text → Type 0
IsBytes s = All (λ c. c < 256) s

difference-zero :
    (acc : ℕ) (a b : Text)
    → acc < 256
    → IsBytes a
    → IsBytes b
    → length a ≡ length b
    → (difference acc a b == 0) ≡ ((acc == 0) && same a b)
unfolding difference same
difference-zero acc [] [] h ha hb e = ground arith
difference-zero acc [] (y ∷ ys) h ha hb e = ground arith
difference-zero acc (x ∷ xs) [] h ha hb e = ground arith
difference-zero acc (x ∷ xs) (y ∷ ys) h (hx, ha) (hy, hb) e = ground (
  arith,
  difference-zero (bit_or 8 acc (bit_xor 8 x y)) xs ys (bit_or-lt 8 acc (bit_xor 8 x y)) ha hb,
  bit_or-zero 8 acc (bit_xor 8 x y) h (bit_xor-lt 8 x y),
  bit_xor-zero 8 x y hx hy,
)

same-length : (a b : Text) → same a b ≡ true → length a ≡ length b
unfolding same
same-length [] [] h = refl
same-length [] (y ∷ ys) h = ground arith
same-length (x ∷ xs) [] h = ground arith
same-length (x ∷ xs) (y ∷ ys) h = ground (arith, same-length xs ys)

-- The comparison of two texts that never stops early answers what their equality answers: it takes
-- the length for a first test, and the differences of the bytes pile up to nothing only if there is
-- none.
pub ct_eq-same : (a b : Text) → IsBytes a → IsBytes b → ct_eq a b ≡ same a b
unfolding ct_eq
ct_eq-same a b ha hb = ground (arith, difference-zero 0 a b (omega arith) ha hb, same-length a b)
