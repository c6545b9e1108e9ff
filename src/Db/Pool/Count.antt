-- ===== src/Db/Pool/Count.antt =====
-- How often a connection stands in a list.
use rockbase.Prelude.{
  ℕ, zero, suc, ◌+◌, ◌≤◌, ◌<◌, ◌≡◌, refl, List, [], ◌∷◌, ◌++◌, arith, length, ◌==◌, if◌then◌else◌,
}
use rockbase.Db.Pool.{opened}

unfoldable pub count : ℕ → List ℕ → ℕ
count c [] = 0
count c (x ∷ xs) = (if x == c then 1 else 0) + count c xs

pub count-append : (c : ℕ) (xs ys : List ℕ) → count c (xs ++ ys) ≡ count c xs + count c ys
unfolding count
count-append c [] ys = omega arith
count-append c (x ∷ xs) ys = ground (arith, count-append c xs ys)

pub count-opened_high : (c n : ℕ) → n < c → count c (opened n) ≡ 0
unfolding count opened
count-opened_high c zero h = refl
count-opened_high c (suc n) h = ground (arith, count-opened_high c n)

-- each of the connections is opened once, and the keepalive is none of them
pub count-opened : (c n : ℕ) → count c (opened n) ≤ 1
unfolding count opened
count-opened c zero = omega arith
count-opened c (suc n) = ground (arith, count-opened c n, count-opened_high c n)

pub count-opened_zero : (n : ℕ) → count 0 (opened n) ≡ 0
unfolding count opened
count-opened_zero zero = refl
count-opened_zero (suc n) = ground (arith, count-opened_zero n)

pub length-opened : (n : ℕ) → length (opened n) ≡ n
unfolding opened
length-opened zero = refl
length-opened (suc n) = omega (arith, length-opened n)
