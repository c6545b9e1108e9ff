-- ===== src/Prelude/Results.antt =====
-- `Result<A, E>`, with `?` as bind.
use mathlib.Core.Path.{◌≡◌, refl, subst}
use mathlib.Core.Logic.{◌⊎◌, inl, inr}
use mathlib.Core.Bool.{Bool, true, false}
use mathlib.Core.Option.{Option, none, some}
use rockbase.Prelude.Tests.{if◌then◌else◌}

pub data Result {ℓ} (E : Type ℓ) (A : Type ℓ) : Type ℓ where
  ok : A → Result E A
  err : E → Result E A

module _ {ℓ} {E A B : Type ℓ} where
  abbrev pub ◌>>=◌ : Result E A → (A → Result E B) → Result E B
  err failed >>= next = err failed
  ok got >>= next = next got

  -- a step whose value nobody reads
  abbrev pub ◌>>◌ : Result E A → Result E B → Result E B
  step >> after = step >>= λ _. after

  infixl 5 ◌>>=◌ ◌>>◌
  pub >>=-eq-ok :
      (step : Result E A) (next : A → Result E B) {out : B}
      → (step >>= next) ≡ ok out
      → (got : A) × (step ≡ ok got) × (next got ≡ ok out)
  >>=-eq-ok (err failed) next h = cc
  >>=-eq-ok (ok got) next h = (got, refl, h)

pub ok-injective {ℓ} : {E A : Type ℓ} {a b : A} → ◌≡◌ {A = Result E A} (ok a) (ok b) → a ≡ b
ok-injective h = cc

module _ {ℓ} {E A : Type ℓ} where
  -- `opt.ok_or(e)`, the `let … else` on an option
  abbrev pub ok_or : Option A → E → Result E A
  ok_or none e = err e
  ok_or (some a) e = ok a

pub Result-cases {ℓ} :
    {E A : Type ℓ} (r : Result E A) → ((a : A) × (r ≡ ok a)) ⊎ ((e : E) × (r ≡ err e))
Result-cases (ok a) = inl (a, refl)
Result-cases (err e) = inr (e, refl)

-- an early `return Err(e)` unless the test holds
abbrev pub ensure : {E : Type 0} → Bool → E → Result E (Unit {0})
ensure true e = ok tt
ensure false e = err e

-- A result keeps `P` of its value, or `Q` of its error.
pub data Ensures {ℓ κ} {E A : Type ℓ} (P : A → Type κ) (Q : E → Type κ)
    : Result E A → Type (ℓ ⊔ κ) where
  returns : {a : A} → P a → Ensures P Q (ok a)
  fails : {e : E} → Q e → Ensures P Q (err e)

module _ {ℓ κ} {E A : Type ℓ} {P : A → Type κ} {Q : E → Type κ} where
  pub Ensures-ok : {r : Result E A} {a : A} → Ensures P Q r → r ≡ ok a → P a
  Ensures-ok (returns h) e = subst P (cc) h
  Ensures-ok (fails h) e = cc

  pub Ensures-err : {r : Result E A} {e : E} → Ensures P Q r → r ≡ err e → Q e
  Ensures-err (returns h) e = cc
  Ensures-err (fails h) e = subst Q (cc) h

  pub Ensures-if :
      (b : Bool) {x y : Result E A}
      → (b ≡ true → Ensures P Q x)
      → (b ≡ false → Ensures P Q y)
      → Ensures P Q (if b then x else y)
  Ensures-if true hx hy = hx refl
  Ensures-if false hx hy = hy refl

  pub Ensures-weaken :
      {P' : A → Type κ} {r : Result E A} → Ensures P Q r → ((a : A) → P a → P' a) → Ensures P' Q r
  Ensures-weaken (returns {a} h) f = returns (f a h)
  Ensures-weaken (fails h) f = fails h

  pub Ensures-bind :
      {B : Type ℓ} {R : B → Type κ} {r : Result E A} {f : A → Result E B}
      → Ensures P Q r
      → ((a : A) → P a → Ensures R Q (f a))
      → Ensures R Q (r >>= f)
  Ensures-bind (returns {a} h) k = k a h
  Ensures-bind (fails h) k = fails h
