-- ===== src/Filter/Scan/Lengths.antt =====
-- How much of the input the scanning loops of src/filter.rs leave.
use rockbase.Prelude.{
  ℕ, ◌+◌, ◌≤◌, ◌<◌, ◌≡◌, Bool, true, some, [], ◌∷◌, Text, arith, starts_with, length, Bool-cases,
  inl, inr,
}
use rockbase.Ident.{ident_ok}
use rockbase.Filter.Scan.{Cursor, take_while, drop_while, skip, ws, drop, eat}

take_while-drop_while :
    (p : ℕ → Bool) (s : Text) → length (take_while p s) + length (drop_while p s) ≡ length s
unfolding take_while drop_while
take_while-drop_while p [] = omega arith
take_while-drop_while p (c ∷ s) = ground (arith, take_while-drop_while p s)

pub length-skip : (p : ℕ → Bool) (c : Cursor) → length (skip p c).rest ≤ length c.rest
unfolding skip
length-skip p c = omega (arith, take_while-drop_while p c.rest)

pub length-ws : (c : Cursor) → length (ws c).rest ≤ length c.rest
unfolding ws
length-ws c = length-skip _ c

ident_ok-nonempty : (s : Text) → ident_ok s ≡ true → 0 < length s
unfolding ident_ok
ident_ok-nonempty [] h = cc
ident_ok-nonempty (c ∷ s) h = omega arith

-- A name that is read takes at least a byte.
pub length-skip_name :
    (p : ℕ → Bool) (c : Cursor)
    → ident_ok (take_while p c.rest) ≡ true
    → length (skip p c).rest < length c.rest
unfolding skip
length-skip_name p c h =
    omega (arith, take_while-drop_while p c.rest, ident_ok-nonempty (take_while p c.rest) h)

length-drop_token :
    (s t : Text) → starts_with s t ≡ true → length (drop (length t) s) + length t ≡ length s
unfolding starts_with drop
length-drop_token s [] h = omega arith
length-drop_token [] (y ∷ t) h = cc
length-drop_token (x ∷ s) (y ∷ t) h = ground (arith, length-drop_token s t)

pub length-eat :
    (tok : Text) (c c₁ : Cursor) → eat tok c ≡ some c₁ → length c₁.rest + length tok ≡ length c.rest
unfolding eat
length-eat tok c c₁ h = elim (Bool-cases (starts_with c.rest tok)) [
  | inl e ↦ ground (arith, length-drop_token c.rest tok e)
  | inr e ↦ ground arith
]
