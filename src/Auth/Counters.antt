-- ===== src/Auth/Counters.antt =====
-- The failure counters of src/auth.rs stay small, so the `u32` never wraps.
use rockbase.Prelude.{
  ℕ, ◌≤◌, ◌<◌, ◌≡◌, refl, inl, inr, false, Option, none, some, List, [], ◌∷◌, Text, arith,
  Bool-cases, Result-cases, All,
}
use rockbase.Prelude.Int.{ℤ}
use rockbase.Db.{Db, Row, Host}
use rockbase.Auth.Tokens.{Jwt, Secrets}
use rockbase.Auth.Login.{
  Fails, is_key, find_fails, remove_fails, count_of, record_fail, is_locked, is_served, expire,
  credentials, check_accounts, attempt, login, settle,
}

abbrev pub IsSmall : List Fails → Type 0
IsSmall fs = All (λ (f : Fails). f.count ≤ 5) fs

remove_fails-IsSmall : (c i : Text) (fs : List Fails) → IsSmall fs → IsSmall (remove_fails c i fs)
unfolding remove_fails
remove_fails-IsSmall c i [] h = tt
remove_fails-IsSmall c i (f ∷ fs) (h, hs) = elim (Bool-cases (is_key c i f)) [
  | inl e ↦ rw (e, remove_fails) (remove_fails-IsSmall c i fs hs)
  | inr e ↦ rw (e, remove_fails) (h, remove_fails-IsSmall c i fs hs)
]

record_fail-IsSmall :
    (c i : Text) (now : ℕ) (fs : List Fails)
    → count_of (find_fails c i fs) < 5
    → IsSmall fs
    → IsSmall (record_fail c i now fs)
unfolding record_fail
record_fail-IsSmall c i now fs few h = (omega (arith, few), remove_fails-IsSmall c i fs h)

find_fails-remove_self :
    (c i : Text) (fs : List Fails) → find_fails c i (remove_fails c i fs) ≡ none
unfolding find_fails remove_fails
find_fails-remove_self c i [] = refl
find_fails-remove_self c i (f ∷ fs) = ground (arith, find_fails-remove_self c i fs)

few_waiting :
    (now : ℕ) (o : Option Fails)
    → is_locked now o ≡ false
    → is_served now o ≡ false
    → count_of o < 5
unfolding is_locked is_served
few_waiting now none h k = omega arith
few_waiting now (some f) h k = ground (arith, h, k)

-- what is left to count after the throttle let a login through
expire-few :
    (c i : Text) (now : ℕ) (fs : List Fails)
    → is_locked now (find_fails c i fs) ≡ false
    → count_of (find_fails c i (expire c i now fs)) < 5
unfolding expire
expire-few c i now fs h = elim (Bool-cases (is_served now (find_fails c i fs))) [
  | inl served ↦ rw (served, expire) (rw (find_fails-remove_self c i fs) (omega arith))
  | inr waits ↦ rw (waits, expire) (few_waiting now (find_fails c i fs) h waits)
]

expire-IsSmall : (c i : Text) (now : ℕ) (fs : List Fails) → IsSmall fs → IsSmall (expire c i now fs)
unfolding expire
expire-IsSmall c i now fs h = elim (Bool-cases (is_served now (find_fails c i fs))) [
  | inl e ↦ rw (e, expire) (remove_fails-IsSmall c i fs h)
  | inr e ↦ rw (e, expire) h
]

settle-IsSmall :
    (host : Host) (jwt : Jwt) (s : Secrets) (now : ℕ) (c i : Text) (fs : List Fails)
    (found : Option (Row × ℤ))
    → count_of (find_fails c i fs) < 5
    → IsSmall fs
    → IsSmall (settle host jwt s now c i fs found).1
settle-IsSmall host jwt s now c i fs none few h = record_fail-IsSmall c i now fs few h
settle-IsSmall host jwt s now c i fs (some (r, n)) few h = remove_fails-IsSmall c i fs h

-- No login, whatever comes of it, counts an identity beyond five failures: the counter starts again
-- once a lock is over, so its 32 bits are never used up.
pub login-IsSmall :
    (host : Host) (jwt : Jwt) (s : Secrets) (now : ℕ) (db : Db) (c i password : Text)
    (fs : List Fails)
    → IsSmall fs
    → IsSmall (login host jwt s now db c i password fs).1
unfolding login attempt
login-IsSmall host jwt s now db c i password fs h =
    elim (Bool-cases (is_locked now (find_fails c i fs))) [
      | inl e ↦ rw (e, login) h
      | inr e ↦ elim (Result-cases (check_accounts host db c)) [
        | inl (_, f) ↦
            rw (e, login, f, attempt)
              (settle-IsSmall host jwt s now c i (expire c i now fs)
                (credentials host db c i password) (expire-few c i now fs e)
                (expire-IsSmall c i now fs h))
        | inr (x, f) ↦ rw (e, login, f, attempt) (expire-IsSmall c i now fs h)
      ]
    ]
