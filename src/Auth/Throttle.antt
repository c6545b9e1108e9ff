-- ===== src/Auth/Throttle.antt =====
-- The throttle on failed logins of src/auth.rs.
use rockbase.Prelude.{
  ℕ, ◌+◌, ◌-◌, ◌%◌, ◌^◌, ◌≤◌, ◌<◌, ◌≡◌, refl, ap, ◌∙◌, inl, inr, true, false, ◌&&◌, Option, none,
  some, List, [], ◌∷◌, Text, same, same_iff, same_refl, arith, ltb, length, if◌then◌else◌, ok, err,
  Option-cases, Bool-cases, Result-cases, All,
}
use rockbase.Prelude.Int.{ℤ}
use rockbase.Json.{Json}
use rockbase.Http.{Reply}
use rockbase.Db.{Db, Row, Host}
use rockbase.Auth.Tokens.{Jwt, Secrets}
use rockbase.Auth.Login.{
  cooldown, Fails, is_key, find_fails, remove_fails, count_of, record_fail, is_locked, is_served,
  expire, credentials, check_accounts, locked, invalid, attempt, login, settle,
}

find_fails-remove_fails :
    (c i c' i' : Text) (fs : List Fails)
    → find_fails c' i' (remove_fails c i fs)
      ≡ (if same c c' && same i i' then none else find_fails c' i' fs)
unfolding find_fails remove_fails is_key
find_fails-remove_fails c i c' i' [] = ground arith
find_fails-remove_fails c i c' i' (f ∷ fs) = ground (
  arith,
  find_fails-remove_fails c i c' i' fs,
  same_iff f.col c,
  same_iff f.identity i,
  same_iff f.col c',
  same_iff f.identity i',
  same_iff c c',
  same_iff i i',
)

-- the entry of a failure
abbrev pub failed : Text → Text → ℕ → ℕ → Fails
failed c i n now = record { col = c; identity = i; count = n; at = now }

find_fails-record_fail :
    (c i : Text) (now : ℕ) (fs : List Fails)
    → count_of (find_fails c i fs) < 5
    → find_fails c i (record_fail c i now fs)
      ≡ some (failed c i (count_of (find_fails c i fs) + 1) now)
unfolding find_fails record_fail is_key
find_fails-record_fail c i now fs h =
    let small : (count_of (find_fails c i fs) + 1) % 2 ^ 32 ≡ count_of (find_fails c i fs) + 1 =
      omega (arith, h) in
    rw (same_refl c, same_refl i, small) refl

find_fails-record_fail_ne :
    (c i : Text) (now : ℕ) (fs : List Fails) (c' i' : Text)
    → (same c c' && same i i') ≡ false
    → find_fails c' i' (record_fail c i now fs) ≡ find_fails c' i' fs
unfolding find_fails record_fail is_key
find_fails-record_fail_ne c i now fs c' i' h =
    rw h (find_fails-remove_fails c i c' i' fs ∙ rw h refl)

module _ (host : Host) (jwt : Jwt) (s : Secrets) (name identity : Text) where
  -- a login at a time, on a database, with a password
  abbrev pub Try : Type 0
  Try = ℕ × Db × Text

  abbrev pub login_of : Try → List Fails → Reply Json × List Fails
  login_of t fs = login host jwt s t.0 t.1 name identity t.2 fs

  -- A wrong password, or an address that is no account's, in a collection of accounts.
  abbrev pub IsWrong : Try → Type 0
  IsWrong t =
      (check_accounts host t.1 name ≡ ok tt) × (credentials host t.1 name identity t.2 ≡ none)

  abbrev pub after : List Try → List Fails → List Fails
  after [] fs = fs
  after (t ∷ ts) fs = after ts (login_of t fs).1

  open_login :
      (t : Try) (fs : List Fails)
      → count_of (find_fails name identity fs) < 5
      → login_of t fs ≡ attempt host jwt s t.0 t.1 name identity t.2 fs
  unfolding login expire is_locked is_served
  open_login t fs h = elim (Option-cases (find_fails name identity fs)) [
    | inl e ↦ rw (e, is_locked, is_served) refl
    | inr (f, e) ↦
        let few : ltb f.count 5 ≡ true = ground (arith, h, e) in
        rw (e, few, is_locked, is_served) refl
  ]

  wrong_login :
      (t : Try) (fs : List Fails)
      → count_of (find_fails name identity fs) < 5
      → IsWrong t
      → login_of t fs ≡ (err invalid, record_fail name identity t.0 fs)
  unfolding attempt
  wrong_login t fs h (a, b) = open_login t fs h ∙ rw (a, b, attempt) refl

  count_of-after :
      (ts : List Try) (fs : List Fails)
      → All IsWrong ts
      → count_of (find_fails name identity fs) + length ts ≤ 5
      → count_of (find_fails name identity (after ts fs))
        ≡ count_of (find_fails name identity fs) + length ts
  count_of-after [] fs w h = omega arith
  count_of-after (t ∷ ts) fs (w, ws) h =
      let few : count_of (find_fails name identity fs) < 5 = omega (arith, h) in
      let next : find_fails name identity (login_of t fs).1
          ≡ some (failed name identity (count_of (find_fails name identity fs) + 1) t.0) =
        ap (λ (p : Reply Json × List Fails). find_fails name identity p.1) (wrong_login t fs few w)
        ∙ find_fails-record_fail name identity t.0 fs few in
      let one_more : count_of (find_fails name identity (login_of t fs).1)
          ≡ count_of (find_fails name identity fs) + 1 =
        ap count_of next in
      omega (arith, count_of-after ts (login_of t fs).1 ws (omega (arith, one_more, h)), one_more)

  -- After five wrong logins in a row on a fresh identity, every login on it, whatever its password,
  -- is answered 429 and changes nothing until fifteen minutes after the last of them are over.
  pub login-locks :
      (ts : List Try) (last next : Try) (fs : List Fails)
      → find_fails name identity fs ≡ none
      → length ts ≡ 4
      → All IsWrong ts
      → IsWrong last
      → next.0 - last.0 < 900
      → login_of next (login_of last (after ts fs)).1
        ≡ (err locked, (login_of last (after ts fs)).1)
  unfolding login is_locked
  login-locks ts last next fs fresh four w wl soon =
      let none_yet : count_of (find_fails name identity fs) ≡ 0 = ap count_of fresh in
      let count : count_of (find_fails name identity (after ts fs)) ≡ 4 =
        omega (arith, count_of-after ts fs w (omega (arith, none_yet, four)), none_yet, four) in
      let few : count_of (find_fails name identity (after ts fs)) < 5 = omega (arith, count) in
      let entry : find_fails name identity (login_of last (after ts fs)).1
          ≡ some (failed name identity 5 last.0) =
        ap (λ (p : Reply Json × List Fails). find_fails name identity p.1)
          (wrong_login last (after ts fs) few wl)
        ∙ find_fails-record_fail name identity last.0 (after ts fs) few
        ∙ ap (λ n. some (failed name identity (n + 1) last.0)) count in
      let young : ltb (next.0 - last.0) cooldown ≡ true = ground (arith, soon) in
      rw (entry, young, is_locked) refl

expire_ne :
    (c i : Text) (now : ℕ) (fs : List Fails) (c' i' : Text)
    → (same c c' && same i i') ≡ false
    → find_fails c' i' (expire c i now fs) ≡ find_fails c' i' fs
unfolding expire
expire_ne c i now fs c' i' h = elim (Bool-cases (is_served now (find_fails c i fs))) [
  | inl e ↦ rw (e, expire) (find_fails-remove_fails c i c' i' fs ∙ rw h refl)
  | inr e ↦ rw (e, expire) refl
]

settle_ne :
    (host : Host) (jwt : Jwt) (s : Secrets) (now : ℕ) (c i : Text) (fs : List Fails)
    (found : Option (Row × ℤ)) (c' i' : Text)
    → (same c c' && same i i') ≡ false
    → find_fails c' i' (settle host jwt s now c i fs found).1 ≡ find_fails c' i' fs
settle_ne host jwt s now c i fs none c' i' h = find_fails-record_fail_ne c i now fs c' i' h
settle_ne host jwt s now c i fs (some (r, n)) c' i' h =
    find_fails-remove_fails c i c' i' fs ∙ rw h refl

attempt_ne :
    (host : Host) (jwt : Jwt) (s : Secrets) (now : ℕ) (db : Db) (c i password : Text)
    (fs : List Fails) (c' i' : Text)
    → (same c c' && same i i') ≡ false
    → find_fails c' i' (attempt host jwt s now db c i password fs).1 ≡ find_fails c' i' fs
unfolding attempt
attempt_ne host jwt s now db c i password fs c' i' h =
    elim (Result-cases (check_accounts host db c)) [
      | inl (_, e) ↦
          rw (e, attempt)
            (settle_ne host jwt s now c i fs (credentials host db c i password) c' i' h)
      | inr (f, e) ↦ rw (e, attempt) refl
    ]

-- A login, whatever comes of it, leaves the throttle of every other identity, and of the same
-- identity in every other collection, as it was.
pub login-others :
    (host : Host) (jwt : Jwt) (s : Secrets) (now : ℕ) (db : Db) (c i password : Text)
    (fs : List Fails) (c' i' : Text)
    → (same c c' && same i i') ≡ false
    → find_fails c' i' (login host jwt s now db c i password fs).1 ≡ find_fails c' i' fs
unfolding login
login-others host jwt s now db c i password fs c' i' h =
    elim (Bool-cases (is_locked now (find_fails c i fs))) [
      | inl e ↦ rw (e, login) refl
      | inr e ↦
          rw (e, login)
            (attempt_ne host jwt s now db c i password (expire c i now fs) c' i' h
              ∙ expire_ne c i now fs c' i' h)
    ]
