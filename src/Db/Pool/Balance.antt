-- ===== src/Db/Pool/Balance.antt =====
-- What every state of the pool of src/db.rs keeps.
use rockbase.Prelude.{
  ℕ, suc, ◌+◌, ◌≤◌, ◌≡◌, refl, ◌⊎◌, inl, List, ◌∷◌, ◌++◌, Text, arith, length, length-append,
}
use rockbase.Db.Pool.{
  Pool, opened_size, opened, open_pool, call, turn, wake, put_back, Step, turns, returns, wakes,
  Reach, start, calls, later,
}
use rockbase.Db.Pool.Count.{count, count-append, count-opened, count-opened_zero, length-opened}

-- Every connection is idle or behind a guard, as often as it was opened; and where a caller sleeps,
-- each idle connection has a caller on its way to it.
pub record IsSound (n : ℕ) (p : Pool) : Type 0 where
  pub kept : (c : ℕ) → count c p.idle + count c p.out ≡ count c (opened n)
  pub total : length p.idle + length p.out ≡ n
  pub noticed : (p.asleep ≡ 0) ⊎ (length p.idle ≤ p.trying)
  pub reserved : p.keepalive ≡ 0

open_pool-IsSound : (db : Text) (size : ℕ) → IsSound (opened_size db size) (open_pool db size)
unfolding open_pool count
open_pool-IsSound db size = record {
  kept = λ c. omega arith;
  total = omega (arith, length-opened (opened_size db size));
  noticed = inl refl;
  reserved = refl;
}

call-IsSound : {n : ℕ} {p : Pool} → IsSound n p → IsSound n (call p)
unfolding call
call-IsSound s = record {
  kept = s.kept;
  total = s.total;
  noticed = ground (arith, s.noticed);
  reserved = s.reserved;
}

wake-IsSound : {n : ℕ} {p : Pool} → IsSound n p → IsSound n (wake p)
unfolding wake
wake-IsSound {n} {p} s = record {
  kept = λ c. ground (arith, s.kept c);
  total = ground (arith, s.total);
  noticed = ground (arith, s.noticed);
  reserved = ground (arith, s.reserved);
}

turn-IsSound :
    {n : ℕ} {p : Pool} (others : ℕ)
    → p.trying ≡ suc others
    → IsSound n p
    → IsSound n (turn others p)
unfolding turn count
turn-IsSound {n} {p} others e s = record {
  kept = λ c. ground (arith, s.kept c);
  total = ground (arith, s.total);
  noticed = ground (arith, s.noticed);
  reserved = ground (arith, s.reserved);
}

put_back-IsSound :
    {n : ℕ} {p : Pool} (c : ℕ) (before after : List ℕ)
    → p.out ≡ before ++ c ∷ after
    → IsSound n p
    → IsSound n (put_back c (before ++ after) p)
unfolding put_back wake count
put_back-IsSound {n} {p} c before after e s = record {
  kept = λ d.
      ground (arith, s.kept d, e, count-append d before after, count-append d before (c ∷ after));
  total =
      ground
        (arith, s.total, e, length-append {0} before after, length-append {0} before (c ∷ after));
  noticed = ground (arith, s.noticed);
  reserved = ground (arith, s.reserved);
}

pub Step-IsSound : {n : ℕ} {p q : Pool} → Step p q → IsSound n p → IsSound n q
Step-IsSound (turns others e) s = turn-IsSound others e s
Step-IsSound (returns c before after e) s = put_back-IsSound c before after e s
Step-IsSound wakes s = wake-IsSound s

-- In every state that a pool gets to, each connection that was opened is either idle or behind a
-- guard, and behind one guard only; the keepalive connection is neither; and where a caller sleeps,
-- no more connections are idle than callers are about to take one, so no wake-up was lost.
pub Reach-IsSound :
    {db : Text} {size : ℕ} {p : Pool}
    → Reach db size p
    → IsSound (opened_size db size) p
      × ((c : ℕ) → count c p.idle + count c p.out ≤ 1)
      × (count p.keepalive p.idle + count p.keepalive p.out ≡ 0)
Reach-IsSound {db} {size} {p} r = (
  reached r,
  λ c. omega (arith, (reached r).kept c, count-opened c (opened_size db size)),
  rw (reached r).reserved
      (omega (arith, (reached r).kept 0, count-opened_zero (opened_size db size))),
)
  where
    reached : {q : Pool} → Reach db size q → IsSound (opened_size db size) q
    reached start = open_pool-IsSound db size
    reached (calls r) = call-IsSound (reached r)
    reached (later r st) = Step-IsSound st (reached r)
