-- ===== src/Db/Pool.antt =====
-- src/db.rs: the pool of connections. A connection is its number in the order of opening. The lock
-- makes each step atomic: one round of the loop of `get`, a return, a wake-up.
pub mod Count
pub mod Balance
pub mod Drain
mod Tests
use rockbase.Prelude.{
  ℕ, zero, suc, ◌+◌, ◌≡◌, Bool, true, false, Option, none, some, List, [], ◌∷◌, ◌++◌, Text, bytes,
  same, ltb, if◌then◌else◌,
}

-- `Pool`, with what is in flight: `idle` with its top first; `out`, the guards that are alive;
-- `trying`, the callers that take the lock next; `asleep`, the callers in `ready.wait`.
pub record Pool : Type 0 where
  pub keepalive : ℕ
  pub idle : List ℕ
  pub out : List ℕ
  pub trying : ℕ
  pub asleep : ℕ

abbrev max : ℕ → ℕ → ℕ
max a b = if ltb a b then b else a

abbrev or_else : Option ℕ → ℕ → ℕ
or_else none n = n
or_else (some m) n = m

-- `.clamp(2, 16)` of what the environment asks for, or of the parallelism of the machine
unfoldable pub pool_size : Option ℕ → Option ℕ → ℕ
pool_size asked parallelism =
    let n = or_else asked (or_else parallelism 4) in
    if ltb n 2 then 2 else if ltb 16 n then 16 else n

-- an in-memory pool has one connection
unfoldable pub opened_size : Text → ℕ → ℕ
unfolding bytes same
opened_size db size = if same db (bytes ":memory:") then 1 else max size 1

-- the connections 1 to `n`, the last one opened on top
unfoldable pub opened : ℕ → List ℕ
opened zero = []
opened (suc n) = suc n ∷ opened n

unfoldable pub open_pool : Text → ℕ → Pool
unfolding opened_size opened
open_pool db size = record {
  keepalive = 0;
  idle = opened (opened_size db size);
  out = [];
  trying = 0;
  asleep = 0;
}

-- a caller enters `get`
unfoldable pub call : Pool → Pool
call p = record p { trying = p.trying + 1 }

-- One round of the loop of `get`, by one of `trying + 1` callers: a guard on the top of the idle
-- connections, or sleep.
unfoldable pub turn : ℕ → Pool → Pool
turn others p = elim p.idle [
  | c ∷ rest ↦ record p { idle = rest; out = c ∷ p.out; trying = others }
  | [] ↦ record p { trying = others; asleep = p.asleep + 1 }
]

-- `notify_one`, and what a spurious wake-up does
unfoldable pub wake : Pool → Pool
wake p = elim p.asleep [ zero ↦ p | suc n ↦ record p { asleep = n; trying = p.trying + 1 } ]

-- `drop` of the guard on `c`, which leaves the guards `left`
unfoldable pub put_back : ℕ → List ℕ → Pool → Pool
unfolding wake
put_back c left p = wake (record p { idle = c ∷ p.idle; out = left })

-- What the callers already there may do: nothing here enters `get`.
pub data Step (p : Pool) : Pool → Type 0 where
  turns : (others : ℕ) → p.trying ≡ suc others → Step p (turn others p)
  returns :
      (c : ℕ) (before after : List ℕ)
      → p.out ≡ before ++ c ∷ after
      → Step p (put_back c (before ++ after) p)
  wakes : Step p (wake p)

-- the states of a pool that was opened for `db` and `size`
pub data Reach (db : Text) (size : ℕ) : Pool → Type 0 where
  start : Reach db size (open_pool db size)
  calls : {p : Pool} → Reach db size p → Reach db size (call p)
  later : {p q : Pool} → Reach db size p → Step p q → Reach db size q
