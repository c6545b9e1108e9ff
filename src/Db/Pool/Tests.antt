-- ===== src/Db/Pool/Tests.antt =====
-- Runs of the pool of src/db.rs: two connections, and a third caller that waits.
use rockbase.Prelude.{ℕ, ◌+◌, ◌≤◌, ◌≡◌, refl, none, some, [], ◌∷◌, Text, bytes, same}
use rockbase.Db.Pool.{
  Pool, pool_size, opened_size, opened, open_pool, call, turn, wake, put_back, turns, Reach, start,
  calls, later,
}
use rockbase.Db.Pool.Count.{count}
use rockbase.Db.Pool.Balance.{IsSound, Reach-IsSound}
use rockbase.Db.Pool.Drain.{waiting, Rounds, Reach-drains}

unfoldable pools : Unit {0}
unfolding bytes same pool_size opened_size open_pool call turn wake put_back opened
pools = tt

sizes : (pool_size (some 1) none ≡ 2) × (pool_size none (some 64) ≡ 16) × (pool_size none none ≡ 4)
unfolding pools
sizes = (refl, refl, refl)

memory : opened_size (bytes ":memory:") 8 ≡ 1
unfolding pools
memory = refl

abbrev file : Text
file = bytes "rb.db"

-- both connections are out, and the third caller sleeps
abbrev exhausted : Pool
exhausted = record { keepalive = 0; idle = []; out = 1 ∷ 2 ∷ []; trying = 0; asleep = 1 }

exhausted_reached : Reach file 2 exhausted
unfolding pools
exhausted_reached =
    later (calls (later (calls (later (calls start) (turns 0 refl))) (turns 0 refl))) (turns 0 refl)

Reach-IsSound_example :
    IsSound (opened_size file 2) exhausted
    × ((c : ℕ) → count c exhausted.idle + count c exhausted.out ≤ 1)
    × (count exhausted.keepalive exhausted.idle + count exhausted.keepalive exhausted.out ≡ 0)
Reach-IsSound_example = Reach-IsSound exhausted_reached

Reach-drains_example : (q : Pool) × Rounds exhausted q × (waiting q ≡ 0)
Reach-drains_example = Reach-drains exhausted_reached
