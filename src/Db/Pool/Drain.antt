-- ===== src/Db/Pool/Drain.antt =====
-- No caller of `get` in src/db.rs is left waiting for good.
use rockbase.Prelude.{ℕ, zero, suc, ◌+◌, ◌≤◌, ◌≡◌, refl, ◌∙◌, List, [], ◌∷◌, ◌++◌, Text, arith}
use rockbase.Db.Pool.{Pool, opened_size, turn, wake, put_back, turns, returns, Reach}
use rockbase.Db.Pool.Balance.{IsSound, Step-IsSound, Reach-IsSound}

-- the callers in `get`
abbrev pub waiting : Pool → ℕ
waiting p = p.trying + p.asleep

-- What follows of itself when no one calls: rounds of the loop by callers that take the lock, and
-- returns of guards that are out. No caller wakes up here but by the `notify_one` of a return.
pub data Rounds (p : Pool) : Pool → Type 0 where
  here : Rounds p p
  turned : {q : Pool} → Rounds p q → (others : ℕ) → q.trying ≡ suc others → Rounds p (turn others q)
  returned :
      {q : Pool}
      → Rounds p q
      → (c : ℕ) (before after : List ℕ) → q.out ≡ before ++ c ∷ after
      → Rounds p (put_back c (before ++ after) q)

abbrev Serves : ℕ → Pool → Type 0
Serves k p = (q : Pool) × Rounds p q × (waiting q ≡ k)

append : {p q r : Pool} → Rounds p q → Rounds q r → Rounds p r
append first here = first
append first (turned more others t) = turned (append first more) others t
append first (returned more c before after o) = returned (append first more) c before after o

Rounds-IsSound : {n : ℕ} {p q : Pool} → Rounds p q → IsSound n p → IsSound n q
Rounds-IsSound here s = s
Rounds-IsSound (turned more others t) s = Step-IsSound (turns others t) (Rounds-IsSound more s)
Rounds-IsSound (returned more c before after o) s =
    Step-IsSound (returns c before after o) (Rounds-IsSound more s)

opened_size_pos : (db : Text) (size : ℕ) → 1 ≤ opened_size db size
unfolding opened_size
opened_size_pos db size = ground arith

turn-waiting :
    (c : ℕ) (rest : List ℕ) (k others : ℕ) (p : Pool)
    → p.idle ≡ c ∷ rest
    → p.trying ≡ suc others
    → waiting p ≡ suc k
    → waiting (turn others p) ≡ k
unfolding turn
turn-waiting c rest k others p e t w = ground arith

serve_idle :
    {n : ℕ} (c : ℕ) (rest : List ℕ) (k : ℕ) (p : Pool)
    → p.idle ≡ c ∷ rest
    → waiting p ≡ suc k
    → IsSound n p
    → (others : ℕ) → p.trying ≡ others
    → Serves k p
serve_idle c rest k p e w s zero t = absurd (ground (arith, s.noticed))
serve_idle c rest k p e w s (suc others) t =
    (turn others p, turned here others t, turn-waiting c rest k others p e t w)

put_back-idle : (c : ℕ) (left : List ℕ) (p : Pool) → (put_back c left p).idle ≡ c ∷ p.idle
unfolding put_back wake
put_back-idle c left p = ground arith

put_back-waiting : (c : ℕ) (left : List ℕ) (p : Pool) → waiting (put_back c left p) ≡ waiting p
unfolding put_back wake
put_back-waiting c left p = ground arith

serve_out :
    {n : ℕ} (k : ℕ) (p : Pool) (out : List ℕ)
    → 1 ≤ n
    → p.idle ≡ []
    → waiting p ≡ suc k
    → IsSound n p
    → p.out ≡ out
    → Serves k p
serve_out k p [] pos e w s o = absurd (ground (arith, s.total))
serve_out k p (c ∷ rest) pos e w s o =
    let q = put_back c rest p in
    let (r, more, served) =
      serve_idle c p.idle k q (put_back-idle c rest p) (put_back-waiting c rest p ∙ w)
        (Step-IsSound (returns c [] rest o) s) q.trying refl in
    (r, append (returned here c [] rest o) more, served)

serve :
    {n : ℕ} (k : ℕ) (p : Pool) (idle : List ℕ)
    → 1 ≤ n
    → p.idle ≡ idle
    → waiting p ≡ suc k
    → IsSound n p
    → Serves k p
serve k p [] pos e w s = serve_out k p p.out pos e w s refl
serve k p (c ∷ rest) pos e w s = serve_idle c rest k p e w s p.trying refl

serve_all : {n : ℕ} (k : ℕ) (p : Pool) → 1 ≤ n → waiting p ≡ k → IsSound n p → Serves 0 p
serve_all zero p pos w s = (p, here, w)
serve_all (suc k) p pos w s =
    let (q, first, served) = serve k p p.idle pos refl w s in
    let (r, more, done) = serve_all k q pos served (Rounds-IsSound first s) in
    (r, append first more, done)

-- From every state that a pool gets to, rounds of the loop of `get` and returns of guards alone lead,
-- with no new call and no wake-up but those of the returns, to a state where no caller waits. Each of
-- these rounds and returns is one that the state before it allows.
pub Reach-drains :
    {db : Text} {size : ℕ} {p : Pool} → Reach db size p → (q : Pool) × Rounds p q × (waiting q ≡ 0)
Reach-drains {db} {size} {p} r =
    serve_all (waiting p) p (opened_size_pos db size) refl (Reach-IsSound r).0
