-- ===== src/Batch/Atomic.antt =====
-- The batch of src/batch.rs against its sub-requests, run one by one.
use rockbase.Prelude.{
  ℕ, suc, ◌+◌, ◌≤◌, ◌≡◌, ◌≢◌, refl, ap, sym, ◌⊎◌, inl, inr, true, false, not, Option, none, some,
  List, [], ◌∷◌, ◌++◌, Text, bytes, same, arith, length, ltb, Result, ok, err, ◌>>=◌, >>=-eq-ok,
  ok-injective, Result-cases,
}
use rockbase.Prelude.Int.{pos}
use rockbase.Json.{Json, list_items}
use rockbase.Http.{Failure, Reply}
use rockbase.Auth.{Who, guest}
use rockbase.Db.{Db, Host}
use rockbase.Records.{Effect, key}
use rockbase.Batch.{
  max, one, Run, run_all, at_index, batch_failure, Server, Transaction, requests, transact, batch,
  outer, oops, is_guest,
}

at_index-eq-ok : {A : Type 0} (i : ℕ) (r : Reply A) {a : A} → at_index i r ≡ ok a → r ≡ ok a
at_index-eq-ok i (ok a) h = cc
at_index-eq-ok i (err e) h = cc

oops-eq-ok : (o : Option Text) {u : Unit {0}} → oops o ≡ ok u → o ≡ none
oops-eq-ok none h = refl
oops-eq-ok (some e) h = cc

outer-eq-ok : (r : Result (ℕ × Failure) Run) {run : Run} → outer r ≡ ok run → r ≡ ok run
outer-eq-ok (ok r) h = cc
outer-eq-ok (err (i, e)) h = cc

module _ (host : Host) (clock : ℕ → Text × Text) (w : Who) where
  abbrev pub request : ℕ → Json → Db → Reply (Effect × Db)
  request i req db = one host db w req (clock i).0 (clock i).1

  -- Each request succeeds alone on the database that the ones before it left; `run` collects what
  -- they answer, in their order.
  abbrev pub Standalone : ℕ → List Json → Db → Run → Type 0
  Standalone i [] db run = run ≡ record { results = []; events = []; db = db }
  Standalone i (req ∷ reqs) db run =
      (effect : Effect) × (db₁ : Db) × (rest : Run) × (request i req db ≡ ok (effect, db₁))
      × Standalone (i + 1) reqs db₁ rest
      × (run ≡ record {
        results = effect.body ∷ rest.results;
        events = effect.event ∷ rest.events;
        db = rest.db;
      })

  -- The requests before number `k` succeed one after another, and that one fails with `e`.
  abbrev pub FailsAt : ℕ → List Json → Db → ℕ → Failure → Type 0
  FailsAt i [] db k e = ⊥
  FailsAt i (req ∷ reqs) db k e =
      ((request i req db ≡ err e) × (k ≡ i))
      ⊎ ((effect : Effect) × (db₁ : Db) × (request i req db ≡ ok (effect, db₁))
          × FailsAt (i + 1) reqs db₁ k e)

  run_all-Standalone :
      (i : ℕ) (reqs : List Json) (db : Db) (run : Run)
      → run_all host clock w i reqs db ≡ ok run
      → Standalone i reqs db run
  unfolding run_all
  run_all-Standalone i [] db run h = cc
  run_all-Standalone i (req ∷ reqs) db run h =
      let ((effect, db₁), e₁, h₁) = >>=-eq-ok _ _ h in
      let (rest, e₂, h₂) = >>=-eq-ok _ _ h₁ in
      (
        effect,
        db₁,
        rest,
        at_index-eq-ok i (request i req db) e₁,
        run_all-Standalone (i + 1) reqs db₁ rest e₂,
        sym (ok-injective h₂),
      )

  run_all-FailsAt :
      (i : ℕ) (reqs : List Json) (db : Db) (k : ℕ) (e : Failure)
      → FailsAt i reqs db k e
      → run_all host clock w i reqs db ≡ err (k, e)
  unfolding run_all
  run_all-FailsAt i [] db k e h = absurd h
  run_all-FailsAt i (req ∷ reqs) db k e (inl (p, q)) = rw (p, q)
  run_all-FailsAt i (req ∷ reqs) db k e (inr (effect, db₁, p, q)) =
      rw (p, run_all-FailsAt (i + 1) reqs db₁ k e q)

  length-Standalone :
      (i : ℕ) (reqs : List Json) (db : Db) (run : Run)
      → Standalone i reqs db run
      → (length run.results ≡ length reqs) × (length run.events ≡ length reqs)
  length-Standalone i [] db run h = rw h (refl, refl)
  length-Standalone i (req ∷ reqs) db run (effect, db₁, rest, p, q, e) =
      let (a, b) = length-Standalone (i + 1) reqs db₁ rest q in rw e (ap suc a, ap suc b)

not-ltb-le : (a b : ℕ) → not (ltb a b) ≡ true → b ≤ a
not-ltb-le a b h = ground arith

not-guest : (w : Who) → not (is_guest w) ≡ true → w ≢ guest
not-guest guest h = cc
not-guest _ h = λ e. cc

requests-le-max :
    (w : Who) (body : Json) (reqs : List Json)
    → requests w body ≡ ok reqs
    → (w ≢ guest) × (length reqs ≤ max)
unfolding requests
requests-le-max w body reqs h =
    let checked : (not (is_guest w) ≡ true) × (ltb max (length reqs) ≡ false) = ground arith in
    (not-guest w checked.0, not-ltb-le max (length reqs) (ap not checked.1))

transact-eq-ok :
    (host : Host) (clock : ℕ → Text × Text) (tx : Transaction) (w : Who) (body : Json) (db : Db)
    (run : Run)
    → transact host clock tx w body db ≡ ok run
    → (reqs : List Json) × (requests w body ≡ ok reqs)
      × (run' : Run) × (outer (run_all host clock w 0 reqs db) ≡ ok run')
      × (run' ≡ run)
unfolding transact
transact-eq-ok host clock tx w body db run h =
    let (reqs, e₁, h₁) = >>=-eq-ok (requests w body) _ h in
    let (_, e₂, h₂) =
      >>=-eq-ok (oops tx.begin)
        (λ _. outer (run_all host clock w 0 reqs db) >>= λ r. oops tx.commit >>= λ _. ok r) h₁ in
    let (run', e₃, h₃) =
      >>=-eq-ok (outer (run_all host clock w 0 reqs db)) (λ r. oops tx.commit >>= λ _. ok r) h₂ in
    let (_, e₄, h₄) = >>=-eq-ok (oops tx.commit) (λ _. ok run') h₃ in
    (reqs, e₁, run', e₃, ok-injective h₄)

-- A batch either is refused, and then database and broadcasts are as before; or its sender is no
-- guest, and its requests, fifty at most, each succeed alone on the database that the ones before
-- left: then it leaves their last database, answers their bodies in order, and broadcasts their
-- events behind what was sent, one for each request.
pub batch-outcome :
    (host : Host) (clock : ℕ → Text × Text) (tx : Transaction) (w : Who) (body : Json) (s : Server)
    → ((e : Failure) × (batch host clock tx w body s ≡ (err e, s)))
      ⊎ ((reqs : List Json) × (run : Run) × (requests w body ≡ ok reqs)
          × (w ≢ guest)
          × (length reqs ≤ max)
          × Standalone host clock w 0 reqs s.db run
          × (length run.events ≡ length reqs)
          × (batch host clock tx w body s ≡ (
            ok (Json.arr (list_items run.results)),
            record { db = run.db; sent = s.sent ++ run.events },
          )))
unfolding batch
batch-outcome host clock tx w body s = elim (Result-cases (transact host clock tx w body s.db)) [
  | inr (e, failed) ↦ inl (e, rw (failed, batch))
  | inl (run, h) ↦
      let (reqs, e₁, run', e₃, last) = transact-eq-ok host clock tx w body s.db run h in
      let each = run_all-Standalone host clock w 0 reqs s.db run (rw (← last) (outer-eq-ok _ e₃)) in
      let (free, few) = requests-le-max w body reqs e₁ in
      inr (
        reqs,
        run,
        e₁,
        free,
        few,
        each,
        (length-Standalone host clock w 0 reqs s.db run each).1,
        rw (h, batch),
      )
]

transact-FailsAt :
    (host : Host) (clock : ℕ → Text × Text) (tx : Transaction) (w : Who) (body : Json) (db : Db)
    (reqs : List Json) (k : ℕ) (e : Failure)
    → requests w body ≡ ok reqs
    → tx.begin ≡ none
    → FailsAt host clock w 0 reqs db k e
    → transact host clock tx w body db ≡ err (batch_failure k e)
unfolding transact
transact-FailsAt host clock tx w body db reqs k e h b f =
    rw (h, ◌>>=◌) (rw (b, oops) (rw (run_all-FailsAt host clock w 0 reqs db k e f, ◌>>=◌)))

-- The answer of a batch for the error `e` of its request number `k`, by the fields that a client reads.
abbrev pub Tells : ℕ → Failure → Failure → Type 0
Tells k e answer =
    (answer.status ≡ 400)
    × (key (bytes "code") answer.body ≡ some (Json.int (pos 400)))
    × (key (bytes "index") answer.body ≡ some (Json.int (pos k)))
    × ((m : Json)
        → key (bytes "message") e.body ≡ some m
        → key (bytes "message") answer.body ≡ some m)
    × ((key (bytes "message") e.body ≡ none)
        → key (bytes "message") answer.body ≡ some (Json.str (bytes "error")))

batch_failure-Tells : (k : ℕ) (e : Failure) → Tells k e (batch_failure k e)
unfolding batch_failure bytes key same
batch_failure-Tells k e = (refl, refl, refl, λ m h. rw h refl, λ h. rw h refl)

-- When the transaction begins and request number `k` is the first that fails, the batch answers 400,
-- with `k` as its index and with that request's message, or "error" where it has none; database and
-- broadcasts are as before.
pub batch-FailsAt :
    (host : Host) (clock : ℕ → Text × Text) (tx : Transaction) (w : Who) (body : Json) (s : Server)
    (reqs : List Json) (k : ℕ) (e : Failure)
    → requests w body ≡ ok reqs
    → tx.begin ≡ none
    → FailsAt host clock w 0 reqs s.db k e
    → (answer : Failure) × (batch host clock tx w body s ≡ (err answer, s)) × Tells k e answer
unfolding batch
batch-FailsAt host clock tx w body s reqs k e h b f = (
  batch_failure k e,
  rw (transact-FailsAt host clock tx w body s.db reqs k e h b f, batch),
  batch_failure-Tells k e,
)
