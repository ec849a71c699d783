-- ===== src/ThreadPool/LostWakeup.antt =====
-- thread_pool_server.cpp: the destructor stores stop_ without the mutex, so that its notification can
-- fall between a worker's test of the predicate and its going to sleep.
use linux_network.Base.{
  ℕ, suc, ◌≤◌, ◌<◌, ◌≡◌, ◌≢◌, refl, sym, ap, ◌∙◌, true, none, some, arith, subst,
}
use linux_network.ThreadPool.{
  Worker, done, head, testing, blocking, waiting, joining, destroyed, Pool, init, wake, Move, lock,
  test_true, test_false, block, relock, return, take, finish, Step, work, enqueue, enqueue_throws,
  notify_one, notify_nobody, store_stop, notify_all, join, joined_all, spurious, Reach, start,
  later,
}
use linux_network.ThreadPool.Family.{update}

-- Every step but a wake-up without a notification.
abbrev pub IsRegular : {n : ℕ} {p q : Pool} → Step n p q → Type 0
IsRegular (spurious i lt e) = ⊥
IsRegular _ = Unit {0}

-- Runs without such wake-ups.
pub data Run (n : ℕ) (p : Pool) : Pool → Type 0 where
  here : Run n p p
  next : {q r : Pool} → Run n p q → (st : Step n q r) → IsRegular st → Run n p r

-- Worker `i` sleeps, and the destructor, behind notify_all, has not got past it.
pub record Lost (i : ℕ) (p : Pool) : Type 0 where
  pub asleep : p.workers i ≡ waiting
  pub turn : ℕ
  pub joins : p.owner ≡ joining turn
  pub before : turn ≤ i

Move-waiting :
    {p : Pool} {j : ℕ} {w : Worker} {q : Pool}
    → Move p j w q
    → p.workers j ≡ w
    → (i : ℕ) → p.workers i ≡ waiting
    → q.workers i ≡ waiting
Move-waiting (lock g) e i h = ground arith
Move-waiting (test_true g) e i h = ground arith
Move-waiting (test_false g) e i h = ground arith
Move-waiting block e i h = ground arith
Move-waiting (relock g) e i h = ground arith
Move-waiting (return g) e i h = ground arith
Move-waiting (take g t) e i h = ground arith
Move-waiting finish e i h = ground arith

Move-owner : {p : Pool} {j : ℕ} {w : Worker} {q : Pool} → Move p j w q → q.owner ≡ p.owner
Move-owner (lock g) = refl
Move-owner (test_true g) = refl
Move-owner (test_false g) = refl
Move-owner block = refl
Move-owner (relock g) = refl
Move-owner (return g) = refl
Move-owner (take g t) = refl
Move-owner finish = refl

turn_of : {j k : ℕ} → joining j ≡ joining k → j ≡ k
turn_of e = cc

not_both : (p : Pool) (j : ℕ) → p.workers j ≡ waiting → p.workers j ≡ done → ⊥
not_both p j e h = cc

-- Another worker's turn comes, since the sleeping worker cannot be joined.
later_turn :
    {i : ℕ} {p : Pool} (l : Lost i p) (j : ℕ) → p.owner ≡ joining j → p.workers j ≡ done → suc j ≤ i
later_turn {i} {p} l j o e =
    let not_it : j ≢ i =
      λ same. not_both p j (subst (λ m. p.workers m ≡ waiting) (sym same) l.asleep) e in
    omega (arith, turn_of (sym o ∙ l.joins), l.before)

Step-Lost :
    {n : ℕ} {p q : Pool} (i : ℕ) (st : Step n p q) → i < n → IsRegular st → Lost i p → Lost i q
Step-Lost i (work j lt mv) inside ok l = record {
  asleep = Move-waiting mv refl i l.asleep;
  turn = l.turn;
  joins = Move-owner mv ∙ l.joins;
  before = l.before;
}
Step-Lost i (enqueue t f m s) inside ok l = absurd (cc (f, l.joins))
Step-Lost i (enqueue_throws f m s) inside ok l = l
Step-Lost i (notify_one j lt o e) inside ok l = absurd (cc (o, l.joins))
Step-Lost i (notify_nobody o nobody) inside ok l = absurd (cc (o, l.joins))
Step-Lost i (store_stop f) inside ok l = absurd (cc (f, l.joins))
Step-Lost i (notify_all o) inside ok l = absurd (cc (o, l.joins))
Step-Lost i (join {i = j} o lt e) inside ok l = record {
  asleep = l.asleep;
  turn = suc j;
  joins = refl;
  before = later_turn l j o e;
}
Step-Lost {n} i (joined_all o) inside ok l =
    absurd (omega (arith, turn_of (sym o ∙ l.joins), l.before))
Step-Lost i (spurious j lt e) inside ok l = elim ok [ ]

Run-Lost : {n : ℕ} {p q : Pool} (i : ℕ) → Run n p q → i < n → Lost i p → Lost i q
Run-Lost i here inside l = l
Run-Lost i (next r st ok) inside l = Step-Lost i st inside ok (Run-Lost i r inside l)

-- One step of a worker that is known to stand at `w`.
work_from :
    {n : ℕ} {p q : Pool} (i : ℕ) {w : Worker} → i < n → p.workers i ≡ w → Move p i w q → Step n p q
work_from {n} {p} {q} i lt e mv = work i lt (subst (λ v. Move p i v q) (sym e) mv)

update_self : (f : ℕ → Worker) (i : ℕ) (w : Worker) → update f i w i ≡ w
update_self f i w = ground arith

module _ (n i : ℕ) (inside : i < n) where
  -- Worker `i` takes the mutex, finds no task and no stop, and is about to block.
  before_block : Pool
  before_block = record init {
    mutex = some i;
    workers = update (update (λ _. head) i testing) i blocking;
  }

  -- The destructor stores the flag and notifies: nobody is asleep yet.
  after_notify : Pool
  unfolding before_block
  after_notify = record before_block {
    stop = true;
    workers = λ j. wake (before_block.workers j);
    owner = joining 0;
  }

  asleep_pool : Pool
  unfolding after_notify
  asleep_pool = record after_notify {
    mutex = none;
    workers = update after_notify.workers i waiting;
  }

  Reach-asleep : Reach n asleep_pool
  unfolding asleep_pool
  Reach-asleep =
      later
        (later
          (later
            (later (later start (work_from i inside refl (lock refl)))
              (work_from i inside (update_self (λ _. head) i testing) (test_false refl)))
            (store_stop refl))
          (notify_all refl))
        (work_from i inside (ap wake (update_self (update (λ _. head) i testing) i blocking)) block)

  asleep_pool-Lost : Lost i asleep_pool
  unfolding asleep_pool
  asleep_pool-Lost = record {
    asleep = update_self (λ j. wake (update (update (λ _. head) i testing) i blocking j)) i waiting;
    turn = 0;
    joins = refl;
    before = omega arith;
  }

  -- The lost wake-up: for each worker of a pool there is a reachable state, with the destructor behind
  -- notify_all, from which that worker sleeps for ever and the destructor never returns, unless the
  -- condition variable wakes a worker without a notification.
  pub lost_wakeup :
      (p : Pool) × Reach n p
      × (p.stop ≡ true)
      × ((q : Pool) → Run n p q → (q.workers i ≡ waiting) × (q.owner ≢ destroyed))
  unfolding asleep_pool
  lost_wakeup = (
    asleep_pool,
    Reach-asleep,
    refl,
    λ q r. let l = Run-Lost i r inside asleep_pool-Lost in (l.asleep, not_destroyed l),
  )
    where
      not_destroyed : {q : Pool} → Lost i q → q.owner ≢ destroyed
      not_destroyed l e = cc (e, l.joins)
