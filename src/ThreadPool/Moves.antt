-- ===== src/ThreadPool/Moves.antt =====
-- thread_pool_server.cpp: each move of a worker keeps the invariant.
use linux_network.Base.{
  ℕ, ◌<◌, ◌≡◌, ◌≢◌, refl, sym, ap, ◌∙◌, true, some, [], ◌∷◌, ◌++◌, append_assoc, subst, arith,
}
use linux_network.ThreadPool.{
  Worker, done, Owner, free, to_notify, stopped, joining, destroyed, Pool, Move, lock, test_true,
  test_false, block, relock, return, take, finish,
}
use linux_network.ThreadPool.Invariant.{holds, closing, Knows, OwnerKnows, Awake, Inv}

module _ {n : ℕ} {p : Pool} (inv : Inv n p) (i : ℕ) where
  open inv use {holder, order, knows, flag, joined, awake}

  Move-holder :
      {w : Worker} {q : Pool}
      → Move p i w q
      → p.workers i ≡ w
      → (j : ℕ) → holds (q.workers j) ≡ true
      → q.mutex ≡ some j
  Move-holder (lock g) e j h = ground (arith, holder j)
  Move-holder (test_true g) e j h = ground (arith, holder j, holder i)
  Move-holder (test_false g) e j h = ground (arith, holder j, holder i)
  Move-holder block e j h = ground (arith, holder j, holder i)
  Move-holder (relock g) e j h = ground (arith, holder j)
  Move-holder (return g) e j h = ground (arith, holder j, holder i)
  Move-holder (take g t) e j h = ground (arith, holder j, holder i)
  Move-holder finish e j h = ground (arith, holder j)

  Move-order : {w : Worker} {q : Pool} → Move p i w q → q.accepted ≡ q.started ++ q.tasks
  Move-order (take {t} {ts} g e) =
      order ∙ ap (λ l. p.started ++ l) e ∙ sym (append_assoc p.started (t ∷ []) ts)
  Move-order (lock g) = order
  Move-order (test_true g) = order
  Move-order (test_false g) = order
  Move-order block = order
  Move-order (relock g) = order
  Move-order (return g) = order
  Move-order finish = order

  Move-Knows :
      {w : Worker} {q : Pool} → Move p i w q → p.workers i ≡ w → (j : ℕ) → Knows q (q.workers j)
  Move-Knows (lock g) e j = ground (arith, knows j)
  Move-Knows (test_true g) e j = ground (arith, knows j)
  Move-Knows (test_false g) e j = ground (arith, knows j)
  Move-Knows block e j = ground (arith, knows j)
  Move-Knows (relock g) e j = ground (arith, knows j)
  Move-Knows (return g) e j = ground (arith, knows j)
  Move-Knows (take g t) e j = ground (arith, knows j, holder i, holder j)
  Move-Knows finish e j = ground (arith, knows j)

  Move-flag : {w : Worker} {q : Pool} → Move p i w q → q.stop ≡ closing q.owner
  Move-flag (take g e) = flag
  Move-flag (lock g) = flag
  Move-flag (test_true g) = flag
  Move-flag (test_false g) = flag
  Move-flag block = flag
  Move-flag (relock g) = flag
  Move-flag (return g) = flag
  Move-flag finish = flag

  -- A worker that has returned does not come back.
  pub Move-done :
      {w : Worker} {q : Pool}
      → Move p i w q
      → p.workers i ≡ w
      → (j : ℕ) → p.workers j ≡ done
      → q.workers j ≡ done
  Move-done (lock g) e j h = ground arith
  Move-done (test_true g) e j h = ground arith
  Move-done (test_false g) e j h = ground arith
  Move-done block e j h = ground arith
  Move-done (relock g) e j h = ground arith
  Move-done (return g) e j h = ground arith
  Move-done (take g t) e j h = ground arith
  Move-done finish e j h = ground arith

  pub Move-owner : {w : Worker} {q : Pool} → Move p i w q → q.owner ≡ p.owner
  Move-owner (take g e) = refl
  Move-owner (lock g) = refl
  Move-owner (test_true g) = refl
  Move-owner (test_false g) = refl
  Move-owner block = refl
  Move-owner (relock g) = refl
  Move-owner (return g) = refl
  Move-owner finish = refl

  -- The worker that moves does not fall asleep while a task is queued.
  Move-Awake :
      {w : Worker} {q : Pool} → Move p i w q → p.workers i ≡ w → i < n → q.tasks ≢ [] → Awake n q
  Move-Awake (lock g) e lt h = (i, lt, ground arith)
  Move-Awake (test_true g) e lt h = (i, lt, ground arith)
  Move-Awake (test_false g) e lt h = (i, lt, ground arith)
  Move-Awake block e lt h = absurd (h (subst (Knows p) e (knows i)))
  Move-Awake (relock g) e lt h = (i, lt, ground arith)
  Move-Awake (return g) e lt h = (i, lt, ground arith)
  Move-Awake (take g t) e lt h = (i, lt, ground arith)
  Move-Awake finish e lt h = (i, lt, ground arith)

pub OwnerKnows-mono :
    (n : ℕ) (p q : Pool) (o : Owner)
    → ((j : ℕ) → p.workers j ≡ done → q.workers j ≡ done)
    → OwnerKnows n p o
    → OwnerKnows n q o
OwnerKnows-mono n p q free keep k = tt
OwnerKnows-mono n p q to_notify keep k = tt
OwnerKnows-mono n p q stopped keep k = tt
OwnerKnows-mono n p q (joining m) keep k = λ i lt. keep i (k i lt)
OwnerKnows-mono n p q destroyed keep k = λ i lt. keep i (k i lt)

pub Move-Inv :
    {n : ℕ} {p q : Pool} (inv : Inv n p) (i : ℕ) {w : Worker}
    → Move p i w q
    → p.workers i ≡ w
    → i < n
    → Inv n q
Move-Inv {n} {p} {q} inv i mv e lt = record {
  holder = Move-holder inv i mv e;
  order = Move-order inv i mv;
  knows = Move-Knows inv i mv e;
  flag = Move-flag inv i mv;
  joined =
      subst (OwnerKnows n q) (sym (Move-owner inv i mv))
        (OwnerKnows-mono n p q p.owner (Move-done inv i mv e) inv.joined);
  awake = λ h _. Move-Awake inv i mv e lt h;
}
