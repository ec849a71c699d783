-- ===== src/ThreadPool/Order.antt =====
-- thread_pool_server.cpp, in every reachable state: who holds the mutex, in which order tasks start,
-- what the destructor leaves behind.
use linux_network.Base.{
  ℕ, arith, ◌<◌, ◌≡◌, ◌≢◌, refl, sym, ap, ◌∙◌, ◌⊎◌, inl, inr, Bool, true, false, not, ◌&&◌, ◌||◌,
  List, [], ◌∷◌, ◌++◌, append-nil, subst,
}
use linux_network.ThreadPool.{
  Task, waiting, leaving_wait, done, to_notify, destroyed, Pool, is_empty, finished, Reach,
  worker_count,
}
use linux_network.ThreadPool.Invariant.{holds, Knows, OwnerKnows}
use linux_network.ThreadPool.Steps.{Reach-Inv}

-- The constructor starts at least one worker.
worker_count-pos : (count : ℕ) → 0 < worker_count count
unfolding worker_count
worker_count-pos count = ground arith

-- Two workers never hold tasks_mutex_ together.
mutual_exclusion :
    (count : ℕ) {p : Pool}
    → Reach (worker_count count) p
    → (i j : ℕ) → holds (p.workers i) ≡ true
    → holds (p.workers j) ≡ true
    → i ≡ j
mutual_exclusion count r i j hi hj =
    let inv = Reach-Inv (worker_count-pos count) r in cc (inv.holder i hi, inv.holder j hj)

-- Tasks start in the order in which they were enqueued, each once: those started, with those still
-- queued behind them, are those accepted.
pub fifo : (count : ℕ) {p : Pool} → Reach (worker_count count) p → p.accepted ≡ p.started ++ p.tasks
fifo count r = (Reach-Inv (worker_count-pos count) r).order

queue_cases :
    (stop : Bool) (ts : List Task)
    → (stop || not (is_empty ts)) ≡ true
    → ((stop && is_empty ts) ≡ true) ⊎ ((t : Task) × (rest : List Task) × (ts ≡ t ∷ rest))
queue_cases true [] h = inl refl
queue_cases false [] h = cc
queue_cases stop (t ∷ rest) h = inr (t, rest, refl)

-- A worker that leaves the wait either returns, or finds a task at the front of the queue: front() and
-- pop() are never called on an empty queue.
front-ne-empty :
    (count : ℕ) {p : Pool}
    → Reach (worker_count count) p
    → (i : ℕ) → p.workers i ≡ leaving_wait
    → (finished p ≡ true) ⊎ ((t : Task) × (ts : List Task) × (p.tasks ≡ t ∷ ts))
front-ne-empty count {p} r i e =
    queue_cases p.stop p.tasks (subst (Knows p) e ((Reach-Inv (worker_count-pos count) r).knows i))

finished-tasks :
    (stop : Bool) (ts : List Task) → (stop && is_empty ts) ≡ true → (stop ≡ true) × (ts ≡ [])
finished-tasks true [] h = (refl, refl)
finished-tasks true (t ∷ ts) h = cc
finished-tasks false ts h = cc

-- A worker returns only when the pool is stopped and every accepted task has been started.
done-drained :
    (count : ℕ) {p : Pool}
    → Reach (worker_count count) p
    → (i : ℕ) → p.workers i ≡ done
    → (p.stop ≡ true) × (p.started ≡ p.accepted)
done-drained count {p} r i e =
    let inv = Reach-Inv (worker_count-pos count) r in
    let (stopped, none_left) = finished-tasks p.stop p.tasks (subst (Knows p) e (inv.knows i)) in
    (stopped, sym (inv.order ∙ ap (λ l. p.started ++ l) none_left ∙ append-nil p.started))

-- When the destructor has returned, every accepted task has been started, in order, and every worker
-- has returned, so that none of them is still running.
pub destroyed-drained :
    (count : ℕ) {p : Pool}
    → Reach (worker_count count) p
    → p.owner ≡ destroyed
    → (p.started ≡ p.accepted) × ((i : ℕ) → i < worker_count count → p.workers i ≡ done)
destroyed-drained count {p} r e =
    let all_done : (i : ℕ) → i < worker_count count → p.workers i ≡ done =
      subst (OwnerKnows (worker_count count) p) e (Reach-Inv (worker_count-pos count) r).joined in
    ((done-drained count r 0 (all_done 0 (worker_count-pos count))).1, all_done)

-- notify_one loses no task: while a task is queued, and no enqueue stands between its push and its
-- notification, some worker neither sleeps nor has returned.
pub queued-awake :
    (count : ℕ) {p : Pool}
    → Reach (worker_count count) p
    → p.tasks ≢ []
    → p.owner ≢ to_notify
    → (i : ℕ) × (i < worker_count count) × (p.workers i ≢ waiting) × (p.workers i ≢ done)
queued-awake count {p} r queued quiet =
    let inv = Reach-Inv (worker_count-pos count) r in
    let (i, lt, up) = inv.awake queued quiet in
    (i, lt, up, λ e. queued (finished-tasks p.stop p.tasks (subst (Knows p) e (inv.knows i))).1)
