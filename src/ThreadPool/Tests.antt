-- ===== src/ThreadPool/Tests.antt =====
-- Runs of a pool with one worker and instances of the theorems on the pool.
use linux_network.Base.{ℕ, ◌<◌, ◌≡◌, ◌≢◌, refl, true, ◌++◌, arith, ℕ_discrete}
use linux_network.ThreadPool.{
  head, waiting, done, destroyed, Pool, lock, test_true, take, return, finish, work, enqueue,
  notify_nobody, store_stop, notify_all, join, worker_count, joined_all, Reach, start, later,
}
use linux_network.ThreadPool.Order.{fifo, destroyed-drained, queued-awake}
use linux_network.ThreadPool.LostWakeup.{Run, lost_wakeup}

-- The pool with its history.
abbrev pub Seen : Type 0
Seen = (p : Pool) × Reach 1 p

-- One task is queued, and nobody had to be woken.
pub awake_head : (i : ℕ) → i < 1 → head ≢ waiting
awake_head i lt e = cc

abbrev queued : Seen
unfolding ℕ_discrete
queued = (_, later (later start (enqueue 7 refl refl refl)) (notify_nobody refl awake_head))

-- The worker has taken the mutex and found the predicate true.
abbrev leaving : Seen
unfolding ℕ_discrete
leaving = (
  _,
  later (later queued.1 (work 0 (omega arith) (lock refl))) (work 0 (omega arith) (test_true refl)),
)

abbrev taken : Seen
unfolding ℕ_discrete
taken = (_, later leaving.1 (work 0 (omega arith) (take refl refl)))

-- The destructor runs, and the worker returns behind its task.
abbrev returned : Seen
unfolding ℕ_discrete
returned = (
  _,
  later
      (later
        (later
          (later (later (later taken.1 (store_stop refl)) (notify_all refl))
            (work 0 (omega arith) finish))
          (work 0 (omega arith) (lock refl)))
        (work 0 (omega arith) (test_true refl)))
      (work 0 (omega arith) (return refl)),
)

abbrev pub over : Seen
unfolding ℕ_discrete
over = (_, later (later returned.1 (join refl (omega arith) refl)) (joined_all refl))

fifo_example : taken.0.accepted ≡ taken.0.started ++ taken.0.tasks
unfolding ℕ_discrete worker_count
fifo_example = fifo 0 taken.1

destroyed-drained_example :
    (over.0.started ≡ over.0.accepted) × ((i : ℕ) → i < worker_count 0 → over.0.workers i ≡ done)
unfolding ℕ_discrete worker_count
destroyed-drained_example = destroyed-drained 0 over.1 refl

queued-awake_example :
    (i : ℕ) × (i < worker_count 0) × (queued.0.workers i ≢ waiting) × (queued.0.workers i ≢ done)
unfolding ℕ_discrete worker_count
queued-awake_example = queued-awake 0 queued.1 (λ e. cc) (λ e. cc)

lost_wakeup_example :
    (p : Pool) × Reach 4 p
    × (p.stop ≡ true)
    × ((q : Pool) → Run 4 p q → (q.workers 2 ≡ waiting) × (q.owner ≢ destroyed))
lost_wakeup_example = lost_wakeup 4 2 (omega arith)
