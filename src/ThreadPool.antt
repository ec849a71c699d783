-- ===== src/ThreadPool.antt =====
-- thread_pool_server.h and thread_pool_server.cpp, class ThreadPool: the workers, `enqueue` and the
-- destructor as threads that interleave. A step is one access to what they share: the mutex, the
-- queue, the atomic flag, the condition variable.
pub mod Family
pub mod Invariant
pub mod Moves
pub mod Steps
pub mod Order
pub mod LostWakeup
pub mod Tests
use linux_network.Base.{
  ℕ, zero, suc, ◌+◌, ◌<◌, ◌≡◌, ◌≢◌, Bool, true, false, not, ◌&&◌, ◌||◌, Option, none, some, List,
  [], ◌∷◌, ◌++◌, arith, ◌==◌, if◌then◌else◌,
}
use Family.{update}

-- A task is known by a number.
abbrev pub Task : Type 0
Task = ℕ

-- Where a worker stands in its loop.
pub data Worker : Type 0 where
  head : Worker  -- in front of the lock
  testing : Worker  -- holds the mutex, in front of the predicate of `wait`
  blocking : Worker  -- holds the mutex, has found the predicate false
  waiting : Worker  -- blocked in `wait`, the mutex released
  notified : Worker  -- woken, not yet holding the mutex again
  leaving_wait : Worker  -- holds the mutex, has found the predicate true
  running : Task → Worker  -- the mutex released, `task()` runs
  done : Worker  -- has returned

-- Where the thread stands that owns the pool: it calls `enqueue` any number of times, and then the
-- destructor.
pub data Owner : Type 0 where
  free : Owner
  to_notify : Owner  -- in `enqueue`, behind the lock, in front of notify_one
  stopped : Owner  -- in the destructor, behind stop_.store(true)
  joining : ℕ → Owner  -- behind notify_all, waits for worker `i`
  destroyed : Owner

-- thread_count, with 0 turned into 1 by the constructor
unfoldable pub worker_count : ℕ → ℕ
worker_count thread_count = if thread_count == 0 then 1 else thread_count

-- Who holds tasks_mutex_: nobody or worker `i`. (`enqueue` holds it for one step.)
-- `accepted` and `started` record what has been pushed and what has been popped so far.
pub record Pool : Type 0 where
  pub tasks : List Task
  pub stop : Bool
  pub mutex : Option ℕ
  pub workers : ℕ → Worker
  pub owner : Owner
  pub accepted : List Task
  pub started : List Task

abbrev pub is_empty : List Task → Bool
is_empty [] = true
is_empty (_ ∷ _) = false

-- stop_.load() || !tasks_.empty()
abbrev pub ready : Pool → Bool
ready p = p.stop || not (is_empty p.tasks)

-- The rest of a worker's turn: stop_.load() && tasks_.empty(), or front and pop.
abbrev pub finished : Pool → Bool
finished p = p.stop && is_empty p.tasks

abbrev pub init : Pool
init = record {
  tasks = [];
  stop = false;
  mutex = none;
  workers = λ _. head;
  owner = free;
  accepted = [];
  started = [];
}

abbrev pub wake : Worker → Worker
wake waiting = notified
wake w = w

-- What worker `i` can do, from where it stands. The constructor `spurious` is a wake-up without a
-- notification, which the condition variable allows.
pub data Move (p : Pool) (i : ℕ) : Worker → Pool → Type 0 where
  lock :
      p.mutex ≡ none
      → Move p i head (record p { mutex = some i; workers = update p.workers i testing })
  test_true :
      ready p ≡ true → Move p i testing (record p { workers = update p.workers i leaving_wait })
  test_false :
      ready p ≡ false → Move p i testing (record p { workers = update p.workers i blocking })
  block : Move p i blocking (record p { mutex = none; workers = update p.workers i waiting })
  relock :
      p.mutex ≡ none
      → Move p i notified (record p { mutex = some i; workers = update p.workers i testing })
  return :
      finished p ≡ true
      → Move p i leaving_wait (record p { mutex = none; workers = update p.workers i done })
  take :
      {t : Task} {ts : List Task}
      → finished p ≡ false
      → p.tasks ≡ t ∷ ts
      → Move p i leaving_wait (record p {
        tasks = ts;
        mutex = none;
        workers = update p.workers i (running t);
        started = p.started ++ t ∷ [];
      })
  finish : {t : Task} → Move p i (running t) (record p { workers = update p.workers i head })

-- A step of `n` workers, their owner and the condition variable.
pub data Step (n : ℕ) (p : Pool) : Pool → Type 0 where
  work : {q : Pool} (i : ℕ) → i < n → Move p i (p.workers i) q → Step n p q
  -- `enqueue` up to the end of its block, where it does not throw
  enqueue :
      (t : Task)
      → p.owner ≡ free
      → p.mutex ≡ none
      → p.stop ≡ false
      → Step n p (record p {
        tasks = p.tasks ++ t ∷ [];
        owner = to_notify;
        accepted = p.accepted ++ t ∷ [];
      })
  -- on a stopped pool `enqueue` throws, with the lock released again
  enqueue_throws : p.owner ≡ free → p.mutex ≡ none → p.stop ≡ true → Step n p p
  -- condition_.notify_one(), with a worker that waits, or with none that does
  notify_one :
      (i : ℕ)
      → i < n
      → p.owner ≡ to_notify
      → p.workers i ≡ waiting
      → Step n p (record p { workers = update p.workers i notified; owner = free })
  notify_nobody :
      p.owner ≡ to_notify
      → ((i : ℕ) → i < n → p.workers i ≢ waiting)
      → Step n p (record p { owner = free })
  -- the destructor: stop_.store(true), which takes no lock
  store_stop : p.owner ≡ free → Step n p (record p { stop = true; owner = stopped })
  -- condition_.notify_all()
  notify_all :
      p.owner ≡ stopped
      → Step n p (record p { workers = λ i. wake (p.workers i); owner = joining 0 })
  -- worker.join() returns when the worker has returned
  join :
      {i : ℕ}
      → p.owner ≡ joining i
      → i < n
      → p.workers i ≡ done
      → Step n p (record p { owner = joining (suc i) })
  joined_all : p.owner ≡ joining n → Step n p (record p { owner = destroyed })
  -- a wake-up without a notification
  spurious :
      (i : ℕ)
      → i < n
      → p.workers i ≡ waiting
      → Step n p (record p { workers = update p.workers i notified })

pub data Reach (n : ℕ) : Pool → Type 0 where
  start : Reach n init
  later : {p q : Pool} → Reach n p → Step n p q → Reach n q
