-- ===== src/ThreadPool/Invariant.antt =====
-- thread_pool_server.cpp: what holds of the pool between any two steps.
use linux_network.Base.{ℕ, ◌<◌, ◌≡◌, ◌≢◌, Bool, true, false, some, [], ◌++◌}
use linux_network.ThreadPool.{
  Worker, testing, blocking, waiting, leaving_wait, done, Owner, free, to_notify, joining,
  destroyed, Pool, ready, finished,
}

-- The worker holds the mutex.
abbrev pub holds : Worker → Bool
holds testing = true
holds blocking = true
holds leaving_wait = true
holds _ = false

-- The destructor has stored the flag.
abbrev pub closing : Owner → Bool
closing free = false
closing to_notify = false
closing _ = true

-- What a worker's place says about the queue and the flag.
abbrev pub Knows : Pool → Worker → Type 0
Knows p blocking = p.tasks ≡ []
Knows p leaving_wait = ready p ≡ true
Knows p done = finished p ≡ true
Knows p _ = Unit {0}

-- What the owner's place says about the workers.
abbrev pub OwnerKnows : ℕ → Pool → Owner → Type 0
OwnerKnows n p (joining k) = (i : ℕ) → i < k → p.workers i ≡ done
OwnerKnows n p destroyed = (i : ℕ) → i < n → p.workers i ≡ done
OwnerKnows n p _ = Unit {0}

-- A worker that will look at the queue before it blocks, or has returned.
abbrev pub Awake : ℕ → Pool → Type 0
Awake n p = (i : ℕ) × (i < n) × (p.workers i ≢ waiting)

pub record Inv (n : ℕ) (p : Pool) : Type 0 where
  pub holder : (i : ℕ) → holds (p.workers i) ≡ true → p.mutex ≡ some i
  pub order : p.accepted ≡ p.started ++ p.tasks
  pub knows : (i : ℕ) → Knows p (p.workers i)
  pub flag : p.stop ≡ closing p.owner
  pub joined : OwnerKnows n p p.owner
  pub awake : p.tasks ≢ [] → p.owner ≢ to_notify → Awake n p
