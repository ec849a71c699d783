-- ===== src/ThreadPool/Steps.antt =====
-- thread_pool_server.cpp: every step of the pool keeps the invariant.
use linux_network.Base.{
  ℕ, suc, ◌<◌, ◌≡◌, ◌≢◌, refl, ap, ◌∙◌, true, none, some, [], ◌∷◌, ◌++◌, append_assoc, arith,
  dec_lt, subst,
}
use linux_network.ThreadPool.{
  Task, waiting, notified, done, free, to_notify, stopped, joining, destroyed, Pool, init, wake,
  Step, work, enqueue, enqueue_throws, notify_one, notify_nobody, store_stop, notify_all, join,
  joined_all, spurious, Reach, start, later,
}
use linux_network.ThreadPool.Family.{update}
use linux_network.ThreadPool.Invariant.{holds, Knows, OwnerKnows, Inv}
use linux_network.ThreadPool.Moves.{OwnerKnows-mono, Move-Inv}

init-Inv : (n : ℕ) → Inv n init
init-Inv n = record {
  holder = λ i h. cc;
  order = refl;
  knows = λ i. tt;
  flag = refl;
  joined = tt;
  awake = λ h _. absurd (h refl);
}

module _ {n : ℕ} {p : Pool} (inv : Inv n p) where
  open inv use {holder, order, knows, flag, joined, awake}

  enqueue-Inv :
      (t : Task)
      → p.owner ≡ free
      → p.mutex ≡ none
      → Inv n (record p {
        tasks = p.tasks ++ t ∷ [];
        owner = to_notify;
        accepted = p.accepted ++ t ∷ [];
      })
  enqueue-Inv t f m = record {
    holder = holder;
    order = ap (λ l. l ++ t ∷ []) order ∙ append_assoc p.started p.tasks (t ∷ []);
    knows = λ i. ground (arith, knows i, holder i);
    flag = ground (arith, flag);
    joined = tt;
    awake = λ _ h. absurd (h refl);
  }

  -- Worker `i` is woken.
  woken-Knows : (i : ℕ) → (j : ℕ) → Knows p (update p.workers i notified j)
  woken-Knows i j = ground (arith, knows j)

  woken_holder : (i : ℕ) → (j : ℕ) → holds (update p.workers i notified j) ≡ true → p.mutex ≡ some j
  woken_holder i j h = ground (arith, holder j)

  woken_done :
      (i : ℕ)
      → p.workers i ≡ waiting
      → (j : ℕ) → p.workers j ≡ done
      → update p.workers i notified j ≡ done
  woken_done i e j h = ground arith

  store_stop-Inv : p.owner ≡ free → Inv n (record p { stop = true; owner = stopped })
  store_stop-Inv f = record {
    holder = holder;
    order = order;
    knows = λ i. ground (arith, knows i);
    flag = refl;
    joined = tt;
    awake = λ h _. awake h (ground arith);
  }

  notify_all-Inv :
      p.owner ≡ stopped → Inv n (record p { workers = λ i. wake (p.workers i); owner = joining 0 })
  notify_all-Inv f = record {
    holder = λ i h. ground (arith, holder i);
    order = order;
    knows = λ i. ground (arith, knows i);
    flag = ground (arith, flag);
    joined = λ i lt. elim lt [ ];
    awake = λ h _. let (i, lt, up) = awake h (ground arith) in (i, lt, ground arith);
  }

  notify_one-Inv :
      (i : ℕ)
      → i < n
      → p.owner ≡ to_notify
      → p.workers i ≡ waiting
      → Inv n (record p { workers = update p.workers i notified; owner = free })
  notify_one-Inv i lt o e = record {
    holder = woken_holder i;
    order = order;
    knows = woken-Knows i;
    flag = ground (arith, flag);
    joined = tt;
    awake = λ _ _. (i, lt, ground arith);
  }

  notify_nobody-Inv :
      0 < n
      → p.owner ≡ to_notify
      → ((i : ℕ) → i < n → p.workers i ≢ waiting)
      → Inv n (record p { owner = free })
  notify_nobody-Inv some_worker o nobody = record {
    holder = holder;
    order = order;
    knows = knows;
    flag = ground (arith, flag);
    joined = tt;
    awake = λ _ _. (0, some_worker, nobody 0 some_worker);
  }

  spurious-Inv :
      (i : ℕ)
      → i < n
      → p.workers i ≡ waiting
      → Inv n (record p { workers = update p.workers i notified })
  spurious-Inv i lt e = record {
    holder = woken_holder i;
    order = order;
    knows = woken-Knows i;
    flag = flag;
    joined =
        OwnerKnows-mono n p (record p { workers = update p.workers i notified }) p.owner
          (woken_done i e) joined;
    awake = λ _ _. (i, lt, ground arith);
  }

  join-Inv :
      (i : ℕ)
      → p.owner ≡ joining i
      → p.workers i ≡ done
      → Inv n (record p { owner = joining (suc i) })
  join-Inv i o e = record {
    holder = holder;
    order = order;
    knows = knows;
    flag = ground (arith, flag);
    joined = λ j lt. elim (dec_lt j i) [
      | yes before ↦ (subst (OwnerKnows n p) o joined) j before
      | no last ↦ let same : j ≡ i = omega arith in rw same e
    ];
    awake = λ h _. awake h (ground arith);
  }

  joined_all-Inv : p.owner ≡ joining n → Inv n (record p { owner = destroyed })
  joined_all-Inv o = record {
    holder = holder;
    order = order;
    knows = knows;
    flag = ground (arith, flag);
    joined = subst (OwnerKnows n p) o joined;
    awake = λ h _. awake h (ground arith);
  }

pub Step-Inv : {n : ℕ} {p q : Pool} → 0 < n → Step n p q → Inv n p → Inv n q
Step-Inv pos (work i lt mv) inv = Move-Inv inv i mv refl lt
Step-Inv pos (enqueue t f m s) inv = enqueue-Inv inv t f m
Step-Inv pos (enqueue_throws f m s) inv = inv
Step-Inv pos (notify_one i lt o e) inv = notify_one-Inv inv i lt o e
Step-Inv pos (notify_nobody o nobody) inv = notify_nobody-Inv inv pos o nobody
Step-Inv pos (store_stop f) inv = store_stop-Inv inv f
Step-Inv pos (notify_all o) inv = notify_all-Inv inv o
Step-Inv pos (join {i} o lt e) inv = join-Inv inv i o e
Step-Inv pos (joined_all o) inv = joined_all-Inv inv o
Step-Inv pos (spurious i lt e) inv = spurious-Inv inv i lt e

pub Reach-Inv : {n : ℕ} {p : Pool} → 0 < n → Reach n p → Inv n p
Reach-Inv {n} pos start = init-Inv n
Reach-Inv pos (later r st) = Step-Inv pos st (Reach-Inv pos r)
