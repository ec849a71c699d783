-- ===== src/ProcessPool/Create.antt =====
-- cpt_15_3.h, the constructor of processpool: a socket pair and a fork for each child. What
-- socketpair and fork answer in round `i` is an argument.
use native.Mathlib.Nat.{add-zero}
use linux_network.Base.{
  ℕ, zero, suc, ◌+◌, ◌≤◌, ◌<◌, ◌≡◌, refl, ap, true, ◌&&◌, Option, none, some, List, [], ◌∷◌, arith,
  ltb, leb, if◌then◌else◌, length, replicate, length-replicate, get_elem?, subst,
}
use linux_network.ProcessPool.{Process, dead, is_live, child, max_process_number}
use linux_network.ProcessPool.RoundRobin.{AllLive}

pub data Forked : Type 0 where
  fork_failed : Forked
  in_child : Forked
  in_parent : ℕ → Forked

-- `pair` is `none` where socketpair fails.
pub record Spawn : Type 0 where
  pub pair : Option (ℕ × ℕ)
  pub fork : Forked

-- What the constructor leaves in the process that runs on: m_sub_process, m_idx (`none` for -1), and
-- the descriptors that it closed.
pub record Created : Type 0 where
  pub children : List Process
  pub idx : Option ℕ
  pub closed : List ℕ

abbrev pub new_process : ℕ → ℕ → ℕ → Process
new_process pid a b = record { pid = some pid; pipe_parent = a; pipe_child = b }

-- The parent's side of one round, in front of the later rounds.
abbrev pub after_parent : Process → Option Created → Option Created
after_parent p none = none
after_parent p (some rest) =
    some (record rest { children = p ∷ rest.children; closed = p.pipe_child ∷ rest.closed })

-- The round from the answers: a failed assertion is `none`. A child leaves the loop at once, with the
-- entries behind its own as they were.
unfoldable pub spawn_round : ℕ → ℕ → Option (ℕ × ℕ) → Forked → Option Created → Option Created
spawn_round n i none f rest = none
spawn_round n i (some (a, b)) fork_failed rest = none
spawn_round n i (some (a, b)) in_child rest =
    some (record { children = new_process 0 a b ∷ replicate n dead; idx = some i; closed = a ∷ [] })
spawn_round n i (some (a, b)) (in_parent pid) rest = after_parent (new_process pid a b) rest

-- for (int i = 0; i < process_number; i++), on the rounds left
unfoldable pub spawn_all : (ℕ → Spawn) → ℕ → ℕ → Option Created
spawn_all env zero i = some (record { children = []; idx = none; closed = [] })
spawn_all env (suc n) i = spawn_round n i (env i).pair (env i).fork (spawn_all env n (suc i))

-- With the assertion on the number of processes.
unfoldable pub create : (ℕ → Spawn) → ℕ → Option Created
create env number =
    if ltb 0 number && leb number max_process_number then spawn_all env number 0 else none

-- Round `i` answers in the parent: the pair and a pid.
abbrev pub ParentRound : (ℕ → Spawn) → ℕ → Type 0
ParentRound env i = (a b pid : ℕ) × ((env i).pair ≡ some (a, b)) × ((env i).fork ≡ in_parent pid)

-- m_idx, the number of children, and who of them lives.
pub record ParentPool (n : ℕ) (c : Created) : Type 0 where
  pub no_idx : c.idx ≡ none
  pub all : length c.children ≡ n
  pub live : AllLive n c.children
  pub ends_closed : length c.closed ≡ n

AllLive-cons :
    (n : ℕ) (p : Process) (ps : List Process)
    → is_live p ≡ true
    → AllLive n ps
    → AllLive (suc n) (p ∷ ps)
AllLive-cons n p ps h live zero lt = h
AllLive-cons n p ps h live (suc i) lt = live i (omega arith)

ParentPool-cons :
    (n : ℕ) (p : Process) (c : Created)
    → is_live p ≡ true
    → ParentPool n c
    → ParentPool (suc n) (record c { children = p ∷ c.children; closed = p.pipe_child ∷ c.closed })
ParentPool-cons n p c h w = record {
  no_idx = w.no_idx;
  all = ap suc w.all;
  live = AllLive-cons n p c.children h w.live;
  ends_closed = ap suc w.ends_closed;
}

pub spawn_all-parent :
    (env : ℕ → Spawn) (n i : ℕ)
    → ((j : ℕ) → i ≤ j → j < i + n → ParentRound env j)
    → (c : Created) × (spawn_all env n i ≡ some c) × ParentPool n c
unfolding spawn_all spawn_round
spawn_all-parent env zero i ok =
    (_, refl, record { no_idx = refl; all = refl; live = λ j lt. elim lt [ ]; ends_closed = refl })
spawn_all-parent env (suc n) i ok =
    let (a, b, pid, e, f) = ok i (omega arith) (omega arith) in
    let (c, g, w) = spawn_all-parent env n (suc i) (λ j lo hi. ok j (omega arith) (omega arith)) in
    let p = new_process pid a b in
    (
      record c { children = p ∷ c.children; closed = b ∷ c.closed },
      rw (e, f, g) refl,
      ParentPool-cons n p c refl w,
    )

-- For 1 to 16 processes: where socketpair and fork succeed in every round and fork answers in the
-- parent, the constructor leaves the parent with that many live
-- children, no index of its own, and each child's end of its pipe closed.
pub create-parent :
    (env : ℕ → Spawn) (n : ℕ)
    → 0 < n
    → n ≤ max_process_number
    → ((j : ℕ) → j < n → ParentRound env j)
    → (c : Created) × (create env n ≡ some c) × ParentPool n c
unfolding create
create-parent env n pos small ok =
    let (c, e, w) = spawn_all-parent env n 0 (λ j lo hi. ok j (omega arith)) in
    (c, ground (arith, e), w)

-- The view of the child that the fork of round `k` makes, `n` rounds in all.
pub record ChildPool (n k idx a b : ℕ) (c : Created) : Type 0 where
  pub own_idx : c.idx ≡ some idx
  pub all : length c.children ≡ n
  pub own_entry : child c.children k ≡ record { pid = some 0; pipe_parent = a; pipe_child = b }
  pub own_end : get_elem? c.closed k ≡ some a

spawn_all-child :
    (env : ℕ → Spawn) (n i k a b : ℕ)
    → k < n
    → ((j : ℕ) → i ≤ j → j < i + k → ParentRound env j)
    → (env (i + k)).pair ≡ some (a, b)
    → (env (i + k)).fork ≡ in_child
    → (c : Created) × (spawn_all env n i ≡ some c) × ChildPool n k (i + k) a b c
unfolding spawn_all spawn_round
spawn_all-child env zero i k a b lt ok e f = elim lt [ ]
spawn_all-child env (suc n) i zero a b lt ok e f =
    let at_i : i + 0 ≡ i = add-zero i in
    let e' : (env i).pair ≡ some (a, b) = rw at_i at e in
    let f' : (env i).fork ≡ in_child = rw at_i at f in
    (
      record { children = new_process 0 a b ∷ replicate n dead; idx = some i; closed = a ∷ [] },
      rw (e', f') refl,
      record {
        own_idx = rw at_i refl;
        all = ap suc (length-replicate n dead);
        own_entry = refl;
        own_end = refl;
      },
    )
spawn_all-child env (suc n) i (suc k) a b lt ok e f =
    let (x, y, pid, e₀, f₀) = ok i (omega arith) (omega arith) in
    let next : i + suc k ≡ suc i + k = omega arith in
    let (c, g, w) =
      spawn_all-child env n (suc i) k a b (omega arith)
        (λ j lo hi. ok j (omega arith) (omega arith)) (rw next at e) (rw next at f) in
    let p = new_process pid x y in
    (
      record c { children = p ∷ c.children; closed = y ∷ c.closed },
      rw (e₀, f₀, g) refl,
      record {
        own_idx = rw next w.own_idx;
        all = ap suc w.all;
        own_entry = w.own_entry;
        own_end = w.own_end;
      },
    )

-- For at most 16 processes: in the child that the fork of round `k` makes, the earlier rounds having
-- succeeded in the parent, the constructor leaves the index `k`, an entry with
-- pid 0 and its own pair there, and the parent's end of that pair closed.
pub create-child :
    (env : ℕ → Spawn) (n k a b : ℕ)
    → n ≤ max_process_number
    → k < n
    → ((j : ℕ) → j < k → ParentRound env j)
    → (env k).pair ≡ some (a, b)
    → (env k).fork ≡ in_child
    → (c : Created) × (create env n ≡ some c) × ChildPool n k k a b c
unfolding create
create-child env n k a b small lt ok e f =
    let start : 0 + k ≡ k = omega arith in
    let (c, g, w) =
      spawn_all-child env n 0 k a b lt (λ j lo hi. ok j (omega arith)) (rw start e) (rw start f) in
    (c, ground (arith, g), subst (λ m. ChildPool n k m a b c) start w)
