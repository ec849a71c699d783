-- ===== src/ProcessPool/Pairing.antt =====
-- cpt_15_3.h: the parent and a child that come out of the same forks.
use mathlib.Core.Option.{some-injective}
use native.Mathlib.Nat.{add-zero}
use linux_network.Base.{
  ℕ, zero, suc, ◌+◌, ◌≤◌, ◌<◌, ◌≡◌, refl, sym, ap, ◌∙◌, subst, Option, none, some, List, ◌∷◌, ◌++◌,
  arith, true,
}
use linux_network.CgiConn.{Conn}
use linux_network.ProcessPool.{is_live, Parent, WaitAnswer, child, max_process_number, run_parent}
use linux_network.ProcessPool.Create.{
  Spawn, Created, in_child, in_parent, spawn_all, spawn_round, create, new_process, ParentRound,
  spawn_all-parent, create-parent, create-child,
}
use linux_network.ProcessPool.Child.{Child, ChildWait, run_child}
use linux_network.ProcessPool.Run.{
  Setup, Running, runs_parent, runs_child, addfd, Ready, first_parent, first_child, run,
  setup_sig_pipe, run_in,
}

spawn_all-suc :
    (env : ℕ → Spawn) (n i x y pid : ℕ) (c c1 : Created)
    → (env i).pair ≡ some (x, y)
    → (env i).fork ≡ in_parent pid
    → spawn_all env n (suc i) ≡ some c1
    → spawn_all env (suc n) i ≡ some c
    → record c1 { children = new_process pid x y ∷ c1.children; closed = y ∷ c1.closed } ≡ c
unfolding spawn_all spawn_round
spawn_all-suc env n i x y pid c c1 e f rest made =
    some-injective _ _ (sym (rw (e, f, rest) refl) ∙ made)

-- The parent's entry for the child of round `k` has the parent's end of its pair.
spawn_all-entry :
    (env : ℕ → Spawn) (n i k a b : ℕ) (c : Created)
    → k < n
    → ((j : ℕ) → i ≤ j → j < i + n → ParentRound env j)
    → (env (i + k)).pair ≡ some (a, b)
    → spawn_all env n i ≡ some c
    → (child c.children k).pipe_parent ≡ a
spawn_all-entry env zero i k a b c lt ok e made = elim lt [ ]
spawn_all-entry env (suc n) i zero a b c lt ok e made =
    let (x, y, pid, e₀, f₀) = ok i (omega arith) (omega arith) in
    let (c1, made1, w1) =
      spawn_all-parent env n (suc i) (λ j lo hi. ok j (omega arith) (omega arith)) in
    let e' : (env i).pair ≡ some (a, b) = rw (add-zero i) at e in
    subst (λ d. (child d.children 0).pipe_parent ≡ a)
      (spawn_all-suc env n i x y pid c c1 e₀ f₀ made1 made)
      (ap (λ q. q.0) (some-injective _ _ (sym e₀ ∙ e')))
spawn_all-entry env (suc n) i (suc k) a b c lt ok e made =
    let (x, y, pid, e₀, f₀) = ok i (omega arith) (omega arith) in
    let (c1, made1, w1) =
      spawn_all-parent env n (suc i) (λ j lo hi. ok j (omega arith) (omega arith)) in
    let next : i + suc k ≡ suc i + k = omega arith in
    subst (λ d. (child d.children (suc k)).pipe_parent ≡ a)
      (spawn_all-suc env n i x y pid c c1 e₀ f₀ made1 made)
      (spawn_all-entry env n (suc i) k a b c1 (omega arith)
        (λ j lo hi. ok j (omega arith) (omega arith)) (rw next at e) made1)

create-entry :
    (env : ℕ → Spawn) (n k a b : ℕ) (c : Created)
    → n ≤ max_process_number
    → k < n
    → ((j : ℕ) → j < n → ParentRound env j)
    → (env k).pair ≡ some (a, b)
    → create env n ≡ some c
    → (child c.children k).pipe_parent ≡ a
unfolding create
create-entry env n k a b c small lt ok e made =
    let start : 0 + k ≡ k = omega arith in
    spawn_all-entry env n 0 k a b c lt (λ j lo hi. ok j (omega arith))
      (subst (λ z. (env z).pair ≡ some (a, b)) (sym start) e) (ground (arith, made, small, lt))

-- run, where setup_sig_pipe succeeds, in the parent and in a child.
pub run-parent :
    (c : Created) (listenfd : ℕ) (users : ℕ → Conn) (s : Setup) (r : Ready) (ws : List WaitAnswer)
    (cws : List ChildWait)
    → setup_sig_pipe s ≡ some r
    → c.idx ≡ none
    → run c listenfd users s ws cws
      ≡ some (
          runs_parent
            (r.actions ++ addfd r.epollfd listenfd)
            (first_parent c listenfd r)
            (run_parent (first_parent c listenfd r) ws))
unfolding run
run-parent c listenfd users s r ws cws x y =
    ap (λ o. elim o [ none ↦ none | some r ↦ some (run_in c listenfd users ws cws r) ]) x
    ∙ simp (y, run_in) refl

run-child :
    (c : Created) (i listenfd : ℕ) (users : ℕ → Conn) (s : Setup) (r : Ready) (ws : List WaitAnswer)
    (cws : List ChildWait)
    → setup_sig_pipe s ≡ some r
    → c.idx ≡ some i
    → run c listenfd users s ws cws
      ≡ some (
          runs_child
            (r.actions ++ addfd r.epollfd (child c.children i).pipe_child)
            (first_child c i users r)
            (run_child cws (first_child c i users r)))
unfolding run
run-child c i listenfd users s r ws cws x y =
    ap (λ o. elim o [ none ↦ none | some r ↦ some (run_in c listenfd users ws cws r) ]) x
    ∙ simp (y, run_in) refl

-- What `run` makes of the parent `c` and of the child `d` of round `k`, whose pair is `(a, b)`.
abbrev pub Paired :
    ℕ
    → ℕ
    → ℕ
    → ℕ
    → Ready
    → Ready
    → List WaitAnswer
    → List ChildWait
    → Option Running
    → Option Running
    → Type 0
Paired k a b listenfd r r' ws cws parent own =
    (p : Parent) × (q : Child) × (parent
      ≡ some (runs_parent (r.actions ++ addfd r.epollfd listenfd) p (run_parent p ws)))
    × (own ≡ some (runs_child (r'.actions ++ addfd r'.epollfd b) q (run_child cws q)))
    × (is_live (child p.children k) ≡ true)
    × ((child p.children k).pipe_parent ≡ a)
    × (q.pipefd ≡ b)

-- For at most 16 processes, with the same pair `(a, b)` from socketpair in round `k` of the parent and of
-- the child that it forks there, the parent's forks and the child's earlier ones having succeeded, and
-- setup_sig_pipe succeeding in both: `run` is run_parent in the parent, with child `k` alive and `a` as
-- the end on which it tells that child of connections, and run_child in the child, which watches the
-- other end, `b`.
pub run-Paired :
    (env own_env : ℕ → Spawn) (n k a b listenfd : ℕ) (users : ℕ → Conn) (s s' : Setup)
    (r r' : Ready) (ws : List WaitAnswer) (cws : List ChildWait)
    → n ≤ max_process_number
    → k < n
    → ((j : ℕ) → j < n → ParentRound env j)
    → (env k).pair ≡ some (a, b)
    → ((j : ℕ) → j < k → ParentRound own_env j)
    → (own_env k).pair ≡ some (a, b)
    → (own_env k).fork ≡ in_child
    → setup_sig_pipe s ≡ some r
    → setup_sig_pipe s' ≡ some r'
    → (c : Created) × (d : Created) × (create env n ≡ some c)
      × (create own_env n ≡ some d)
      × Paired k a b listenfd r r' ws cws
          (run c listenfd users s ws cws)
          (run d listenfd users s' ws cws)
run-Paired env own_env n k a b listenfd users s s' r r' ws cws small lt ok e own_ok e' f' set set' =
    let (c, made, pool) = create-parent env n (omega arith) small ok in
    let (d, own_made, own_pool) = create-child own_env n k a b small lt own_ok e' f' in
    let end : (child d.children k).pipe_child ≡ b = ap (λ p. p.pipe_child) own_pool.own_entry in
    (
      c,
      d,
      made,
      own_made,
      (
        first_parent c listenfd r,
        first_child d k users r',
        run-parent c listenfd users s r ws cws set pool.no_idx,
        run-child d k listenfd users s' r' ws cws set' own_pool.own_idx
            ∙ ap
                (λ z. some (
                  runs_child (r'.actions ++ addfd r'.epollfd z) (first_child d k users r')
                    (run_child cws (first_child d k users r'))))
                end,
        pool.live k lt,
        create-entry env n k a b c small lt ok e made,
        end,
      ),
    )
