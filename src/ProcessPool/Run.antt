-- ===== src/ProcessPool/Run.antt =====
-- cpt_15_3.h, processpool::run and setup_sig_pipe: how a process starts as the parent or as a child, once
-- the constructor has run. A failed assertion is `none`.
use linux_network.Base.{
  ℕ, Bool, false, if◌then◌else◌, Option, none, some, List, [], ◌∷◌, ◌++◌, length,
}
use linux_network.CgiConn.{Conn}
use linux_network.ProcessPool.{Parent, WaitAnswer, Progress, child, run_parent}
use linux_network.ProcessPool.Create.{Created}
use linux_network.ProcessPool.Child.{Child, ChildWait, ChildStep, run_child}

-- The signals that a process sets up.
pub data Trapped : Type 0 where
  chld : Trapped
  term : Trapped
  interrupt : Trapped
  broken_pipe : Trapped

-- `watch epollfd fd` is an EPOLL_CTL_ADD with EPOLLIN and EPOLLET; `catch sig` sets sig_handler up.
pub data SetupAction : Type 0 where
  non_blocking : ℕ → SetupAction
  watch : ℕ → ℕ → SetupAction
  catch : Trapped → SetupAction
  ignore : Trapped → SetupAction

-- The answers of epoll_create and socketpair, and whether sigaction succeeds for a signal.
pub record Setup : Type 0 where
  pub epoll : Option ℕ
  pub pair : Option (ℕ × ℕ)
  pub sigaction_ok : Trapped → Bool

abbrev pub setnonblocking : ℕ → List SetupAction
setnonblocking fd = non_blocking fd ∷ []

abbrev pub addfd : ℕ → ℕ → List SetupAction
addfd epollfd fd = watch epollfd fd ∷ setnonblocking fd

-- m_epollfd and sig_pipefd[0].
pub record Ready : Type 0 where
  pub epollfd : ℕ
  pub sig_fd : ℕ
  pub actions : List SetupAction

abbrev pub ready_on : ℕ → ℕ × ℕ → Ready
ready_on epollfd (a, b) = record {
  epollfd = epollfd;
  sig_fd = a;
  actions =
      setnonblocking b
      ++ addfd epollfd a
      ++ catch chld ∷ catch term ∷ catch interrupt ∷ ignore broken_pipe ∷ [];
}

-- The assertion of addsig on sigaction, in front of what follows.
abbrev pub addsig : Setup → Trapped → Option Ready → Option Ready
addsig s sig rest = if s.sigaction_ok sig then rest else none

unfoldable pub setup_sig_pipe : Setup → Option Ready
setup_sig_pipe s = elim s.epoll [
  | none ↦ none
  | some epollfd ↦ elim s.pair [
    | none ↦ none
    | some ab ↦
        addsig s chld
          (addsig s term (addsig s interrupt (addsig s broken_pipe (some (ready_on epollfd ab)))))
  ]
]

-- What runs in a process: what it has set up, the state in which its loop starts, and the loop.
pub data Running : Type 0 where
  runs_parent : List SetupAction → Parent → Progress → Running
  runs_child : List SetupAction → Child → Option ChildStep → Running

-- The start of run_parent.
abbrev pub first_parent : Created → ℕ → Ready → Parent
first_parent c listenfd r = record {
  listenfd = listenfd;
  sig_fd = r.sig_fd;
  epollfd = r.epollfd;
  number = length c.children;
  children = c.children;
  stop = false;
  counter = 0;
}

-- The start of run_child, in the child with index `i`.
abbrev pub first_child : Created → ℕ → (ℕ → Conn) → Ready → Child
first_child c i users r = record {
  epollfd = r.epollfd;
  pipefd = (child c.children i).pipe_child;
  sig_fd = r.sig_fd;
  users = users;
  stop = false;
}

-- `users` is what the new array holds.
abbrev pub run_in : Created → ℕ → (ℕ → Conn) → List WaitAnswer → List ChildWait → Ready → Running
run_in c listenfd users ws cws r = elim c.idx [
  | none ↦
      let p = first_parent c listenfd r in
      runs_parent (r.actions ++ addfd r.epollfd listenfd) p (run_parent p ws)
  | some i ↦
      let d = first_child c i users r in
      runs_child (r.actions ++ addfd r.epollfd d.pipefd) d (run_child cws d)
]

-- processpool::run, on the answers of epoll_wait.
unfoldable pub run :
    Created → ℕ → (ℕ → Conn) → Setup → List WaitAnswer → List ChildWait → Option Running
run c listenfd users s ws cws = elim (setup_sig_pipe s) [
  | none ↦ none
  | some r ↦ some (run_in c listenfd users ws cws r)
]
