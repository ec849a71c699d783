-- ===== src/ProcessPool/Program.antt =====
-- main.cpp, the program of the process pool, and of linux_server/cpt_15_3.h what it uses beside `run`: the
-- one instance of processpool, its destructor and the way of a signal. `atoi` and the numbers of the
-- signals are parameters. A process that forks is followed on one of its sides, as in Create.
pub mod Idle
mod ProgramTests
use linux_network.Base.{
  ℕ, ◌%◌, ℤ, Bool, Option, none, some, List, [], ◌∷◌, ◌++◌, ◌==◌, if◌then◌else◌,
}
use linux_network.LinuxClient.{to_uint16}
use linux_network.CgiConn.{Conn}
use linux_network.ProcessPool.{
  Signal, sigchld, sigterm, sigint, other, Action, WaitAnswer, Progress, waiting, returned,
}
use linux_network.ProcessPool.Create.{Spawn, Created, create}
use linux_network.ProcessPool.Child.{
  ChildAction, ChildStep, replaced, fault, goes_on, stuck, ChildWait,
}
use linux_network.ProcessPool.Run.{Setup, SetupAction, Running, runs_parent, runs_child, run}

-- What a process does.
pub data Call : Type 0 where
  opened : ℕ → Call
  bind : ℕ → List ℕ → ℕ → Call
  listen : ℕ → ℕ → Call
  set_up : List SetupAction → Call
  parent_did : List Action → Call
  child_did : List ChildAction → Call
  delete_pool : Call
  close : ℕ → Call

-- `aborts` is a failed assertion, `running` a process that has not come to the end of `run`,
-- `turned` one that cgi_conn::process has forked and that is behind its execl or exit(0), `faults` an
-- access behind the end of `users`.
pub data Life : Type 0 where
  aborts : Life
  running : Life
  turned : Life
  faults : Life
  exits : ℕ → List Call → Life

pub record Answers : Type 0 where
  pub socket : Option ℕ
  pub bind_ok : Bool
  pub listen_ok : Bool

-- The byte that sig_handler sends: the first one of the int, on a machine that stores the low byte first.
abbrev pub sig_handler : ℕ → ℕ
sig_handler sig = sig % 256

-- The switch of the parent on a byte; `pids` is what waitpid gives where it is SIGCHLD.
abbrev pub decode : ℕ → ℕ → ℕ → List ℕ → ℕ → Signal
decode chld term int pids b =
    if b == chld
    then sigchld pids
    else if b == term
    then sigterm
    else if b == int
    then sigint
    else other

-- processpool::create: `instance` is m_instance.
abbrev pub create_instance : Option Created → (ℕ → Spawn) → ℕ → Option Created
create_instance none env number = create env number
create_instance (some pool) env number = some pool

-- The end of main behind `run`: the destructor, which gives back m_sub_process, and close(listenfd).
abbrev pub behind_run : ℕ → List SetupAction → Call → Life
behind_run listenfd acts did = exits 0 (set_up acts ∷ did ∷ delete_pool ∷ close listenfd ∷ [])

unfoldable pub finish : ℕ → Running → Life
finish listenfd (runs_parent acts p waiting) = running
finish listenfd (runs_parent acts p (returned p' did)) = behind_run listenfd acts (parent_did did)
finish listenfd (runs_child acts c none) = running
finish listenfd (runs_child acts c (some (goes_on c' did))) =
    behind_run listenfd acts (child_did did)
finish listenfd (runs_child acts c (some (replaced did))) = turned
finish listenfd (runs_child acts c (some fault)) = faults
finish listenfd (runs_child acts c (some (stuck c'))) = running

abbrev pub in_front : List Call → Life → Life
in_front calls aborts = aborts
in_front calls running = running
in_front calls turned = turned
in_front calls faults = faults
in_front calls (exits code later) = exits code (calls ++ later)

-- The default of process_number
abbrev pub process_number : ℕ
process_number = 8

module _ (env : ℕ → Spawn) (s : Setup) (users : ℕ → Conn) (ws : List WaitAnswer)
    (cws : List ChildWait) where
  -- pool->run() and what is behind it.
  unfoldable pub run_pool : ℕ → Created → Life
  unfolding finish
  run_pool listenfd c = elim (run c listenfd users s ws cws) [
    | none ↦ aborts
    | some r ↦ finish listenfd r
  ]

  -- Behind listen.
  unfoldable pub with_pool : ℕ → Life
  unfolding run_pool
  with_pool listenfd = elim (create_instance none env process_number) [
    | none ↦ aborts
    | some c ↦ run_pool listenfd c
  ]

  -- Behind socket.
  abbrev pub with_socket : ℕ → List ℕ → ℤ → Answers → Life
  with_socket listenfd ip port ans =
      let later =
        in_front (opened listenfd ∷ bind listenfd ip (to_uint16 port) ∷ listen listenfd 5 ∷ [])
          (with_pool listenfd) in
      if ans.bind_ok then if ans.listen_ok then later else aborts else aborts

  -- main on argv.
  unfoldable pub main : (List ℕ → ℤ) → List (List ℕ) → Answers → Life
  main atoi [] ans = exits 1 []
  main atoi (name ∷ []) ans = exits 1 []
  main atoi (name ∷ ip ∷ []) ans = exits 1 []
  main atoi (name ∷ ip ∷ port ∷ more) ans = elim ans.socket [
    | none ↦ aborts
    | some listenfd ↦ with_socket listenfd ip (atoi port) ans
  ]
