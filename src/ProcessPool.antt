-- ===== src/ProcessPool.antt =====
-- linux_server/cpt_15_3.h, class processpool: the parent that hands connections to child processes
-- and looks after the children, and the loop of a child. What the system calls answer are
-- arguments; what they do is a trace of actions.
pub mod Cycle
pub mod Choice
pub mod Children
pub mod RoundRobin
pub mod Wait
pub mod Create
pub mod Child
pub mod Clients
pub mod Run
pub mod Pairing
pub mod Program
mod Tests
mod RunTests
use linux_network.Base.{
  ℕ, zero, suc, ◌+◌, ◌%◌, Bool, true, false, ◌&&◌, Option, none, some, List, [], ◌∷◌, ◌++◌, ◌==◌,
  if◌then◌else◌, get_or,
}

abbrev pub max_process_number : ℕ
max_process_number = 16

-- class process: `none` is the pid -1.
pub record Process : Type 0 where
  pub pid : Option ℕ
  pub pipe_parent : ℕ  -- m_pipefd[0]
  pub pipe_child : ℕ  -- m_pipefd[1]

pub data Action : Type 0 where
  send : ℕ → Action
  close : ℕ → Action
  kill : ℕ → Action

-- A byte of the signal pipe. With SIGCHLD, the pids that waitpid returns until it has no more.
pub data Signal : Type 0 where
  sigchld : List ℕ → Signal
  sigterm : Signal
  sigint : Signal
  other : Signal

-- An entry that epoll_wait reports, with the signals that recv would read from it ([] where recv
-- returns 0 or -1).
pub record Event : Type 0 where
  pub fd : ℕ
  pub input : Bool
  pub signals : List Signal

-- The fields of processpool that run_parent uses, with its variable sub_process_counter.
pub record Parent : Type 0 where
  pub listenfd : ℕ
  pub sig_fd : ℕ  -- sig_pipefd[0]
  pub epollfd : ℕ
  pub number : ℕ  -- m_process_number
  pub children : List Process  -- m_sub_process
  pub stop : Bool
  pub counter : ℕ

abbrev pub dead : Process
dead = record { pid = none; pipe_parent = 0; pipe_child = 0 }

abbrev pub is_live : Process → Bool
is_live p = elim p.pid [ none ↦ false | some _ ↦ true ]

abbrev pub child : List Process → ℕ → Process
child ps i = get_or ps i dead

-- do { if (pid != -1) break; i = (i + 1) % n; } while (i != sub_process_counter);
unfoldable pub find_child : ℕ → ℕ → ℕ → List Process → ℕ → Option ℕ
find_child zero n counter ps i = none
find_child (suc fuel) n counter ps i =
    let i' = (i + 1) % n in
    let rest = find_child fuel n counter ps i' in
    if is_live (child ps i) then some i else if i' == counter then some i' else rest

-- What the branch for the listening socket does; `true` where it leaves the loop over the events.
unfoldable pub hand_out : Parent → ℕ → Parent × List Action × Bool
hand_out p i =
    if is_live (child p.children i)
    then (
      record p { counter = (i + 1) % p.number },
      send (child p.children i).pipe_parent ∷ [],
      false,
    )
    else (record p { stop = true }, [], true)

-- `if (m_sub_process[i].m_pid == pid)` for each index: close the pipe and forget the pid.
unfoldable pub reap : ℕ → List Process → List Process × List Action
reap pid [] = ([], [])
reap pid (p ∷ ps) =
    let (rest, acts) = reap pid ps in
    if (elim p.pid [ none ↦ false | some q ↦ q == pid ])
    then (record p { pid = none } ∷ rest, close p.pipe_parent ∷ acts)
    else (p ∷ rest, acts)

-- while ((pid = waitpid(-1, &stat, WNOHANG)) > 0)
unfoldable pub reap_all : List ℕ → List Process → List Process × List Action
reap_all [] ps = (ps, [])
reap_all (pid ∷ pids) ps =
    let (ps', acts) = reap pid ps in let (last, more) = reap_all pids ps' in (last, acts ++ more)

-- m_stop = true; for (i) if (pid != -1) m_stop = false;
unfoldable pub none_left : Bool → List Process → Bool
none_left stop [] = stop
none_left stop (p ∷ ps) = none_left (if is_live p then false else stop) ps

-- kill(pid, SIGTERM) for each child that is left
unfoldable pub kill_all : List Process → List Action
kill_all [] = []
kill_all (p ∷ ps) = elim p.pid [ none ↦ kill_all ps | some q ↦ kill q ∷ kill_all ps ]

unfoldable pub handle_signal : Parent → Signal → Parent × List Action
handle_signal p (sigchld pids) =
    let (ps, acts) = reap_all pids p.children in
    (record p { children = ps; stop = none_left true ps }, acts)
handle_signal p sigterm = (p, kill_all p.children)
handle_signal p sigint = (p, kill_all p.children)
handle_signal p other = (p, [])

unfoldable pub handle_signals : Parent → List Signal → Parent × List Action
handle_signals p [] = (p, [])
handle_signals p (s ∷ ss) =
    let (p', acts) = handle_signal p s in
    let (last, more) = handle_signals p' ss in (last, acts ++ more)

-- The branch for the listening socket.
unfoldable pub dispatch : Parent → Parent × List Action × Bool
dispatch p = elim (find_child p.number p.number p.counter p.children p.counter) [
  | none ↦ (p, [], true)
  | some i ↦ hand_out p i
]

-- One round of the loop over the events; `true` where the round ends it by `break`.
unfoldable pub handle_event : Parent → Event → Parent × List Action × Bool
handle_event p e =
    let (p', acts) = handle_signals p e.signals in
    if e.fd == p.listenfd
    then dispatch p
    else if e.fd == p.sig_fd && e.input
    then (p', acts, false)
    else (p, [], false)

-- for (i < number), on the events that epoll_wait stored
unfoldable pub handle_events : Parent → List Event → Parent × List Action
handle_events p [] = (p, [])
handle_events p (e ∷ es) =
    let (p', acts, leave) = handle_event p e in
    let (last, more) = handle_events p' es in if leave then (p', acts) else (last, acts ++ more)

-- What epoll_wait answers: entries, -1 with EINTR, -1 with another errno.
pub data WaitAnswer : Type 0 where
  ready : List Event → WaitAnswer
  interrupted : WaitAnswer
  failure : WaitAnswer

-- while (!m_stop) { number = epoll_wait(…); if (number < 0 && errno != EINTR) break; }
-- The entries that `number` and `events` hold behind the loop; `none` while the loop goes on.
unfoldable pub wait_loop : Bool → List Event → List WaitAnswer → Option (List Event)
wait_loop true last ws = some last
wait_loop false last [] = none
wait_loop false last (ready es ∷ ws) = wait_loop false es ws
wait_loop false last (interrupted ∷ ws) = wait_loop false [] ws
wait_loop false last (failure ∷ ws) = some []

pub data Progress : Type 0 where
  waiting : Progress
  returned : Parent → List Action → Progress

-- run_parent behind setup_sig_pipe: the loop, then the events, then close(m_epollfd).
unfoldable pub run_parent : Parent → List WaitAnswer → Progress
run_parent p ws = elim (wait_loop p.stop [] ws) [
  | none ↦ waiting
  | some es ↦ let (p', acts) = handle_events p es in returned p' (acts ++ close p.epollfd ∷ [])
]
