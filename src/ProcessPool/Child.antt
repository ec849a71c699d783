-- ===== src/ProcessPool/Child.antt =====
-- cpt_15_3.h, run_child: the loop of a child process over its connections, on top of cgi_conn.
use linux_network.Base.{
  ℕ, Bool, true, false, ◌&&◌, Option, none, some, List, [], ◌∷◌, ◌++◌, ◌==◌, if◌then◌else◌, map,
  ite, ℕ_discrete, ltb,
}
use linux_network.CgiConn
use linux_network.CgiConn.{Conn, Received, System, Outcome, polling, ended}
use linux_network.ProcessPool.{Signal, sigchld, sigterm, sigint, other}

-- What recv answers on the pipe: an int from the parent, 0, -1 with EAGAIN, -1 with another errno.
pub data PipeAnswer : Type 0 where
  told : PipeAnswer
  pipe_closed : PipeAnswer
  would_block : PipeAnswer
  pipe_error : PipeAnswer

-- An entry that epoll_wait reports, with the answers of the calls that the child may make on it: recv
-- on the pipe and accept (a descriptor and an address), recv on the signal pipe, and those that
-- cgi_conn::process makes.
pub record ChildEvent : Type 0 where
  pub fd : ℕ
  pub input : Bool
  pub pipe_answer : PipeAnswer
  pub accepted : Option (ℕ × ℕ)
  pub signals : List Signal
  pub answers : List Received
  pub system : System

-- USER_PER_PROCESS, the length of `users`
abbrev pub user_per_process : ℕ
user_per_process = 65536

pub record Child : Type 0 where
  pub epollfd : ℕ
  pub pipefd : ℕ
  pub sig_fd : ℕ  -- sig_pipefd[0]
  pub users : ℕ → Conn
  pub stop : Bool

pub data ChildAction : Type 0 where
  add_fd : ℕ → ℕ → ChildAction
  client : CgiConn.Action → ChildAction
  close_fd : ℕ → ChildAction

-- `stuck`: cgi_conn::process has not returned. `replaced`: this is the process that it has forked, which
-- never comes back from execl and exit(0). `fault`: `users` is accessed behind its end.
pub data ChildStep : Type 0 where
  goes_on : Child → List ChildAction → ChildStep
  stuck : Child → ChildStep
  replaced : List ChildAction → ChildStep
  fault : ChildStep

abbrev pub update_user : (ℕ → Conn) → ℕ → Conn → ℕ → Conn
update_user users fd c j = ite (ℕ_discrete fd j) c (users j)

-- ((ret < 0) && (errno != EAGAIN)) || ret == 0
abbrev pub refuses : PipeAnswer → Bool
refuses told = false
refuses pipe_closed = true
refuses would_block = false
refuses pipe_error = true

unfoldable pub accept_client : Child → Option (ℕ × ℕ) → ChildStep
accept_client c none = goes_on c []
accept_client c (some (connfd, address)) =
    if ltb connfd user_per_process
    then goes_on
        (record c { users = update_user c.users connfd (CgiConn.init c.epollfd connfd address) })
        (add_fd c.epollfd connfd ∷ [])
    else fault

-- SIGTERM and SIGINT set m_stop; SIGCHLD waits for processes and changes nothing here.
unfoldable pub stop_after : Bool → List Signal → Bool
stop_after stop [] = stop
stop_after stop (sigchld pids ∷ ss) = stop_after stop ss
stop_after stop (sigterm ∷ ss) = stop_after true ss
stop_after stop (sigint ∷ ss) = stop_after true ss
stop_after stop (other ∷ ss) = stop_after stop ss

-- Is there an execl? It replaces the process, and where it does not, exit(0) follows.
unfoldable pub leaves : List CgiConn.Action → Bool
leaves [] = false
leaves (CgiConn.execl file ∷ acts) = true
leaves (CgiConn.epoll_del epollfd fd ∷ acts) = leaves acts
leaves (CgiConn.close fd ∷ acts) = leaves acts
leaves (CgiConn.dup fd ∷ acts) = leaves acts
leaves (CgiConn.exit code ∷ acts) = leaves acts

abbrev process_client : Child → ℕ → Outcome → ChildStep
process_client c fd (polling conn) = stuck (record c { users = update_user c.users fd conn })
process_client c fd (ended conn acts) =
    if leaves acts
    then replaced (map client acts)
    else goes_on (record c { users = update_user c.users fd conn }) (map client acts)

-- One round of the loop over the events.
unfoldable pub child_event : Child → ChildEvent → ChildStep
unfolding leaves
child_event c e =
    if e.fd == c.pipefd && e.input
    then (if refuses e.pipe_answer then goes_on c [] else accept_client c e.accepted)
    else if e.fd == c.sig_fd && e.input
    then goes_on (record c { stop = stop_after c.stop e.signals }) []
    else if e.input
    then (if ltb e.fd user_per_process
        then process_client c e.fd (CgiConn.process e.system e.answers (c.users e.fd))
        else fault)
    else goes_on c []

abbrev pub and_then : ChildStep → (Child → ChildStep) → ChildStep
and_then (stuck c) k = stuck c
and_then (replaced acts) k = replaced acts
and_then fault k = fault
and_then (goes_on c acts) k = elim (k c) [
  | stuck d ↦ stuck d
  | goes_on d more ↦ goes_on d (acts ++ more)
  | replaced more ↦ replaced (acts ++ more)
  | fault ↦ fault
]

unfoldable pub child_events : Child → List ChildEvent → ChildStep
child_events c [] = goes_on c []
child_events c (e ∷ es) = and_then (child_event c e) (λ d. child_events d es)

-- What epoll_wait answers: entries, -1 with EINTR, -1 with another errno.
pub data ChildWait : Type 0 where
  child_ready : List ChildEvent → ChildWait
  child_interrupted : ChildWait
  child_failure : ChildWait

-- The end of run_child: close(pipefd), close(m_epollfd).
abbrev leave : Child → ChildStep
leave c = goes_on c (close_fd c.pipefd ∷ close_fd c.epollfd ∷ [])

-- The events of one wake-up, and then the loop again.
abbrev pub then_again : ChildStep → (Child → Option ChildStep) → Option ChildStep
then_again (stuck c) k = some (stuck c)
then_again (replaced acts) k = some (replaced acts)
then_again fault k = some fault
then_again (goes_on c acts) k = elim (k c) [
  | none ↦ none
  | some s ↦ some (and_then (goes_on c acts) (λ _. s))
]

-- while (!m_stop), on the answers of epoll_wait; `none` while the loop goes on.
unfoldable pub run_child : List ChildWait → Child → Option ChildStep
run_child [] c = if c.stop then some (leave c) else none
run_child (child_failure ∷ ws) c = some (leave c)
run_child (child_interrupted ∷ ws) c =
    let later = run_child ws c in if c.stop then some (leave c) else later
run_child (child_ready es ∷ ws) c =
    let later = then_again (child_events c es) (run_child ws) in
    if c.stop then some (leave c) else later
