-- ===== src/TimerServer/Program.antt =====
-- linux_server/cpt_11_2_2.h: test_timer_server around its main loop, and the way of a signal. `atoi` and
-- the numbers of the signals are parameters; the answers of the calls in front of the loop are a record.
pub mod Signals
pub mod Keeping
pub mod Stopping
pub mod Whole
mod ProgramTests
use linux_network.Base.{
  ℕ, ◌+◌, ◌%◌, ℤ, Bool, false, Option, none, some, List, [], ◌∷◌, ◌++◌, map, ◌==◌, if◌then◌else◌,
}
use linux_network.LinuxClient.{to_uint16}
use linux_network.TimerList.{new_list}
use linux_network.TimerServer.{
  Client, Server, Action, close, alarm, Signal, sigalrm, sigterm, other_signal, Event, timeslot,
  serve,
}

-- What is done, the actions of the main loop included.
pub data Call : Type 0 where
  opened : ℕ → Call
  bind : ℕ → List ℕ → ℕ → Call
  listen : ℕ → ℕ → Call
  epoll_watch : ℕ → ℕ → Call
  set_nonblocking : ℕ → Call
  sigaction : ℕ → Call
  did : Action → Call
  delete_users : Call

-- `fault` is a result `none` of the main loop; `waits` is a process in epoll_wait.
pub data Outcome : Type 0 where
  aborts : Outcome
  fault : Outcome
  returns : ℕ → Outcome
  waits : Outcome

-- Descriptors, `none` where the call gives -1; `sigaction_ok sig` for the signal `sig`; `users` is what
-- `new` finds in the memory.
pub record Answers : Type 0 where
  pub socket : Option ℕ
  pub bind_ok : Bool
  pub listen_ok : Bool
  pub epoll_create : Option ℕ
  pub socketpair : Option (ℕ × ℕ)
  pub sigaction_ok : ℕ → Bool
  pub users : ℕ → Client

abbrev pub setnonblocking : ℕ → List Call
setnonblocking fd = set_nonblocking fd ∷ []

abbrev pub addfd : ℕ → ℕ → List Call
addfd epollfd fd = epoll_watch epollfd fd ∷ []

-- The byte that sig_handler sends: the first one of the int, on a machine that stores the low byte first.
abbrev pub sig_handler : ℕ → ℕ
sig_handler sig = sig % 256

-- Calls, an assertion on the last of them, and what follows.
abbrev pub asserted : Bool → List Call → Outcome × List Call → Outcome × List Call
asserted ok calls (o, later) = if ok then (o, calls ++ later) else (aborts, calls)

abbrev pub add_sig : Answers → ℕ → Outcome × List Call → Outcome × List Call
add_sig ans sig rest = asserted (ans.sigaction_ok sig) (sigaction sig ∷ []) rest

abbrev pub tear_down : ℕ → ℕ → ℕ → List Call
tear_down listenfd p0 p1 =
    did (close listenfd) ∷ did (close p1) ∷ did (close p0) ∷ delete_users ∷ []

abbrev pub new_server : (ℕ → Client) → Server
new_server users = record { users = users; timers = new_list; timeout = false; stop = false }

module _ (sigalrm_number sigterm_number : ℕ) where
  -- The switch over a byte from the pipe.
  abbrev pub decode : ℕ → Signal
  decode b =
      if b == sigalrm_number then sigalrm else if b == sigterm_number then sigterm else other_signal

  -- The main loop and what is behind it.
  unfoldable pub run_loop :
      ℕ → ℕ → ℕ → ℕ → List (Option (List Event × ℕ)) → Answers → Outcome × List Call
  run_loop listenfd p0 p1 fuel ws ans = elim (serve listenfd p0 fuel ws (new_server ans.users)) [
    | none ↦ (fault, [])
    | some (s, acts, over) ↦
        if over
        then (returns 0, map did acts ++ tear_down listenfd p0 p1)
        else (waits, map did acts)
  ]

  -- Behind socketpair.
  unfoldable pub with_pipe :
      ℕ → ℕ → ℕ × ℕ → ℕ → List (Option (List Event × ℕ)) → Answers → Outcome × List Call
  unfolding run_loop
  with_pipe listenfd epollfd (p0, p1) fuel ws ans =
      let (o, later) = add_sig ans sigalrm_number (
        add_sig ans sigterm_number (
          let (o, later) = run_loop listenfd p0 p1 fuel ws ans in
          (o, did (alarm timeslot) ∷ later))) in
      (o, opened p0 ∷ opened p1 ∷ setnonblocking p1 ++ addfd epollfd p0 ++ later)

  -- Behind epoll_create.
  unfoldable pub with_epoll :
      ℕ → ℕ → ℕ → List (Option (List Event × ℕ)) → Answers → Outcome × List Call
  unfolding with_pipe
  with_epoll listenfd epollfd fuel ws ans = elim ans.socketpair [
    | none ↦ (aborts, opened epollfd ∷ addfd epollfd listenfd)
    | some ends ↦
        let (o, later) = with_pipe listenfd epollfd ends fuel ws ans in
        (o, opened epollfd ∷ addfd epollfd listenfd ++ later)
  ]

  -- Behind socket.
  unfoldable pub with_socket :
      ℕ → List ℕ → ℤ → ℕ → List (Option (List Event × ℕ)) → Answers → Outcome × List Call
  unfolding with_epoll
  with_socket listenfd ip port fuel ws ans =
      asserted ans.bind_ok (opened listenfd ∷ bind listenfd ip (to_uint16 port) ∷ []) (
        asserted ans.listen_ok (listen listenfd 5 ∷ []) (elim ans.epoll_create [
          | none ↦ (aborts, [])
          | some epollfd ↦ with_epoll listenfd epollfd fuel ws ans
        ]))

  unfoldable pub test_timer_server :
      (List ℕ → ℤ)
      → List (List ℕ)
      → ℕ
      → List (Option (List Event × ℕ))
      → Answers
      → Outcome × List Call
  test_timer_server atoi [] fuel ws ans = (returns 1, [])
  test_timer_server atoi (name ∷ []) fuel ws ans = (returns 1, [])
  test_timer_server atoi (name ∷ ip ∷ []) fuel ws ans = (returns 1, [])
  test_timer_server atoi (name ∷ ip ∷ port ∷ more) fuel ws ans = elim ans.socket [
    | none ↦ (aborts, [])
    | some listenfd ↦ with_socket listenfd ip (atoi port) fuel ws ans
  ]
