-- ===== src/TimerServer.antt =====
-- linux_server/cpt_11_2_2.h, namespace n_timer_server: a server that closes idle connections, on top of
-- the timer list. The answers of the system calls and the address that `new` gives are arguments; what
-- is done is a trace. `none` as a result is an access out of the bounds of `users`, the use of a null or
-- freed pointer, or the end of the fuel.
pub mod Accounts
pub mod Clients
pub mod Reading
pub mod Events
pub mod Idle
pub mod Serving
pub mod Accepting
pub mod Activity
pub mod Balance
pub mod Running
pub mod Program
mod Tests
use linux_network.Base.{
  ℕ, ◌+◌, ◌*◌, Bool, true, false, ◌&&◌, Option, none, some, List, [], ◌∷◌, ◌++◌, ltb, ◌==◌,
  if◌then◌else◌,
}
use linux_network.Chain.{Ptr, put, and_then, modify}
use linux_network.TimerList
use linux_network.TimerList.{TimerList, Timer}

-- FD_LIMIT and TIMESLOT
abbrev pub fd_limit : ℕ
fd_limit = 65535

abbrev pub timeslot : ℕ
timeslot = 5

-- The `epollfd` of the namespace, which cb_func uses; test_timer_server has a local one instead.
abbrev pub global_epollfd : ℕ
global_epollfd = 0

-- ClientData, without its address and its buffer.
pub record Client : Type 0 where
  pub sockfd : ℕ
  pub timer : Ptr

pub record Server : Type 0 where
  pub users : ℕ → Client
  pub timers : TimerList
  pub timeout : Bool
  pub stop : Bool

-- `epoll_del epfd fd`; `epoll_add fd` is on the epoll descriptor of the server.
pub data Action : Type 0 where
  epoll_add : ℕ → Action
  epoll_del : ℕ → ℕ → Action
  close : ℕ → Action
  alarm : ℕ → Action

pub data Signal : Type 0 where
  sigalrm : Signal
  sigterm : Signal
  other_signal : Signal

-- An answer of recv on a connection: bytes, 0, -1 with EAGAIN, -1 with another errno.
pub data Received : Type 0 where
  bytes : Received
  closed : Received
  again : Received
  failed : Received

-- An entry that epoll_wait reports, with the answers that the calls for it get: of accept (`none` for
-- -1), of `new`, of recv on the pipe (`none` for -1, no signals for 0) and on a connection, of time.
pub record Event : Type 0 where
  pub fd : ℕ
  pub input : Bool
  pub accepted : Option ℕ
  pub new : ℕ
  pub signals : Option (List Signal)
  pub received : Received
  pub now : ℕ

abbrev pub user : Server → ℕ → Option Client
user s i = if ltb i fd_limit then some (s.users i) else none

unfoldable pub cb_func : Client → List Action
cb_func c = epoll_del global_epollfd c.sockfd ∷ close c.sockfd ∷ []

-- cur + 3 * TIMESLOT
abbrev pub expiry : ℕ → ℕ
expiry now = now + 3 * timeslot

-- The branch for the listening socket, behind accept.
unfoldable pub add_client : ℕ → ℕ → ℕ → ℕ → Server → Option (Server × List Action)
add_client fuel fd a now s =
    if ltb fd fd_limit
    then (let timer =
          some record { expire = expiry now; user_data = fd; prev = none; next = none } in
        and_then
          (TimerList.add_timer fuel (some a)
            (record (s.timers) { heap = put s.timers.heap a timer }))
          (λ l. some (
            record s {
              users = put s.users fd (record { sockfd = fd; timer = some a });
              timers = l;
            },
            epoll_add fd ∷ [],
          )))
    else none

-- cb_func and del_timer for a connection that is over.
unfoldable pub drop_client : ℕ → Server → Option (Server × List Action)
unfolding cb_func
drop_client fd s = and_then (user s fd) (λ c.
    and_then (TimerList.del_timer c.timer s.timers)
      (λ l. some (record s { timers = l }, cb_func c)))

-- A new time of expiry for a connection that has sent something.
unfoldable pub renew_client : ℕ → ℕ → ℕ → Server → Option (Server × List Action)
renew_client fuel fd now s = and_then (user s fd) (λ c. elim c.timer [
  | none ↦ some (s, [])
  | some a ↦ and_then (modify (some a) (λ t. record t { expire = expiry now }) s.timers.heap) (λ h.
      and_then (TimerList.adjust_timer fuel (some a) (record (s.timers) { heap = h }))
        (λ l. some (record s { timers = l }, [])))
])

unfoldable pub read_client : ℕ → ℕ → Received → ℕ → Server → Option (Server × List Action)
read_client fuel fd bytes now s = renew_client fuel fd now s
read_client fuel fd closed now s = drop_client fd s
read_client fuel fd again now s = and_then (user s fd) (λ c. some (s, []))
read_client fuel fd failed now s = drop_client fd s

unfoldable pub handle_signals : List Signal → Server → Server
handle_signals [] s = s
handle_signals (sigalrm ∷ sigs) s = handle_signals sigs (record s { timeout = true })
handle_signals (sigterm ∷ sigs) s = handle_signals sigs (record s { stop = true })
handle_signals (other_signal ∷ sigs) s = handle_signals sigs s

-- timer_handler: the callbacks of tick are cb_func.
unfoldable pub callbacks : (ℕ → Client) → List ℕ → List Action
unfolding cb_func
callbacks users [] = []
callbacks users (i ∷ fired) = cb_func (users i) ++ callbacks users fired

unfoldable pub timer_handler : ℕ → ℕ → Server → Option (Server × List Action)
unfolding callbacks
timer_handler fuel now s =
    and_then (TimerList.tick fuel now s.timers)
      (λ (l, fired). some (record s { timers = l }, callbacks s.users fired ++ alarm timeslot ∷ []))

module _ (listenfd pipefd : ℕ) where
  unfoldable pub handle_event : ℕ → Event → Server → Option (Server × List Action)
  unfolding handle_signals
  handle_event fuel e s =
      if e.fd == listenfd
      then elim e.accepted [ none ↦ none | some fd ↦ add_client fuel fd e.new e.now s ]
      else if e.fd == pipefd && e.input
      then some (elim e.signals [ none ↦ s | some sigs ↦ handle_signals sigs s ], [])
      else if e.input
      then read_client fuel e.fd e.received e.now s
      else some (s, [])

  -- The loop over the reported entries.
  unfoldable pub handle_events : ℕ → List Event → Server → Option (Server × List Action)
  handle_events fuel [] s = some (s, [])
  handle_events fuel (e ∷ es) s =
      and_then (handle_event fuel e s) (λ (s1, acts).
        and_then (handle_events fuel es s1) (λ (s2, later). some (s2, acts ++ later)))

  -- A round of the main loop: the entries, and the timers where an alarm has come. `now` is the time
  -- of the tick.
  unfoldable pub serve_round : ℕ → List Event → ℕ → Server → Option (Server × List Action)
  serve_round fuel es now s = and_then (handle_events fuel es s) (λ (s1, acts).
      if s1.timeout
      then and_then (timer_handler fuel now s1)
          (λ (s2, later). some (record s2 { timeout = false }, acts ++ later))
      else some (s1, acts))

  -- The main loop, on the answers of epoll_wait: the reported entries with the time behind them, or
  -- `none` for an error other than EINTR, which ends the loop. Has the loop ended, or is it in epoll_wait?
  unfoldable pub serve :
      ℕ → List (Option (List Event × ℕ)) → Server → Option (Server × List Action × Bool)
  serve fuel [] s = some (s, [], s.stop)
  serve fuel (none ∷ ws) s = some (s, [], true)
  serve fuel (some (es, now) ∷ ws) s =
      let go = and_then (serve_round fuel es now s) (λ (s1, acts).
        and_then (serve fuel ws s1) (λ (s2, later, over). some (s2, acts ++ later, over))) in
      if s.stop then some (s, [], true) else go
