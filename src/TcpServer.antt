-- ===== src/TcpServer.antt =====
-- thread_pool_server.cpp, TcpConnection and ThreadPoolTcpServer: the echo loop of a worker, the
-- listening socket, and the loop that accepts connections and hands them to the pool. The answers of
-- the system calls are arguments; what is done is a trace.
pub mod Echo
pub mod Listen
pub mod Accept
pub mod Program
mod Tests
use linux_network.Base.{
  ℕ, Bool, true, false, ◌&&◌, not, Option, none, some, List, [], ◌∷◌, ◌++◌, if◌then◌else◌,
}
use linux_network.SocketHandle
use linux_network.SocketHandle.{Handle}

-- kBufferSize
abbrev pub buffer_size : ℕ
buffer_size = 1024

-- "Echo: "
abbrev pub echo_prefix : List ℕ
echo_prefix = 69 ∷ 99 ∷ 104 ∷ 111 ∷ 58 ∷ 32 ∷ []

-- An answer of recv, with the answer that the following send would get: bytes, 0, -1 with EAGAIN or
-- EWOULDBLOCK, -1 with another errno.
pub data Received : Type 0 where
  bytes : List ℕ → Bool → Received
  closed : Received
  again : Received
  failed : Received

-- `send fd text sent` : the call, and whether it answered without an error.
pub data Action : Type 0 where
  send : ℕ → List ℕ → Bool → Action
  close : ℕ → Action

pub data Progress : Type 0 where
  receiving : List Action → Progress
  returned : List Action → Progress

abbrev pub add_action : Action → Progress → Progress
add_action a (receiving acts) = receiving (a ∷ acts)
add_action a (returned acts) = returned (a ∷ acts)

-- TcpConnection::processRequest on the descriptor `fd`, on the answers of recv.
unfoldable pub process_request : ℕ → List Received → Progress
process_request fd [] = receiving []
process_request fd (bytes request sent ∷ rs) =
    add_action (send fd (echo_prefix ++ request) sent) (process_request fd rs)
process_request fd (closed ∷ rs) = returned []
process_request fd (again ∷ rs) = process_request fd rs
process_request fd (failed ∷ rs) = returned []

-- What a worker does for a connection: operator(), and then the end of the TcpConnection, whose
-- SocketHandle closes the descriptor.
unfoldable pub serve : Handle → List Received → Progress
serve none rs = returned []
serve (some fd) rs = elim (process_request fd rs) [
  | receiving acts ↦ receiving acts
  | returned acts ↦ returned (acts ++ close fd ∷ [])
]

-- What the calls of createListenSocket answer.
pub record Setup : Type 0 where
  pub socket : Option ℕ
  pub setsockopt_ok : Bool
  pub inet_pton_ok : Bool
  pub bind_ok : Bool
  pub listen_ok : Bool
  pub get_flags_ok : Bool
  pub set_flags_ok : Bool

pub data Failure : Type 0 where
  socket_failed : Failure
  setsockopt_failed : Failure
  invalid_address : Failure
  bind_failed : Failure
  listen_failed : Failure
  fcntl_failed : Failure
  accept_failed : Failure

pub data Result : Type 0 where
  ok : Result
  thrown : Failure → Result

-- setNonBlocking
unfoldable pub set_non_blocking : Bool → Bool → Result
set_non_blocking get_flags_ok set_flags_ok =
    if not get_flags_ok
    then thrown fcntl_failed
    else if not set_flags_ok
    then thrown fcntl_failed
    else ok

-- createListenSocket behind socket(): the chain of calls on the new descriptor.
unfoldable pub configure : Setup → Result
configure s =
    if not s.setsockopt_ok
    then thrown setsockopt_failed
    else if not s.inet_pton_ok
    then thrown invalid_address
    else if not s.bind_ok
    then thrown bind_failed
    else if not s.listen_ok
    then thrown listen_failed
    else set_non_blocking s.get_flags_ok s.set_flags_ok

-- createListenSocket: the result, listen_socket_ behind it, and the descriptors that the assignment to
-- listen_socket_ closes.
unfoldable pub create_listen_socket : Setup → Handle → Result × Handle × List ℕ
create_listen_socket s old = elim s.socket [
  | none ↦ (thrown socket_failed, old, [])
  | some fd ↦
      let (new, moved_from, closes) = SocketHandle.move_assign false old (some fd) in
      (configure s, new, closes)
]

-- One round of the loop of `run`: the flags as they are read, what accept answers (a descriptor, -1
-- with EAGAIN, -1 with another errno), and whether the two calls of fcntl in the constructor of
-- TcpConnection succeed.
pub data Accepted : Type 0 where
  client : ℕ → Accepted
  would_block : Accepted
  accept_error : Accepted

pub record Round : Type 0 where
  pub running : Bool
  pub terminate : Bool
  pub accepted : Accepted
  pub get_flags_ok : Bool
  pub set_flags_ok : Bool

-- What the loop does in its rounds: hand a connection to the pool, sleep 50 ms, or close the descriptor
-- of a connection whose constructor throws.
pub data Event : Type 0 where
  enqueued : ℕ → Event
  slept : Event
  closed_client : ℕ → Event

-- How the loop ends: not yet, by its condition, or by an exception.
pub data End : Type 0 where
  looping : End
  finished : End
  threw : Failure → End

abbrev pub add_event : Event → List Event × End → List Event × End
add_event e (es, end) = (e ∷ es, end)

-- `pool_.enqueue(TcpConnection(client_fd, …))`; where the constructor throws, its member closes the
-- descriptor. `rest` is what the later rounds do.
unfoldable pub hand_over : ℕ → Result → List Event × End → List Event × End
hand_over fd ok rest = add_event (enqueued fd) rest
hand_over fd (thrown f) rest = (closed_client fd ∷ [], threw f)

unfoldable pub accept_round : Round → List Event × End → List Event × End
accept_round r rest = elim r.accepted [
  | client fd ↦ hand_over fd (set_non_blocking r.get_flags_ok r.set_flags_ok) rest
  | would_block ↦ add_event slept rest
  | accept_error ↦ ([], threw accept_failed)
]

-- The loop of ThreadPoolTcpServer::run.
unfoldable pub accept_loop : List Round → List Event × End
accept_loop [] = ([], looping)
accept_loop (r ∷ rs) =
    let later = accept_round r (accept_loop rs) in
    if r.running && not r.terminate then later else ([], finished)

-- stop(): the flag behind it, listen_socket_, and what is closed.
unfoldable pub stop : Bool → Handle → Bool × Handle × List ℕ
stop true listen_socket =
    let (new, moved_from, closes) = SocketHandle.move_assign false listen_socket none in
    (false, new, closes)
stop false listen_socket = (false, listen_socket, [])

-- The destructor: stop(), and then the end of listen_socket_.
unfoldable pub destroy_server : Bool → Handle → List ℕ
unfolding stop
destroy_server running listen_socket =
    let (flag, left, closes) = stop running listen_socket in closes ++ SocketHandle.destroy left
