-- ===== src/Stress.antt =====
-- stress_test/stress.cpp: a client that keeps many connections busy. The answers of the system calls
-- are arguments; what is done is a trace.
pub mod Write
pub mod Connections
pub mod Program
mod Tests
use linux_network.Base.{
  ℕ, zero, suc, ◌-◌, Bool, true, false, not, Option, none, some, List, [], ◌∷◌, ◌++◌, leb,
  if◌then◌else◌, take, drop, length,
}

-- send answers with a positive count, with 0, or with -1.
pub data Sent : Type 0 where
  wrote : ℕ → Sent
  wrote_none : Sent
  send_error : Sent

-- write_nbytes so far: the bytes that went out, and what it returned, if it has.
pub record Writing : Type 0 where
  pub out : List ℕ
  pub result : Option Bool

abbrev pub put_out : List ℕ → Writing → Writing
put_out xs w = record w { out = xs ++ w.out }

abbrev returns : Bool → Writing
returns b = record { out = []; result = some b }

-- The loop of write_nbytes: `buffer` and `len` as they stand before a send.
unfoldable pub write_nbytes : List Sent → List ℕ → ℕ → Writing
write_nbytes [] buffer len = record { out = []; result = none }
write_nbytes (send_error ∷ ss) buffer len = returns false
write_nbytes (wrote_none ∷ ss) buffer len = returns false
write_nbytes (wrote n ∷ ss) buffer len =
    let rest = write_nbytes ss (drop n buffer) (len - n) in
    put_out (take n buffer) (if leb (len - n) 0 then returns true else rest)

-- recv answers with a positive count, with 0, or with -1.
pub data ReadAnswer : Type 0 where
  read_some : ReadAnswer
  read_none : ReadAnswer
  read_error : ReadAnswer

-- What a descriptor is watched for, beside EPOLLET and EPOLLERR.
pub data Interest : Type 0 where
  for_input : Interest
  for_output : Interest

pub data Action : Type 0 where
  epoll_add : ℕ → Interest → Action
  epoll_mod : ℕ → Interest → Action
  epoll_del : ℕ → Action
  close : ℕ → Action
  set_nonblocking : ℕ → Action
  recv : ℕ → Action
  send : ℕ → List ℕ → Action  -- the sends of one write_nbytes, with the bytes that went out

abbrev pub setnonblocking : ℕ → List Action
setnonblocking fd = set_nonblocking fd ∷ []

unfoldable pub addfd : ℕ → List Action
addfd fd = epoll_add fd for_output ∷ setnonblocking fd

unfoldable pub close_conn : ℕ → List Action
close_conn fd = epoll_del fd ∷ close fd ∷ []

-- The call of recv, and what read_once returns.
unfoldable pub read_once : ℕ → ReadAnswer → List Action × Bool
read_once sockfd read_some = (recv sockfd ∷ [], true)
read_once sockfd read_none = (recv sockfd ∷ [], false)
read_once sockfd read_error = (recv sockfd ∷ [], false)

-- An entry that epoll_wait reports, with what recv and send answer if they are called.
pub record Event : Type 0 where
  pub fd : ℕ
  pub input : Bool  -- EPOLLIN
  pub output : Bool  -- EPOLLOUT
  pub error : Bool  -- EPOLLERR
  pub read : ReadAnswer
  pub sends : List Sent

-- write_nbytes(sockfd, request, strlen(request)) as a condition; `none` while it has not returned.
unfoldable pub after_write : ℕ → Writing → Option (List Action)
unfolding close_conn
after_write fd w = elim w.result [
  | none ↦ none
  | some true ↦ some (send fd w.out ∷ epoll_mod fd for_input ∷ [])
  | some false ↦ some (send fd w.out ∷ close_conn fd ++ epoll_mod fd for_input ∷ [])
]

-- One round of the loop over the events in `main`.
unfoldable pub handle_event : List ℕ → Event → Option (List Action)
unfolding read_once close_conn
handle_event request e =
    if e.input
    then (let (acts, ok) = read_once e.fd e.read in
        some (acts ++ (if ok then [] else close_conn e.fd) ++ epoll_mod e.fd for_output ∷ []))
    else if e.output
    then after_write e.fd (write_nbytes e.sends request (length request))
    else if e.error
    then some (close_conn e.fd)
    else some []

-- What socket and connect answer in one round of start_conn.
pub record Attempt : Type 0 where
  pub socket : Option ℕ
  pub connected : Bool

unfoldable pub start_conn : List Attempt → List Action
unfolding addfd
start_conn [] = []
start_conn (a ∷ as') = elim a.socket [
  | none ↦ start_conn as'
  | some fd ↦ (if a.connected then addfd fd else []) ++ start_conn as'
]
