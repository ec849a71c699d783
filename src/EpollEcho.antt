-- ===== src/EpollEcho.antt =====
-- linux_server/io_epoll.h: a server that prints what it receives, with level triggering (`lt`) or edge
-- triggering (`et`). The answers of the system calls are arguments; what is done is a trace.
pub mod Draining
pub mod Levels
pub mod Program
mod Tests
use linux_network.Base.{
  ℕ, Bool, true, false, Option, none, some, List, [], ◌∷◌, ◌++◌, ◌==◌, if◌then◌else◌,
}

-- `BUFFER_SIZE`; a call of recv asks for one byte less.
abbrev pub buffer_size : ℕ
buffer_size = 10

-- An answer of recv: bytes, 0, -1 with EAGAIN or EWOULDBLOCK, -1 with another errno.
pub data Received : Type 0 where
  bytes : List ℕ → Received
  closed : Received
  again : Received
  failed : Received

-- A descriptor from accept is `none` where accept has answered -1, which the code does not test.
-- Each line that is printed is an action of its own, `lt` and `et` print different ones; a content is what
-- has been received.
pub data Action : Type 0 where
  epoll_add : Option ℕ → Bool → Action
  set_nonblocking : Option ℕ → Action
  close : ℕ → Action
  lt_event : Action  -- "[lt] event trigger once"
  lt_content : List ℕ → Action  -- "[lt] get %d bytes of content: %s"
  et_event : Action  -- "event trigger once"
  et_content : List ℕ → Action  -- "get %d bytes of content : %s"
  read_later : Action
  something_else : Action
  epoll_failure : Action

-- An entry that epoll_wait reports, with what accept and recv answer if they are called.
pub record Event : Type 0 where
  pub fd : ℕ
  pub input : Bool
  pub accepted : Option ℕ
  pub answers : List Received

-- addfd, with setnonblocking; `enable_et` adds EPOLLET.
unfoldable pub addfd : Option ℕ → Bool → List Action
addfd fd enable_et = epoll_add fd enable_et ∷ set_nonblocking fd ∷ []

-- The one recv of `lt`.
unfoldable pub lt_read : ℕ → List Received → List Action
lt_read fd [] = []
lt_read fd (bytes xs ∷ rs) = lt_content xs ∷ []
lt_read fd (closed ∷ rs) = close fd ∷ []
lt_read fd (again ∷ rs) = close fd ∷ []
lt_read fd (failed ∷ rs) = close fd ∷ []

unfoldable pub lt : ℕ → List Event → List Action
unfolding addfd lt_read
lt listenfd [] = []
lt listenfd (e ∷ es) =
    (if e.fd == listenfd
      then addfd e.accepted false
      else if e.input
      then lt_event ∷ lt_read e.fd e.answers
      else [])
    ++ lt listenfd es

-- The `while (1)` of `et`: what it does, and whether it has ended.
pub record Reading : Type 0 where
  pub acts : List Action
  pub over : Bool

abbrev pub add_action : Action → Reading → Reading
add_action a r = record r { acts = a ∷ r.acts }

unfoldable pub et_read : ℕ → List Received → Reading
et_read fd [] = record { acts = []; over = false }
et_read fd (again ∷ rs) = record { acts = read_later ∷ []; over = true }
et_read fd (failed ∷ rs) = record { acts = close fd ∷ []; over = true }
et_read fd (closed ∷ rs) = add_action (close fd) (et_read fd rs)
et_read fd (bytes xs ∷ rs) = add_action (et_content xs) (et_read fd rs)

abbrev pub then_read : Reading → Reading → Reading
then_read r rest = if r.over then record { acts = r.acts ++ rest.acts; over = rest.over } else r

unfoldable pub et : ℕ → List Event → Reading
unfolding addfd et_read
et listenfd [] = record { acts = []; over = true }
et listenfd (e ∷ es) =
    then_read
      (if e.fd == listenfd
        then record { acts = addfd e.accepted true; over = true }
        else if e.input
        then add_action et_event (et_read e.fd e.answers)
        else record { acts = something_else ∷ []; over = true })
      (et listenfd es)

-- The loop of test_epoll_func, on the answers of epoll_wait: entries, or an error, at which the loop
-- ends and the listening socket is closed.
unfoldable pub serve : ℕ → List (Option (List Event)) → List Action
serve listenfd [] = []
serve listenfd (none ∷ ws) = epoll_failure ∷ close listenfd ∷ []
serve listenfd (some es ∷ ws) = lt listenfd es ++ serve listenfd ws
