-- ===== src/EpollEcho/Program.antt =====
-- linux_server/io_epoll.h: test_epoll_func around its loop. The answers of the calls are a record.
use linux_network.Base.{
  ℕ, ℤ, Bool, true, Option, none, some, List, [], ◌∷◌, ◌++◌, map, if◌then◌else◌,
}
use linux_network.LinuxClient.{to_uint16}
use linux_network.EpollEcho.{Action, Event, addfd, serve}

-- What is done, the actions of `serve` included.
pub data Call : Type 0 where
  opened : ℕ → Call
  bind : ℕ → List ℕ → ℕ → Call
  listen : ℕ → ℕ → Call
  did : Action → Call

-- `aborts` is a failed assertion; `runs` has what is done, on the answers of epoll_wait so far.
pub data Run : Type 0 where
  aborts : List Call → Run
  runs : List Call → Run

pub record Answers : Type 0 where
  pub socket : Option ℕ
  pub bind_ok : Bool
  pub listen_ok : Bool
  pub epoll_create : Option ℕ

abbrev pub behind : List Call → Run → Run
behind calls (aborts later) = aborts (calls ++ later)
behind calls (runs later) = runs (calls ++ later)

-- Calls, an assertion on the last of them, and what follows.
abbrev pub asserted : Bool → List Call → Run → Run
asserted ok calls rest = if ok then behind calls rest else aborts calls

-- Behind epoll_create: the listening socket is watched with EPOLLET.
abbrev pub with_epoll : ℕ → List (Option (List Event)) → Option ℕ → Run
with_epoll listenfd ws none = aborts []
with_epoll listenfd ws (some epollfd) =
    runs (opened epollfd ∷ map did (addfd (some listenfd) true ++ serve listenfd ws))

-- Behind socket.
abbrev pub with_socket : ℕ → List ℕ → ℤ → Answers → List (Option (List Event)) → Run
with_socket listenfd ip port ans ws =
    asserted ans.bind_ok (opened listenfd ∷ bind listenfd ip (to_uint16 port) ∷ [])
      (asserted ans.listen_ok (listen listenfd 5 ∷ []) (with_epoll listenfd ws ans.epoll_create))

unfoldable pub test_epoll_func : List ℕ → ℤ → Answers → List (Option (List Event)) → Run
test_epoll_func ip port ans ws = elim ans.socket [
  | none ↦ aborts []
  | some listenfd ↦ with_socket listenfd ip port ans ws
]
