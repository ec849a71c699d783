-- ===== src/TcpServer/Program.antt =====
-- thread_pool_main.cpp, and ThreadPoolTcpServer::run as a whole. `stoi` is a parameter; the destructor of
-- the pool, which joins its workers, is that of ThreadPool and comes behind what is here.
pub mod Whole
pub mod Closing
mod ProgramTests
use linux_network.Base.{ℕ, ℤ, true, false, Option, none, some, List, [], ◌∷◌}
use linux_network.ThreadPool.{worker_count}
use linux_network.SocketHandle.{Handle}
use linux_network.LinuxClient.{to_uint16}
use linux_network.TcpServer.{
  Setup, Result, ok, thrown, create_listen_socket, Round, Event, End, looping, finished, threw,
  accept_loop, destroy_server,
}

-- `usage` is the exit with 1 in front of the server, `terminated` an exception that nobody catches,
-- `serving port threads events` a loop
-- that is not over. `exits code events closed` has the events of the loop and the
-- descriptors that listen_socket_ has closed.
pub data Run : Type 0 where
  usage : Run
  terminated : Run
  serving : ℕ → ℕ → List Event → Run
  exits : ℕ → List Event → List ℕ → Run

-- ThreadPoolTcpServer::run behind createListenSocket, and the end of main: the loop with running_ set, an
-- exception where there is one, and the destructor of the server.
abbrev pub run_rounds : ℕ → ℕ → Handle → List Event × End → Run
run_rounds port threads listen_socket (events, looping) = serving port threads events
run_rounds port threads listen_socket (events, finished) =
    exits 0 events (destroy_server true listen_socket)
run_rounds port threads listen_socket (events, threw f) =
    exits 1 events (destroy_server true listen_socket)

-- Behind createListenSocket: where it has thrown, running_ is false as the constructor has set it.
abbrev pub run_with : ℕ → ℕ → List Round → Result × Handle × List ℕ → Run
run_with port threads rounds (ok, listen_socket, closes) =
    run_rounds port threads listen_socket (accept_loop rounds)
run_with port threads rounds (thrown f, listen_socket, closes) =
    exits 1 [] (destroy_server false listen_socket)

abbrev pub run : ℕ → ℕ → Setup → List Round → Run
run port threads s rounds = run_with port threads rounds (create_listen_socket s none)

-- main on argv; `cores` is what hardware_concurrency gives.
unfoldable pub main : (List ℕ → Option ℤ) → List (List ℕ) → ℕ → Setup → List Round → Run
main stoi (name ∷ ip ∷ port ∷ []) cores s rounds = elim (stoi port) [
  | none ↦ terminated
  | some n ↦ run (to_uint16 n) (worker_count cores) s rounds
]
main stoi argv cores s rounds = usage
