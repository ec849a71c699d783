-- ===== src/TcpServer/Program/Whole.antt =====
-- thread_pool_main.cpp: the descriptors of the server from its start to its end.
use linux_network.Base.{
  ℕ, ℤ, ◌≡◌, ◌↔◌, refl, Bool, true, false, Option, none, some, List, [], ◌∷◌, if◌then◌else◌,
  Option-cases, ap, ◌∙◌, inl, inr,
}
use linux_network.LinuxClient.{to_uint16}
use linux_network.SocketHandle.{Handle, listed}
use linux_network.ThreadPool.{worker_count}
use linux_network.TcpServer.{
  Setup, Result, ok, thrown, socket_failed, configure, create_listen_socket, Round, Event, End,
  looping, finished, threw, accept_loop, destroy_server,
}
use linux_network.TcpServer.Listen.{all_ok, configure-ok, listen_socket_closed_once}
use linux_network.TcpServer.Accept.{disposed, gained, accept_loop-disposed}
use linux_network.TcpServer.Program.{
  Run, usage, terminated, serving, exits, run_rounds, run_with, run, main,
}

-- Does createListenSocket succeed?
abbrev pub listens : Setup → Bool
listens s = elim s.socket [ none ↦ false | some fd ↦ all_ok s ]

-- The events of a run, and what it has closed of the listening socket.
abbrev pub events : Run → List Event
events usage = []
events terminated = []
events (serving port threads es) = es
events (exits code es closed) = es

-- How a server ends whose loop ends so.
abbrev pub ending : ℕ → ℕ → List ℕ → List Event × End → Run
ending port threads fds (es, looping) = serving port threads es
ending port threads fds (es, finished) = exits 0 es fds
ending port threads fds (es, threw f) = exits 1 es fds

rounds-ending :
    (port threads : ℕ) (socket : Handle) (fds : List ℕ) (later : List Event × End)
    → destroy_server true socket ≡ fds
    → run_rounds port threads socket later ≡ ending port threads fds later
rounds-ending port threads socket fds (es, looping) e = refl
rounds-ending port threads socket fds (es, finished) e = ap (λ fs. exits 0 es fs) e
rounds-ending port threads socket fds (es, threw f) e = ap (λ fs. exits 1 es fs) e

events-ending :
    (port threads : ℕ) (fds : List ℕ) (later : List Event × End)
    → events (ending port threads fds later) ≡ later.0
events-ending port threads fds (es, looping) = refl
events-ending port threads fds (es, finished) = refl
events-ending port threads fds (es, threw f) = refl

create_listen_socket-listens :
    (s : Setup) → ((create_listen_socket s none).0 ≡ ok) ↔ (listens s ≡ true)
unfolding create_listen_socket configure
create_listen_socket-listens s = elim (Option-cases s.socket) [
  | inl e ↦ rw e (λ (d : thrown socket_failed ≡ ok). cc, λ (d : false ≡ true). cc)
  | inr (fd, e) ↦ rw e (configure-ok s)
]

run_with-lem :
    (port threads : ℕ) (rounds : List Round) (x : Result × Handle × List ℕ) (b : Bool)
    (fds : List ℕ)
    → (x.0 ≡ ok) ↔ (b ≡ true)
    → ((running : Bool) → destroy_server running x.1 ≡ fds)
    → run_with port threads rounds x
      ≡ (if b then ending port threads fds (accept_loop rounds) else exits 1 [] fds)
run_with-lem port threads rounds (ok, socket, closes) b fds iff closed =
    rw (iff.0 refl) (rounds-ending port threads socket fds (accept_loop rounds) (closed true))
run_with-lem port threads rounds (thrown f, socket, closes) true fds iff closed =
    let impossible : thrown f ≡ ok = iff.1 refl in absurd cc
run_with-lem port threads rounds (thrown f, socket, closes) false fds iff closed =
    ap (λ fs. exits 1 [] fs) (closed false)

main-run :
    (stoi : List ℕ → Option ℤ) (name ip port : List ℕ) (n : ℤ) (cores : ℕ) (s : Setup)
    (rounds : List Round)
    → stoi port ≡ some n
    → main stoi (name ∷ ip ∷ port ∷ []) cores s rounds
      ≡ run_with (to_uint16 n) (worker_count cores) rounds (create_listen_socket s none)
unfolding main
main-run stoi name ip port n cores s rounds e =
    ap
      (λ o. elim o [ none ↦ terminated | some m ↦ run (to_uint16 m) (worker_count cores) s rounds ])
      e

disposed-ending :
    (port threads : ℕ) (fds : List ℕ) (rounds : List Round) (b : Bool)
    → disposed (events (if b then ending port threads fds (accept_loop rounds) else exits 1 [] fds))
      ≡ (if b then gained rounds else [])
disposed-ending port threads fds rounds true =
    ap disposed (events-ending port threads fds (accept_loop rounds)) ∙ accept_loop-disposed rounds
disposed-ending port threads fds rounds false = refl

-- The program of the thread pool server with two arguments, the second of them a number: where every call of
-- createListenSocket succeeds it runs its loop, and comes to its end with 0 where the loop ends by its
-- condition and with 1 where an exception ends it; where a call fails it ends with 1. However it ends, the
-- descriptor that socket() gave has been closed once, and each connection that accept gave is handed to the
-- pool or closed, in their order.
pub main-disposed :
    (stoi : List ℕ → Option ℤ) (name ip port : List ℕ) (n : ℤ) (cores : ℕ) (s : Setup)
    (rounds : List Round)
    → stoi port ≡ some n
    → let r = main stoi (name ∷ ip ∷ port ∷ []) cores s rounds in
      (r ≡ (
        if listens s
        then ending (to_uint16 n) (worker_count cores) (listed s.socket) (accept_loop rounds)
        else exits 1 [] (listed s.socket)))
      × (disposed (events r) ≡ (if listens s then gained rounds else []))
main-disposed stoi name ip port n cores s rounds e =
    let same =
      main-run stoi name ip port n cores s rounds e
      ∙ run_with-lem (to_uint16 n) (worker_count cores) rounds (create_listen_socket s none)
          (listens s) (listed s.socket) (create_listen_socket-listens s)
          (λ running. (listen_socket_closed_once s running).1) in
    (
      same,
      ap (λ r. disposed (events r)) same
          ∙ disposed-ending (to_uint16 n) (worker_count cores) (listed s.socket) rounds (listens s),
    )
