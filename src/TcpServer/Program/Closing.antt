-- ===== src/TcpServer/Program/Closing.antt =====
-- thread_pool_main.cpp with ThreadPool and TcpConnection behind it: what becomes of the connections.
use linux_network.Base.{
  ℕ, suc, ℤ, ◌+◌, ◌≡◌, refl, ap, ◌∙◌, Bool, true, Option, some, List, [], ◌∷◌, ◌++◌, map, count,
  arith, if◌then◌else◌,
}
use linux_network.ThreadPool.{Pool, Reach, destroyed, worker_count}
use linux_network.ThreadPool.Order.{destroyed-drained}
use linux_network.TcpServer.{
  Received, Action, send, close, Progress, receiving, returned, serve, Setup, Round, Event,
  enqueued, slept, closed_client,
}
use linux_network.TcpServer.Echo.{hangs_up, requests, reply, serve-echoes}
use linux_network.TcpServer.Accept.{disposed, gained}
use linux_network.TcpServer.Program.{main}
use linux_network.TcpServer.Program.Whole.{listens, events, main-disposed}

-- The connections that the loop hands to the pool, and those that it closes itself.
abbrev pub handed : List Event → List ℕ
handed [] = []
handed (enqueued fd ∷ es) = fd ∷ handed es
handed (slept ∷ es) = handed es
handed (closed_client fd ∷ es) = handed es

abbrev pub refused : List Event → List ℕ
refused [] = []
refused (enqueued fd ∷ es) = refused es
refused (slept ∷ es) = refused es
refused (closed_client fd ∷ es) = fd ∷ refused es

-- The descriptors that a worker closes.
abbrev pub closes : List Action → List ℕ
closes [] = []
closes (send fd text sent ∷ acts) = closes acts
closes (close fd ∷ acts) = fd ∷ closes acts

abbrev pub closes_so_far : Progress → List ℕ
closes_so_far (receiving acts) = closes acts
closes_so_far (returned acts) = closes acts

-- What the workers close for the connections `fds`; `talk i` is what recv answers on the i-th.
abbrev pub workers_close : List ℕ → (ℕ → List Received) → List ℕ
workers_close [] talk = []
workers_close (fd ∷ fds) talk =
    closes_so_far (serve (some fd) (talk 0)) ++ workers_close fds (λ i. talk (suc i))

count-disposed :
    (x : ℕ) (es : List Event) → count x (refused es) + count x (handed es) ≡ count x (disposed es)
count-disposed x [] = refl
count-disposed x (enqueued fd ∷ es) = omega (arith, count-disposed x es)
count-disposed x (slept ∷ es) = count-disposed x es
count-disposed x (closed_client fd ∷ es) = omega (arith, count-disposed x es)

closes-replies :
    (fd : ℕ) (rs : List (List ℕ × Bool)) → closes (map (reply fd) rs ++ close fd ∷ []) ≡ fd ∷ []
closes-replies fd [] = refl
closes-replies fd (r ∷ rs) = closes-replies fd rs

serve-closes :
    (fd : ℕ) (rs : List Received)
    → hangs_up rs ≡ true
    → closes_so_far (serve (some fd) rs) ≡ fd ∷ []
serve-closes fd rs h = rw (serve-echoes fd rs, h) (closes-replies fd (requests rs))

workers_close-all :
    (fds : List ℕ) (talk : ℕ → List Received)
    → ((i : ℕ) → hangs_up (talk i) ≡ true)
    → workers_close fds talk ≡ fds
workers_close-all [] talk h = refl
workers_close-all (fd ∷ fds) talk h =
    rw (serve-closes fd (talk 0) (h 0), workers_close-all fds (λ i. talk (suc i)) (λ i. h (suc i)))
      refl

-- Where the pool of the server has got the connections that its loop hands over and its destructor has
-- returned, and each client hangs up or fails in the end, every descriptor that accept gave is closed as
-- often as it was given: by a worker, or by the loop where it cannot be made non-blocking. No connection
-- leaks and none is closed twice.
pub main-closes :
    (stoi : List ℕ → Option ℤ) (name ip port : List ℕ) (n : ℤ) (cores : ℕ) (s : Setup)
    (rounds : List Round) (p : Pool) (talk : ℕ → List Received) (x : ℕ)
    → stoi port ≡ some n
    → Reach (worker_count cores) p
    → p.owner ≡ destroyed
    → p.accepted ≡ handed (events (main stoi (name ∷ ip ∷ port ∷ []) cores s rounds))
    → ((i : ℕ) → hangs_up (talk i) ≡ true)
    → count x (refused (events (main stoi (name ∷ ip ∷ port ∷ []) cores s rounds)))
        + count x (workers_close p.started talk)
      ≡ count x (if listens s then gained rounds else [])
main-closes stoi name ip port n cores s rounds p talk x e reached over same hang =
    let es = events (main stoi (name ∷ ip ∷ port ∷ []) cores s rounds) in
    let all_started = (destroyed-drained cores reached over).0 ∙ same in
    rw (workers_close-all p.started talk hang, all_started)
      (count-disposed x es ∙ ap (count x) (main-disposed stoi name ip port n cores s rounds e).1)
