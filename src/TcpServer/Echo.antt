-- ===== src/TcpServer/Echo.antt =====
-- thread_pool_server.cpp, TcpConnection: what a client gets back.
use linux_network.Base.{
  ℕ, ◌≡◌, refl, Bool, true, false, some, List, [], ◌∷◌, ◌++◌, map, arith, if◌then◌else◌,
}
use linux_network.TcpServer.{
  echo_prefix, Received, bytes, closed, again, failed, Action, send, close, receiving, returned,
  process_request, serve,
}

-- The requests up to the end of the connection or an error, each with its send's answer.
abbrev pub requests : List Received → List (List ℕ × Bool)
requests [] = []
requests (bytes request sent ∷ rs) = (request, sent) ∷ requests rs
requests (again ∷ rs) = requests rs
requests (closed ∷ rs) = []
requests (failed ∷ rs) = []

-- Does recv report the end of the connection, or an error other than EAGAIN?
abbrev pub hangs_up : List Received → Bool
hangs_up [] = false
hangs_up (bytes request sent ∷ rs) = hangs_up rs
hangs_up (again ∷ rs) = hangs_up rs
hangs_up (closed ∷ rs) = true
hangs_up (failed ∷ rs) = true

abbrev pub reply : ℕ → List ℕ × Bool → Action
reply fd (request, sent) = send fd (echo_prefix ++ request) sent

process_request-replies :
    (fd : ℕ) (rs : List Received)
    → process_request fd rs ≡ (
        if hangs_up rs
        then returned (map (reply fd) (requests rs))
        else receiving (map (reply fd) (requests rs)))
unfolding process_request
process_request-replies fd [] = refl
process_request-replies fd (bytes request sent ∷ rs) = ground (arith, process_request-replies fd rs)
process_request-replies fd (closed ∷ rs) = refl
process_request-replies fd (again ∷ rs) = process_request-replies fd rs
process_request-replies fd (failed ∷ rs) = refl

-- A worker answers each request, in order and whatever became of the earlier answers, by "Echo: " and
-- its bytes. It is done with the connection exactly when recv reports its end or an error other than
-- EAGAIN, and then closes the descriptor, once and last; EAGAIN never ends it.
pub serve-echoes :
    (fd : ℕ) (rs : List Received)
    → serve (some fd) rs ≡ (
        if hangs_up rs
        then returned (map (reply fd) (requests rs) ++ close fd ∷ [])
        else receiving (map (reply fd) (requests rs)))
unfolding serve
serve-echoes fd rs = ground (arith, process_request-replies fd rs)
