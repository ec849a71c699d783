-- ===== src/SockTimer/Leaking.antt =====
-- sock_timer.h: what becomes of the socket.
use linux_network.Base.{
  ℕ, suc, ℤ, pos, ◌≡◌, ◌≢◌, ◌↔◌, refl, true, some, List, [], ◌∷◌, ◌==◌, if◌then◌else◌,
}
use linux_network.SockTimer.{
  Connected, connected, timed_out, refused, Answers, Action, opened, send_timeout, connect, close,
  returns, connect_result, connect_on, timeout_connect, test_sock_timer,
}

-- The descriptors that are open behind the actions.
abbrev pub remove : ℕ → List ℕ → List ℕ
remove fd [] = []
remove fd (x ∷ xs) = let rest = remove fd xs in if fd == x then rest else x ∷ rest

abbrev pub still_open : List ℕ → List Action → List ℕ
still_open fds [] = fds
still_open fds (opened fd ∷ acts) = still_open (fd ∷ fds) acts
still_open fds (send_timeout fd n ∷ acts) = still_open fds acts
still_open fds (connect fd ip port ∷ acts) = still_open fds acts
still_open fds (close fd ∷ acts) = still_open (remove fd fds) acts

-- Where the socket and its option can be had, test_sock_timer exits with 0 exactly when connect succeeds,
-- and otherwise with 1, whether it has run out of time or failed; and the socket stays open either way.
test_sock_timer-leaks :
    (atoi : List ℕ → ℤ) (name ip port : List ℕ) (more : List (List ℕ)) (n : ℕ) (answer : Connected)
    → let ans : Answers = record {
      socket = some (suc n);
      setsockopt_ok = true;
      connect = answer;
    } in
      let o = test_sock_timer atoi (name ∷ ip ∷ port ∷ more) ans in
      ((o.0 ≡ returns (pos 0)) ↔ (answer ≡ connected))
      × ((o.0 ≡ returns (pos 1)) ↔ (answer ≢ connected))
      × (still_open [] o.1 ≡ suc n ∷ [])
unfolding test_sock_timer timeout_connect connect_on connect_result
test_sock_timer-leaks atoi name ip port more n connected =
    ((λ e. refl, λ e. refl), (λ e. cc, λ ne. absurd (ne refl)), refl)
test_sock_timer-leaks atoi name ip port more n timed_out =
    ((λ e. cc, λ e. cc), (λ e d. cc, λ ne. refl), refl)
test_sock_timer-leaks atoi name ip port more n refused =
    ((λ e. cc, λ e. cc), (λ e d. cc, λ ne. refl), refl)
