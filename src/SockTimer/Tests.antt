-- ===== src/SockTimer/Tests.antt =====
-- Runs of the program of sock_timer.h.
use linux_network.Base.{ℕ, ℤ, pos, ◌≡◌, refl, true, some, List, [], ◌∷◌}
use linux_network.SockTimer.{
  Answers, timed_out, opened, send_timeout, connect, returns, timeout_connect, connect_on,
  connect_result, test_sock_timer,
}

-- atoi, where each number is one word.
abbrev word_value : List ℕ → ℤ
word_value [] = pos 0
word_value (x ∷ xs) = pos x

abbrev late : Answers
late = record { socket = some 3; setsockopt_ok = true; connect = timed_out }

abbrev argv : List (List ℕ)
argv = (7 ∷ []) ∷ (8 ∷ []) ∷ (70000 ∷ []) ∷ []

-- A time limit of ten seconds on descriptor 3 and the port 70000 modulo 65536.
late_lem :
    test_sock_timer word_value argv late
    ≡ (returns (pos 1), opened 3 ∷ send_timeout 3 (pos 10) ∷ connect 3 (8 ∷ []) 4464 ∷ [])
unfolding test_sock_timer timeout_connect connect_on connect_result
late_lem = refl
