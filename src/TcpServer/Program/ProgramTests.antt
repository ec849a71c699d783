-- ===== src/TcpServer/Program/ProgramTests.antt =====
-- Runs of the program of the thread pool server and instances of its theorems.
use linux_network.Base.{
  ℕ_discrete, ◌+◌, count, ℕ, ℤ, ◌≡◌, refl, pos, true, false, Option, none, some, List, [], ◌∷◌,
}
use linux_network.ThreadPool.{worker_count}
use linux_network.TcpServer.{Setup, client, would_block, Round, accept_loop}
use linux_network.ThreadPool.Tests.{over}
use linux_network.TcpServer.{
  Received, bytes, again, closed, create_listen_socket, configure, set_non_blocking, accept_round,
  hand_over,
}
use linux_network.SocketHandle.{move_assign}
use linux_network.TcpServer.Program.Closing.{refused, workers_close, main-closes}
use linux_network.TcpServer.Tests.{round, last_round, bind_fails}
use linux_network.TcpServer.Accept.{disposed}
use linux_network.TcpServer.Program.{usage, terminated, main}
use linux_network.TcpServer.Program.Whole.{ending, events, main-disposed}

-- stoi, where a number is one word.
abbrev word_value : List ℕ → Option ℤ
word_value [] = none
word_value (x ∷ xs) = some (pos x)

abbrev all_well : Setup
all_well = record bind_fails { bind_ok = true }

-- A connection, nothing, a connection whose flags cannot be set.
abbrev rounds : List Round
rounds = round (client 5) ∷ round would_block ∷ last_round ∷ []

main-disposed_example :
    (main word_value ([] ∷ (1 ∷ []) ∷ (80 ∷ []) ∷ []) 0 all_well rounds
      ≡ ending 80 (worker_count 0) (3 ∷ []) (accept_loop rounds))
    × (disposed (events (main word_value ([] ∷ (1 ∷ []) ∷ (80 ∷ []) ∷ []) 0 all_well rounds))
        ≡ 5 ∷ 7 ∷ [])
main-disposed_example =
    main-disposed word_value [] (1 ∷ []) (80 ∷ []) (pos 80) 0 all_well rounds refl

-- A port that is not a number, and a missing argument.
no_number_lem : main word_value ([] ∷ (1 ∷ []) ∷ [] ∷ []) 4 all_well rounds ≡ terminated
unfolding main
no_number_lem = refl

no_port_lem : main word_value ([] ∷ (1 ∷ []) ∷ []) 4 all_well rounds ≡ usage
unfolding main
no_port_lem = refl

-- One connection is handed over, the next one cannot be made non-blocking; the client says two bytes.
abbrev two_rounds : List Round
two_rounds = round (client 7) ∷ record (round (client 8)) { set_flags_ok = false } ∷ []

abbrev talk : ℕ → List Received
talk i = bytes (104 ∷ 105 ∷ []) true ∷ again ∷ closed ∷ []

main-closes_example :
    count 8
        (refused (events (main word_value ([] ∷ (1 ∷ []) ∷ (80 ∷ []) ∷ []) 0 all_well two_rounds)))
      + count 8 (workers_close over.0.started talk)
    ≡ 1
unfolding ℕ_discrete worker_count main move_assign create_listen_socket configure set_non_blocking
    accept_loop accept_round hand_over
main-closes_example =
    main-closes word_value [] (1 ∷ []) (80 ∷ []) (pos 80) 0 all_well two_rounds over.0 talk 8 refl
      over.1 refl refl (λ i. refl)
