-- ===== src/ProcessPool/Program/ProgramTests.antt =====
-- Runs of main.cpp and an instance of its theorem.
use linux_network.Base.{ℕ, ◌+◌, ◌≡◌, refl, ℤ, pos, true, false, some, List, [], ◌∷◌, map}
use linux_network.CgiConn
use linux_network.ProcessPool.{failure, interrupted, sigchld, sigterm, sigint, other}
use linux_network.ProcessPool.Create.{Created, ParentPool, create}
use linux_network.ProcessPool.Run.{ready_on, setup_sig_pipe}
use linux_network.ProcessPool.RunTests.{spawn_parent, setup}
use linux_network.ProcessPool.Program.{
  Answers, aborts, opened, bind, listen, in_front, main, sig_handler, decode,
}
use linux_network.ProcessPool.Program.Idle.{given_up, main-idle}

abbrev port_8080 : List ℕ → ℤ
port_8080 s = pos 8080

abbrev all_well : Answers
all_well = record { socket = some 3; bind_ok = true; listen_ok = true }

main-idle_example :
    (c : Created) × (create spawn_parent 8 ≡ some c)
    × ParentPool 8 c
    × (main spawn_parent setup
          (CgiConn.init 0 0)
          (interrupted ∷ failure ∷ [])
          []
          port_8080
          ([] ∷ (1 ∷ []) ∷ (2 ∷ []) ∷ [])
          all_well
        ≡ in_front
            (opened 3 ∷ bind 3 (1 ∷ []) 8080 ∷ listen 3 5 ∷ [])
            (given_up 3 (ready_on 40 (41, 42))))
unfolding setup_sig_pipe
main-idle_example =
    main-idle port_8080 [] (1 ∷ []) (2 ∷ []) [] 3 spawn_parent setup (ready_on 40 (41, 42))
      (CgiConn.init 0 0) (interrupted ∷ failure ∷ []) []
      (λ j h. (10 + j + j, 11 + j + j, 100 + j, refl, refl)) refl

-- The address is in use.
bind_fails_lem :
    main spawn_parent setup
      (CgiConn.init 0 0)
      []
      []
      port_8080
      ([] ∷ (1 ∷ []) ∷ (2 ∷ []) ∷ [])
      (record all_well { bind_ok = false })
    ≡ aborts
unfolding main
bind_fails_lem = refl

-- SIGCHLD is 17, SIGTERM 15, SIGINT 2; the child 101 has ended.
signals_lem :
    map (decode 17 15 2 (101 ∷ [])) (map sig_handler (17 ∷ 2 ∷ 15 ∷ 10 ∷ []))
    ≡ sigchld (101 ∷ []) ∷ sigint ∷ sigterm ∷ other ∷ []
signals_lem = refl
