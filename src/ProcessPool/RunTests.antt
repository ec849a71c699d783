-- ===== src/ProcessPool/RunTests.antt =====
-- The parent and a child of the process pool: instances of the theorems on how they start.
use linux_network.Base.{ℕ, zero, suc, ◌+◌, ◌<◌, ◌≡◌, refl, true, some, [], ◌∷◌, arith}
use linux_network.CgiConn
use linux_network.CgiConn.{Conn, Received}
use linux_network.ProcessPool.{failure}
use linux_network.ProcessPool.Create.{Spawn, in_parent, in_child, Created, create}
use linux_network.ProcessPool.Child.{child_failure}
use linux_network.ProcessPool.Run.{Setup, setup_sig_pipe, ready_on, run}
use linux_network.ProcessPool.Pairing.{Paired, run-Paired}

abbrev pub spawn_parent : ℕ → Spawn
spawn_parent i = record { pair = some (10 + i + i, 11 + i + i); fork = in_parent (100 + i) }

abbrev spawn_child : ℕ → Spawn
spawn_child zero = spawn_parent 0
spawn_child (suc i) = record { pair = some (12, 13); fork = in_child }

abbrev pub setup : Setup
setup = record { epoll = some 40; pair = some (41, 42); sigaction_ok = λ sig. true }

abbrev own_setup : Setup
own_setup = record { epoll = some 50; pair = some (51, 52); sigaction_ok = λ sig. true }

-- Eight children; the second one.
run-Paired_example :
    (c : Created) × (d : Created) × (create spawn_parent 8 ≡ some c)
    × (create spawn_child 8 ≡ some d)
    × Paired 1 12 13 3
        (ready_on 40 (41, 42))
        (ready_on 50 (51, 52))
        (failure ∷ [])
        (child_failure ∷ [])
        (run c 3 (CgiConn.init 0 0) setup (failure ∷ []) (child_failure ∷ []))
        (run d 3 (CgiConn.init 0 0) own_setup (failure ∷ []) (child_failure ∷ []))
unfolding setup_sig_pipe
run-Paired_example =
    run-Paired spawn_parent spawn_child 8 1 12 13 3 (CgiConn.init 0 0) setup own_setup
      (ready_on 40 (41, 42)) (ready_on 50 (51, 52)) (failure ∷ []) (child_failure ∷ [])
      (omega arith) (omega arith) (λ j h. (10 + j + j, 11 + j + j, 100 + j, refl, refl)) refl first
      refl refl refl refl
  where
    first :
        (j : ℕ)
        → j < 1
        → (a b pid : ℕ) × ((spawn_child j).pair ≡ some (a, b))
          × ((spawn_child j).fork ≡ in_parent pid)
    first zero h = (10, 11, 100, refl, refl)
    first (suc j) h = absurd (omega arith)
