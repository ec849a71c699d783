-- ===== src/SocketHandle/Tests.antt =====
-- A program with handles, and instances of the theorem on ownership.
use linux_network.Base.{◌≡◌, refl, none, some, [], ◌∷◌}
use linux_network.SocketHandle.{
  dead, alive, Store, adopts, moves, assigns, releases, destroys, run, step, adopt, move_into,
  assign, release_at, destroy_at,
}
use linux_network.SocketHandle.Ownership.{Balanced, run-Balanced}

abbrev three_slots : Store
three_slots = record { slots = dead ∷ dead ∷ dead ∷ []; adopted = []; closed = []; released = [] }

-- Handle 0 adopts 7, handle 1 adopts 8 and takes 7 over, handle 2 is made from handle 1.
abbrev after_moves : Store
after_moves = record {
  slots = dead ∷ alive none ∷ alive (some 7) ∷ [];
  adopted = 8 ∷ 7 ∷ [];
  closed = 8 ∷ [];
  released = [];
}

run-Balanced_example : Balanced 7 after_moves
unfolding run step adopt move_into assign destroy_at
run-Balanced_example =
    run-Balanced 7
      (adopts 0 (some 7) ∷ adopts 1 (some 8) ∷ assigns 1 0 ∷ destroys 0 ∷ moves 2 1 ∷ [])
      three_slots after_moves refl refl

released_runs :
    run (adopts 0 (some 7) ∷ releases 0 ∷ destroys 0 ∷ []) three_slots
    ≡ some (record three_slots { adopted = 7 ∷ []; released = 7 ∷ [] })
unfolding run step adopt release_at destroy_at
released_runs = refl
