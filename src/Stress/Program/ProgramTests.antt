-- ===== src/Stress/Program/ProgramTests.antt =====
-- Runs of the program of stress.cpp and an instance of its theorem.
use linux_network.Base.{ℕ, zero, suc, ℤ, pos, ◌≡◌, refl, true, false, none, some, List, [], ◌∷◌}
use linux_network.Stress.{
  Event, Attempt, Action, wrote, read_some, read_error, epoll_add, epoll_mod, epoll_del, close,
  recv, send, set_nonblocking, for_input, for_output, ReadAnswer, handle_event, write_nbytes,
  after_write, close_conn, read_once, start_conn, addfd,
}
use linux_network.Stress.Program.{runs, aborts, main, serve, handle_events}
use linux_network.Stress.Program.Turns.{Out, main-Out}

abbrev two : List ℕ → ℤ
two s = pos 2

-- The second socket does not connect.
abbrev answer : ℕ → Attempt
answer zero = record { socket = some 4; connected = true }
answer (suc n) = record { socket = some 5; connected = false }

abbrev writable : Event
writable = record {
  fd = 4;
  input = false;
  output = true;
  error = false;
  read = read_error;
  sends = wrote 2 ∷ wrote 1 ∷ [];
}

abbrev readable : ReadAnswer → Event
readable r = record { fd = 4; input = true; output = false; error = false; read = r; sends = [] }

abbrev request : List ℕ
request = 1 ∷ 2 ∷ 3 ∷ []

abbrev rounds : List (List Event)
rounds =
    (writable ∷ []) ∷ (readable read_some ∷ []) ∷ [] ∷ (writable ∷ readable read_error ∷ []) ∷ []

abbrev argv : List (List ℕ)
argv = [] ∷ (1 ∷ []) ∷ (2 ∷ []) ∷ (3 ∷ []) ∷ []

abbrev done : List Action
done =
    epoll_add 4 for_output
    ∷ set_nonblocking 4
    ∷ send 4 request
    ∷ epoll_mod 4 for_input
    ∷ recv 4
    ∷ epoll_mod 4 for_output
    ∷ send 4 request
    ∷ epoll_mod 4 for_input
    ∷ recv 4
    ∷ epoll_del 4
    ∷ close 4
    ∷ epoll_mod 4 for_output
    ∷ []

run_lem : main request two argv answer rounds ≡ runs (some done)
unfolding main serve handle_events handle_event write_nbytes after_write close_conn read_once
    start_conn addfd
run_lem = refl

main-Out_example : Out 4 none 2 2
unfolding handle_event write_nbytes after_write close_conn read_once start_conn addfd
main-Out_example =
    main-Out 4 request two [] (1 ∷ []) (2 ∷ []) (3 ∷ []) answer rounds done
      (refl, (refl, (refl, (refl, tt)))) run_lem

-- Without the number of connections.
no_number_lem : main request two ([] ∷ (1 ∷ []) ∷ (2 ∷ []) ∷ []) answer rounds ≡ aborts
unfolding main
no_number_lem = refl
