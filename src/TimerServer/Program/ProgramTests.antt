-- ===== src/TimerServer/Program/ProgramTests.antt =====
-- Runs of the program of cpt_11_2_2.h and instances of its theorems.
use linux_network.Base.{
  ℕ, ◌≡◌, refl, ℤ, pos, true, false, none, some, List, [], ◌∷◌, ◌++◌, map, arith,
}
use linux_network.TimerServer.{
  epoll_add, epoll_del, close, alarm, timeslot, Client, Action, Event, again, serve,
}
use linux_network.TimerServer.Balance.{Balanced}
use linux_network.TimerServer.Tests.{rounds, two_clients, rounds-AllRounds, start}
use linux_network.TimerServer.Program.{
  did, returns, aborts, opened, bind, tear_down, sig_handler, decode, test_timer_server,
  with_socket,
}
use linux_network.TimerServer.Program.Stopping.{CarriesTerm, serve-stops}
use linux_network.TimerServer.Program.Whole.{all_well, set_up, test_timer_server-Balanced}

-- SIGALRM is 14 and SIGTERM 15; another signal and SIGTERM have come.
abbrev ending : Event
ending = record {
  fd = 5;
  input = true;
  accepted = none;
  new = 0;
  signals = some (map (decode 14 15) (map sig_handler (2 ∷ 15 ∷ [])));
  received = again;
  now = 130;
}

ending-CarriesTerm : CarriesTerm 14 15 5 ending
ending-CarriesTerm = record {
  sigs = 2 ∷ 15 ∷ [];
  low = (omega arith, (omega arith, tt));
  at_pipe = refl;
  readable = refl;
  sent = refl;
  among = refl;
}

serve-stops_example :
    serve 3 5 5 (some (two_clients, 110) ∷ some (ending ∷ [], 130) ∷ rounds) start
    ≡ serve 3 5 5 (some (two_clients, 110) ∷ some (ending ∷ [], 130) ∷ []) start
serve-stops_example =
    serve-stops 14 15 3 5 (λ e. omega (arith, e)) (λ e. omega (arith, e)) 5
      (some (two_clients, 110) ∷ []) [] ending [] 130 rounds start ending-CarriesTerm

abbrev port_8080 : List ℕ → ℤ
port_8080 s = pos 8080

abbrev no_users : ℕ → Client
no_users _ = record { sockfd = 0; timer = none }

abbrev acts : List Action
acts =
    epoll_add 7
    ∷ epoll_add 8
    ∷ epoll_del 0 8
    ∷ close 8
    ∷ alarm timeslot
    ∷ epoll_del 0 7
    ∷ close 7
    ∷ []

test_timer_server-Balanced_example :
    (test_timer_server 14 15 port_8080
        ([] ∷ (1 ∷ []) ∷ (2 ∷ []) ∷ [])
        5
        rounds
        (all_well 3 4 5 6 no_users)
      ≡ (returns 0, set_up 14 15 3 4 5 6 (1 ∷ []) 8080 ++ map did acts ++ tear_down 3 5 6))
    × ((x : ℕ) → Balanced x [] acts [])
test_timer_server-Balanced_example =
    test_timer_server-Balanced port_8080 14 15 [] (1 ∷ []) (2 ∷ []) [] 3 4 5 6 no_users 5 rounds
      (omega arith) rounds-AllRounds

-- The port is in use.
bind_fails_lem :
    test_timer_server 14 15 port_8080
      ([] ∷ (1 ∷ []) ∷ (2 ∷ []) ∷ [])
      5
      rounds
      (record (all_well 3 4 5 6 no_users) { bind_ok = false })
    ≡ (aborts, opened 3 ∷ bind 3 (1 ∷ []) 8080 ∷ [])
unfolding test_timer_server with_socket
bind_fails_lem = refl
