-- ===== src/TimerServer/Tests.antt =====
-- Runs of the server with timers and instances of its theorems.
use linux_network.Base.{
  ℕ, ◌≡◌, refl, Bool, ◌⊎◌, true, false, Option, none, some, List, [], ◌∷◌, inl, arith,
}
use linux_network.TimerList.{
  new_list, add_timer, adjust_timer, del_timer, tick, insert_loop, add_behind, push_front,
  move_behind, delete_first, delete_last, delete_inner, pop_front, tick_loop,
}
use linux_network.Chain.{and_then}
use linux_network.TimerServer.{
  Server, Event, Action, epoll_add, epoll_del, close, alarm, timeslot, sigalrm, Received, bytes,
  closed, again, handle_events, timer_handler, serve, serve_round, handle_event, add_client,
  read_client, renew_client, drop_client, handle_signals, cb_func, callbacks,
}
use linux_network.TimerServer.Accounts.{Serves, timer_of}
use linux_network.TimerServer.Accepting.{AllDocumented, handle_events-Serves}
use linux_network.TimerServer.Activity.{Heard, heard_all, serve_round-idle}
use linux_network.TimerServer.Serving.{AllAllowed}
use linux_network.TimerServer.Running.{AllRounds}

abbrev pub start : Server
start = record {
  users = λ _. record { sockfd = 0; timer = none };
  timers = new_list;
  timeout = false;
  stop = false;
}

start-Serves : Serves 0 start []
start-Serves = ((refl, λ ne. absurd (ne refl), tt, tt), tt, tt, tt, λ b n. refl)

-- The listening socket is 3, the pipe 5. A connection 7 and a connection 8, input on the first, the
-- alarm, the end of the second.
abbrev connect : ℕ → ℕ → ℕ → Event
connect fd a now = record {
  fd = 3;
  input = true;
  accepted = some fd;
  new = a;
  signals = none;
  received = again;
  now = now;
}

abbrev send : ℕ → Received → ℕ → Event
send fd r now = record {
  fd = fd;
  input = true;
  accepted = none;
  new = 0;
  signals = none;
  received = r;
  now = now;
}

abbrev ring : ℕ → Event
ring now = record {
  fd = 5;
  input = true;
  accepted = none;
  new = 0;
  signals = some (sigalrm ∷ []);
  received = again;
  now = now;
}

abbrev pub two_clients : List Event
two_clients = connect 7 1 100 ∷ connect 8 2 101 ∷ send 7 bytes 110 ∷ []

abbrev pub rounds : List (Option (List Event × ℕ))
rounds =
    some (two_clients, 110)
    ∷ some (ring 120 ∷ [], 120)
    ∷ some (send 7 closed 121 ∷ [], 121)
    ∷ none
    ∷ []

two_clients-AllAllowed : AllAllowed 3 5 0 two_clients []
two_clients-AllAllowed = (
  omega arith,
  (7, refl, omega arith, tt, tt),
  (
    omega arith,
    (8, refl, omega arith, (omega arith, tt), (omega arith, tt)),
    (omega arith, inl refl, tt),
  ),
)

two_clients-AllDocumented : AllDocumented 3 5 0 two_clients []
two_clients-AllDocumented = (
  omega arith,
  (tt, tt),
  (omega arith, ((omega arith, tt), (omega arith, tt)), (omega arith, inl refl, tt)),
)

handle_events-Serves_example :
    ((true ≡ true)
      × (s' : Server) × (handle_events 3 5 3 two_clients start
          ≡ some (s', epoll_add 7 ∷ epoll_add 8 ∷ []))
      × Serves 110 s' (timer_of 2 8 101 ∷ timer_of 1 7 110 ∷ [])
      × (s'.timeout ≡ false)
      × (s'.stop ≡ false))
    ⊎ ((true ≡ false) × (handle_events 3 5 3 two_clients start ≡ none))
handle_events-Serves_example =
    handle_events-Serves 3 5 3 0 two_clients start [] (omega arith) start-Serves
      two_clients-AllDocumented

pub rounds-AllRounds : AllRounds 3 5 0 rounds []
rounds-AllRounds = (
  two_clients-AllAllowed,
  omega arith,
  ((omega arith, tt, tt), omega arith, ((omega arith, inl refl, tt), omega arith, tt)),
)

-- At 120 the connection 8, accepted at 101, has been idle for too long; 7 has sent something at 110.
abbrev ringing : List Event
ringing = connect 7 1 100 ∷ connect 8 2 101 ∷ send 7 bytes 110 ∷ ring 120 ∷ []

serve_round-idle_example :
    (s' : Server) × (serve_round 3 5 4 ringing 120 start
      ≡ some (s', epoll_add 7 ∷ epoll_add 8 ∷ epoll_del 0 8 ∷ close 8 ∷ alarm timeslot ∷ []))
    × Serves 120 s' (timer_of 1 7 110 ∷ [])
    × ◌≡◌ {A = List ℕ} (7 ∷ []) (7 ∷ [])
    × Heard (heard_all 3 5 ringing (λ _. 0)) (timer_of 1 7 110 ∷ [])
serve_round-idle_example =
    serve_round-idle 3 5 4 0 (λ _. 0) ringing 120 start [] (omega arith) start-Serves tt refl
      (
        omega arith,
        (7, refl, omega arith, tt, tt),
        (
          omega arith,
          (8, refl, omega arith, (omega arith, tt), (omega arith, tt)),
          (omega arith, inl refl, (omega arith, tt, tt)),
        ),
      )
      (omega arith) refl

abbrev trace : Option (List Action × Bool)
trace = and_then (serve 3 5 5 rounds start) (λ (s, acts, over). some (acts, over))

trace_lem :
    trace
    ≡ some (
        (
          epoll_add 7
              ∷ epoll_add 8
              ∷ epoll_del 0 8
              ∷ close 8
              ∷ alarm timeslot
              ∷ epoll_del 0 7
              ∷ close 7
              ∷ [],
          true,
        ))
unfolding serve serve_round handle_events handle_event timer_handler handle_signals add_client
    read_client renew_client drop_client cb_func callbacks add_timer add_behind insert_loop
    push_front adjust_timer move_behind del_timer delete_first delete_last delete_inner tick
    tick_loop pop_front
trace_lem = refl
