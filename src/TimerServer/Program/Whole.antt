-- ===== src/TimerServer/Program/Whole.antt =====
-- cpt_11_2_2.h: test_timer_server from its start to its end.
use linux_network.Base.{
  ℕ, ◌≤◌, ◌≡◌, refl, sym, ap, ℤ, Bool, true, false, if◌then◌else◌, Option, some, List, [], ◌∷◌,
  ◌++◌, map, arith, append-nil,
}
use linux_network.LinuxClient.{to_uint16}
use linux_network.TimerServer.{Action, alarm, timeslot, Event, Client, Server, serve}
use linux_network.TimerServer.Accounts.{Serves}
use linux_network.TimerServer.Balance.{Balanced}
use linux_network.TimerServer.Running.{
  reported, AllRounds, open_behind, acts_of_rounds, ends, serve-Balanced,
}
use linux_network.TimerServer.Program.{
  Call, opened, bind, listen, epoll_watch, set_nonblocking, sigaction, did, returns, waits, Answers,
  tear_down, run_loop, with_pipe, with_epoll, with_socket, test_timer_server, new_server,
}

-- The calls in front of the main loop.
abbrev pub set_up : ℕ → ℕ → ℕ → ℕ → ℕ → ℕ → List ℕ → ℕ → List Call
set_up alrm term listenfd epollfd p0 p1 ip port =
    opened listenfd
    ∷ bind listenfd ip port
    ∷ listen listenfd 5
    ∷ opened epollfd
    ∷ epoll_watch epollfd listenfd
    ∷ opened p0
    ∷ opened p1
    ∷ set_nonblocking p1
    ∷ epoll_watch epollfd p0
    ∷ sigaction alrm
    ∷ sigaction term
    ∷ did (alarm timeslot)
    ∷ []

new_server-Serves : (users : ℕ → Client) → Serves 0 (new_server users) []
new_server-Serves users = ((refl, λ ne. absurd (ne refl), tt, tt), tt, tt, tt, λ b n. refl)

-- Every call in front of the loop succeeds.
abbrev pub all_well : ℕ → ℕ → ℕ → ℕ → (ℕ → Client) → Answers
all_well listenfd epollfd p0 p1 users = record {
  socket = some listenfd;
  bind_ok = true;
  listen_ok = true;
  epoll_create = some epollfd;
  socketpair = some (p0, p1);
  sigaction_ok = λ sig. true;
  users = users;
}

run_loop-ran :
    (alrm term listenfd p0 p1 fuel : ℕ) (ws : List (Option (List Event × ℕ))) (ans : Answers)
    (s : Server) (acts : List Action) (over : Bool)
    → serve listenfd p0 fuel ws (new_server ans.users) ≡ some (s, acts, over)
    → run_loop alrm term listenfd p0 p1 fuel ws ans ≡ (
      (if over then returns 0 else waits),
      map did acts ++ (if over then tear_down listenfd p0 p1 else []),
    )
unfolding run_loop
run_loop-ran alrm term listenfd p0 p1 fuel ws ans s acts true ran = rw (run_loop, ran) refl
run_loop-ran alrm term listenfd p0 p1 fuel ws ans s acts false ran =
    rw (run_loop, ran) (ap (λ l. (waits, l)) (sym (append-nil (map did acts))))

-- test_timer_server with two arguments or more and whatever is in the memory of `users`, where the calls
-- in front of the main loop and every accept succeed, accept with a descriptor below 65535, time does not
-- go back, and there is fuel for each entry that epoll_wait reports. It sets up the socket, the pipe and
-- the signals, and runs exactly the rounds up to the one that brings SIGTERM or to an error of epoll_wait.
-- With such a round or error it closes the socket and the pipe but not the epoll descriptor, and returns 0; without, it waits. In
-- the rounds, each descriptor is closed as often as it is registered, but for the connections that are open
-- behind the last of them, by the entries and alarms of the rounds, which stay so.
pub test_timer_server-Balanced :
    (atoi : List ℕ → ℤ) (alrm term : ℕ) (name ip port : List ℕ) (more : List (List ℕ))
    (listenfd epollfd p0 p1 : ℕ) (users : ℕ → Client) (fuel : ℕ)
    (ws : List (Option (List Event × ℕ)))
    → reported ws ≤ fuel
    → AllRounds listenfd p0 0 ws []
    → let acts = acts_of_rounds listenfd p0 false ws [] in
      let over = ends listenfd p0 false ws in
      (test_timer_server alrm term atoi
          (name ∷ ip ∷ port ∷ more)
          fuel
          ws
          (all_well listenfd epollfd p0 p1 users)
        ≡ (
          (if over then returns 0 else waits),
          set_up alrm term listenfd epollfd p0 p1 ip (to_uint16 (atoi port))
              ++ map did acts
              ++ (if over then tear_down listenfd p0 p1 else []),
        ))
      × ((x : ℕ) → Balanced x [] acts (open_behind listenfd p0 false ws []))
unfolding test_timer_server with_socket with_epoll with_pipe
test_timer_server-Balanced atoi alrm term name ip port more listenfd epollfd p0 p1 users fuel ws
      enough ok =
    let (s, ran, n, inv, balanced) =
      serve-Balanced listenfd p0 fuel 0 false ws (new_server users) [] (omega arith)
        (new_server-Serves users) refl refl ok in
    (
      rw
          (run_loop-ran alrm term listenfd p0 p1 fuel ws (all_well listenfd epollfd p0 p1 users) s
            (acts_of_rounds listenfd p0 false ws []) (ends listenfd p0 false ws) ran)
          refl,
      balanced,
    )
