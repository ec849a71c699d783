-- ===== src/Stress/Program.antt =====
-- stress.cpp, main: the connections that it starts and its loop. `atoi` is a parameter.
pub mod Counting
pub mod Turns
mod ProgramTests
use linux_network.Base.{ℕ, zero, suc, ℤ, pos, negsuc, Option, none, some, List, [], ◌∷◌, ◌++◌}
use linux_network.Stress.{Action, Event, Attempt, handle_event, start_conn}

abbrev pub then_acts : List Action → Option (List Action) → Option (List Action)
then_acts acts none = none
then_acts acts (some later) = some (acts ++ later)

abbrev pub and_then : Option (List Action) → Option (List Action) → Option (List Action)
and_then none later = none
and_then (some acts) later = then_acts acts later

-- The answers of the first `n` rounds of the loop in start_conn, from round `i` on.
abbrev pub attempts : (ℕ → Attempt) → ℕ → ℕ → List Attempt
attempts answer zero i = []
attempts answer (suc n) i = answer i ∷ attempts answer n (suc i)

-- start_conn for an int.
abbrev pub start_conns : (ℕ → Attempt) → ℤ → List Action
start_conns answer (pos n) = start_conn (attempts answer n 0)
start_conns answer (negsuc n) = []

-- `aborts` is the failed assertion on argc; otherwise what is done, `none` while write_nbytes has not
-- returned.
pub data Run : Type 0 where
  aborts : Run
  runs : Option (List Action) → Run

module _ (request : List ℕ) where
  -- The loop over the reported entries.
  unfoldable pub handle_events : List Event → Option (List Action)
  handle_events [] = some []
  handle_events (e ∷ es) = and_then (handle_event request e) (handle_events es)

  -- The loop of main, on the entries of each epoll_wait, [] for an error.
  unfoldable pub serve : List (List Event) → Option (List Action)
  serve [] = some []
  serve (es ∷ rounds) = and_then (handle_events es) (serve rounds)

  -- main on argv.
  unfoldable pub main : (List ℕ → ℤ) → List (List ℕ) → (ℕ → Attempt) → List (List Event) → Run
  main atoi (name ∷ ip ∷ port ∷ num ∷ []) answer rounds =
      runs (then_acts (start_conns answer (atoi num)) (serve rounds))
  main atoi argv answer rounds = aborts
