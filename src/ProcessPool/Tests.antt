-- ===== src/ProcessPool/Tests.antt =====
-- Runs of the process pool and instances of its theorems.
use linux_network.Base.{
  ℕ, zero, suc, ◌≤◌, ◌<◌, ◌≡◌, refl, ◌⊎◌, true, false, none, some, List, [], ◌∷◌, arith,
}
use linux_network.CgiConn
use linux_network.CgiConn.{Received, bytes, again, System}
use linux_network.CgiConn.Line.{FirstCrlf}
use linux_network.ProcessPool.{Process, send, Signal, Event, Parent, find_child, handle_events}
use linux_network.ProcessPool.Choice.{FirstLive, NoneLive, find_child-total}
use linux_network.ProcessPool.RoundRobin.{AllLive, handle_events-round_robin}
use linux_network.ProcessPool.Child.{Child, ChildEvent, told, goes_on, add_fd, client, child_events}
use linux_network.ProcessPool.Clients.{child_serves}

abbrev process : ℕ → ℕ → ℕ → Process
process pid a b = record { pid = some pid; pipe_parent = a; pipe_child = b }

abbrev ended_process : Process
ended_process = record { pid = none; pipe_parent = 12; pipe_child = 13 }

-- Three children, the one at the counter has ended.
abbrev three : Parent
three = record {
  listenfd = 3;
  sig_fd = 20;
  epollfd = 4;
  number = 3;
  children = process 100 10 11 ∷ ended_process ∷ process 102 14 15 ∷ [];
  stop = false;
  counter = 1;
}

abbrev all_three : Parent
all_three = record three {
  children = process 100 10 11 ∷ process 101 12 13 ∷ process 102 14 15 ∷ [];
}

abbrev connection : Event
connection = record { fd = 3; input = true; signals = [] }

find_child-total_example :
    (r : ℕ) × (find_child 3 3 1 three.children 1 ≡ some r)
    × (FirstLive 3 1 three.children r ⊎ NoneLive 3 1 three.children r)
find_child-total_example = find_child-total 3 1 three.children (omega arith)

all_three-AllLive : AllLive 3 all_three.children
all_three-AllLive zero h = refl
all_three-AllLive (suc zero) h = refl
all_three-AllLive (suc (suc zero)) h = refl
all_three-AllLive (suc (suc (suc i))) h = absurd (omega arith)

handle_events-round_robin_example :
    handle_events all_three (connection ∷ connection ∷ connection ∷ [])
    ≡ (record all_three { counter = 1 }, send 12 ∷ send 14 ∷ send 10 ∷ [])
handle_events-round_robin_example =
    handle_events-round_robin all_three (connection ∷ connection ∷ connection ∷ []) (omega arith)
      all_three-AllLive (refl, (refl, (refl, tt)))

abbrev worker : Child
worker = record {
  epollfd = 5;
  pipefd = 13;
  sig_fd = 20;
  users = λ _. record { epollfd = 0; sockfd = 0; address = 0; buf = []; read_idx = 0 };
  stop = false;
}

abbrev no_access : System
no_access = record { access = λ _. false; fork = CgiConn.fork_failed; exec_returns = false }

abbrev event : ℕ → List Signal → List Received → ChildEvent
event fd signals answers = record {
  fd = fd;
  input = true;
  pipe_answer = told;
  accepted = some (9, 77);
  signals = signals;
  answers = answers;
  system = no_access;
}

abbrev line : List Received
line = bytes (97 ∷ 13 ∷ []) ∷ again ∷ bytes (10 ∷ []) ∷ []

line-FirstCrlf : FirstCrlf (97 ∷ 13 ∷ 10 ∷ []) 2
unfolding CgiConn.crlf_at
line-FirstCrlf = record { inside = omega arith; here = refl; earlier = before }
  where
    before : (k : ℕ) → 0 ≤ k → k < 2 → CgiConn.crlf_at (97 ∷ 13 ∷ 10 ∷ []) k ≡ false
    before zero a b = refl
    before (suc zero) a b = refl
    before (suc (suc k)) a b = absurd (omega arith)

child_serves_example :
    (d : Child) × (child_events worker (event 13 [] [] ∷ event 9 [] line ∷ [])
      ≡ goes_on d (add_fd 5 9 ∷ client (CgiConn.epoll_del 5 9) ∷ client (CgiConn.close 9) ∷ []))
unfolding CgiConn.serve CgiConn.removefd CgiConn.init
child_serves_example =
    child_serves worker (event 13 [] []) (event 9 [] line) 9 77 2 (refl, refl, refl, refl)
      (omega arith) refl refl (omega arith) (omega arith) (omega arith) line-FirstCrlf
