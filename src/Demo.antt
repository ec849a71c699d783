-- ===== src/Demo.antt =====
-- demo.h: eight programs that watch one end of the terminal with epoll, to show level and edge triggering.
-- Each registers its descriptor, and then goes on for ever: it waits, and goes through what is reported.
pub mod Kernel
pub mod Reading
pub mod Writing
mod Tests
use linux_network.Base.{ℕ, List, [], ◌∷◌, ◌++◌, ◌==◌, if◌then◌else◌}

-- STDIN_FILENO and STDOUT_FILENO
abbrev pub stdin : ℕ
stdin = 0

abbrev pub stdout : ℕ
stdout = 1

-- EPOLLET or not.
pub data Trigger : Type 0 where
  level : Trigger
  edge : Trigger

-- EPOLLIN and EPOLLOUT.
pub data Interest : Type 0 where
  input : Trigger → Interest
  output : Trigger → Interest

-- epoll_ctl with EPOLL_CTL_ADD and EPOLL_CTL_MOD, read with the size of its buffer, and printf of the
-- greeting with a line end behind it or without one.
pub data Action : Type 0 where
  add : ℕ → Interest → Action
  modify : ℕ → Interest → Action
  read : ℕ → ℕ → Action
  print_line : Action
  print_text : Action

-- What stands before the loop, and a round of it on the descriptors that epoll_wait reports, [] for -1.
pub record Program : Type 0 where
  pub setup : Action
  pub round : List ℕ → List Action

-- for (auto i = 0; i < nfds; i++) if (events[i].data.fd == fd) …
unfoldable pub for_each : ℕ → List Action → List ℕ → List Action
for_each fd acts [] = []
for_each fd acts (e ∷ es) = (if e == fd then acts else []) ++ for_each fd acts es

abbrev pub pure_et : Program
pure_et = record { setup = add stdin (input edge); round = for_each stdin (print_line ∷ []) }

abbrev pub pure_lt : Program
pure_lt = record { setup = add stdin (input level); round = for_each stdin (print_line ∷ []) }

abbrev pub readout_lt : Program
readout_lt = record {
  setup = add stdin (input level);
  round = for_each stdin (read stdin 1024 ∷ print_line ∷ []);
}

abbrev pub reset_et : Program
reset_et = record {
  setup = add stdin (input edge);
  round = for_each stdin (print_line ∷ modify stdin (input edge) ∷ []);
}

abbrev pub write_et_loop : Program
write_et_loop = record {
  setup = add stdout (output edge);
  round = for_each stdout (print_line ∷ []);
}

abbrev pub write_et_hang : Program
write_et_hang = record {
  setup = add stdout (output edge);
  round = for_each stdout (print_text ∷ []);
}

abbrev pub write_lt_loop : Program
write_lt_loop = record {
  setup = add stdout (output level);
  round = for_each stdout (print_text ∷ []);
}

abbrev pub write_et_reload : Program
write_et_reload = record {
  setup = add stdout (output edge);
  round = for_each stdout (print_text ∷ modify stdout (output edge) ∷ []);
}
