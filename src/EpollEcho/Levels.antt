-- ===== src/EpollEcho/Levels.antt =====
-- io_epoll.h: level triggering against edge triggering.
use linux_network.Base.{ℕ, true, none, List, [], ◌∷◌, ◌++◌, map}
use linux_network.EpollEcho.{
  Received, bytes, Action, lt_event, lt_content, et_event, et_content, read_later, Event,
}

abbrev pub readable : ℕ → List Received → Event
readable fd answers = record { fd = fd; input = true; accepted = none; answers = answers }

-- One event for each piece of the text.
abbrev pub one_by_one : ℕ → List (List ℕ) → List Event
one_by_one fd = map (λ xs. readable fd (bytes xs ∷ []))

-- What `lt` does for them, and `et` for one event.
abbrev pub lt_lines : List (List ℕ) → List Action
lt_lines [] = []
lt_lines (xs ∷ xss) = lt_event ∷ lt_content xs ∷ lt_lines xss

abbrev pub et_lines : List (List ℕ) → List Action
et_lines xss = et_event ∷ map et_content xss ++ read_later ∷ []
