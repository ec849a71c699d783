-- ===== src/EpollEcho/Tests.antt =====
-- Runs of the servers of io_epoll.h and instances of their theorems.
use linux_network.Base.{◌≡◌, refl, true, false, [], ◌∷◌, none, some, pos}
use linux_network.EpollEcho.{
  closed, close, lt, serve, epoll_add, set_nonblocking, Event, addfd, lt_read, lt_event,
  epoll_failure,
}
use linux_network.EpollEcho.Program.{
  Answers, runs, aborts, opened, bind, listen, did, test_epoll_func,
}
use linux_network.EpollEcho.Levels.{readable}

abbrev connecting : Event
connecting = record { fd = 3; input = true; accepted = some 7; answers = [] }

serve_run :
    serve 3 (some (connecting ∷ []) ∷ some (readable 7 (closed ∷ []) ∷ []) ∷ none ∷ [])
    ≡ epoll_add (some 7) false
      ∷ set_nonblocking (some 7)
      ∷ lt_event
      ∷ close 7
      ∷ epoll_failure
      ∷ close 3
      ∷ []
unfolding serve lt
serve_run = refl

-- The whole program: a client that comes and goes, and an error of epoll_wait.
abbrev all_well : Answers
all_well = record { socket = some 3; bind_ok = true; listen_ok = true; epoll_create = some 4 }

program_run :
    test_epoll_func
      (1 ∷ [])
      (pos 80)
      all_well
      (some (connecting ∷ []) ∷ some (readable 7 (closed ∷ []) ∷ []) ∷ none ∷ [])
    ≡ runs (
        opened 3
        ∷ bind 3 (1 ∷ []) 80
        ∷ listen 3 5
        ∷ opened 4
        ∷ did (epoll_add (some 3) true)
        ∷ did (set_nonblocking (some 3))
        ∷ did (epoll_add (some 7) false)
        ∷ did (set_nonblocking (some 7))
        ∷ did lt_event
        ∷ did (close 7)
        ∷ did epoll_failure
        ∷ did (close 3)
        ∷ [])
unfolding test_epoll_func serve lt addfd lt_read
program_run = refl

no_listen_run :
    test_epoll_func (1 ∷ []) (pos 80) (record all_well { listen_ok = false }) []
    ≡ aborts (opened 3 ∷ bind 3 (1 ∷ []) 80 ∷ listen 3 5 ∷ [])
unfolding test_epoll_func
no_listen_run = refl
