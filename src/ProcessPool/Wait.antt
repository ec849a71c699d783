-- ===== src/ProcessPool/Wait.antt =====
-- cpt_15_3.h, run_parent as a whole: the brace behind epoll_wait closes the loop, so that the entries
-- are looked at only after the loop has ended.
use linux_network.Base.{
  ◌≡◌, refl, Bool, true, false, none, some, List, [], ◌∷◌, arith, if◌then◌else◌,
}
use linux_network.ProcessPool.{
  Parent, Event, WaitAnswer, ready, interrupted, failure, wait_loop, run_parent, handle_events,
  waiting, returned, close,
}

-- Does epoll_wait ever fail with an errno other than EINTR?
abbrev pub fails : List WaitAnswer → Bool
fails [] = false
fails (failure ∷ ws) = true
fails (_ ∷ ws) = fails ws

wait_loop-fails :
    (last : List Event) (ws : List WaitAnswer)
    → wait_loop false last ws ≡ (if fails ws then some [] else none)
unfolding wait_loop
wait_loop-fails last [] = refl
wait_loop-fails last (ready es ∷ ws) = wait_loop-fails es ws
wait_loop-fails last (interrupted ∷ ws) = wait_loop-fails [] ws
wait_loop-fails last (failure ∷ ws) = refl

-- Whatever epoll_wait reports, a parent that has not been stopped serves none of it: it waits on, or, when epoll_wait
-- fails, returns with its state unchanged and nothing done but closing the epoll descriptor.
pub run_parent-idle :
    (p : Parent) (ws : List WaitAnswer)
    → p.stop ≡ false
    → run_parent p ws ≡ (if fails ws then returned p (close p.epollfd ∷ []) else waiting)
unfolding run_parent handle_events
run_parent-idle p ws h = ground (arith, wait_loop-fails [] ws)
