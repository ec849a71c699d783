-- ===== src/Reactor/Registering.antt =====
-- epoll_reactor.cc: what becomes of a reactor whose handlers have no descriptors to give.
use linux_network.Base.{ℕ, ◌≡◌, refl, Option, List, [], ◌∷◌, arith}
use linux_network.Reactor.{
  Events, Call, register, remove, dispatch, dispatch_events, call, run, created, closed, life,
}

module _ (input output : ℕ → Events → Events) where
  events_of_none : (reported : List (ℕ × ℕ)) → dispatch_events input output reported [] ≡ ([], [])
  unfolding dispatch_events
  events_of_none [] = refl
  events_of_none (e ∷ es) = rw (events_of_none es) refl

  call_of_none : (c : Call) → call input output c [] ≡ ([], [])
  unfolding call
  call_of_none (register h) = ground arith
  call_of_none (remove h) = refl
  call_of_none (dispatch reported) = rw (events_of_none reported) refl

  run-inert : (cs : List Call) → run input output cs [] ≡ ([], [])
  unfolding run
  run-inert [] = refl
  run-inert (c ∷ cs) = rw (call_of_none c, run-inert cs) refl

  -- Whatever handlers are registered and removed with a reactor, and whatever epoll_wait reports, from the
  -- constructor to the destructor nothing is done but to open and close the epoll descriptor: no call
  -- of epoll_ctl is made and no handler is called, since GetIds leaves both descriptors at 0.
  pub life-inert :
      (epfd : Option ℕ) (cs : List Call)
      → life input output epfd cs ≡ created epfd ∷ closed epfd ∷ []
  unfolding life
  life-inert epfd cs = rw (run-inert cs) refl
