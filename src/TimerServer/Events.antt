-- ===== src/TimerServer/Events.antt =====
-- cpt_11_2_2.h: what the reported events make of the connections.
use linux_network.Base.{
  ℕ, ◌≤◌, ◌<◌, ◌≡◌, refl, ◌∙◌, Bool, true, false, Bool-cases, ◌&&◌, ◌||◌, inl, inr, Option, none,
  some, List, [], ◌∷◌, chosen, passed, ◌==◌, if◌then◌else◌, arith, length,
}
use linux_network.Chain.Addresses.{NotIn}
use linux_network.TimerList.Sorting.{Entries, insert}
use linux_network.TimerServer.{
  Server, Event, Action, epoll_add, Signal, fd_limit, handle_event, handle_signals, sigalrm,
  sigterm, other_signal,
}
use linux_network.TimerServer.Accounts.{timer_of, IsOpen, IsShut, Serves}
use linux_network.TimerServer.Clients.{add_client_lem}
use linux_network.TimerServer.Reading.{after_read, acts_of_read, Serves-later, read_client_lem}

module _ (listenfd pipefd : ℕ) where
  -- What the kernel answers: accept gives a descriptor in range that is not open, `new` an address that
  -- is not in use, and input is reported for open connections only.
  abbrev pub Allowed : Event → Entries → Type 0
  Allowed e es =
      if e.fd == listenfd
      then ((fd : ℕ) × (e.accepted ≡ some fd) × (fd < fd_limit) × IsShut fd es × NotIn e.new es)
      else if e.fd == pipefd && e.input
      then Unit
      else if e.input
      then IsOpen e.fd es
      else Unit

  abbrev pub after : Event → Entries → Entries
  after e es =
      if e.fd == listenfd
      then elim e.accepted [ none ↦ es | some fd ↦ insert (timer_of e.new fd e.now) es ]
      else if e.fd == pipefd && e.input
      then es
      else if e.input
      then after_read e.fd e.received e.now es
      else es

  abbrev pub acts_of : Event → List Action
  acts_of e =
      if e.fd == listenfd
      then elim e.accepted [ none ↦ [] | some fd ↦ epoll_add fd ∷ [] ]
      else if e.fd == pipefd && e.input
      then []
      else if e.input
      then acts_of_read e.fd e.received
      else []

  abbrev pub has_alarm : List Signal → Bool
  has_alarm [] = false
  has_alarm (sigalrm ∷ sigs) = true
  has_alarm (sigterm ∷ sigs) = has_alarm sigs
  has_alarm (other_signal ∷ sigs) = has_alarm sigs

  -- The event brings SIGALRM.
  abbrev pub rings : Event → Bool
  rings e =
      if e.fd == listenfd
      then false
      else if e.fd == pipefd && e.input
      then elim e.signals [ none ↦ false | some sigs ↦ has_alarm sigs ]
      else false

  abbrev pub has_term : List Signal → Bool
  has_term [] = false
  has_term (sigterm ∷ sigs) = true
  has_term (sigalrm ∷ sigs) = has_term sigs
  has_term (other_signal ∷ sigs) = has_term sigs

  -- The event brings SIGTERM.
  abbrev pub terms : Event → Bool
  terms e =
      if e.fd == listenfd
      then false
      else if e.fd == pipefd && e.input
      then elim e.signals [ none ↦ false | some sigs ↦ has_term sigs ]
      else false

  stop-handle_signals :
      (sigs : List Signal) (s : Server) → (handle_signals sigs s).stop ≡ (s.stop || has_term sigs)
  unfolding handle_signals
  stop-handle_signals [] s = ground arith
  stop-handle_signals (sigterm ∷ sigs) s =
      ground (arith, stop-handle_signals sigs (record s { stop = true }))
  stop-handle_signals (sigalrm ∷ sigs) s = stop-handle_signals sigs (record s { timeout = true })
  stop-handle_signals (other_signal ∷ sigs) s = stop-handle_signals sigs s

  timeout-handle_signals :
      (sigs : List Signal) (s : Server)
      → (handle_signals sigs s).timeout ≡ (s.timeout || has_alarm sigs)
  unfolding handle_signals
  timeout-handle_signals [] s = ground arith
  timeout-handle_signals (sigalrm ∷ sigs) s =
      ground (arith, timeout-handle_signals sigs (record s { timeout = true }))
  timeout-handle_signals (sigterm ∷ sigs) s = timeout-handle_signals sigs (record s { stop = true })
  timeout-handle_signals (other_signal ∷ sigs) s = timeout-handle_signals sigs s

  or_false : (b : Bool) → b ≡ (b || false)
  or_false b = ground arith

  -- handle_signals changes the flags only.
  Serves-handle_signals :
      (n : ℕ) (sigs : List Signal) (s : Server) (es : Entries)
      → Serves n s es
      → Serves n (handle_signals sigs s) es
  unfolding handle_signals
  Serves-handle_signals n [] s es inv = inv
  Serves-handle_signals n (sigalrm ∷ sigs) s es inv =
      Serves-handle_signals n sigs (record s { timeout = true }) es inv
  Serves-handle_signals n (sigterm ∷ sigs) s es inv =
      Serves-handle_signals n sigs (record s { stop = true }) es inv
  Serves-handle_signals n (other_signal ∷ sigs) s es inv = Serves-handle_signals n sigs s es inv

  pub handle_event_lem :
      (fuel n : ℕ) (e : Event) (s : Server) (es : Entries)
      → length es ≤ fuel
      → Serves n s es
      → n ≤ e.now
      → Allowed e es
      → (s' : Server) × (handle_event listenfd pipefd fuel e s ≡ some (s', acts_of e))
        × Serves e.now s' (after e es)
        × (s'.timeout ≡ (s.timeout || rings e))
        × (s'.stop ≡ (s.stop || terms e))
  unfolding handle_event
  handle_event_lem fuel n e s es enough inv le ok = elim (Bool-cases (e.fd == listenfd)) [
    | inl t ↦
        let (fd, accepted, lt, shut, new) = chosen _ _ (e.fd == listenfd) t ok in
        let (s', ran, inv', same_timeout, same_stop) =
          add_client_lem fuel n s es fd e.new e.now enough inv le lt shut new in
        rw (t, accepted)
          (s', ran, inv', same_timeout ∙ or_false s.timeout, same_stop ∙ or_false s.stop)
    | inr t ↦ elim (Bool-cases (e.fd == pipefd && e.input)) [
      | inl p ↦ rw (t, p) (piped e.signals)
      | inr p ↦ elim (Bool-cases e.input) [
        | inl i ↦
            let m =
              chosen _ _ e.input i
                (passed _ _ (e.fd == pipefd && e.input) p (passed _ _ (e.fd == listenfd) t ok)) in
            let (s', ran, inv', same_timeout, same_stop) =
              read_client_lem fuel n e.now e.fd e.received s es enough inv le m in
            rw (t, p, i)
              (s', ran, inv', same_timeout ∙ or_false s.timeout, same_stop ∙ or_false s.stop)
        | inr i ↦
            rw (t, p, i)
              (s, refl, Serves-later n e.now s es le inv, or_false s.timeout, or_false s.stop)
      ]
    ]
  ]
    where
      piped :
          (o : Option (List Signal))
          → (s' : Server) × ◌≡◌ {A = Option (Server × List Action)}
              (some (elim o [ none ↦ s | some sigs ↦ handle_signals sigs s ], []))
              (some (s', []))
            × Serves e.now s' es
            × (s'.timeout ≡ (s.timeout || (elim o [ none ↦ false | some sigs ↦ has_alarm sigs ])))
            × (s'.stop ≡ (s.stop || (elim o [ none ↦ false | some sigs ↦ has_term sigs ])))
      piped none = (s, refl, Serves-later n e.now s es le inv, or_false s.timeout, or_false s.stop)
      piped (some sigs) = (
        handle_signals sigs s,
        refl,
        Serves-handle_signals e.now sigs s es (Serves-later n e.now s es le inv),
        timeout-handle_signals sigs s,
        stop-handle_signals sigs s,
      )
