-- ===== src/TimerServer/Program/Keeping.antt =====
-- cpt_11_2_2.h: the flag that stops the server, once set, stays so.
use linux_network.Base.{
  ℕ, ◌≡◌, refl, sym, ◌∙◌, subst, true, false, Option, none, some, List, [], ◌∷◌, ◌++◌,
  if◌then◌else◌, arith,
}
use linux_network.Chain.{and_then}
use linux_network.TimerServer.{
  Server, Event, Action, Received, bytes, closed, again, failed, add_client, drop_client,
  renew_client, read_client, Signal, sigalrm, sigterm, other_signal, handle_signals, timer_handler,
  handle_event, handle_events,
}

-- The two parts of a computation that comes to an end.
pub and_then-some :
    {A B : Type 0} (o : Option A) (f : A → Option B) (b : B)
    → and_then o f ≡ some b
    → (a : A) × (o ≡ some a) × (f a ≡ some b)
and_then-some none f b h = absurd cc
and_then-some (some a) f b h = (a, refl, h)

pub and_then-agree :
    {A B : Type 0} (o : Option A) (f g : A → Option B)
    → ((a : A) → o ≡ some a → f a ≡ g a)
    → and_then o f ≡ and_then o g
and_then-agree none f g same = refl
and_then-agree (some a) f g same = same a refl

add_client-stop :
    (fuel fd a now : ℕ) (s s' : Server) (acts : List Action)
    → add_client fuel fd a now s ≡ some (s', acts)
    → s'.stop ≡ s.stop
unfolding add_client
add_client-stop fuel fd a now s s' acts h = ground arith

accept-stop :
    (fuel a now : ℕ) (o : Option ℕ) (s s' : Server) (acts : List Action)
    → (elim o as (λ x. Option (Server × List Action)) [
      | none ↦ none
      | some fd ↦ add_client fuel fd a now s
    ])
      ≡ some (s', acts)
    → s'.stop ≡ s.stop
accept-stop fuel a now none s s' acts h = absurd cc
accept-stop fuel a now (some fd) s s' acts h = add_client-stop fuel fd a now s s' acts h

drop_client-stop :
    (fd : ℕ) (s s' : Server) (acts : List Action)
    → drop_client fd s ≡ some (s', acts)
    → s'.stop ≡ s.stop
unfolding drop_client
drop_client-stop fd s s' acts h = ground arith

renew_client-stop :
    (fuel fd now : ℕ) (s s' : Server) (acts : List Action)
    → renew_client fuel fd now s ≡ some (s', acts)
    → s'.stop ≡ s.stop
unfolding renew_client
renew_client-stop fuel fd now s s' acts h = ground arith

read_client-stop :
    (fuel fd : ℕ) (r : Received) (now : ℕ) (s s' : Server) (acts : List Action)
    → read_client fuel fd r now s ≡ some (s', acts)
    → s'.stop ≡ s.stop
unfolding read_client
read_client-stop fuel fd bytes now s s' acts h = renew_client-stop fuel fd now s s' acts h
read_client-stop fuel fd closed now s s' acts h = drop_client-stop fd s s' acts h
read_client-stop fuel fd again now s s' acts h = ground arith
read_client-stop fuel fd failed now s s' acts h = drop_client-stop fd s s' acts h

timer_handler-stop :
    (fuel now : ℕ) (s s' : Server) (acts : List Action)
    → timer_handler fuel now s ≡ some (s', acts)
    → s'.stop ≡ s.stop
unfolding timer_handler
timer_handler-stop fuel now s s' acts h = ground arith

ring-stop :
    (fuel now : ℕ) (s : Server) (front : List Action) (s' : Server) (acts : List Action)
    → and_then {B = Server × List Action}
        (timer_handler fuel now s)
        (λ (s2, later). some (record s2 { timeout = false }, front ++ later))
      ≡ some (s', acts)
    → s'.stop ≡ s.stop
ring-stop fuel now s front s' acts h =
    let ((s2, later), ran, both) =
      and_then-some (timer_handler fuel now s)
        (λ (s2, later). some (record s2 { timeout = false }, front ++ later)) (s', acts) h in
    let same : s2.stop ≡ s'.stop = cc in sym same ∙ timer_handler-stop fuel now s s2 later ran

pub rung-stop :
    (fuel now : ℕ) (s : Server) (front : List Action) (s' : Server) (acts : List Action)
    → (if s.timeout
        then and_then {B = Server × List Action}
            (timer_handler fuel now s)
            (λ (s2, later). some (record s2 { timeout = false }, front ++ later))
        else some (s, front))
      ≡ some (s', acts)
    → s'.stop ≡ s.stop
rung-stop fuel now s front s' acts h = ground (arith, ring-stop fuel now s front s' acts)

handle_signals-stop :
    (sigs : List Signal) (s : Server) → s.stop ≡ true → (handle_signals sigs s).stop ≡ true
unfolding handle_signals
handle_signals-stop [] s h = h
handle_signals-stop (sigalrm ∷ sigs) s h = handle_signals-stop sigs (record s { timeout = true }) h
handle_signals-stop (sigterm ∷ sigs) s h = handle_signals-stop sigs (record s { stop = true }) refl
handle_signals-stop (other_signal ∷ sigs) s h = handle_signals-stop sigs s h

module _ (listenfd pipefd : ℕ) where
  event_signals-stop :
      (o : Option (List Signal)) (s : Server)
      → s.stop ≡ true
      → (elim o as (λ x. Server) [ none ↦ s | some sigs ↦ handle_signals sigs s ]).stop ≡ true
  event_signals-stop none s h = h
  event_signals-stop (some sigs) s h = handle_signals-stop sigs s h

  handle_event-stop :
      (fuel : ℕ) (e : Event) (s s' : Server) (acts : List Action)
      → handle_event listenfd pipefd fuel e s ≡ some (s', acts)
      → s.stop ≡ true
      → s'.stop ≡ true
  unfolding handle_event
  handle_event-stop fuel e s s' acts h stopped = ground (
    arith,
    accept-stop fuel e.new e.now e.accepted s s' acts,
    read_client-stop fuel e.fd e.received e.now s s' acts,
    event_signals-stop e.signals s stopped,
  )

  pub handle_events-cons :
      (fuel : ℕ) (e : Event) (es : List Event) (s s' : Server) (acts : List Action)
      → handle_events listenfd pipefd fuel (e ∷ es) s ≡ some (s', acts)
      → (s1 : Server) × (front back : List Action) × (handle_event listenfd pipefd fuel e s
          ≡ some (s1, front))
        × (handle_events listenfd pipefd fuel es s1 ≡ some (s', back))
  unfolding handle_events
  handle_events-cons fuel e es s s' acts h =
      let ((s1, front), now, rest) =
        and_then-some (handle_event listenfd pipefd fuel e s)
          (λ (s1, front).
            and_then (handle_events listenfd pipefd fuel es s1)
              (λ (s2, back). some (s2, front ++ back)))
          (s', acts) h in
      let ((s2, back), later, both) =
        and_then-some (handle_events listenfd pipefd fuel es s1)
          (λ (s2, back). some (s2, front ++ back)) (s', acts) rest in
      let same : s2 ≡ s' = cc in
      (
        s1,
        front,
        back,
        now,
        subst (λ t. handle_events listenfd pipefd fuel es s1 ≡ some (t, back)) same later,
      )

  pub handle_events-stop :
      (fuel : ℕ) (es : List Event) (s s' : Server) (acts : List Action)
      → handle_events listenfd pipefd fuel es s ≡ some (s', acts)
      → s.stop ≡ true
      → s'.stop ≡ true
  unfolding handle_events
  handle_events-stop fuel [] s s' acts h stopped = ground arith
  handle_events-stop fuel (e ∷ es) s s' acts h stopped =
      let (s1, front, back, now, later) = handle_events-cons fuel e es s s' acts h in
      handle_events-stop fuel es s1 s' back later (handle_event-stop fuel e s s1 front now stopped)
