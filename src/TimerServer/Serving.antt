-- ===== src/TimerServer/Serving.antt =====
-- cpt_11_2_2.h: the loop over the reported entries, a round, and the main loop.
use linux_network.Base.{
  ℕ, suc, ◌+◌, ◌≤◌, ◌≡◌, refl, ap, ◌∙◌, Bool, false, Bool-cases, ◌||◌, inl, inr, Option, none, some,
  List, [], ◌∷◌, ◌++◌, if◌then◌else◌, arith, length,
}
use linux_network.Chain.Addresses.{Entry}
use linux_network.TimerList.Sorting.{Due, Entries, insert}
use linux_network.TimerList.Expiring.{remaining, expired, clients}
use linux_network.TimerServer.{
  Server, Event, Action, alarm, timeslot, Received, bytes, closed, again, failed, handle_events,
  serve_round,
}
use linux_network.TimerServer.Accounts.{timer_of, Serves}
use linux_network.TimerServer.Reading.{remove, address_of, renew, after_read, Serves-later}
use linux_network.TimerServer.Events.{Allowed, after, acts_of, rings, terms, handle_event_lem}
use linux_network.TimerServer.Idle.{shut_all, timer_handler-idle}

-- An event adds at most one connection.
length-insert : (e : Entry Due) (es : Entries) → length (insert e es) ≡ suc (length es)
length-insert e [] = refl
length-insert e (x ∷ xs) = ground (arith, length-insert e xs)

length-remove : (fd : ℕ) (es : Entries) → length (remove fd es) ≤ length es
length-remove fd [] = omega arith
length-remove fd (e ∷ es) = ground (arith, length-remove fd es)

length-renew : (fd now : ℕ) (es : Entries) → length (renew fd now es) ≤ suc (length es)
length-renew fd now es = go (address_of fd es)
  where
    go :
        (o : Option ℕ)
        → length (elim o [ none ↦ es | some a ↦ insert (timer_of a fd now) (remove fd es) ])
          ≤ suc (length es)
    go none = omega arith
    go (some a) =
        omega (arith, length-insert (timer_of a fd now) (remove fd es), length-remove fd es)

length-after_read :
    (fd : ℕ) (r : Received) (now : ℕ) (es : Entries)
    → length (after_read fd r now es) ≤ suc (length es)
length-after_read fd bytes now es = length-renew fd now es
length-after_read fd closed now es = omega (arith, length-remove fd es)
length-after_read fd again now es = omega arith
length-after_read fd failed now es = omega (arith, length-remove fd es)

module _ (listenfd pipefd : ℕ) where
  pub length-after :
      (e : Event) (es : Entries) → length (after listenfd pipefd e es) ≤ suc (length es)
  length-after e es = ground (arith, length-after_read e.fd e.received e.now es, go e.accepted)
    where
      go :
          (o : Option ℕ)
          → length (elim o [ none ↦ es | some fd ↦ insert (timer_of e.new fd e.now) es ])
            ≤ suc (length es)
      go none = omega arith
      go (some fd) = omega (arith, length-insert (timer_of e.new fd e.now) es)

  -- A list of events: the time behind it, whether it is allowed, what it makes of the connections, what
  -- is done, whether it brings SIGALRM.
  abbrev pub time_behind : ℕ → List Event → ℕ
  time_behind n [] = n
  time_behind n (e ∷ evs) = time_behind e.now evs

  abbrev pub AllAllowed : ℕ → List Event → Entries → Type 0
  AllAllowed n [] es = Unit
  AllAllowed n (e ∷ evs) es =
      (n ≤ e.now) × Allowed listenfd pipefd e es × AllAllowed e.now evs (after listenfd pipefd e es)

  abbrev pub after_all : List Event → Entries → Entries
  after_all [] es = es
  after_all (e ∷ evs) es = after_all evs (after listenfd pipefd e es)

  abbrev pub acts_of_all : List Event → List Action
  acts_of_all [] = []
  acts_of_all (e ∷ evs) = acts_of listenfd pipefd e ++ acts_of_all evs

  abbrev pub any_rings : List Event → Bool
  any_rings [] = false
  any_rings (e ∷ evs) = rings listenfd pipefd e || any_rings evs

  abbrev pub any_terms : List Event → Bool
  any_terms [] = false
  any_terms (e ∷ evs) = terms listenfd pipefd e || any_terms evs

  or_assoc : (a b c : Bool) → ((a || b) || c) ≡ (a || (b || c))
  or_assoc a b c = ground arith

  or_false : (b : Bool) → b ≡ (b || false)
  or_false b = ground arith

  -- The loop over the reported entries, with fuel for the connections that are open and one for each
  -- entry, where every accept gives a descriptor in range and time does not go back: it does
  -- what the entries ask for in turn, and every connection that is open behind it has its timer.
  pub handle_events_lem :
      (fuel n : ℕ) (evs : List Event) (s : Server) (es : Entries)
      → length es + length evs ≤ fuel
      → Serves n s es
      → AllAllowed n evs es
      → (s' : Server) × (handle_events listenfd pipefd fuel evs s ≡ some (s', acts_of_all evs))
        × Serves (time_behind n evs) s' (after_all evs es)
        × (s'.timeout ≡ (s.timeout || any_rings evs))
        × (s'.stop ≡ (s.stop || any_terms evs))
  unfolding handle_events
  handle_events_lem fuel n [] s es enough inv ok =
      (s, refl, inv, or_false s.timeout, or_false s.stop)
  handle_events_lem fuel n (e ∷ evs) s es enough inv ok =
      let (s1, ran, inv1, flag, halt) =
        handle_event_lem listenfd pipefd fuel n e s es (omega arith) inv ok.0 ok.1 in
      let (s2, later, inv2, flag2, halt2) =
        handle_events_lem fuel e.now evs s1 (after listenfd pipefd e es)
          (omega (arith, length-after e es)) inv1 ok.2 in
      (
        s2,
        rw (ran, later) refl,
        inv2,
        flag2
            ∙ ap (λ b. b || any_rings evs) flag
            ∙ or_assoc s.timeout (rings listenfd pipefd e) (any_rings evs),
        halt2
            ∙ ap (λ b. b || any_terms evs) halt
            ∙ or_assoc s.stop (terms listenfd pipefd e) (any_terms evs),
      )

  -- A round of the main loop.
  abbrev pub after_round : List Event → ℕ → Entries → Entries
  after_round evs now es =
      if any_rings evs then remaining now (after_all evs es) else after_all evs es

  abbrev pub acts_of_round : List Event → ℕ → Entries → List Action
  acts_of_round evs now es =
      if any_rings evs
      then acts_of_all evs
        ++ (shut_all (clients (expired now (after_all evs es))) ++ alarm timeslot ∷ [])
      else acts_of_all evs

  pub length-after_all :
      (evs : List Event) (es : Entries) → length (after_all evs es) ≤ length es + length evs
  length-after_all [] es = omega arith
  length-after_all (e ∷ evs) es =
      omega (arith, length-after_all evs (after listenfd pipefd e es), length-after e es)

  pub serve_round_lem :
      (fuel n : ℕ) (evs : List Event) (now : ℕ) (s : Server) (es : Entries)
      → length es + length evs ≤ fuel
      → Serves n s es
      → s.timeout ≡ false
      → AllAllowed n evs es
      → time_behind n evs ≤ now
      → (s' : Server) × (serve_round listenfd pipefd fuel evs now s
          ≡ some (s', acts_of_round evs now es))
        × Serves now s' (after_round evs now es)
        × (s'.timeout ≡ false)
        × (s'.stop ≡ (s.stop || any_terms evs))
  unfolding serve_round
  serve_round_lem fuel n evs now s es enough inv quiet ok le =
      let (s1, ran, inv1, flag, halt) = handle_events_lem fuel n evs s es enough inv ok in
      let ringing : s1.timeout ≡ any_rings evs = flag ∙ ap (λ b. b || any_rings evs) quiet in
      elim (Bool-cases (any_rings evs)) [
        | inl t ↦
            let (s2, ticked, inv2, same) =
              timer_handler-idle fuel (time_behind n evs) now s1 (after_all evs es)
                (omega (arith, length-after_all evs es, enough)) inv1 le in
            rw (ran, ringing, t, ticked)
              (record s2 { timeout = false }, refl, inv2, refl, same ∙ halt)
        | inr t ↦
            rw (ran, ringing, t)
              (
                s1,
                refl,
                Serves-later (time_behind n evs) now s1 (after_all evs es) le inv1,
                ringing ∙ t,
                halt,
              )
      ]
