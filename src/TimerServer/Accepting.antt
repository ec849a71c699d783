-- ===== src/TimerServer/Accepting.antt =====
-- cpt_11_2_2.h: the loop over the reported entries, whatever accept answers.
use linux_network.Base.{
  ℕ, ◌+◌, ◌≤◌, ◌≡◌, refl, Bool, true, false, Bool-cases, ◌&&◌, ◌||◌, ◌⊎◌, inl, inr, Option-cases,
  none, some, List, [], ◌∷◌, ◌==◌, if◌then◌else◌, ltb, chosen, arith, length, ltb→lt,
}
use linux_network.Chain.Addresses.{NotIn}
use linux_network.TimerList.Sorting.{Entries}
use linux_network.TimerServer.{Server, Event, fd_limit, handle_event, handle_events, add_client}
use linux_network.TimerServer.Accounts.{IsOpen, IsShut, Serves}
use linux_network.TimerServer.Events.{Allowed, after, handle_event_lem}
use linux_network.TimerServer.Serving.{
  time_behind, after_all, acts_of_all, any_rings, any_terms, length-after, AllAllowed,
  handle_events_lem,
}

module _ (listenfd pipefd : ℕ) where
  -- What is documented of the kernel: where accept gives a descriptor, it is not open, and `new` gives
  -- an address that is not in use; input is reported for open connections only.
  abbrev pub Documented : Event → Entries → Type 0
  Documented e es =
      if e.fd == listenfd
      then (elim e.accepted [ none ↦ Unit | some fd ↦ IsShut fd es × NotIn e.new es ])
      else if e.fd == pipefd && e.input
      then Unit
      else if e.input
      then IsOpen e.fd es
      else Unit

  -- An accept, if there is one, gives a descriptor that `users` has an entry for.
  abbrev pub accepts : Event → Bool
  accepts e =
      if e.fd == listenfd
      then elim e.accepted [ none ↦ false | some fd ↦ ltb fd fd_limit ]
      else true

  abbrev pub AllDocumented : ℕ → List Event → Entries → Type 0
  AllDocumented n [] es = Unit
  AllDocumented n (e ∷ evs) es =
      (n ≤ e.now) × Documented e es × AllDocumented e.now evs (after listenfd pipefd e es)

  abbrev pub all_accept : List Event → Bool
  all_accept [] = true
  all_accept (e ∷ evs) = accepts e && all_accept evs

  accepts-Allowed :
      (e : Event) (es : Entries) → accepts e ≡ true → Documented e es → Allowed listenfd pipefd e es
  accepts-Allowed e es acc ok = elim (Bool-cases (e.fd == listenfd)) [
    | inl t ↦
        let doc = chosen _ _ (e.fd == listenfd) t ok in
        let got : (elim e.accepted [ none ↦ false | some fd ↦ ltb fd fd_limit ]) ≡ true =
          ground (arith, acc, t) in
        elim (Option-cases e.accepted) [
          | inl x ↦ absurd (ground (arith, got, x))
          | inr (fd, x) ↦
              let (shut, fresh) : IsShut fd es × NotIn e.new es = rw x at doc in
              rw t (fd, x, ltb→lt fd fd_limit (rw x at got), shut, fresh)
        ]
    | inr t ↦ rw t (rw t at ok)
  ]

  refused :
      (fuel : ℕ) (e : Event) (s : Server)
      → accepts e ≡ false
      → handle_event listenfd pipefd fuel e s ≡ none
  unfolding handle_event add_client
  refused fuel e s fails = ground arith

  -- The loop over the reported entries, with fuel for the connections that are open and one for each
  -- entry, where the kernel keeps to what is documented and time does not go back. Either every accept
  -- gives a descriptor below 65535: then the loop does not fail, it does what the entries ask for in
  -- turn, and every connection that is open behind it has its timer. Or some accept does not, and the
  -- loop fails.
  pub handle_events-Serves :
      (fuel n : ℕ) (evs : List Event) (s : Server) (es : Entries)
      → length es + length evs ≤ fuel
      → Serves n s es
      → AllDocumented n evs es
      → ((all_accept evs ≡ true)
          × (s' : Server) × (handle_events listenfd pipefd fuel evs s
              ≡ some (s', acts_of_all listenfd pipefd evs))
          × Serves (time_behind listenfd pipefd n evs) s' (after_all listenfd pipefd evs es)
          × (s'.timeout ≡ (s.timeout || any_rings listenfd pipefd evs))
          × (s'.stop ≡ (s.stop || any_terms listenfd pipefd evs)))
        ⊎ ((all_accept evs ≡ false) × (handle_events listenfd pipefd fuel evs s ≡ none))
  unfolding handle_events
  handle_events-Serves fuel n evs s es enough inv ok = elim (Bool-cases (all_accept evs)) [
    | inl t ↦
        let (s', ran, inv', flag, halt) =
          handle_events_lem listenfd pipefd fuel n evs s es enough inv (allowed n evs es t ok) in
        inl (t, s', ran, inv', flag, halt)
    | inr t ↦ inr (t, fails fuel n evs s es enough inv ok t)
  ]
    where
      allowed :
          (n : ℕ) (evs : List Event) (es : Entries)
          → all_accept evs ≡ true
          → AllDocumented n evs es
          → AllAllowed listenfd pipefd n evs es
      allowed n [] es t ok = tt
      allowed n (e ∷ evs) es t ok =
          let here : accepts e ≡ true = ground arith in
          let there : all_accept evs ≡ true = ground arith in
          (
            ok.0,
            accepts-Allowed e es here ok.1,
            allowed e.now evs (after listenfd pipefd e es) there ok.2,
          )

      fails :
          (fuel n : ℕ) (evs : List Event) (s : Server) (es : Entries)
          → length es + length evs ≤ fuel
          → Serves n s es
          → AllDocumented n evs es
          → all_accept evs ≡ false
          → handle_events listenfd pipefd fuel evs s ≡ none
      fails fuel n [] s es enough inv ok t = absurd cc
      fails fuel n (e ∷ evs) s es enough inv ok t = elim (Bool-cases (accepts e)) [
        | inl acc ↦
            let (s1, ran, inv1, flag, halt) =
              handle_event_lem listenfd pipefd fuel n e s es (omega arith) inv ok.0
                (accepts-Allowed e es acc ok.1) in
            let there : all_accept evs ≡ false = ground arith in
            let rest =
              fails fuel e.now evs s1 (after listenfd pipefd e es)
                (omega (arith, length-after listenfd pipefd e es)) inv1 ok.2 there in
            rw (ran, rest) refl
        | inr failed ↦ rw (refused fuel e s failed) refl
      ]
