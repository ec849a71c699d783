-- ===== src/TimerServer/Running.antt =====
-- cpt_11_2_2.h: the main loop.
use linux_network.Base.{
  ℕ, ◌+◌, ◌≤◌, ◌≡◌, refl, ap, ◌∙◌, ◌||◌, if◌then◌else◌, Bool, true, false, Bool-cases, inl, inr,
  Option, none, some, List, [], ◌∷◌, ◌++◌, arith, length,
}
use linux_network.TimerList.Sorting.{Entries}
use linux_network.TimerList.Expiring.{remaining}
use linux_network.Chain.{and_then}
use linux_network.TimerServer.{Server, Event, Action, serve, serve_round}
use linux_network.TimerServer.Accounts.{Serves}
use linux_network.TimerServer.Serving.{
  time_behind, AllAllowed, after_all, any_rings, any_terms, after_round, acts_of_round,
  length-after_all, serve_round_lem,
}
use linux_network.TimerServer.Balance.{Balanced, Balanced-append, Balanced-round}

length-remaining : (now : ℕ) (es : Entries) → length (remaining now es) ≤ length es
length-remaining now [] = omega arith
length-remaining now (e ∷ es) = ground (arith, length-remaining now es)

-- How many entries the answers of epoll_wait report.
abbrev pub reported : List (Option (List Event × ℕ)) → ℕ
reported [] = 0
reported (none ∷ ws) = reported ws
reported (some (evs, now) ∷ ws) = length evs + reported ws

module _ (listenfd pipefd : ℕ) where
  length-after_round :
      (evs : List Event) (now : ℕ) (es : Entries)
      → length (after_round listenfd pipefd evs now es) ≤ length es + length evs
  length-after_round evs now es = elim (Bool-cases (any_rings listenfd pipefd evs)) [
    | inl t ↦ rw t (
        omega (
          arith,
          length-remaining now (after_all listenfd pipefd evs es),
          length-after_all listenfd pipefd evs es,
        ))
    | inr t ↦ rw t (length-after_all listenfd pipefd evs es)
  ]

  -- In every round each accept gives a descriptor in range, and time does not go back.
  abbrev pub AllRounds : ℕ → List (Option (List Event × ℕ)) → Entries → Type 0
  AllRounds n [] es = Unit
  AllRounds n (none ∷ ws) es = Unit
  AllRounds n (some (evs, now) ∷ ws) es =
      AllAllowed listenfd pipefd n evs es
      × (time_behind listenfd pipefd n evs ≤ now)
      × AllRounds now ws (after_round listenfd pipefd evs now es)

  -- The rounds that are run, from whether the server stops in front of them: the connections that are
  -- open behind them, what is done in them, and whether the loop ends with them.
  abbrev pub open_behind : Bool → List (Option (List Event × ℕ)) → Entries → Entries
  open_behind stop [] es = es
  open_behind stop (none ∷ ws) es = es
  open_behind true (some (evs, now) ∷ ws) es = es
  open_behind false (some (evs, now) ∷ ws) es =
      open_behind (any_terms listenfd pipefd evs) ws (after_round listenfd pipefd evs now es)

  abbrev pub acts_of_rounds : Bool → List (Option (List Event × ℕ)) → Entries → List Action
  acts_of_rounds stop [] es = []
  acts_of_rounds stop (none ∷ ws) es = []
  acts_of_rounds true (some (evs, now) ∷ ws) es = []
  acts_of_rounds false (some (evs, now) ∷ ws) es =
      acts_of_round listenfd pipefd evs now es
      ++ acts_of_rounds (any_terms listenfd pipefd evs) ws (after_round listenfd pipefd evs now es)

  abbrev pub ends : Bool → List (Option (List Event × ℕ)) → Bool
  ends stop [] = stop
  ends stop (none ∷ ws) = true
  ends true (some (evs, now) ∷ ws) = true
  ends false (some (evs, now) ∷ ws) = ends (any_terms listenfd pipefd evs) ws

  -- The result `o` of a run from the connections `es`.
  abbrev pub Runs :
      Bool
      → List (Option (List Event × ℕ))
      → Entries
      → Option (Server × List Action × Bool)
      → Type 0
  Runs stop ws es o =
      (s' : Server) × (o ≡ some (s', acts_of_rounds stop ws es, ends stop ws))
      × (n' : ℕ) × Serves n' s' (open_behind stop ws es)
      × ((x : ℕ) → Balanced x es (acts_of_rounds stop ws es) (open_behind stop ws es))

  serve-goes :
      (fuel : ℕ) (evs : List Event) (now : ℕ) (ws : List (Option (List Event × ℕ))) (s s1 : Server)
      (acts : List Action)
      → s.stop ≡ false
      → serve_round listenfd pipefd fuel evs now s ≡ some (s1, acts)
      → serve listenfd pipefd fuel (some (evs, now) ∷ ws) s
        ≡ and_then
            (serve listenfd pipefd fuel ws s1)
            (λ (s2, later, over). some (s2, acts ++ later, over))
  unfolding serve
  serve-goes fuel evs now ws s s1 acts halt ran =
      let behind : Server × List Action → Option (Server × List Action × Bool) = λ (s1, acts).
        and_then (serve listenfd pipefd fuel ws s1)
          (λ (s2, later, over). some (s2, acts ++ later, over)) in
      ap
        (λ b.
          if b
          then some (s, [], true)
          else and_then (serve_round listenfd pipefd fuel evs now s) behind)
        halt
      ∙ ap (λ o. and_then o behind) ran

  -- The main loop, from the connections `es` and with no alarm pending, with fuel for the connections
  -- that are open and one for each entry that epoll_wait will report, where every accept gives a
  -- descriptor in range and time does not go back: it runs the rounds up to the one that brings SIGTERM
  -- or the error of epoll_wait; behind them every connection that is open has its timer; and for each
  -- descriptor, those open before and those registered since are as many as those closed since and those
  -- open behind them.
  pub serve-Balanced :
      (fuel n : ℕ) (stop : Bool) (ws : List (Option (List Event × ℕ))) (s : Server) (es : Entries)
      → length es + reported ws ≤ fuel
      → Serves n s es
      → s.timeout ≡ false
      → s.stop ≡ stop
      → AllRounds n ws es
      → Runs stop ws es (serve listenfd pipefd fuel ws s)
  unfolding serve
  serve-Balanced fuel n stop [] s es enough inv quiet halt ok = (s, rw halt refl, n, inv, λ x. refl)
  serve-Balanced fuel n stop (none ∷ ws) s es enough inv quiet halt ok =
      (s, refl, n, inv, λ x. refl)
  serve-Balanced fuel n true (some (evs, now) ∷ ws) s es enough inv quiet halt ok =
      (s, rw halt refl, n, inv, λ x. refl)
  serve-Balanced fuel n false (some (evs, now) ∷ ws) s es enough inv quiet halt (ok, le, oks) =
      let es1 = after_round listenfd pipefd evs now es in
      let halted = any_terms listenfd pipefd evs in
      let (s1, ran, inv1, quiet1, halt1) =
        serve_round_lem listenfd pipefd fuel n evs now s es (omega arith) inv quiet ok le in
      let (s2, later, n2, inv2, balanced) =
        serve-Balanced fuel now halted ws s1 es1 (omega (arith, length-after_round evs now es)) inv1
          quiet1 (halt1 ∙ ap (λ b. b || halted) halt) oks in
      (
        s2,
        serve-goes fuel evs now ws s s1 (acts_of_round listenfd pipefd evs now es) halt ran
            ∙ ap
                (λ o. and_then o (λ (s2, later, over).
                  some (s2, acts_of_round listenfd pipefd evs now es ++ later, over)))
                later,
        n2,
        inv2,
        λ x.
            Balanced-append x es es1 (open_behind halted ws es1)
              (acts_of_round listenfd pipefd evs now es) (acts_of_rounds halted ws es1)
              (Balanced-round listenfd pipefd x n evs now es ok) (balanced x),
      )
