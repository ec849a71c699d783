-- ===== src/TimerServer/Program/Stopping.antt =====
-- cpt_11_2_2.h: SIGTERM and the end of the main loop.
use linux_network.Base.{
  ℕ, ◌<◌, ◌≡◌, ◌≢◌, refl, ap, sym, ◌∙◌, true, false, ◌||◌, Option, none, some, List, [], ◌∷◌, ◌++◌,
  map, ◌==◌, if◌then◌else◌, All, arith, ne→==false, ==_self,
}
use linux_network.Chain.{and_then}
use linux_network.TimerServer.{
  Server, Event, Action, handle_signals, timer_handler, handle_event, handle_events, serve_round,
  serve,
}
use linux_network.TimerServer.Program.{sig_handler, decode}
use linux_network.TimerServer.Program.Signals.{mem, or-true, handle_signals-sig_handler}
use linux_network.TimerServer.Program.Keeping.{
  and_then-some, and_then-agree, rung-stop, handle_events-cons, handle_events-stop,
}

-- An entry for the pipe with signals that have come through sig_handler, SIGTERM among them.
pub record CarriesTerm (alrm term pipefd : ℕ) (e : Event) : Type 0 where
  pub sigs : List ℕ
  pub low : All (λ sig. sig < 128) sigs
  pub at_pipe : e.fd ≡ pipefd
  pub readable : e.input ≡ true
  pub sent : e.signals ≡ some (map (decode alrm term) (map sig_handler sigs))
  pub among : mem term sigs ≡ true

module _ (alrm term listenfd pipefd : ℕ) (ne : alrm ≢ term) (apart : pipefd ≢ listenfd) where
  handled-stop :
      (sigs : List ℕ) (s : Server)
      → All (λ sig. sig < 128) sigs
      → mem term sigs ≡ true
      → (handle_signals (map (decode alrm term) (map sig_handler sigs)) s).stop ≡ true
  handled-stop sigs s low among =
      ap (λ (t : Server). t.stop) (handle_signals-sig_handler alrm term sigs s ne low)
      ∙ ap (λ b. s.stop || b) among
      ∙ or-true s.stop

  term_event-stop :
      (fuel : ℕ) (e : Event) (s s' : Server) (acts : List Action)
      → CarriesTerm alrm term pipefd e
      → handle_event listenfd pipefd fuel e s ≡ some (s', acts)
      → s'.stop ≡ true
  unfolding handle_event
  term_event-stop fuel e s s' acts c h =
      let stopped = handled-stop c.sigs s c.low c.among in
      let away : (e.fd == listenfd) ≡ false = rw c.at_pipe (ne→==false pipefd listenfd apart) in
      let here : (e.fd == pipefd) ≡ true = rw c.at_pipe (==_self pipefd) in
      let set : (elim e.signals as (λ x. Server) [
        | none ↦ s
        | some sigs ↦ handle_signals sigs s
      ]).stop
          ≡ true =
        ap (λ o. (elim o as (λ x. Server) [ none ↦ s | some sigs ↦ handle_signals sigs s ]).stop)
          c.sent
        ∙ stopped in
      ground (arith, set, away, here, c.readable)

  term_events-stop :
      (fuel : ℕ) (before : List Event) (e : Event) (after : List Event) (s s' : Server)
      (acts : List Action)
      → CarriesTerm alrm term pipefd e
      → handle_events listenfd pipefd fuel (before ++ e ∷ after) s ≡ some (s', acts)
      → s'.stop ≡ true
  term_events-stop fuel [] e after s s' acts c h =
      let (s1, front, back, now, later) =
        handle_events-cons listenfd pipefd fuel e after s s' acts h in
      handle_events-stop listenfd pipefd fuel after s1 s' back later
        (term_event-stop fuel e s s1 front c now)
  term_events-stop fuel (b ∷ before) e after s s' acts c h =
      let (s1, front, back, now, later) =
        handle_events-cons listenfd pipefd fuel b (before ++ e ∷ after) s s' acts h in
      term_events-stop fuel before e after s1 s' back c later

  term_round-stop :
      (fuel : ℕ) (before : List Event) (e : Event) (after : List Event) (now : ℕ) (s s' : Server)
      (acts : List Action)
      → CarriesTerm alrm term pipefd e
      → serve_round listenfd pipefd fuel (before ++ e ∷ after) now s ≡ some (s', acts)
      → s'.stop ≡ true
  unfolding serve_round
  term_round-stop fuel before e after now s s' acts c h =
      let ((s1, front), ran, rest) =
        and_then-some (handle_events listenfd pipefd fuel (before ++ e ∷ after) s)
          (λ (s1, front).
            if s1.timeout
            then and_then (timer_handler fuel now s1)
                (λ (s2, later). some (record s2 { timeout = false }, front ++ later))
            else some (s1, front))
          (s', acts) h in
      rung-stop fuel now s1 front s' acts rest
      ∙ term_events-stop fuel before e after s s1 front c ran

  stopped-serve :
      (fuel : ℕ) (ws : List (Option (List Event × ℕ))) (s : Server)
      → s.stop ≡ true
      → serve listenfd pipefd fuel ws s ≡ some (s, [], true)
  unfolding serve
  stopped-serve fuel [] s h = rw h refl
  stopped-serve fuel (none ∷ ws) s h = refl
  stopped-serve fuel (some (es, now) ∷ ws) s h = rw h refl

  -- The round behind which the server stops, with whatever answers of epoll_wait behind it.
  last_round :
      (fuel : ℕ) (before : List Event) (e : Event) (after : List Event) (now : ℕ) (s : Server)
      (ws : List (Option (List Event × ℕ)))
      → CarriesTerm alrm term pipefd e
      → serve listenfd pipefd fuel (some (before ++ e ∷ after, now) ∷ ws) s
        ≡ serve listenfd pipefd fuel (some (before ++ e ∷ after, now) ∷ []) s
  unfolding serve
  last_round fuel before e after now s ws c =
      ap (λ r. if s.stop then some (s, [], true) else r)
        (and_then-agree (serve_round listenfd pipefd fuel (before ++ e ∷ after) now s)
          (λ (s1, acts).
            and_then (serve listenfd pipefd fuel ws s1)
              (λ (s2, later, over). some (s2, acts ++ later, over)))
          (λ (s1, acts).
            and_then (serve listenfd pipefd fuel [] s1)
              (λ (s2, later, over). some (s2, acts ++ later, over)))
          (λ (s1, acts) ran.
            ap (λ o. and_then o (λ (s2, later, over). some (s2, acts ++ later, over)))
              (let halted = term_round-stop fuel before e after now s s1 acts c ran in
                stopped-serve fuel ws s1 halted ∙ sym (stopped-serve fuel [] s1 halted))))

  -- Where SIGTERM reaches the pipe by way of sig_handler, in whatever entry of whatever round, the main
  -- loop ends with that round: what epoll_wait would answer later makes no difference. The pipe is not the
  -- listening socket, SIGALRM and SIGTERM are two numbers, and the signals have numbers under 128.
  pub serve-stops :
      (fuel : ℕ) (earlier : List (Option (List Event × ℕ))) (before : List Event) (e : Event)
      (after : List Event) (now : ℕ) (later : List (Option (List Event × ℕ))) (s : Server)
      → CarriesTerm alrm term pipefd e
      → serve listenfd pipefd fuel (earlier ++ some (before ++ e ∷ after, now) ∷ later) s
        ≡ serve listenfd pipefd fuel (earlier ++ some (before ++ e ∷ after, now) ∷ []) s
  unfolding serve
  serve-stops fuel [] before e after now later s c = last_round fuel before e after now s later c
  serve-stops fuel (none ∷ earlier) before e after now later s c = refl
  serve-stops fuel (some (es, then') ∷ earlier) before e after now later s c =
      ap (λ r. if s.stop then some (s, [], true) else r)
        (and_then-agree (serve_round listenfd pipefd fuel es then' s)
          (λ (s1, acts).
            and_then
              (serve listenfd pipefd fuel (earlier ++ some (before ++ e ∷ after, now) ∷ later) s1)
              (λ (s2, more, over). some (s2, acts ++ more, over)))
          (λ (s1, acts).
            and_then
              (serve listenfd pipefd fuel (earlier ++ some (before ++ e ∷ after, now) ∷ []) s1)
              (λ (s2, more, over). some (s2, acts ++ more, over)))
          (λ (s1, acts) ran.
            ap (λ o. and_then o (λ (s2, more, over). some (s2, acts ++ more, over)))
              (serve-stops fuel earlier before e after now later s1 c)))
