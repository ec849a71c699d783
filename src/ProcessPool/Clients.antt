-- ===== src/ProcessPool/Clients.antt =====
-- cpt_15_3.h, run_child with cgi_conn: what a child does for one client, and when it stops.
use linux_network.Base.{
  ℕ, ◌-◌, ◌≡◌, ◌≢◌, refl, sym, ap, ◌∙◌, Bool, true, false, ◌||◌, Option, some, List, [], ◌∷◌, map,
  arith, lt→ltb, ◌&&◌, ◌<◌, take, ◌++◌, inl, inr, if◌then◌else◌, ==_iff, Bool-cases, append-nil,
  ne→==false,
}
use linux_network.CgiConn
use linux_network.CgiConn.{
  Conn, Received, System, fork_failed, in_parent, in_child, Outcome, polling, ended, serve,
  c_string, init, process,
}
use linux_network.CgiConn.Line.{Obeys, payload, FirstCrlf, trace}
use linux_network.CgiConn.Request.{process-fresh}
use linux_network.ProcessPool.{Signal, sigchld, sigterm, sigint, other}
use linux_network.ProcessPool.Child.{
  Child, ChildEvent, user_per_process, leaves, replaced, told, ChildStep, goes_on, add_fd, client,
  close_fd, child_event, child_events, ChildWait, child_ready, child_interrupted, child_failure,
  run_child, ChildAction, and_then, then_again, stop_after, accept_client, update_user,
}

serve-ne-nil : (sys : System) (c : Conn) (name : List ℕ) → serve sys c name ≢ []
unfolding serve CgiConn.removefd
serve-ne-nil sys c name = ground arith

-- Whatever ends with a trace has ended.
ended-trace :
    (o : Outcome) (acts : List CgiConn.Action)
    → trace o ≡ acts
    → acts ≢ []
    → (conn : Conn) × (o ≡ ended conn acts)
ended-trace (polling c) acts e h = absurd (h (sym e))
ended-trace (ended c as') acts e h = (c, ap (ended c) e)

-- The parent announces a connection, accept answers with `f`.
abbrev pub Announces : Child → ChildEvent → ℕ → ℕ → Type 0
Announces c e f address =
    (e.fd ≡ c.pipefd) × (e.input ≡ true) × (e.pipe_answer ≡ told) × (e.accepted ≡ some (f, address))

child_event-announce :
    (c : Child) (e : ChildEvent) (f address : ℕ)
    → Announces c e f address
    → f < user_per_process
    → child_event c e
      ≡ goes_on
          (record c { users = update_user c.users f (init c.epollfd f address) })
          (add_fd c.epollfd f ∷ [])
unfolding child_event accept_client
child_event-announce c e f address (at_pipe, input, ans, acc) lt =
    rw ((==_iff e.fd c.pipefd).1 at_pipe, input, ans, acc, lt→ltb f user_per_process lt) refl

child_event-client :
    (c : Child) (e : ChildEvent) (conn conn' : Conn) (acts : List CgiConn.Action)
    → e.fd ≢ c.pipefd
    → e.fd ≢ c.sig_fd
    → e.fd < user_per_process
    → e.input ≡ true
    → c.users e.fd ≡ conn
    → process e.system e.answers conn ≡ ended conn' acts
    → child_event c e ≡ (
        if leaves acts
        then replaced (map client acts)
        else goes_on (record c { users = update_user c.users e.fd conn' }) (map client acts))
unfolding child_event
child_event-client c e conn conn' acts h₁ h₂ lt input user run = simp (
  ne→==false e.fd c.pipefd h₁,
  ne→==false e.fd c.sig_fd h₂,
  lt→ltb e.fd user_per_process lt,
  input,
  user,
  run,
)

child_events-cons :
    (c c' d : Child) (e : ChildEvent) (es : List ChildEvent) (acts more : List ChildAction)
    → child_event c e ≡ goes_on c' acts
    → child_events c' es ≡ goes_on d more
    → child_events c (e ∷ es) ≡ goes_on d (acts ++ more)
unfolding child_events
child_events-cons c c' d e es acts more h k = rw (h, child_events, k)

child_events-replaced :
    (c c' : Child) (e e' : ChildEvent) (es : List ChildEvent) (acts more : List ChildAction)
    → child_event c e ≡ goes_on c' acts
    → child_event c' e' ≡ replaced more
    → child_events c (e ∷ e' ∷ es) ≡ replaced (acts ++ more)
unfolding child_events
child_events-replaced c c' e e' es acts more h k =
    let behind : child_events c' (e' ∷ es) ≡ replaced more =
      ap (λ s. and_then s (λ d. child_events d es)) k in
    ap (λ s. and_then s (λ d. child_events d (e' ∷ es))) h
    ∙ ap (λ s. and_then (goes_on c' acts) (λ d. s)) behind

child_events-nil : (c : Child) → child_events c [] ≡ goes_on c []
unfolding child_events
child_events-nil c = refl

-- Is this the process that is forked for a file that exists?
abbrev pub is_forked : System → List ℕ → Bool
is_forked sys name =
    sys.access name && (elim sys.fork [ fork_failed ↦ false | in_parent ↦ false | in_child ↦ true ])

leaves-serve :
    (sys : System) (c : Conn) (name : List ℕ) → leaves (serve sys c name) ≡ is_forked sys name
unfolding leaves serve CgiConn.removefd
leaves-serve sys c name = ground arith

-- For a connection, on a descriptor below 65536 other than the two pipes, that the parent announces and that then
-- sends a line ending in CR LF, with the bytes in any pieces within the buffer and EAGAIN in between:
-- the child watches its descriptor and serves exactly that line, up to a NUL in it, and goes on; the
-- process that it forks for a file that exists does the same, up to its execl or exit(0), and nothing
-- behind it.
pub child_serves :
    (c : Child) (e₁ e₂ : ChildEvent) (f address k : ℕ)
    → Announces c e₁ f address
    → f < user_per_process
    → e₂.fd ≡ f
    → e₂.input ≡ true
    → f ≢ c.pipefd
    → f ≢ c.sig_fd
    → Obeys 0 e₂.answers
    → FirstCrlf (payload e₂.answers) k
    → let name = c_string (take (k - 1) (payload e₂.answers)) in
      let did = add_fd c.epollfd f ∷ map client (serve e₂.system (init c.epollfd f address) name) in
      (d : Child) × (child_events c (e₁ ∷ e₂ ∷ [])
        ≡ (if is_forked e₂.system name then replaced did else goes_on d did))
child_serves c e₁ e₂ f address k ann lt at_f input h₁ h₂ obeys first =
    let fresh = init c.epollfd f address in
    let name = c_string (take (k - 1) (payload e₂.answers)) in
    let acts = serve e₂.system fresh name in
    let c₁ = record c { users = update_user c.users f fresh } in
    let done : (conn : Conn) × (process e₂.system e₂.answers fresh ≡ ended conn acts) =
      ended-trace _ acts (process-fresh e₂.system e₂.answers c.epollfd f address k obeys first)
        (serve-ne-nil e₂.system fresh _) in
    let second =
      child_event-client c₁ e₂ fresh done.0 acts (ground arith) (ground arith) (omega arith) input
        (ground arith) done.1 in
    let d = record c₁ { users = update_user c₁.users e₂.fd done.0 } in
    let first_step = child_event-announce c e₁ f address ann lt in
    let choice = leaves-serve e₂.system fresh name in
    (
      d,
      elim (Bool-cases (is_forked e₂.system name)) [
        | inl forked ↦ rw forked (
            child_events-replaced c c₁ e₁ e₂ [] (add_fd c.epollfd f ∷ []) (map client acts)
              first_step (rw (choice, forked) at second))
        | inr stays ↦ rw stays (
            child_events-cons c c₁ d e₁ (e₂ ∷ []) (add_fd c.epollfd f ∷ []) (map client acts)
              first_step
              (child_events-cons c₁ d d e₂ [] (map client acts) [] (rw (choice, stays) at second)
                  (child_events-nil d)
                ∙ ap (goes_on d) (append-nil (map client acts))))
      ],
    )

-- Does a signal ask the child to stop?
abbrev pub asks_stop : List Signal → Bool
asks_stop [] = false
asks_stop (sigterm ∷ ss) = true
asks_stop (sigint ∷ ss) = true
asks_stop (_ ∷ ss) = asks_stop ss

stop_after-asks_stop :
    (stop : Bool) (ss : List Signal) → stop_after stop ss ≡ (stop || asks_stop ss)
unfolding stop_after
stop_after-asks_stop stop [] = ground arith
stop_after-asks_stop stop (sigchld pids ∷ ss) = stop_after-asks_stop stop ss
stop_after-asks_stop stop (sigterm ∷ ss) = stop_after-asks_stop true ss ∙ ground arith
stop_after-asks_stop stop (sigint ∷ ss) = stop_after-asks_stop true ss ∙ ground arith
stop_after-asks_stop stop (other ∷ ss) = stop_after-asks_stop stop ss

child_event-signals :
    (c : Child) (e : ChildEvent)
    → e.fd ≡ c.sig_fd
    → c.sig_fd ≢ c.pipefd
    → e.input ≡ true
    → child_event c e ≡ goes_on (record c { stop = c.stop || asks_stop e.signals }) []
unfolding child_event
child_event-signals c e at_sig apart input = ground (arith, stop_after-asks_stop c.stop e.signals)

run_child-stopped :
    (ws : List ChildWait) (c : Child)
    → c.stop ≡ true
    → run_child ws c ≡ some (goes_on c (close_fd c.pipefd ∷ close_fd c.epollfd ∷ []))
unfolding run_child
run_child-stopped [] c h = rw h
run_child-stopped (child_failure ∷ ws) c h = refl
run_child-stopped (child_interrupted ∷ ws) c h = rw h
run_child-stopped (child_ready es ∷ ws) c h = rw h

then_again-quiet : (c : Child) (k : Child → Option ChildStep) → then_again (goes_on c []) k ≡ k c
then_again-quiet c k = ground arith

run_child-quiet :
    (c c' : Child) (e : ChildEvent) (ws : List ChildWait)
    → c.stop ≡ false
    → child_event c e ≡ goes_on c' []
    → run_child (child_ready (e ∷ []) ∷ ws) c ≡ run_child ws c'
unfolding run_child child_events
run_child-quiet c c' e ws running h =
    let batch = child_events-cons c c' c' e [] [] [] h refl in
    rw (batch, then_again-quiet c' (run_child ws), running)

-- When the running child reads the signal pipe, and that alone is reported, a SIGTERM or SIGINT among its bytes, in any place, ends the child:
-- it closes the pipe to the parent and its epoll descriptor. Otherwise the loop goes on as it was.
run_child-signals :
    (c : Child) (e : ChildEvent) (ws : List ChildWait)
    → c.stop ≡ false
    → e.fd ≡ c.sig_fd
    → c.sig_fd ≢ c.pipefd
    → e.input ≡ true
    → run_child (child_ready (e ∷ []) ∷ ws) c ≡ (
        if asks_stop e.signals
        then some (goes_on (record c { stop = true }) (close_fd c.pipefd ∷ close_fd c.epollfd ∷ []))
        else run_child ws c)
run_child-signals c e ws running at_sig apart input =
    let next = run_child-quiet c _ e ws running (child_event-signals c e at_sig apart input) in
    elim (Bool-cases (asks_stop e.signals)) [
      | inl asked ↦
          let stopped : record c { stop = c.stop || asks_stop e.signals }
              ≡ record c { stop = true } =
            ground arith in
          next
          ∙ ap (run_child ws) stopped
          ∙ run_child-stopped ws (record c { stop = true }) refl
          ∙ rw asked refl
      | inr quiet ↦
          let same : record c { stop = c.stop || asks_stop e.signals } ≡ c = ground arith in
          next ∙ ap (run_child ws) same ∙ rw quiet refl
    ]
