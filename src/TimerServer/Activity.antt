-- ===== src/TimerServer/Activity.antt =====
-- cpt_11_2_2.h: the time at which each connection was heard from, and the alarm.
use linux_network.Base.{
  ℕ, ◌+◌, ◌≤◌, ◌≡◌, refl, sym, ap, ◌∙◌, subst, true, false, Bool-cases, ◌&&◌, inl, inr, none, some,
  List, [], ◌∷◌, ◌++◌, ◌==◌, if◌then◌else◌, leb, chosen, passed, arith, length, All, ==_iff,
  number-cases, ne→==false,
}
use linux_network.Chain.{put, put-eq, put-ne}
use linux_network.Chain.Addresses.{Entry, NotIn, Distinct}
use linux_network.TimerList.Sorting.{Due, Entries, insert, All-insert}
use linux_network.TimerList.Expiring.{expired, remaining, clients}
use linux_network.TimerServer.{
  Client, Server, Event, alarm, timeslot, Received, bytes, closed, again, failed, serve_round,
}
use linux_network.TimerServer.Accounts.{timer_of, IsShut, OwnedBy, Owned, Serves}
use linux_network.TimerServer.Reading.{IsOpen-split, remove, renew, after_read}
use linux_network.TimerServer.Events.{Allowed, after, handle_event_lem}
use linux_network.TimerServer.Idle.{shut_all, All-remaining}
use linux_network.TimerServer.Serving.{
  time_behind, AllAllowed, after_all, acts_of_all, any_rings, length-after, serve_round_lem,
}

-- The connections of `fds` that have sent nothing for 15 seconds, which is three time slots; the others.
abbrev pub idle : (ℕ → ℕ) → ℕ → List ℕ → List ℕ
idle last now [] = []
idle last now (fd ∷ fds) =
    let rest = idle last now fds in if leb (last fd + 15) now then fd ∷ rest else rest

abbrev pub active : (ℕ → ℕ) → ℕ → List ℕ → List ℕ
active last now [] = []
active last now (fd ∷ fds) =
    let rest = active last now fds in if leb (last fd + 15) now then rest else fd ∷ rest

-- `last` has the time of the last input of each connection, or of its accept.
abbrev pub Heard : (ℕ → ℕ) → Entries → Type 0
Heard last = All (λ e. e.value.expire ≡ last e.value.user_data + 15)

clients-idle :
    (last : ℕ → ℕ) (now : ℕ) (es : Entries)
    → Heard last es
    → (clients (expired now es) ≡ idle last now (clients es))
      × (clients (remaining now es) ≡ active last now (clients es))
clients-idle last now [] h = (refl, refl)
clients-idle last now (e ∷ es) h = ground (arith, clients-idle last now es h.1, h.0)

Heard-put :
    (last : ℕ → ℕ) (fd now : ℕ) (es : Entries)
    → IsShut fd es
    → Heard last es
    → Heard (put last fd now) es
Heard-put last fd now [] n h = tt
Heard-put last fd now (e ∷ es) n h = (
  h.0 ∙ ap (λ t. t + 15) (sym (put-ne last fd e.value.user_data now n.0)),
  Heard-put last fd now es n.1 h.1,
)

-- A fresh timer for a connection that is not among the others.
Heard-fresh :
    (last : ℕ → ℕ) (a fd now : ℕ) (es : Entries)
    → IsShut fd es
    → Heard last es
    → Heard (put last fd now) (insert (timer_of a fd now) es)
Heard-fresh last a fd now es n h =
    All-insert _ (timer_of a fd now) es (ap (λ t. t + 15) (sym (put-eq last fd now)))
      (Heard-put last fd now es n h)

-- No two connections have one descriptor.
abbrev Alone : Entries → Type 0
Alone [] = Unit
Alone (e ∷ es) = IsShut e.value.user_data es × Alone es

IsShut-Owned :
    (users : ℕ → Client) (e : Entry Due) (es : Entries)
    → OwnedBy users e
    → NotIn e.address es
    → Owned users es
    → IsShut e.value.user_data es
IsShut-Owned users e [] o n os = tt
IsShut-Owned users e (x ∷ xs) o n os = (
  λ same. n.0 (
      some-inj (
        ap (λ c. c.timer) (sym o.1)
        ∙ ap (λ fd. (users fd).timer) (sym same)
        ∙ ap (λ c. c.timer) os.0.1)),
  IsShut-Owned users e xs o n.1 os.1,
)
  where
    some-inj : some e.address ≡ some x.address → e.address ≡ x.address
    some-inj h = cc

Alone-Owned : (users : ℕ → Client) (es : Entries) → Distinct es → Owned users es → Alone es
Alone-Owned users [] u o = tt
Alone-Owned users (e ∷ es) u o = (IsShut-Owned users e es o.0 u.0 o.1, Alone-Owned users es u.1 o.1)

IsShut-remove : (fd : ℕ) (es : Entries) → Alone es → IsShut fd (remove fd es)
IsShut-remove fd [] u = tt
IsShut-remove fd (e ∷ es) u = elim (number-cases e.value.user_data fd) [
  | inl x ↦ rw ((==_iff e.value.user_data fd).1 x) (subst (λ i. IsShut i es) x u.0)
  | inr ne ↦ rw (ne→==false e.value.user_data fd ne) (ne, IsShut-remove fd es u.1)
]

Heard-remove : (last : ℕ → ℕ) (fd : ℕ) (es : Entries) → Heard last es → Heard last (remove fd es)
Heard-remove last fd [] h = tt
Heard-remove last fd (e ∷ es) h = elim (Bool-cases (e.value.user_data == fd)) [
  | inl t ↦ rw t h.1
  | inr t ↦ rw t (h.0, Heard-remove last fd es h.1)
]

-- The last input behind a read.
abbrev pub heard_read : ℕ → Received → ℕ → (ℕ → ℕ) → ℕ → ℕ
heard_read fd bytes now last = put last fd now
heard_read fd closed now last = last
heard_read fd again now last = last
heard_read fd failed now last = last

module _ (listenfd pipefd : ℕ) where
  abbrev pub heard : Event → (ℕ → ℕ) → ℕ → ℕ
  heard e last =
      if e.fd == listenfd
      then elim e.accepted [ none ↦ last | some fd ↦ put last fd e.now ]
      else if e.fd == pipefd && e.input
      then last
      else if e.input
      then heard_read e.fd e.received e.now last
      else last

  abbrev pub heard_all : List Event → (ℕ → ℕ) → ℕ → ℕ
  heard_all [] last = last
  heard_all (e ∷ evs) last = heard_all evs (heard e last)

  Heard-event :
      (last : ℕ → ℕ) (e : Event) (es : Entries)
      → Alone es
      → Allowed listenfd pipefd e es
      → Heard last es
      → Heard (heard e last) (after listenfd pipefd e es)
  Heard-event last e es u ok h = elim (Bool-cases (e.fd == listenfd)) [
    | inl t ↦
        let (fd, accepted, lt, shut, new) = chosen _ _ (e.fd == listenfd) t ok in
        rw (t, accepted) (Heard-fresh last e.new fd e.now es shut h)
    | inr t ↦ elim (Bool-cases (e.fd == pipefd && e.input)) [
      | inl p ↦ rw (t, p) h
      | inr p ↦ elim (Bool-cases e.input) [
        | inl i ↦
            let open_now =
              chosen _ _ e.input i
                (passed _ _ (e.fd == pipefd && e.input) p (passed _ _ (e.fd == listenfd) t ok)) in
            let (ds, x, fs, split, same, removed, found) = IsOpen-split e.fd es open_now in
            let fresh =
              Heard-fresh last x.address e.fd e.now (remove e.fd es) (IsShut-remove e.fd es u)
                (Heard-remove last e.fd es h) in
            let renewed : Heard (put last e.fd e.now) (renew e.fd e.now es) =
              rw (renew, found) fresh in
            rw (t, p, i) (read_at renewed e.received)
        | inr i ↦ rw (t, p, i) h
      ]
    ]
  ]
    where
      read_at :
          Heard (put last e.fd e.now) (renew e.fd e.now es)
          → (r : Received) → Heard (heard_read e.fd r e.now last) (after_read e.fd r e.now es)
      read_at renewed bytes = renewed
      read_at renewed closed = Heard-remove last e.fd es h
      read_at renewed again = h
      read_at renewed failed = Heard-remove last e.fd es h

  Heard-events :
      (fuel n : ℕ) (last : ℕ → ℕ) (evs : List Event) (s : Server) (es : Entries)
      → length es + length evs ≤ fuel
      → Serves n s es
      → AllAllowed listenfd pipefd n evs es
      → Heard last es
      → Heard (heard_all evs last) (after_all listenfd pipefd evs es)
  Heard-events fuel n last [] s es enough inv ok h = h
  Heard-events fuel n last (e ∷ evs) s es enough inv ok h =
      let (s1, ran, inv1, flag, halt) =
        handle_event_lem listenfd pipefd fuel n e s es (omega arith) inv ok.0 ok.1 in
      Heard-events fuel e.now (heard e last) evs s1 (after listenfd pipefd e es)
        (omega (arith, length-after listenfd pipefd e es)) inv1 ok.2
        (Heard-event last e es (Alone-Owned s.users es inv.0.3 inv.3) ok.1 h)

  -- A round in which SIGALRM comes, with fuel for the connections that are open and one for each entry,
  -- where every accept gives a descriptor in range and time does not go back; `last` has the time of the
  -- last input of each connection that was open before, or of its accept. Behind what the entries ask
  -- for, the alarm closes exactly the connections that have by then sent nothing for 15 seconds, three
  -- time slots, and stops watching them (but on the wrong epoll descriptor), in the order of their timers; the
  -- others stay open, each with a timer for 15 seconds after its last input, and the alarm is set again.
  pub serve_round-idle :
      (fuel n : ℕ) (last : ℕ → ℕ) (evs : List Event) (now : ℕ) (s : Server) (es : Entries)
      → length es + length evs ≤ fuel
      → Serves n s es
      → Heard last es
      → s.timeout ≡ false
      → AllAllowed listenfd pipefd n evs es
      → time_behind listenfd pipefd n evs ≤ now
      → any_rings listenfd pipefd evs ≡ true
      → let opened = after_all listenfd pipefd evs es in
        let last' = heard_all evs last in
        (s' : Server) × (serve_round listenfd pipefd fuel evs now s
          ≡ some (
            s',
            acts_of_all listenfd pipefd evs
                ++ (shut_all (idle last' now (clients opened)) ++ alarm timeslot ∷ []),
          ))
        × Serves now s' (remaining now opened)
        × (clients (remaining now opened) ≡ active last' now (clients opened))
        × Heard last' (remaining now opened)
  serve_round-idle fuel n last evs now s es enough inv h quiet ok le ring =
      let opened = after_all listenfd pipefd evs es in
      let last' = heard_all evs last in
      let (s', ran, inv', flag, halt) =
        serve_round_lem listenfd pipefd fuel n evs now s es enough inv quiet ok le in
      let h' = Heard-events fuel n last evs s es enough inv ok h in
      let (gone, stay) = clients-idle last' now opened h' in
      (
        s',
        (rw ring at ran)
            ∙ ap
                (λ fds.
                  some
                    (s', acts_of_all listenfd pipefd evs ++ (shut_all fds ++ alarm timeslot ∷ [])))
                gone,
        rw ring at inv',
        stay,
        All-remaining _ now opened h',
      )
