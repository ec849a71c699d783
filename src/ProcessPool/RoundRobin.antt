-- ===== src/ProcessPool/RoundRobin.antt =====
-- cpt_15_3.h, run_parent: while every child lives, connections go round.
use native.Mathlib.Nat.{add-zero, mod-mod, mod-add-mod, mod-lt, mod-eq_of_lt}
use linux_network.Base.{
  ℕ, zero, suc, ◌+◌, ◌%◌, ◌<◌, ◌≡◌, refl, sym, ap, ap₂, ◌∙◌, some, true, false, List, [], ◌∷◌, map,
  arith, length, ==_iff,
}
use linux_network.ProcessPool.{
  Process, Parent, Event, send, is_live, child, find_child, handle_event, handle_events,
}
use linux_network.ProcessPool.Choice.{hand_out-live, dispatch-hand_out}

-- The children `c`, `c + 1`, … of `n`, going round, `k` of them.
abbrev pub turns : ℕ → ℕ → ℕ → List ℕ
turns n c zero = []
turns n c (suc k) = (c % n) ∷ turns n (c + 1) k

abbrev pub AllLive : ℕ → List Process → Type 0
AllLive n ps = (i : ℕ) → i < n → is_live (child ps i) ≡ true

-- Every entry is for the listening socket.
abbrev pub AllListen : ℕ → List Event → Type 0
AllListen fd [] = Unit {0}
AllListen fd (e ∷ es) = (e.fd ≡ fd) × AllListen fd es

turns-mod : (n c d k : ℕ) → c % n ≡ d % n → turns n c k ≡ turns n d k
turns-mod n c d zero e = refl
turns-mod n c d (suc k) e =
    ap₂ (λ x l. x ∷ l) e
      (turns-mod n (c + 1) (d + 1) k
        (sym (mod-add-mod c n 1) ∙ ap (λ x. (x + 1) % n) e ∙ mod-add-mod d n 1))

find_child_self :
    (fuel n c : ℕ) (ps : List Process) (i : ℕ)
    → 0 < fuel
    → is_live (child ps i) ≡ true
    → find_child fuel n c ps i ≡ some i
unfolding find_child
find_child_self zero n c ps i h live = absurd (omega arith)
find_child_self (suc fuel) n c ps i h live = rw live

-- With every child alive, `dispatch` takes the counter's own child.
handle_event-live :
    (p : Parent) (e : Event)
    → p.counter < p.number
    → AllLive p.number p.children
    → e.fd ≡ p.listenfd
    → handle_event p e ≡ (
      record p { counter = (p.counter + 1) % p.number },
      send (child p.children p.counter).pipe_parent ∷ [],
      false,
    )
unfolding handle_event
handle_event-live p e h live at_listen = rw ((==_iff e.fd p.listenfd).1 at_listen) (
    dispatch-hand_out p p.counter (
      find_child_self p.number p.number p.counter p.children p.counter (omega arith)
        (live p.counter h))
    ∙ hand_out-live p p.counter (live p.counter h))

-- With every child alive and the counter below the number of processes, entries for the listening
-- socket alone are handed to the children in turn, from the counter on and going round, one to each; the counter ends behind the last of them, and nothing else of
-- the parent changes.
pub handle_events-round_robin :
    (p : Parent) (es : List Event)
    → p.counter < p.number
    → AllLive p.number p.children
    → AllListen p.listenfd es
    → handle_events p es ≡ (
      record p { counter = (p.counter + length es) % p.number },
      map (λ i. send (child p.children i).pipe_parent) (turns p.number p.counter (length es)),
    )
unfolding handle_events
handle_events-round_robin p [] h live listen =
    let e : (p.counter + 0) % p.number ≡ p.counter =
      ap (λ x. x % p.number) (add-zero p.counter) ∙ mod-eq_of_lt h in
    rw e
handle_events-round_robin p (e ∷ es) h live (at_listen, listen) =
    let ih =
      handle_events-round_robin (record p { counter = (p.counter + 1) % p.number }) es
        (mod-lt (p.counter + 1) (omega arith)) live listen in
    let n = p.number in
    let last : ((p.counter + 1) % n + length es) % n ≡ (p.counter + suc (length es)) % n =
      mod-add-mod (p.counter + 1) n (length es) ∙ ap (λ x. x % n) (omega arith) in
    let rest : turns n ((p.counter + 1) % n) (length es) ≡ turns n (p.counter + 1) (length es) =
      turns-mod n _ _ (length es) (mod-mod (p.counter + 1) n) in
    let self : p.counter % n ≡ p.counter = mod-eq_of_lt h in
    rw (handle_event-live p e h live at_listen, ih, last, rest, self)
