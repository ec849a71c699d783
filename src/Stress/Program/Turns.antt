-- ===== src/Stress/Program/Turns.antt =====
-- stress.cpp: on each connection one request is out at most.
use native.Mathlib.Nat.{zero-add}
use linux_network.Base.{
  ℕ, suc, ◌+◌, ℤ, pos, negsuc, ◌≡◌, refl, ◌∙◌, sym, ap, false, Option, none, some, List, [], ◌∷◌,
  ◌++◌, ◌==◌, if◌then◌else◌, ◌⊎◌, inl, inr, arith, Bool-cases, append_assoc, subst,
}
use linux_network.Stress.{
  Interest, for_input, for_output, Action, epoll_add, epoll_mod, epoll_del, close, recv, send,
  set_nonblocking, Event, Attempt, handle_event, close_conn, read_once, after_write,
}
use linux_network.Stress.Connections.{watches, connected, start_conn-connected}
use linux_network.Stress.Program.Counting.{
  writes, reads, writes-append, reads-append, silent-start_conns,
}
use linux_network.Stress.Program.{
  then_acts, and_then, start_conns, attempts, handle_events, serve, Run, aborts, runs, main,
}

then_acts-some :
    (xs : List Action) (later : Option (List Action)) (acts : List Action)
    → then_acts xs later ≡ some acts
    → (ys : List Action) × (later ≡ some ys) × (acts ≡ xs ++ ys)
then_acts-some xs none acts h = absurd cc
then_acts-some xs (some ys) acts h = (ys, refl, cc)

and_then-some :
    (o later : Option (List Action)) (acts : List Action)
    → and_then o later ≡ some acts
    → (xs ys : List Action) × (o ≡ some xs) × (later ≡ some ys) × (acts ≡ xs ++ ys)
and_then-some none later acts h = absurd cc
and_then-some (some xs) later acts h =
    let (ys, e, both) = then_acts-some xs later acts h in (xs, ys, refl, e, both)

then_acts-nil : (o : Option (List Action)) → then_acts [] o ≡ o
then_acts-nil none = refl
then_acts-nil (some acts) = refl

then_acts-then_acts :
    (xs ys : List Action) (later : Option (List Action))
    → then_acts (xs ++ ys) later ≡ then_acts xs (then_acts ys later)
then_acts-then_acts xs ys none = refl
then_acts-then_acts xs ys (some zs) = ap (λ as'. some as') (append_assoc xs ys zs)

and_then-and_then :
    (a b c : Option (List Action)) → and_then (and_then a b) c ≡ and_then a (and_then b c)
and_then-and_then none b c = refl
and_then-and_then (some xs) none c = refl
and_then-and_then (some xs) (some ys) c = then_acts-then_acts xs ys c

assoc : (a b c : ℕ) → a + b + c ≡ a + (b + c)
assoc a b c = omega arith

trace : Run → Option (List Action)
trace aborts = none
trace (runs o) = o

abbrev pub flat : List (List Event) → List Event
flat [] = []
flat (es ∷ rounds) = es ++ flat rounds

handle_events-append :
    (request : List ℕ) (xs ys : List Event)
    → handle_events request (xs ++ ys)
      ≡ and_then (handle_events request xs) (handle_events request ys)
unfolding handle_events
handle_events-append request [] ys = sym (then_acts-nil (handle_events request ys))
handle_events-append request (e ∷ es) ys =
    ap (λ o. and_then (handle_event request e) o) (handle_events-append request es ys)
    ∙ sym (
        and_then-and_then (handle_event request e) (handle_events request es)
          (handle_events request ys))

serve-flat :
    (request : List ℕ) (rounds : List (List Event))
    → serve request rounds ≡ handle_events request (flat rounds)
unfolding serve handle_events
serve-flat request [] = refl
serve-flat request (es ∷ rounds) =
    ap (λ o. and_then (handle_events request es) o) (serve-flat request rounds)
    ∙ sym (handle_events-append request es (flat rounds))

module _ (x : ℕ) where
  -- What epoll watches the descriptor `x` for behind an action; EPOLL_CTL_MOD does nothing to a descriptor
  -- that is not watched.
  abbrev pub watch : Option Interest → Action → Option Interest
  watch cur (epoll_add fd i) = if fd == x then some i else cur
  watch cur (epoll_mod fd i) = if fd == x then (elim cur [ none ↦ none | some j ↦ some i ]) else cur
  watch cur (epoll_del fd) = if fd == x then none else cur
  watch cur (close fd) = if fd == x then none else cur
  watch cur (set_nonblocking fd) = cur
  watch cur (recv fd) = cur
  watch cur (send fd out) = cur

  abbrev pub watch_all : Option Interest → List Action → Option Interest
  watch_all cur [] = cur
  watch_all cur (a ∷ acts) = watch_all (watch cur a) acts

  watch_all-append :
      (cur : Option Interest) (xs ys : List Action)
      → watch_all cur (xs ++ ys) ≡ watch_all (watch_all cur xs) ys
  watch_all-append cur [] ys = refl
  watch_all-append cur (a ∷ xs) ys = watch_all-append (watch cur a) xs ys

  -- epoll_wait reports what is watched: input or output only where this is asked for.
  abbrev pub Reports : Option Interest → Event → Type 0
  Reports none e = (e.fd == x) ≡ false
  Reports (some for_input) e = (if e.fd == x then e.output else false) ≡ false
  Reports (some for_output) e = (if e.fd == x then e.input else false) ≡ false

  -- How many requests are out where `x` is watched so.
  abbrev pub Out : Option Interest → ℕ → ℕ → Type 0
  Out none w r = (w ≡ r) ⊎ (w ≡ suc r)
  Out (some for_output) w r = w ≡ r
  Out (some for_input) w r = w ≡ suc r

  abbrev Fresh : Option Interest → Type 0
  Fresh none = Unit
  Fresh (some for_input) = ⊥
  Fresh (some for_output) = Unit

  Fresh-watches :
      (fds : List ℕ) (cur : Option Interest) → Fresh cur → Fresh (watch_all cur (watches fds))
  Fresh-watches [] cur fresh = fresh
  Fresh-watches (fd ∷ fds) cur fresh =
      Fresh-watches fds (watch cur (epoll_add fd for_output))
        (elim (Bool-cases (fd == x)) [ inl t ↦ rw t tt | inr f ↦ rw f fresh ])

  Fresh-start_conns :
      (answer : ℕ → Attempt) (num : ℤ) → Fresh (watch_all none (start_conns answer num))
  Fresh-start_conns answer (pos n) =
      rw (start_conn-connected (attempts answer n 0))
        (Fresh-watches (connected (attempts answer n 0)) none tt)
  Fresh-start_conns answer (negsuc n) = tt

  Out-Fresh : (cur : Option Interest) → Fresh cur → Out cur 0 0
  Out-Fresh none fresh = inl refl
  Out-Fresh (some for_input) fresh = absurd fresh
  Out-Fresh (some for_output) fresh = refl

  module _ (request : List ℕ) where
    abbrev pub behind : Option Interest → Event → Option Interest
    behind cur e = elim (handle_event request e) [ none ↦ cur | some acts ↦ watch_all cur acts ]

    behind-some :
        (cur : Option Interest) (e : Event) (acts : List Action)
        → handle_event request e ≡ some acts
        → behind cur e ≡ watch_all cur acts
    behind-some cur e acts h = ap (λ o. elim o [ none ↦ cur | some as' ↦ watch_all cur as' ]) h

    abbrev pub AllReported : Option Interest → List Event → Type 0
    AllReported cur [] = Unit
    AllReported cur (e ∷ es) = Reports cur e × AllReported (behind cur e) es

    Out-event :
        (cur : Option Interest) (e : Event) (w r : ℕ) (acts : List Action)
        → Reports cur e
        → handle_event request e ≡ some acts
        → Out cur w r
        → Out (watch_all cur acts) (writes x acts + w) (reads x acts + r)
    unfolding handle_event after_write close_conn read_once
    Out-event none e w r acts rep h out = ground arith
    Out-event (some for_input) e w r acts rep h out = ground arith
    Out-event (some for_output) e w r acts rep h out = ground arith

    Out-events :
        (cur : Option Interest) (es : List Event) (w r : ℕ) (acts : List Action)
        → AllReported cur es
        → handle_events request es ≡ some acts
        → Out cur w r
        → Out (watch_all cur acts) (writes x acts + w) (reads x acts + r)
    unfolding handle_events
    Out-events cur [] w r acts rep h out =
        let none_done : [] ≡ acts = cc in
        subst (λ as'. Out (watch_all cur as') (writes x as' + w) (reads x as' + r)) none_done
          (rw (zero-add w, zero-add r) out)
    Out-events cur (e ∷ es) w r acts (rep, reps) h out =
        let (xs, ys, now, later, both) =
          and_then-some (handle_event request e) (handle_events request es) acts h in
        let ih =
          Out-events (watch_all cur xs) es (writes x xs + w) (reads x xs + r) ys
            (subst (λ c. AllReported c es) (behind-some cur e xs now) reps) later
            (Out-event cur e w r xs rep now out) in
        rw
          (
            both,
            watch_all-append cur xs ys,
            writes-append x xs ys,
            reads-append x xs ys,
            assoc (writes x ys) (writes x xs) w,
            assoc (reads x ys) (reads x xs) r,
          )
          ih

  -- In the program with three arguments, where epoll reports a descriptor for input or output only when it
  -- watches it for this, and every call of write_nbytes returns: on each descriptor read_once has been
  -- called as often as write_nbytes, while it is watched for output; once less, while it is watched for
  -- input; and one of both, once it is not watched any more. So at most one request is out.
  pub main-Out :
      (request : List ℕ) (atoi : List ℕ → ℤ) (name ip port num : List ℕ) (answer : ℕ → Attempt)
      (rounds : List (List Event)) (acts : List Action)
      → AllReported request (watch_all none (start_conns answer (atoi num))) (flat rounds)
      → main request atoi (name ∷ ip ∷ port ∷ num ∷ []) answer rounds ≡ runs (some acts)
      → Out (watch_all none acts) (writes x acts) (reads x acts)
  unfolding main trace
  main-Out request atoi name ip port num answer rounds acts rep h =
      let front = start_conns answer (atoi num) in
      let (ys, served, both) = then_acts-some front (serve request rounds) acts (ap trace h) in
      let out =
        Out-events request (watch_all none front) (flat rounds) 0 0 ys rep
          (sym (serve-flat request rounds) ∙ served)
          (Out-Fresh (watch_all none front) (Fresh-start_conns answer (atoi num))) in
      let (w0, r0) = silent-start_conns x answer (atoi num) in
      rw
        (
          both,
          watch_all-append none front ys,
          writes-append x front ys,
          reads-append x front ys,
          w0,
          r0,
        )
        out
