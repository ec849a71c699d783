-- ===== src/Reactor/Dispatching.antt =====
-- epoll_reactor.cc, DispatchIOs: which handlers are called for what epoll_wait reports.
use Prim.Native.Nat.{digits, max, bit_or, bit_or-bitwise}
use linux_network.Base.{
  ℕ, zero, suc, ◌+◌, ◌*◌, ◌/◌, ◌%◌, ◌<◌, ◌≡◌, refl, sym, ap, ◌∙◌, subst, inl, inr, Bool, true,
  false, not, none, some, List, [], ◌∷◌, ◌++◌, arith, ◌==◌, Option-cases, Bool-cases,
}
use linux_network.Reactor.{
  Events, Action, handle_input, handle_output, epollin, epollout, find, call_if, dispatch_event,
  dispatch_events,
}

positive_right : (d x y : ℕ) → 0 < y → 0 < d * 2 + max x y
positive_right d x y h = omega arith

positive_left : (d x : ℕ) → 0 < d → 0 < d * 2 + x
positive_left d x h = omega arith

-- The or of two numbers is positive where the second is.
digits-pos : (n a b : ℕ) → 0 < b → 0 < digits (λ x. x) max n a b
digits-pos zero a b h = h
digits-pos (suc n) zero b h = h
digits-pos (suc n) (suc a) b h =
    let low : 0 < b / 2 → 0 < digits (λ x. x) max n (suc a / 2) (b / 2) =
      digits-pos n (suc a / 2) (b / 2) in
    elim (Bool-cases (b / 2 == 0)) [
      | inl e ↦
          let odd : 0 < b % 2 = ground arith in
          positive_right (digits (λ x. x) max n (suc a / 2) (b / 2)) (suc a % 2) (b % 2) odd
      | inr e ↦
          let half : 0 < b / 2 = ground arith in
          positive_left (digits (λ x. x) max n (suc a / 2) (b / 2)) (max (suc a % 2) (b % 2))
            (low half)
    ]

bit_or-ne-zero : (a b : ℕ) → 0 < b → (bit_or a b == 0) ≡ false
bit_or-ne-zero a b h =
    subst (λ k. (k == 0) ≡ false) (sym (λ i. bit_or-bitwise a b i))
      (let p = digits-pos a a b h in ground arith)

-- Both calls of every reported handler that is registered, in the order of the report.
abbrev pub both_calls : Events → List (ℕ × ℕ) → List Action
both_calls m [] = []
both_calls m ((h, events) ∷ es) =
    let rest = both_calls m es in
    elim (find m h) [ none ↦ rest | some fd ↦ handle_input h ∷ handle_output h ∷ rest ]

abbrev pub unchanged : ℕ → Events → Events
unchanged h m = m

call_if-none :
    (flag : Bool) (h : ℕ) (act : Action) (m : Events)
    → find m h ≡ none
    → call_if unchanged unchanged flag h unchanged act m ≡ (m, [])
unfolding call_if
call_if-none flag h act m e = rw (call_if, e) refl

call_if-some :
    (h fd : ℕ) (act : Action) (m : Events)
    → find m h ≡ some fd
    → call_if unchanged unchanged true h unchanged act m ≡ (m, act ∷ [])
unfolding call_if
call_if-some h fd act m e = rw (call_if, e) refl

event-none :
    (m : Events) (h events : ℕ)
    → find m h ≡ none
    → dispatch_event unchanged unchanged (h, events) m ≡ (m, [])
unfolding dispatch_event
event-none m h events e =
    rw
      (
        call_if-none (not (bit_or events epollin == 0)) h (handle_input h) m e,
        call_if-none (not (bit_or events epollout == 0)) h (handle_output h) m e,
      )
      refl

event-some :
    (m : Events) (h events fd : ℕ)
    → find m h ≡ some fd
    → dispatch_event unchanged unchanged (h, events) m ≡ (m, handle_input h ∷ handle_output h ∷ [])
unfolding dispatch_event
event-some m h events fd e =
    rw
      (
        bit_or-ne-zero events epollin (omega arith),
        bit_or-ne-zero events epollout (omega arith),
        call_if-some h fd (handle_input h) m e,
        call_if-some h fd (handle_output h) m e,
      )
      refl

-- The rest of the loop behind a first entry.
behind : List (ℕ × ℕ) → Events × List Action → Events × List Action
unfolding dispatch_events
behind es first =
    let later = dispatch_events unchanged unchanged es first.0 in (later.0, first.1 ++ later.1)

-- With handlers that leave the map alone, DispatchIOs calls HandleInput and HandleOutput, both of them,
-- of each reported handler that is registered, in the order of the report and whichever events are
-- reported for it: `evRef.events | EPOLLIN` is never 0.
dispatch_events-both :
    (m : Events) (reported : List (ℕ × ℕ))
    → dispatch_events unchanged unchanged reported m ≡ (m, both_calls m reported)
unfolding dispatch_events behind
dispatch_events-both m [] = refl
dispatch_events-both m ((h, events) ∷ es) = elim (Option-cases (find m h)) [
  | inl e ↦
      ap (behind es) (event-none m h events e) ∙ dispatch_events-both m es ∙ rw (both_calls, e) refl
  | inr (fd, e) ↦
      ap (behind es) (event-some m h events fd e)
      ∙ ap (λ later. (later.0, handle_input h ∷ handle_output h ∷ later.1))
          (dispatch_events-both m es)
      ∙ rw (both_calls, e) refl
]
