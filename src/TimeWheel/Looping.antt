-- ===== src/TimeWheel/Looping.antt =====
-- time_wheel.h, `tick`: the loop over the timers of a slot.
use linux_network.Base.{
  ℕ, zero, suc, ◌≤◌, ◌≡◌, refl, sym, ◌∙◌, subst, none, some, List, [], ◌∷◌, ◌++◌, append_assoc,
  length, arith,
}
use linux_network.Chain.Addresses.{
  Distinct, Distinct-NotIn, NotIn, NotIn-append, append-NotIn, entry, head,
}
use linux_network.Chain.Segments.{SameOutside}
use linux_network.TimeWheel.{Heap, Wheel, tick_loop}
use linux_network.TimeWheel.Segments.{Entry}
use linux_network.TimeWheel.Surgery.{Outside-trans}
use linux_network.TimeWheel.Ticking.{
  Gone, Listed, Elsewhere, aged, aged_one, due, due_one, tick_timer_lem,
}

pub Elsewhere-trans :
    (j : ℕ) (w w' w'' : Wheel) → Elsewhere j w w' → Elsewhere j w' w'' → Elsewhere j w w''
Elsewhere-trans j w w' w'' (c, f, o) (c', f', o') =
    (c' ∙ c, λ i ne. f' i ne ∙ f i ne, Outside-trans j w.heap w'.heap w''.heap o o')

NotIn-aged :
    (b r : ℕ) (ds es : List Entry) (a : ℕ)
    → NotIn a (ds ++ entry b r ∷ es)
    → NotIn a ((ds ++ aged_one b r) ++ es)
NotIn-aged b r ds es a n =
    let (front, back) = NotIn-append a ds (entry b r ∷ es) n in
    subst (NotIn a) (sym (append_assoc ds (aged_one b r) es))
      (append-NotIn a ds (aged_one b r ++ es) front (later r back))
  where
    later : (r : ℕ) → NotIn a (entry b r ∷ es) → NotIn a (aged_one b r ++ es)
    later zero x = x.1
    later (suc r) x = x

-- What one round frees stays free in those that follow.
Gone-due :
    (a r : ℕ) (ds es : List Entry) (h h' : Heap)
    → Distinct (ds ++ entry a r ∷ es)
    → SameOutside ((ds ++ aged_one a r) ++ es) h h'
    → Gone (due_one a r) h
    → Gone (due es) h'
    → Gone (due_one a r ++ due es) h'
Gone-due a zero ds es h h' u same gone rest = (
  same a (subst (NotIn a) (sym (append_assoc ds [] es)) (Distinct-NotIn ds (entry a 0) es u))
      ∙ gone.0,
  rest,
)
Gone-due a (suc r) ds es h h' u same gone rest = rest

-- The loop, behind the timers `ds` that it has passed and kept.
pub tick_loop_lem :
    (fuel : ℕ) (w : Wheel) (j : ℕ) (ds es : List Entry)
    → w.cur_slot ≡ j
    → length es ≤ fuel
    → Listed w j (ds ++ es)
    → (w' : Wheel) × (tick_loop fuel (head es none) w ≡ some (w', due es))
      × Listed w' j (ds ++ aged es)
      × Elsewhere j w w'
      × Gone (due es) w'.heap
      × SameOutside (ds ++ es) w.heap w'.heap
unfolding tick_loop
tick_loop_lem fuel w j ds [] c enough l =
    (w, refl, l, (refl, λ i ne. refl, λ i ne a t e x. e), tt, λ a n. refl)
tick_loop_lem zero w j ds (e ∷ es) c enough l = absurd (omega arith)
tick_loop_lem (suc fuel) w j ds (e ∷ es) c enough l =
    let (s, ran, tmp, fired, listed, els, gone, same) =
      tick_timer_lem w ds e.address e.value es (subst (λ i. Listed w i (ds ++ e ∷ es)) (sym c) l) in
    let one = aged_one e.address e.value in
    let (w', looped, listed', els', gone', same') =
      tick_loop_lem fuel s.wheel j (ds ++ one) es (els.0 ∙ c) (omega arith) (
        subst (λ i. Listed s.wheel i (ds ++ one ++ es)) c
          (subst (Listed s.wheel w.cur_slot) (sym (append_assoc ds one es)) listed)) in
    (
      w',
      rw (ran, tmp, looped, fired) refl,
      subst (Listed w' j) (append_assoc ds one (aged es)) listed',
      Elsewhere-trans j w s.wheel w' (subst (λ i. Elsewhere i w s.wheel) c els) els',
      Gone-due e.address e.value ds es s.wheel.heap w'.heap l.2 same' gone gone',
      λ a n. same' a (NotIn-aged e.address e.value ds es a n) ∙ same a n,
    )
