-- ===== src/TimeWheel/Ticking.antt =====
-- time_wheel.h, `tick`: one round of the loop.
use linux_network.Base.{
  ==_self, ℕ, zero, suc, ◌≡◌, ◌≢◌, refl, sym, ap, ◌∙◌, subst, inl, inr, Option, none, some, List,
  [], ◌∷◌, ◌-◌, lt→ltb, ◌++◌, append_assoc, arith,
}
use linux_network.Chain.{put-eq, put-ne}
use linux_network.Chain.Addresses.{
  Apart, Apart-head, NotIn-append, Distinct, Distinct-append, Distinct-unlink, append-Distinct,
  entry, head, head-unlink, last, not_first, snoc-cases,
}
use linux_network.Chain.Segments.{
  SameOutside, Seg-append, Seg-append_left, Seg-append_right, Seg-put,
}
use linux_network.TimeWheel.Segments.{wheel_links, Entry, node, Seg}
use linux_network.TimeWheel.{Heap, Wheel, put, Ticked, expire, tick_timer}
use linux_network.TimeWheel.Surgery.{
  Outside, Outside-trans, Outside-put, head_freed, set_prev_if_lem,
}
use linux_network.TimeWheel.Unlinking.{unlink_lem}

-- The timers of slot `j`, in the order of its list.
abbrev pub Listed : Wheel → ℕ → List Entry → Type 0
Listed w j es = (w.slots j ≡ head es none) × Seg w.heap j none es none × Distinct es

-- The other slots are as they were.
abbrev pub Elsewhere : ℕ → Wheel → Wheel → Type 0
Elsewhere j w w' =
    (w'.cur_slot ≡ w.cur_slot)
    × ((i : ℕ) → i ≢ j → w'.slots i ≡ w.slots i)
    × Outside j w.heap w'.heap

-- What a tick leaves of a timer of the current slot, and what it runs.
abbrev pub aged_one : ℕ → ℕ → List Entry
aged_one a zero = []
aged_one a (suc r) = entry a r ∷ []

abbrev pub due_one : ℕ → ℕ → List ℕ
due_one a zero = a ∷ []
due_one a (suc r) = []

abbrev pub aged : List Entry → List Entry
aged [] = []
aged (e ∷ es) = aged_one e.address e.value ++ aged es

abbrev pub due : List Entry → List ℕ
due [] = []
due (e ∷ es) = due_one e.address e.value ++ due es

-- Nothing is at these addresses.
abbrev pub Gone : List ℕ → Heap → Type 0
Gone [] h = Unit
Gone (a ∷ xs) h = (h a ≡ none) × Gone xs h

abbrev Round : Wheel → List Entry → ℕ → ℕ → List Entry → Option Ticked → Type 0
Round w ds a r es o =
    (s : Ticked) × (o ≡ some s)
    × (s.tmp ≡ head es none)
    × (s.fired ≡ due_one a r)
    × Listed s.wheel w.cur_slot (ds ++ (aged_one a r ++ es))
    × Elsewhere w.cur_slot w s.wheel
    × Gone (due_one a r) s.wheel.heap
    × SameOutside (ds ++ entry a r ∷ es) w.heap s.wheel.heap

Apart-aged :
    (ds : List Entry) (a r r' : ℕ) (es : List Entry)
    → Apart ds (entry a r ∷ es)
    → Apart ds (entry a r' ∷ es)
Apart-aged [] a r r' es x = tt
Apart-aged (d ∷ ds) a r r' es x = (x.0, Apart-aged ds a r r' es x.1)

head-aged :
    (ds : List Entry) (a r r' : ℕ) (es : List Entry)
    → head (ds ++ entry a r ∷ es) none ≡ head (ds ++ entry a r' ∷ es) none
head-aged [] a r r' es = refl
head-aged (d ∷ ds) a r r' es = refl

pred : (r : ℕ) → suc r - 1 ≡ r
pred r = omega arith

-- A timer with turns left.
tick_timer-turn :
    (w : Wheel) (ds : List Entry) (a r : ℕ) (es : List Entry)
    → Listed w w.cur_slot (ds ++ entry a (suc r) ∷ es)
    → Round w ds a (suc r) es (tick_timer a w)
unfolding tick_timer
tick_timer-turn w ds a r es (start, s, u) =
    let right =
      Seg-append_right (wheel_links w.cur_slot) w.heap none ds (entry a (suc r) ∷ es) none s in
    let (apart, left, rest) = Distinct-append ds (entry a (suc r) ∷ es) u in
    let v = some (node w.cur_slot (entry a r) (last none ds) (head es none)) in
    (
      record { wheel = record w { heap = put w.heap a v }; tmp = head es none; fired = [] },
      rw (right.0, lt→ltb 0 (suc r) (omega arith), pred r) refl,
      refl,
      refl,
      (
        start ∙ head-aged ds a (suc r) r es,
        Seg-append (wheel_links w.cur_slot) (put w.heap a v) none ds (entry a r ∷ es) none
            (Seg-put (wheel_links w.cur_slot) w.heap none ds (some a) a v
              (Apart-head ds (entry a (suc r)) es apart)
              (Seg-append_left (wheel_links w.cur_slot) w.heap none ds (entry a (suc r) ∷ es) none
                s))
            (
              put-eq w.heap a v,
              Seg-put (wheel_links w.cur_slot) w.heap (some a) es none a v rest.0 right.1,
            ),
        append-Distinct ds (entry a r ∷ es) (Apart-aged ds a (suc r) r es apart) left rest,
      ),
      (
        refl,
        λ i ne. refl,
        Outside-put w.heap w.cur_slot a
            (node w.cur_slot (entry a (suc r)) (last none ds) (head es none)) v right.0 refl,
      ),
      tt,
      λ b n. put-ne w.heap a b v (NotIn-append b ds (entry a (suc r) ∷ es) n).1.0,
    )

-- A timer without turns left, at the front of its list.
tick_timer-first :
    (w : Wheel) (a : ℕ) (es : List Entry)
    → Listed w w.cur_slot (entry a 0 ∷ es)
    → Round w [] a 0 es (tick_timer a w)
unfolding tick_timer expire
tick_timer-first w a es (start, s, u) =
    let (rest, freed) = head_freed w.heap w.cur_slot none (entry a 0) es s u in
    let (h, wrote, seg, same, out) =
      set_prev_if_lem (put w.heap a none) w.cur_slot (some a) none es rest u.1 in
    (
      record {
        wheel = record w { heap = h; slots = put w.slots w.cur_slot (head es none) };
        tmp = head es none;
        fired = a ∷ [];
      },
      rw (s.0, start, ==_self a, wrote) refl,
      refl,
      refl,
      (put-eq w.slots w.cur_slot (head es none), seg, u.1),
      (
        refl,
        λ i ne. put-ne w.slots w.cur_slot i (head es none) ne,
        Outside-trans w.cur_slot w.heap (put w.heap a none) h freed out,
      ),
      (same a u.0 ∙ put-eq w.heap a none, tt),
      λ b n. same b n.1 ∙ put-ne w.heap a b none n.0,
    )

-- A timer without turns left, behind others.
tick_timer-later :
    (w : Wheel) (ds : List Entry) (d : Entry) (a : ℕ) (es : List Entry)
    → Listed w w.cur_slot (ds ++ d ∷ entry a 0 ∷ es)
    → (s : Ticked) × (tick_timer a w ≡ some s)
      × (s.tmp ≡ head es none)
      × (s.fired ≡ a ∷ [])
      × Listed s.wheel w.cur_slot (ds ++ d ∷ es)
      × Elsewhere w.cur_slot w s.wheel
      × Gone (a ∷ []) s.wheel.heap
      × SameOutside (ds ++ d ∷ entry a 0 ∷ es) w.heap s.wheel.heap
unfolding tick_timer expire
tick_timer-later w ds d a es (start, s, u) =
    let right =
      Seg-append_right (wheel_links w.cur_slot) w.heap none ds (d ∷ entry a 0 ∷ es) none s in
    let (h, unlinked, seg, out, gone, same) =
      unlink_lem w.heap w.cur_slot ds d (entry a 0) es s u in
    (
      record { wheel = record w { heap = h }; tmp = head es none; fired = a ∷ [] },
      rw (right.1.0, start, not_first ds d (entry a 0) es u, unlinked) refl,
      refl,
      refl,
      (start ∙ head-unlink ds d (entry a 0) es, seg, Distinct-unlink ds d (entry a 0) es u),
      (refl, λ i ne. refl, out),
      (gone, tt),
      same,
    )

tick_timer-due :
    (w : Wheel) (ds : List Entry) (a : ℕ) (es : List Entry)
    → Listed w w.cur_slot (ds ++ entry a 0 ∷ es)
    → Round w ds a 0 es (tick_timer a w)
tick_timer-due w ds a es l = elim (snoc-cases ds) [
  | inl e ↦
      subst (λ xs. Round w xs a 0 es (tick_timer a w)) (sym e)
        (tick_timer-first w a es (subst (λ xs. Listed w w.cur_slot (xs ++ entry a 0 ∷ es)) e l))
  | inr (xs, d, e) ↦
      let split : (ys : List Entry) → ds ++ ys ≡ xs ++ d ∷ ys =
        λ ys. ap (λ l. l ++ ys) e ∙ append_assoc xs (d ∷ []) ys in
      let (s, ran, tmp, fired, listed, els, gone, same) =
        tick_timer-later w xs d a es (subst (Listed w w.cur_slot) (split (entry a 0 ∷ es)) l) in
      (
        s,
        ran,
        tmp,
        fired,
        subst (Listed s.wheel w.cur_slot) (sym (split es)) listed,
        els,
        gone,
        subst (λ l. SameOutside l w.heap s.wheel.heap) (sym (split (entry a 0 ∷ es))) same,
      )
]

pub tick_timer_lem :
    (w : Wheel) (ds : List Entry) (a r : ℕ) (es : List Entry)
    → Listed w w.cur_slot (ds ++ entry a r ∷ es)
    → Round w ds a r es (tick_timer a w)
tick_timer_lem w ds a zero es l = tick_timer-due w ds a es l
tick_timer_lem w ds a (suc r) es l = tick_timer-turn w ds a r es l
