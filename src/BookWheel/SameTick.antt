-- ===== src/BookWheel/SameTick.antt =====
-- cpt_11_4_1.h against time_wheel.h: tick.
use linux_network.Base.{
  ℕ, zero, suc, ◌+◌, ◌-◌, ◌%◌, ◌≡◌, refl, ap, ◌∙◌, Bool, true, false, ◌&&◌, if◌then◌else◌,
  Bool-cases, inl, inr, Option, Option-cases, none, some, List, [], ◌∷◌, ◌++◌, ltb,
}
use linux_network.Chain.{Ptr, is_at, put, put-eq, and_then}
use linux_network.TimeWheel
use linux_network.TimeWheel.{Timer, Wheel, Heap, slot_count, Ticked}
use linux_network.BookWheel
use linux_network.BookWheel.Same.{delete_behind-same}

-- A result stands where every callback that has run was set.
abbrev pub all_set : (ℕ → Bool) → List ℕ → Bool
all_set is_set [] = true
all_set is_set (a ∷ fired) = is_set a && all_set is_set fired

abbrev pub called : (ℕ → Bool) → Wheel × List ℕ → Option (Wheel × List ℕ)
called is_set (w, fired) = if all_set is_set fired then some (w, fired) else none

called-quiet :
    (is_set : ℕ → Bool) (m : Option (Wheel × List ℕ))
    → and_then m (called is_set)
      ≡ and_then (and_then m (λ (w', fired). some (w', fired))) (called is_set)
called-quiet is_set none = refl
called-quiet is_set (some s) = refl

-- The rest of a tick, behind the deletion of a timer that is due.
module _ (is_set : ℕ → Bool) (fuel a : ℕ) (q : Ptr) (w : Wheel)
    (rest : (w' : Wheel)
      → BookWheel.tick_loop is_set fuel q w'
        ≡ and_then (TimeWheel.tick_loop fuel q w') (called is_set)) where
  abbrev ticked : Wheel → Ticked
  ticked w' = record { wheel = w'; tmp = q; fired = a ∷ [] }

  abbrev join : List ℕ → Wheel × List ℕ → Option (Wheel × List ℕ)
  join early (w', later) = some (w', early ++ later)

  abbrev fire : Wheel × List ℕ → Option (Wheel × List ℕ)
  fire (w', later) = some (w', a ∷ later)

  abbrev looped : Ticked → Option (Wheel × List ℕ)
  looped s = and_then (TimeWheel.tick_loop fuel s.tmp s.wheel) (join s.fired)

  called-fire :
      (m : Option (Wheel × List ℕ))
      → is_set a ≡ true
      → and_then (and_then m (called is_set)) fire
        ≡ and_then (and_then m (join (a ∷ []))) (called is_set)
  called-fire none set = refl
  called-fire (some (w', later)) set = elim (Bool-cases (all_set is_set later)) [
    | inl t ↦ rw (t, set) refl
    | inr f ↦ rw (f, set) refl
  ]

  unset-looped :
      (m : Option (Wheel × List ℕ))
      → is_set a ≡ false
      → none ≡ and_then (and_then m (join (a ∷ []))) (called is_set)
  unset-looped none unset = refl
  unset-looped (some (w', later)) unset = rw unset refl

  unset :
      (m : Option Heap) (g : Heap → Wheel)
      → is_set a ≡ false
      → none ≡ and_then (and_then (and_then m (λ h. some (ticked (g h)))) looped) (called is_set)
  unset none g n = refl
  unset (some h) g n = unset-looped (TimeWheel.tick_loop fuel q (g h)) n

  behind_first :
      (m : Option Heap)
      → is_set a ≡ true
      → and_then
          (and_then m (λ h. some (record w { heap = h; slots = put w.slots w.cur_slot q })))
          (λ w1. and_then (BookWheel.tick_loop is_set fuel (w1.slots w1.cur_slot) w1) fire)
        ≡ and_then
            (and_then
              (and_then m
                (λ h. some (ticked (record w { heap = h; slots = put w.slots w.cur_slot q }))))
              looped)
            (called is_set)
  behind_first none set = refl
  behind_first (some h) set =
      let w1 : Wheel = record w { heap = h; slots = put w.slots w.cur_slot q } in
      ap (λ p. and_then (BookWheel.tick_loop is_set fuel p w1) fire) (put-eq w.slots w.cur_slot q)
      ∙ ap (λ o. and_then o fire) (rest w1)
      ∙ called-fire (TimeWheel.tick_loop fuel q w1) set

  behind_other :
      (m : Option Heap)
      → is_set a ≡ true
      → and_then
          (and_then m (λ h. some (record w { heap = h })))
          (λ w1. and_then (BookWheel.tick_loop is_set fuel q w1) fire)
        ≡ and_then
            (and_then (and_then m (λ h. some (ticked (record w { heap = h })))) looped)
            (called is_set)
  behind_other none set = refl
  behind_other (some h) set =
      let w1 : Wheel = record w { heap = h } in
      ap (λ o. and_then o fire) (rest w1) ∙ called-fire (TimeWheel.tick_loop fuel q w1) set

module _ (is_set : ℕ → Bool) where
  tick_loop-same :
      (fuel : ℕ) (p : Ptr) (w : Wheel)
      → BookWheel.tick_loop is_set fuel p w
        ≡ and_then (TimeWheel.tick_loop fuel p w) (called is_set)
  unfolding BookWheel.tick_loop TimeWheel.tick_loop BookWheel.drop_first TimeWheel.tick_timer
      TimeWheel.expire
  tick_loop-same fuel none w = refl
  tick_loop-same zero (some a) w = refl
  tick_loop-same (suc fuel) (some a) w = elim (Option-cases (w.heap a)) [
    | inl x ↦ rw x refl
    | inr (t, x) ↦ elim (Bool-cases (ltb 0 t.rotation)) [
      | inl r ↦
          let aged : Wheel = record w {
            heap = put w.heap a (some (record t { rotation = t.rotation - 1 }));
          } in
          rw (x, r)
            (tick_loop-same fuel t.next aged
              ∙ called-quiet is_set (TimeWheel.tick_loop fuel t.next aged))
      | inr r ↦ elim (Bool-cases (is_at (w.slots w.cur_slot) a)) [
        | inl first ↦
            let m = TimeWheel.set_prev_if t.next none (put w.heap a none) in
            elim (Bool-cases (is_set a)) [
              | inl set ↦
                  rw (x, r, first, set)
                    (behind_first is_set fuel a t.next w (tick_loop-same fuel t.next) m set)
              | inr n ↦
                  rw (x, r, first, n)
                    (unset is_set fuel a t.next w (tick_loop-same fuel t.next) m
                      (λ h. record w { heap = h; slots = put w.slots w.cur_slot t.next }) n)
            ]
        | inr other ↦
            let m = TimeWheel.unlink a t w.heap in
            elim (Bool-cases (is_set a)) [
              | inl set ↦
                  rw (x, r, other, set, delete_behind-same a t w x)
                    (behind_other is_set fuel a t.next w (tick_loop-same fuel t.next) m set)
              | inr n ↦
                  rw (x, r, other, n)
                    (unset is_set fuel a t.next w (tick_loop-same fuel t.next) m
                      (λ h. record w { heap = h }) n)
            ]
      ]
    ]
  ]

  called-moved :
      (m : Option (Wheel × List ℕ)) (g : Wheel → Wheel)
      → and_then (and_then m (called is_set)) (λ (w', fired). some (g w', fired))
        ≡ and_then (and_then m (λ (w', fired). some (g w', fired))) (called is_set)
  called-moved none g = refl
  called-moved (some (w', fired)) g = elim (Bool-cases (all_set is_set fired)) [
    | inl t ↦ rw t refl
    | inr f ↦ rw f refl
  ]

  pub tick-same :
      (fuel : ℕ) (w : Wheel)
      → BookWheel.tick is_set fuel w ≡ and_then (TimeWheel.tick fuel w) (called is_set)
  unfolding BookWheel.tick TimeWheel.tick
  tick-same fuel w = rw (tick_loop-same) (
      called-moved (TimeWheel.tick_loop fuel (w.slots w.cur_slot) w)
        (λ w'. record w' { cur_slot = (w'.cur_slot + 1) % slot_count }))
