-- ===== src/TimeWheel/Tests.antt =====
-- Runs of the time wheel and instances of its theorems.
use linux_network.Base.{
  number-cases, ℕ, ◌<◌, ◌≤◌, ◌≡◌, refl, sym, subst, inl, inr, Option, none, some, List, [], ◌∷◌,
  length, arith, pos,
}
use linux_network.Chain.{put-ne}
use linux_network.Chain.Addresses.{entry}
use linux_network.TimeWheel.{
  Wheel, Heap, new_wheel, put, and_then, slot_count, ticks, add_timer, del_timer, tick, destroy,
}
use linux_network.TimeWheel.Segments.{Entry, node}
use linux_network.TimeWheel.Ticking.{Listed}
use linux_network.TimeWheel.Wheels.{Represents, add_timer-adds}
use linux_network.Chain.Segments.{SameOutside}
use linux_network.TimeWheel.Ticking.{Gone}
use linux_network.TimeWheel.Removing.{del_timer-removes, tick-fires}
use linux_network.TimeWheel.Due.{In}
use linux_network.TimeWheel.Countdown.{Fuel}
use linux_network.TimeWheel.OnTime.{run_ticks, timer-on_time}
use linux_network.TimeWheel.Destroying.{Freed, destroy-frees}

-- Three timers in slot 5, the second of which has a turn left.
abbrev three : List Entry
three = entry 1 0 ∷ entry 2 1 ∷ entry 3 0 ∷ []

abbrev heap_of_three : Heap
heap_of_three =
    put
      (put (put (λ _. none) 1 (some (node 5 (entry 1 0) none (some 2)))) 2
        (some (node 5 (entry 2 1) (some 1) (some 3))))
      3 (some (node 5 (entry 3 0) (some 2) none))

abbrev wheel_of_three : Wheel
wheel_of_three = record { heap = heap_of_three; slots = put (λ _. none) 5 (some 1); cur_slot = 5 }

abbrev lists_of_three : ℕ → List Entry
lists_of_three = put (λ _. []) 5 three

wheel_of_three-Represents : Represents wheel_of_three lists_of_three
wheel_of_three-Represents = (
  omega arith,
  λ i lt. elim (number-cases i 5) [
    | inl e ↦
        subst (λ k. Listed wheel_of_three k (lists_of_three k)) (sym e)
          (
            refl,
            (refl, (refl, (refl, tt))),
            ((omega arith, (omega arith, tt)), ((omega arith, tt), (tt, tt))),
          )
    | inr ne ↦
        subst (Listed wheel_of_three i) (sym (put-ne (λ _. []) 5 i three ne))
          (put-ne (λ _. none) 5 i (some 1) ne, tt, tt)
  ],
)

wheel_of_three-Fuel : Fuel 3 lists_of_three
wheel_of_three-Fuel i lt = elim (number-cases i 5) [
  | inl e ↦ subst (λ k. length (lists_of_three k) ≤ 3) (sym e) (omega arith)
  | inr ne ↦ subst (λ l. length l ≤ 3) (sym (put-ne (λ _. []) 5 i three ne)) (omega arith)
]

-- A timeout of more than a turn of the wheel, next to three timers.
timer-on_time_example :
    (w1 w2 w3 : Wheel) × (before now : List ℕ) × (add_timer (pos 130) 7 wheel_of_three
      ≡ some (w1, some 7))
    × (run_ticks 4 (ticks 130) w1 ≡ some (w2, before))
    × (In 7 before → ⊥)
    × (tick 4 w2 ≡ some (w3, now))
    × In 7 now
timer-on_time_example =
    timer-on_time 3 wheel_of_three lists_of_three 130 7 wheel_of_three-Represents
      wheel_of_three-Fuel refl

add_timer-adds_example :
    (w' : Wheel) × (add_timer (pos 60) 7 wheel_of_three ≡ some (w', some 7))
    × (w'.cur_slot ≡ 5)
    × Represents w' (put lists_of_three 5 (entry 7 1 ∷ three))
add_timer-adds_example =
    add_timer-adds wheel_of_three lists_of_three 60 7 wheel_of_three-Represents refl

-- The timer in the middle.
del_timer-removes_example :
    (w' : Wheel) × (del_timer (some 2) wheel_of_three ≡ some w')
    × (w'.cur_slot ≡ 5)
    × Represents w' (put lists_of_three 5 (entry 1 0 ∷ entry 3 0 ∷ []))
    × (w'.heap 2 ≡ none)
    × SameOutside three wheel_of_three.heap w'.heap
del_timer-removes_example =
    del_timer-removes wheel_of_three lists_of_three 5 (entry 1 0 ∷ []) (entry 2 1) (entry 3 0 ∷ [])
      wheel_of_three-Represents (omega arith) refl

tick-fires_example :
    (w' : Wheel) × (tick 3 wheel_of_three ≡ some (w', 1 ∷ 3 ∷ []))
    × (w'.cur_slot ≡ 6)
    × Represents w' (put lists_of_three 5 (entry 2 0 ∷ []))
    × Gone (1 ∷ 3 ∷ []) w'.heap
    × SameOutside three wheel_of_three.heap w'.heap
tick-fires_example =
    tick-fires 3 wheel_of_three lists_of_three wheel_of_three-Represents (omega arith)

destroy-frees_example :
    (w' : Wheel) × (destroy 3 wheel_of_three ≡ some w')
    × ((j : ℕ) → j < slot_count → Freed (lists_of_three j) w'.heap)
destroy-frees_example =
    destroy-frees 3 wheel_of_three lists_of_three wheel_of_three-Represents wheel_of_three-Fuel

-- Two timers on a fresh wheel, and what the ticks run.
abbrev two_timers : Option (List ℕ)
two_timers = and_then (add_timer (pos 0) 1 new_wheel) (λ (w, p).
    and_then (add_timer (pos 2) 2 w)
      (λ (w', p'). and_then (run_ticks 2 3 w') (λ (w'', fired). some fired)))

two_timers-fired : two_timers ≡ some (1 ∷ 2 ∷ [])
unfolding add_timer tick
two_timers-fired = refl
