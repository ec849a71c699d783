-- ===== src/BookWheel.antt =====
-- linux_server/cpt_11_4_1.h, its class time_wheel: the wheel of time_wheel.h but for add_timer, which ends
-- without a return where it has made a timer. The fields, and so the types of TimeWheel, are the same.
-- `none` as a result is undefined behaviour: the use of a null or freed pointer, the end of add_timer
-- without a value, or the call of a callback that was never set. Which timers have one is an argument,
-- since nothing in the file sets it. What `new` answers is an argument; the
-- callback of a timer is a trace event, its address.
pub mod Same
pub mod SameTick
pub mod Destroying
pub mod Runs
mod Tests
use linux_network.Base.{
  ℕ, zero, suc, ◌+◌, ◌-◌, ◌/◌, ◌%◌, Bool, true, false, Option, none, some, List, [], ◌∷◌, ◌++◌, ltb,
  ◌==◌, if◌then◌else◌, ℤ, pos, negsuc,
}
use linux_network.Chain.{Ptr, is_at, put, and_then, modify, modify_if, free}
use linux_network.TimeWheel.{Timer, Wheel, Heap, slot_count, slot_interval}

-- The constructor.
abbrev pub new_wheel : Wheel
new_wheel = record { heap = λ _. none; slots = λ _. none; cur_slot = 0 }

-- A store to the `_prev` of a timer, behind a test for null.
abbrev pub clear_prev_if : Ptr → Heap → Option Heap
clear_prev_if p = modify_if p (λ t. record t { prev = none })

unfoldable pub link_new : ℕ → Timer → Wheel → Option Wheel
link_new a t w =
    let slots = put w.slots t.time_slot (some a) in
    elim (w.slots t.time_slot) [
      | none ↦ some (record w { heap = put w.heap a (some t); slots = slots })
      | some b ↦
          and_then (modify (some a) (λ u. record u { next = some b }) (put w.heap a (some t)))
            (λ h1.
              and_then (modify (some b) (λ u. record u { prev = some a }) h1)
                (λ h2. some (record w { heap = h2; slots = slots })))
    ]

-- `a` is what `new` answers. Behind the new timer the end is reached without a return.
unfoldable pub add_timer : ℤ → ℕ → Wheel → Option (Wheel × Ptr)
unfolding link_new
add_timer (negsuc n) a w = some (w, none)
add_timer (pos timeout) a w =
    let ticks = if ltb timeout slot_interval then 1 else timeout / slot_interval in
    let rotation = ticks / slot_count in
    let ts = (w.cur_slot + ticks % slot_count) % slot_count in
    and_then
      (link_new a (record { rotation = rotation; time_slot = ts; next = none; prev = none }) w)
      (λ w'. none)

-- The branches of del_timer.
unfoldable pub delete_first : ℕ → Timer → Wheel → Option Wheel
delete_first a t w = and_then (clear_prev_if t.next w.heap) (λ h1.
    and_then (free a h1)
      (λ h2. some (record w { heap = h2; slots = put w.slots t.time_slot t.next })))

-- Also the second branch of tick for a timer that is due.
unfoldable pub delete_behind : ℕ → Timer → Wheel → Option Wheel
delete_behind a t w = and_then (modify t.prev (λ u. record u { next = t.next }) w.heap) (λ h1.
    and_then (modify_if t.next (λ u. record u { prev = t.prev }) h1)
      (λ h2. and_then (free a h2) (λ h3. some (record w { heap = h3 }))))

unfoldable pub del_timer : Ptr → Wheel → Option Wheel
del_timer none w = some w
del_timer (some a) w =
    and_then (w.heap a)
      (λ t. if is_at (w.slots t.time_slot) a then delete_first a t w else delete_behind a t w)

-- A timer that is due and stands first in the current slot: it is deleted before the next one is changed.
unfoldable pub drop_first : ℕ → Timer → Wheel → Option Wheel
drop_first a t w = and_then (free a w.heap) (λ h1.
    and_then (clear_prev_if t.next h1)
      (λ h2. some (record w { heap = h2; slots = put w.slots w.cur_slot t.next })))

-- Is the callback of the timer set?
module _ (is_set : ℕ → Bool) where
  -- The loop of tick, on fuel, one step for each timer of the slot: the wheel, and the callbacks.
  unfoldable pub tick_loop : ℕ → Ptr → Wheel → Option (Wheel × List ℕ)
  tick_loop fuel none w = some (w, [])
  tick_loop zero (some a) w = none
  tick_loop (suc fuel) (some a) w = and_then (w.heap a) (λ t.
      let turn =
        tick_loop fuel t.next
          (record w { heap = put w.heap a (some (record t { rotation = t.rotation - 1 })) }) in
      let first = and_then (drop_first a t w) (λ w1.
        and_then (tick_loop fuel (w1.slots w1.cur_slot) w1)
          (λ (w2, fired). some (w2, a ∷ fired))) in
      let behind =
        and_then (delete_behind a t w)
          (λ w1. and_then (tick_loop fuel t.next w1) (λ (w2, fired). some (w2, a ∷ fired))) in
      let call = if is_at (w.slots w.cur_slot) a then first else behind in
      if ltb 0 t.rotation then turn else if is_set a then call else none)

  unfoldable pub tick : ℕ → Wheel → Option (Wheel × List ℕ)
  unfolding tick_loop
  tick fuel w =
      and_then (tick_loop fuel (w.slots w.cur_slot) w)
        (λ (w', fired). some (record w' { cur_slot = (w'.cur_slot + 1) % slot_count }, fired))

-- The loop of the destructor on one slot, on fuel, one step for each timer of the slot.
unfoldable pub destroy_slot : ℕ → ℕ → Ptr → Wheel → Option Wheel
destroy_slot fuel i none w = some w
destroy_slot zero i (some a) w = none
destroy_slot (suc fuel) i (some a) w = and_then (w.heap a) (λ t.
    and_then (free a w.heap)
      (λ h. destroy_slot fuel i t.next (record w { heap = h; slots = put w.slots i t.next })))

-- Its loop over the slots, `k` of them to go from slot `i` on.
unfoldable pub destroy_from : ℕ → ℕ → ℕ → Wheel → Option Wheel
unfolding destroy_slot
destroy_from fuel zero i w = some w
destroy_from fuel (suc k) i w =
    and_then (destroy_slot fuel i (w.slots i) w) (λ w'. destroy_from fuel k (i + 1) w')

unfoldable pub destroy : ℕ → Wheel → Option Wheel
unfolding destroy_from
destroy fuel w = destroy_from fuel slot_count 0 w
