-- ===== src/TimeWheel.antt =====
-- linux_server/time_wheel.h, class time_wheel: timers at addresses, linked in both directions, one list
-- for each slot. `none` as a result is the use of a null or freed pointer. What `new` answers is an
-- argument; the callback of a timer is a trace event, its address.
pub mod Segments
pub mod Surgery
pub mod Unlinking
pub mod Ticking
pub mod Looping
pub mod Wheels
pub mod Removing
pub mod Due
pub mod Countdown
pub mod OnTime
pub mod Destroying
mod Tests
use linux_network.Base.{
  ℤ, pos, negsuc, ℕ, zero, suc, ◌+◌, ◌-◌, ◌/◌, ◌%◌, Bool, true, false, Option, none, some, List, [],
  ◌∷◌, ◌++◌, ltb, ◌==◌, if◌then◌else◌,
}
pub use linux_network.Chain.{Ptr, is_at, put, and_then}
use linux_network.Chain.{modify, modify_if}

-- N and SI
abbrev pub slot_count : ℕ
slot_count = 60

abbrev pub slot_interval : ℕ
slot_interval = 1

-- tw_timer, without its callback and its client.
pub record Timer : Type 0 where
  pub rotation : ℕ
  pub time_slot : ℕ
  pub next : Ptr
  pub prev : Ptr

abbrev pub Heap : Type 0
Heap = ℕ → Option Timer

pub record Wheel : Type 0 where
  pub heap : Heap
  pub slots : ℕ → Ptr
  pub cur_slot : ℕ

-- `p->next = q`, `p->prev = q`, and `if (p) p->prev = q`
abbrev pub set_next : Ptr → Ptr → Heap → Option Heap
set_next p q = modify p (λ t. record t { next = q })

abbrev pub set_prev : Ptr → Ptr → Heap → Option Heap
set_prev p q = modify p (λ t. record t { prev = q })

abbrev pub set_prev_if : Ptr → Ptr → Heap → Option Heap
set_prev_if p q = modify_if p (λ t. record t { prev = q })

abbrev pub new_wheel : Wheel
new_wheel = record { heap = λ _. none; slots = λ _. none; cur_slot = 0 }

abbrev pub ticks : ℕ → ℕ
ticks timeout = if ltb timeout slot_interval then 1 else timeout / slot_interval

-- The new timer at the front of its slot.
unfoldable pub link_front : ℕ → Timer → Wheel → Option Wheel
link_front a t w = elim (w.slots t.time_slot) [
  | none ↦
      some (record w { heap = put w.heap a (some t); slots = put w.slots t.time_slot (some a) })
  | some b ↦ and_then (set_next (some a) (some b) (put w.heap a (some t))) (λ h.
      and_then (set_prev (some b) (some a) h)
        (λ h'. some (record w { heap = h'; slots = put w.slots t.time_slot (some a) })))
]

-- `a` is what `new` answers.
unfoldable pub add_timer : ℤ → ℕ → Wheel → Option (Wheel × Ptr)
unfolding link_front
add_timer (negsuc n) a w = some (w, none)
add_timer (pos timeout) a w =
    let rotation = ticks timeout / slot_count in
    let ts = (w.cur_slot + ticks timeout % slot_count) % slot_count in
    let timer : Timer = record { rotation = rotation; time_slot = ts; next = none; prev = none } in
    and_then (link_front a timer w) (λ w'. some (w', some a))

-- A timer that is not the first of its list leaves it, and is deleted.
unfoldable pub unlink : ℕ → Timer → Heap → Option Heap
unlink a t h =
    and_then (set_next t.prev t.next h)
      (λ h'. and_then (set_prev_if t.next t.prev h') (λ h''. some (put h'' a none)))

unfoldable pub del_timer : Ptr → Wheel → Option Wheel
unfolding unlink
del_timer none w = some w
del_timer (some a) w = and_then (w.heap a) (λ t.
    if is_at (w.slots t.time_slot) a
    then and_then (set_prev_if t.next none w.heap)
        (λ h. some (record w { heap = put h a none; slots = put w.slots t.time_slot t.next }))
    else and_then (unlink a t w.heap) (λ h. some (record w { heap = h })))

-- What a round of the loop of `tick` leaves: the wheel, the next `tmp`, the callbacks.
pub record Ticked : Type 0 where
  pub wheel : Wheel
  pub tmp : Ptr
  pub fired : List ℕ

unfoldable pub expire : ℕ → Timer → Wheel → Option Ticked
unfolding unlink
expire a t w =
    if is_at (w.slots w.cur_slot) a
    then and_then (set_prev_if t.next none (put w.heap a none)) (λ h. some record {
      wheel = record w { heap = h; slots = put w.slots w.cur_slot t.next };
      tmp = t.next;
      fired = a ∷ [];
    })
    else and_then (unlink a t w.heap)
        (λ h. some record { wheel = record w { heap = h }; tmp = t.next; fired = a ∷ [] })

unfoldable pub tick_timer : ℕ → Wheel → Option Ticked
unfolding expire
tick_timer a w = and_then (w.heap a) (λ t.
    if ltb 0 t.rotation
    then some record {
      wheel = record w { heap = put w.heap a (some (record t { rotation = t.rotation - 1 })) };
      tmp = t.next;
      fired = [];
    }
    else expire a t w)

-- The loop of `tick` on fuel, one step for each timer of the slot.
unfoldable pub tick_loop : ℕ → Ptr → Wheel → Option (Wheel × List ℕ)
unfolding tick_timer
tick_loop fuel none w = some (w, [])
tick_loop zero (some a) w = none
tick_loop (suc fuel) (some a) w =
    and_then (tick_timer a w)
      (λ s. and_then (tick_loop fuel s.tmp s.wheel) (λ (w', fired). some (w', s.fired ++ fired)))

unfoldable pub tick : ℕ → Wheel → Option (Wheel × List ℕ)
unfolding tick_loop
tick fuel w =
    and_then (tick_loop fuel (w.slots w.cur_slot) w)
      (λ (w', fired). some (record w' { cur_slot = (w'.cur_slot + 1) % slot_count }, fired))

-- The `while` of the destructor on one slot, on fuel, one step for each timer of the slot.
unfoldable pub destroy_slot : ℕ → ℕ → Wheel → Option Wheel
destroy_slot zero i w = elim (w.slots i) [ none ↦ some w | some a ↦ none ]
destroy_slot (suc fuel) i w = elim (w.slots i) [
  | none ↦ some w
  | some a ↦ and_then (w.heap a) (λ t.
      destroy_slot fuel i (record w { heap = put w.heap a none; slots = put w.slots i t.next }))
]

-- Its `for`, with `k` slots to go from slot `i` on.
unfoldable pub destroy_from : ℕ → ℕ → ℕ → Wheel → Option Wheel
unfolding destroy_slot
destroy_from fuel zero i w = some w
destroy_from fuel (suc k) i w =
    and_then (destroy_slot fuel i w) (λ w'. destroy_from fuel k (i + 1) w')

unfoldable pub destroy : ℕ → Wheel → Option Wheel
unfolding destroy_from
destroy fuel w = destroy_from fuel slot_count 0 w
