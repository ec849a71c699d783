-- ===== src/TimerList.antt =====
-- linux_server/cpt_11_2_1.h, class Sort_timer_list: timers at addresses in one list, linked in both
-- directions, by ascending time of expiry. `none` as a result is the use of a null or freed pointer, or
-- the end of the fuel. The callback of a timer is an event, its client; the time is an argument.
pub mod Sorting
pub mod Adding
pub mod Adjusting
pub mod Removing
pub mod Roundtrip
pub mod Expiring
mod Tests
use linux_network.Base.{
  ℕ, zero, suc, Bool, true, false, ◌&&◌, Option, none, some, List, [], ◌∷◌, ltb, if◌then◌else◌,
}
use linux_network.Chain.{Ptr, is_at, and_then, modify, modify_if, free}

-- Util_timer; `user_data` is the number of the client.
pub record Timer : Type 0 where
  pub expire : ℕ
  pub user_data : ℕ
  pub prev : Ptr
  pub next : Ptr

abbrev pub Heap : Type 0
Heap = ℕ → Option Timer

pub record TimerList : Type 0 where
  pub heap : Heap
  pub head : Ptr
  pub tail : Ptr

abbrev pub new_list : TimerList
new_list = record { heap = λ _. none; head = none; tail = none }

abbrev pub load : Heap → Ptr → Option Timer
load h none = none
load h (some a) = h a

-- `p->_next = q` and `p->_prev = q`
abbrev pub set_next : Ptr → Ptr → Heap → Option Heap
set_next p q = modify p (λ t. record t { next = q })

abbrev pub set_prev : Ptr → Ptr → Heap → Option Heap
set_prev p q = modify p (λ t. record t { prev = q })

-- The loop of add_timer(timer, lst_head) and what follows it, from `prev` and `tmp` on, with one step
-- of fuel for each timer that it passes.
unfoldable pub insert_loop : ℕ → ℕ → ℕ → Ptr → TimerList → Option TimerList
insert_loop fuel a prev none l = and_then (set_next (some prev) (some a) l.heap) (λ h1.
    and_then (set_prev (some a) (some prev) h1) (λ h2.
      and_then (set_next (some a) none h2) (λ h3. some (record l { heap = h3; tail = some a }))))
insert_loop zero a prev (some tmp) l = none
insert_loop (suc fuel) a prev (some tmp) l = and_then (l.heap a) (λ t. and_then (l.heap tmp) (λ u.
    let rest = insert_loop fuel a tmp u.next l in
    if ltb t.expire u.expire
    then and_then (set_next (some prev) (some a) l.heap) (λ h1.
      and_then (set_prev (some a) (some prev) h1) (λ h2.
        and_then (set_next (some a) (some tmp) h2)
          (λ h3. and_then (set_prev (some tmp) (some a) h3) (λ h4. some (record l { heap = h4 })))))
    else rest))

-- add_timer(timer, lst_head)
unfoldable pub add_behind : ℕ → ℕ → Ptr → TimerList → Option TimerList
unfolding insert_loop
add_behind fuel a none l = none
add_behind fuel a (some b) l = and_then (l.heap b) (λ t. insert_loop fuel a b t.next l)

-- The timer `a` in front of the first timer `b`.
unfoldable pub push_front : ℕ → ℕ → TimerList → Option TimerList
push_front a b l = and_then (set_next (some a) (some b) l.heap) (λ h1.
    and_then (set_prev (some b) (some a) h1) (λ h2. some (record l { heap = h2; head = some a })))

-- add_timer(timer)
unfoldable pub add_timer : ℕ → Ptr → TimerList → Option TimerList
add_timer fuel none l = some l
add_timer fuel (some a) l = elim l.head [
  | none ↦ some (record l { head = some a; tail = some a })
  | some b ↦ and_then (l.heap a) (λ t.
      and_then (l.heap b)
        (λ u. if ltb t.expire u.expire then push_front a b l else add_behind fuel a (some b) l))
]

-- adjust_timer behind its tests, for the first timer of the list and for another.
unfoldable pub move_behind : ℕ → ℕ → Timer → TimerList → Option TimerList
move_behind fuel a t l =
    if is_at l.head a
    then and_then (set_prev t.next none l.heap) (λ h1.
      and_then (set_next (some a) none h1)
        (λ h2. add_behind fuel a t.next (record l { heap = h2; head = t.next })))
    else and_then (set_next t.prev t.next l.heap) (λ h1.
      and_then (set_prev t.next t.prev h1)
        (λ h2. and_then (h2 a) (λ t'. add_behind fuel a t'.next (record l { heap = h2 }))))

unfoldable pub adjust_timer : ℕ → Ptr → TimerList → Option TimerList
adjust_timer fuel none l = some l
adjust_timer fuel (some a) l = and_then (l.heap a) (λ t. elim t.next [
  | none ↦ some l
  | some b ↦
      and_then (l.heap b) (λ u. if ltb t.expire u.expire then some l else move_behind fuel a t l)
])

-- The branches of del_timer for the first of several timers, for the last, and for another.
unfoldable pub delete_first : ℕ → Timer → TimerList → Option TimerList
delete_first a t l =
    and_then (set_prev t.next none l.heap)
      (λ h1. and_then (free a h1) (λ h2. some (record l { heap = h2; head = t.next })))

unfoldable pub delete_last : ℕ → Timer → TimerList → Option TimerList
delete_last a t l =
    and_then (set_next t.prev none l.heap)
      (λ h1. and_then (free a h1) (λ h2. some (record l { heap = h2; tail = t.prev })))

unfoldable pub delete_inner : ℕ → Timer → TimerList → Option TimerList
delete_inner a t l = and_then (set_next t.prev t.next l.heap) (λ h1.
    and_then (set_prev t.next t.prev h1)
      (λ h2. and_then (free a h2) (λ h3. some (record l { heap = h3 }))))

unfoldable pub del_timer : Ptr → TimerList → Option TimerList
del_timer none l = some l
del_timer (some a) l =
    if is_at l.head a && is_at l.tail a
    then and_then (free a l.heap) (λ h. some (record l { heap = h; head = none; tail = none }))
    else and_then (l.heap a) (λ t.
      if is_at l.head a
      then delete_first a t l
      else if is_at l.tail a
      then delete_last a t l
      else delete_inner a t l)

-- What tick does with the first timer once its callback has run.
unfoldable pub pop_front : ℕ → Timer → TimerList → Option TimerList
pop_front a t l =
    and_then (modify_if t.next (λ u. record u { prev = none }) l.heap)
      (λ h1. and_then (free a h1) (λ h2. some (record l { heap = h2; head = t.next })))

-- The loop of `tick` at the time `cur`, from `tmp` on: the list behind it, and the clients whose
-- callbacks ran, with one step of fuel for each timer.
unfoldable pub tick_loop : ℕ → ℕ → Ptr → TimerList → Option (TimerList × List ℕ)
tick_loop fuel cur none l = some (l, [])
tick_loop zero cur (some a) l = none
tick_loop (suc fuel) cur (some a) l = and_then (l.heap a) (λ t.
    let rest = and_then (pop_front a t l) (λ l1.
      and_then (tick_loop fuel cur l1.head l1) (λ (l2, fired). some (l2, t.user_data ∷ fired))) in
    if ltb cur t.expire then some (l, []) else rest)

unfoldable pub tick : ℕ → ℕ → TimerList → Option (TimerList × List ℕ)
unfolding tick_loop
tick fuel cur l = elim l.head [ none ↦ some (l, []) | some a ↦ tick_loop fuel cur (some a) l ]

-- The loop of the destructor, with one step of fuel for each timer.
unfoldable pub destroy_loop : ℕ → Ptr → TimerList → Option TimerList
destroy_loop fuel none l = some l
destroy_loop zero (some a) l = none
destroy_loop (suc fuel) (some a) l = and_then (l.heap a) (λ t.
    and_then (free a l.heap) (λ h. destroy_loop fuel t.next (record l { heap = h; head = t.next })))

unfoldable pub destroy : ℕ → TimerList → Option TimerList
unfolding destroy_loop
destroy fuel l = destroy_loop fuel l.head l
