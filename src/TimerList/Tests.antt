-- ===== src/TimerList/Tests.antt =====
-- Runs of the timer list and instances of its theorems.
use mathlib.Core.List.{Perm}
use linux_network.Base.{ℕ, ◌≡◌, ◌≢◌, refl, Option, none, some, List, [], ◌∷◌, arith}
use linux_network.Chain.{put, and_then}
use linux_network.Chain.Addresses.{entry}
use linux_network.TimerList.{
  Heap, TimerList, add_timer, adjust_timer, del_timer, tick, insert_loop, add_behind, push_front,
  delete_first, delete_last, delete_inner, pop_front, tick_loop,
}
use linux_network.TimerList.Sorting.{Due, timer_links, Entries, Represents, IsAscending}
use linux_network.TimerList.Adding.{Gives, add_timer-IsAscending}
use linux_network.TimerList.Adjusting.{adjust_timer-IsAscending}
use linux_network.TimerList.Removing.{Frees, del_timer-unlinks}
use linux_network.TimerList.Roundtrip.{del_timer-add_timer}
use linux_network.TimerList.Expiring.{Ticks, tick-expired}

abbrev due : ℕ → ℕ → Due
due n c = record { expire = n; user_data = c }

-- Three timers for the clients 4, 5 and 6, due at 10, 20 and 30, and another that is not in the list.
abbrev three : Entries
three = entry 1 (due 10 4) ∷ entry 2 (due 20 5) ∷ entry 3 (due 30 6) ∷ []

abbrev loose : Due
loose = due 20 7

abbrev heap_of_three : Heap
heap_of_three =
    put
      (put
        (put (put (λ _. none) 1 (some (timer_links.node (due 10 4) none (some 2)))) 2
          (some (timer_links.node (due 20 5) (some 1) (some 3))))
        3 (some (timer_links.node (due 30 6) (some 2) none)))
      8 (some (timer_links.node loose none none))

abbrev list_of_three : TimerList
list_of_three = record { heap = heap_of_three; head = some 1; tail = some 3 }

list_of_three-Represents : Represents list_of_three three
list_of_three-Represents = (
  refl,
  λ x. refl,
  (refl, (refl, (refl, tt))),
  ((omega arith, (omega arith, tt)), ((omega arith, tt), (tt, tt))),
)

add_timer-IsAscending_example :
    (es' : Entries) × Gives list_of_three three 8 es' (add_timer 3 (some 8) list_of_three)
    × IsAscending es'
    × Perm es' (entry 8 loose ∷ three)
add_timer-IsAscending_example =
    add_timer-IsAscending 3 list_of_three three 8 loose (omega arith) list_of_three-Represents
      (omega arith) refl (omega arith)

del_timer-add_timer_example :
    (l' : TimerList) × (and_then (add_timer 3 (some 8) list_of_three) (del_timer (some 8))
      ≡ some l')
    × Represents l' three
    × (l'.head ≡ some 1)
    × (l'.heap 8 ≡ none)
    × ((b : ℕ) → b ≢ 8 → l'.heap b ≡ heap_of_three b)
del_timer-add_timer_example =
    del_timer-add_timer 3 list_of_three three 8 loose (omega arith) list_of_three-Represents refl
      (omega arith)

-- The first timer is put off to 25.
abbrev put_off : TimerList
put_off = record list_of_three {
  heap = put heap_of_three 1 (some (timer_links.node (due 25 4) none (some 2)));
}

put_off-Represents :
    Represents put_off (entry 1 (due 25 4) ∷ entry 2 (due 20 5) ∷ entry 3 (due 30 6) ∷ [])
put_off-Represents = (
  refl,
  λ x. refl,
  (refl, (refl, (refl, tt))),
  ((omega arith, (omega arith, tt)), ((omega arith, tt), (tt, tt))),
)

adjust_timer-IsAscending_example :
    (es' : Entries) × Gives put_off
      (entry 2 (due 20 5) ∷ entry 3 (due 30 6) ∷ [])
      1
      es'
      (adjust_timer 2 (some 1) put_off)
    × IsAscending es'
    × Perm es' (entry 1 (due 25 4) ∷ entry 2 (due 20 5) ∷ entry 3 (due 30 6) ∷ [])
adjust_timer-IsAscending_example =
    adjust_timer-IsAscending 2 put_off [] (entry 1 (due 25 4))
      (entry 2 (due 20 5) ∷ entry 3 (due 30 6) ∷ []) (omega arith) put_off-Represents (omega arith)
      tt

-- The timer in the middle.
del_timer-unlinks_example :
    Frees list_of_three 2
      (entry 1 (due 10 4) ∷ entry 3 (due 30 6) ∷ [])
      (del_timer (some 2) list_of_three)
del_timer-unlinks_example =
    del_timer-unlinks list_of_three (entry 1 (due 10 4) ∷ []) (entry 2 (due 20 5))
      (entry 3 (due 30 6) ∷ []) list_of_three-Represents

tick-expired_example : Ticks 20 list_of_three three (tick 3 20 list_of_three)
tick-expired_example =
    tick-expired 3 20 list_of_three three (omega arith) list_of_three-Represents (omega arith)

-- A timer due at 5 and one due at 20 on the three, and the clients of a tick at 20.
abbrev fired : Option (List ℕ)
fired =
    and_then
      (add_timer 4 (some 9) (record list_of_three {
        heap = put heap_of_three 9 (some (timer_links.node (due 5 9) none none));
      }))
      (λ l1.
        and_then (add_timer 4 (some 8) l1)
          (λ l2. and_then (tick 5 20 l2) (λ (l3, clients). some clients)))

fired_lem : fired ≡ some (9 ∷ 4 ∷ 5 ∷ 7 ∷ [])
unfolding add_timer add_behind insert_loop push_front tick tick_loop pop_front
fired_lem = refl

-- Deleted from the front, from the back and from the middle.
abbrev left : Option (List ℕ)
left = and_then (del_timer (some 1) list_of_three) (λ l1.
    and_then (del_timer (some 3) l1)
      (λ l2. and_then (tick 5 40 l2) (λ (l3, clients). some clients)))

left_lem : left ≡ some (5 ∷ [])
unfolding del_timer delete_first delete_last delete_inner tick tick_loop pop_front
left_lem = refl
