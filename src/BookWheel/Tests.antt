-- ===== src/BookWheel/Tests.antt =====
-- Runs of the wheel of cpt_11_4_1.h and an instance of its theorem.
use linux_network.Base.{
  ℕ, Bool, ◌≡◌, refl, Option, none, some, List, [], ◌∷◌, pos, negsuc, ◌==◌, not, if◌then◌else◌,
}
use linux_network.Chain.{and_then}
use linux_network.TimeWheel.{Wheel}
use linux_network.BookWheel.{
  add_timer, del_timer, delete_first, delete_behind, drop_first, tick, tick_loop, link_new,
}
use linux_network.BookWheel.SameTick.{called}
use linux_network.BookWheel.Runs.{Op, add, del, turn, book_wheel, time_wheel, run, run-same}

-- Three timers in the current slot; the callback of the one at 2 is not set.
abbrev three : Wheel
three = record {
  heap = λ a.
      if a == 1
      then some record { rotation = 0; time_slot = 0; next = some 2; prev = none }
      else if a == 2
      then some record { rotation = 0; time_slot = 0; next = some 3; prev = some 1 }
      else if a == 3
      then some record { rotation = 0; time_slot = 0; next = none; prev = some 2 }
      else none;
  slots = λ i. if i == 0 then some 1 else none;
  cur_slot = 0;
}

abbrev set : ℕ → Bool
set a = not (a == 2)

abbrev calls : List Op
calls = add (negsuc 0) 4 ∷ del (some 2) ∷ turn 3 ∷ []

run-same_example :
    run (book_wheel set) calls three ≡ and_then (run time_wheel calls three) (called set)
run-same_example = run-same set calls three

abbrev fired : List Op → Option (List ℕ)
fired os = and_then (run (book_wheel set) os three) (λ (w, fired). some fired)

fired_lem : fired calls ≡ some (1 ∷ 3 ∷ [])
unfolding add_timer link_new del_timer delete_first delete_behind drop_first tick tick_loop
fired_lem = refl

unset_lem : fired (turn 3 ∷ []) ≡ none
unfolding tick tick_loop drop_first delete_behind
unset_lem = refl

made_lem : fired (add (pos 2) 4 ∷ []) ≡ none
unfolding add_timer link_new
made_lem = refl
