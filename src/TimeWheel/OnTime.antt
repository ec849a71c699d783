-- ===== src/TimeWheel/OnTime.antt =====
-- time_wheel.h: when a timer runs.
use linux_network.Base.{
  number-cases, ℕ, zero, suc, ◌+◌, ◌-◌, ◌*◌, ◌/◌, ◌%◌, ◌≤◌, ◌<◌, ◌≡◌, refl, sym, ap, ◌∙◌, subst,
  inl, inr, Option, none, some, List, [], ◌∷◌, ◌++◌, length, arith, pos,
}
use linux_network.Chain.{put-eq, put-ne}
use linux_network.Chain.Addresses.{entry}
use linux_network.TimeWheel.{Wheel, put, and_then, slot_count, ticks, add_timer, tick}
use linux_network.TimeWheel.Segments.{Entry}
use linux_network.TimeWheel.Ticking.{aged, due}
use linux_network.TimeWheel.Wheels.{Represents, slot_of, new_entry, add_timer-adds, mod_lt}
use linux_network.TimeWheel.Due.{In, In-append, In-due}
use linux_network.TimeWheel.Removing.{tick-fires}
use linux_network.TimeWheel.Countdown.{Waits, Fuel, not_yet, Waits-tick, Fuel-tick}

-- As many calls of tick.
abbrev pub run_ticks : ℕ → ℕ → Wheel → Option (Wheel × List ℕ)
run_ticks fuel zero w = some (w, [])
run_ticks fuel (suc n) w =
    and_then (tick fuel w)
      (λ (w', fired). and_then (run_ticks fuel n w') (λ (w'', later). some (w'', fired ++ later)))

countdown :
    (fuel k : ℕ) (w : Wheel) (c : ℕ → List Entry) (a : ℕ)
    → Represents w c
    → Fuel fuel c
    → Waits w c a k
    → (w' : Wheel) × (fired : List ℕ) × (c' : ℕ → List Entry) × (run_ticks fuel k w
        ≡ some (w', fired))
      × (In a fired → ⊥)
      × Represents w' c'
      × Fuel fuel c'
      × Waits w' c' a 0
countdown fuel zero w c a rep f wait = (w, [], c, refl, λ m. elim m [ ], rep, f, wait)
countdown fuel (suc k) w c a rep f wait =
    let (w', ticked, moved, rep', gone, same) = tick-fires fuel w c rep (f w.cur_slot rep.0) in
    let (w'', fired, c'', ran, early, rep'', f'', wait'') =
      countdown fuel k w' (put c w.cur_slot (aged (c w.cur_slot))) a rep'
        (Fuel-tick fuel c w.cur_slot rep.0 f) (Waits-tick w w' c a k rep moved wait) in
    (
      w'',
      due (c w.cur_slot) ++ fired,
      c'',
      rw (ticked, ran) refl,
      λ m. elim (In-append a (due (c w.cur_slot)) fired m) [
        | inl n ↦ not_yet w c a k rep wait n
        | inr n ↦ early n
      ],
      rep'',
      f'',
      wait'',
    )

due_now :
    (w : Wheel) (c : ℕ → List Entry) (a : ℕ)
    → Represents w c
    → Waits w c a 0
    → In a (due (c w.cur_slot))
due_now w c a rep (i, r, lt, m, eq) =
    let z : r ≡ 0 = omega (arith, rep.0) in
    let e : i ≡ w.cur_slot = omega (arith, rep.0) in
    In-due a (c w.cur_slot)
      (subst (λ x. In (entry a 0) (c x)) e (subst (λ x. In (entry a x) (c i)) z m))

Fuel-add :
    (fuel : ℕ) (c : ℕ → List Entry) (j : ℕ) (e : Entry)
    → j < slot_count
    → Fuel fuel c
    → Fuel (suc fuel) (put c j (e ∷ c j))
Fuel-add fuel c j e lt f i li = elim (number-cases i j) [
  | inl x ↦
      subst (λ l. length l ≤ suc fuel) (sym (ap (put c j (e ∷ c j)) x ∙ put-eq c j (e ∷ c j)))
        (omega (arith, f j lt))
  | inr ne ↦
      subst (λ l. length l ≤ suc fuel) (sym (put-ne c j i (e ∷ c j) ne)) (omega (arith, f i li))
]

added-Waits :
    (w : Wheel) (w' : Wheel) (c : ℕ → List Entry) (timeout a : ℕ)
    → w.cur_slot < slot_count
    → w'.cur_slot ≡ w.cur_slot
    → let j = slot_of w timeout in Waits w' (put c j (new_entry timeout a ∷ c j)) a (ticks timeout)
added-Waits w w' c timeout a lt same =
    let j = slot_of w timeout in
    (
      j,
      ticks timeout / slot_count,
      mod_lt (w.cur_slot + ticks timeout % slot_count),
      subst (In (new_entry timeout a)) (sym (put-eq c j (new_entry timeout a ∷ c j))) (inl refl),
      rw same (turns w.cur_slot (ticks timeout) lt),
    )
  where
    turns :
        (cur n : ℕ)
        → cur < slot_count
        → n
          ≡ ((cur + n % slot_count) % slot_count + slot_count - cur) % slot_count
            + slot_count * (n / slot_count)
    turns cur n h = omega arith

-- On a well-linked wheel with at most `fuel` timers in each slot, a timer that add_timer makes for a
-- timeout that is not negative, at a free address, runs in the tick behind the next `ticks timeout`
-- ones (the timeout itself, but 1 for 0), not in those before, however many turns of the wheel lie
-- between; none of these calls fails.
pub timer-on_time :
    (fuel : ℕ) (w : Wheel) (c : ℕ → List Entry) (timeout a : ℕ)
    → Represents w c
    → Fuel fuel c
    → w.heap a ≡ none
    → (w1 w2 w3 : Wheel) × (before now : List ℕ) × (add_timer (pos timeout) a w ≡ some (w1, some a))
      × (run_ticks (suc fuel) (ticks timeout) w1 ≡ some (w2, before))
      × (In a before → ⊥)
      × (tick (suc fuel) w2 ≡ some (w3, now))
      × In a now
timer-on_time fuel w c timeout a rep f free =
    let j = slot_of w timeout in
    let lt : j < slot_count = mod_lt (w.cur_slot + ticks timeout % slot_count) in
    let (w1, added, same, rep1) = add_timer-adds w c timeout a rep free in
    let (w2, before, c2, ran, early, rep2, f2, wait2) =
      countdown (suc fuel) (ticks timeout) w1 (put c j (new_entry timeout a ∷ c j)) a rep1
        (Fuel-add fuel c j (new_entry timeout a) lt f) (added-Waits w w1 c timeout a rep.0 same) in
    let (w3, ticked, moved, rep3, gone, same) =
      tick-fires (suc fuel) w2 c2 rep2 (f2 w2.cur_slot rep2.0) in
    (
      w1,
      w2,
      w3,
      before,
      due (c2 w2.cur_slot),
      added,
      ran,
      early,
      ticked,
      due_now w2 c2 a rep2 wait2,
    )
