-- ===== src/BookWheel/Destroying.antt =====
-- cpt_11_4_1.h against time_wheel.h: the destructors.
use linux_network.Base.{
  ℕ, zero, suc, ◌+◌, ◌≡◌, refl, sym, ap, ◌∙◌, inl, inr, Option, Option-cases, none, some,
}
use linux_network.Chain.{put, put-eq, and_then}
use linux_network.TimeWheel
use linux_network.TimeWheel.{Timer, Wheel, Heap, slot_count, Ticked}
use linux_network.BookWheel

destroy_slot-same :
    (fuel i : ℕ) (w : Wheel)
    → BookWheel.destroy_slot fuel i (w.slots i) w ≡ TimeWheel.destroy_slot fuel i w
unfolding BookWheel.destroy_slot TimeWheel.destroy_slot
destroy_slot-same zero i w = elim (Option-cases (w.slots i)) [
  | inl x ↦ rw (x, TimeWheel.destroy_slot) refl
  | inr (a, x) ↦ rw (x, TimeWheel.destroy_slot) refl
]
destroy_slot-same (suc fuel) i w = elim (Option-cases (w.slots i)) [
  | inl x ↦ rw (x, TimeWheel.destroy_slot) refl
  | inr (a, x) ↦ elim (Option-cases (w.heap a)) [
    | inl y ↦ rw (x, TimeWheel.destroy_slot, y) refl
    | inr (t, y) ↦
        let w1 : Wheel = record w { heap = put w.heap a none; slots = put w.slots i t.next } in
        rw (x, TimeWheel.destroy_slot, y)
          (ap (λ p. BookWheel.destroy_slot fuel i p w1) (sym (put-eq w.slots i t.next))
            ∙ destroy_slot-same fuel i w1)
  ]
]

destroy_from-same :
    (fuel k i : ℕ) (w : Wheel)
    → BookWheel.destroy_from fuel k i w ≡ TimeWheel.destroy_from fuel k i w
unfolding BookWheel.destroy_from TimeWheel.destroy_from
destroy_from-same fuel zero i w = refl
destroy_from-same fuel (suc k) i w =
    ap (λ o. and_then o (λ w'. BookWheel.destroy_from fuel k (i + 1) w'))
      (destroy_slot-same fuel i w)
    ∙ go (TimeWheel.destroy_slot fuel i w) (destroy_from-same fuel k (i + 1))
  where
    go :
        (m : Option Wheel)
        → ((w' : Wheel)
            → BookWheel.destroy_from fuel k (i + 1) w' ≡ TimeWheel.destroy_from fuel k (i + 1) w')
        → and_then m (λ w'. BookWheel.destroy_from fuel k (i + 1) w')
          ≡ and_then m (λ w'. TimeWheel.destroy_from fuel k (i + 1) w')
    go none rest = refl
    go (some w') rest = rest w'

pub destroy-same : (fuel : ℕ) (w : Wheel) → BookWheel.destroy fuel w ≡ TimeWheel.destroy fuel w
unfolding BookWheel.destroy TimeWheel.destroy
destroy-same fuel w = destroy_from-same fuel slot_count 0 w
