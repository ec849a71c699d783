-- ===== src/BookWheel/Same.antt =====
-- cpt_11_4_1.h against time_wheel.h, operation by operation.
use linux_network.Base.{
  ℕ, ◌+◌, ◌/◌, ◌%◌, ◌≡◌, refl, sym, ap, ◌∙◌, Bool-cases, inl, inr, Option, Option-cases, none, some,
  ◌==◌, ℤ, pos, negsuc,
}
use linux_network.Chain.{Ptr, put, and_then, and_then_assoc, modify, modify_if, free}
use linux_network.TimeWheel
use linux_network.TimeWheel.{Timer, Wheel, Heap, slot_count, Ticked}
use linux_network.BookWheel

abbrev Alive : ℕ → Heap → Type 0
Alive a h = (t : Timer) × (h a ≡ some t)

-- A store leaves a timer allocated.
Alive-store : (a b : ℕ) (u : Timer) (h : Heap) → Alive a h → Alive a (put h b (some u))
Alive-store a b u h (t, e) = elim (Bool-cases (a == b)) [
  | inl x ↦ (u, rw x refl)
  | inr x ↦ (t, rw x e)
]

module _ {B : Type 0} (a : ℕ) (k : Heap → Option B) where
  free-modify_if :
      (q : Ptr) (g : Timer → Timer) (h : Heap)
      → Alive a h
      → and_then (modify_if q g h) (λ h'. and_then (free a h') k)
        ≡ and_then (modify_if q g h) (λ h'. k (put h' a none))
  free-modify_if none g h (t, e) = rw e refl
  free-modify_if (some b) g h alive = elim (Option-cases (h b)) [
    | inl x ↦ rw x refl
    | inr (u, x) ↦
        let (t, e) = Alive-store a b (g u) h alive in
        rw x (ap (λ o. and_then (and_then o (λ v. some (put (put h b (some (g u))) a none))) k) e)
  ]

  free-modify :
      (p q : Ptr) (f g : Timer → Timer) (h : Heap)
      → Alive a h
      → and_then (modify p f h) (λ h1. and_then (modify_if q g h1) (λ h2. and_then (free a h2) k))
        ≡ and_then (modify p f h) (λ h1. and_then (modify_if q g h1) (λ h2. k (put h2 a none)))
  free-modify none q f g h alive = refl
  free-modify (some b) q f g h alive = elim (Option-cases (h b)) [
    | inl x ↦ rw x refl
    | inr (u, x) ↦ rw x (free-modify_if q g (put h b (some (f u))) (Alive-store a b (f u) h alive))
  ]

and_then_nested :
    {A B C D : Type 0} (m : Option A) (n : A → Option B) (f : B → C) (k : C → Option D)
    → and_then m (λ x. and_then (n x) (λ y. k (f y)))
      ≡ and_then (and_then m (λ x. and_then (n x) (λ y. some (f y)))) k
and_then_nested none n f k = refl
and_then_nested (some x) n f k = sym (and_then_assoc (n x) (λ y. some (f y)) k)

link_new-same :
    (a : ℕ) (t : Timer) (w : Wheel) → BookWheel.link_new a t w ≡ TimeWheel.link_front a t w
unfolding BookWheel.link_new TimeWheel.link_front
link_new-same a t w = refl

-- add_timer has a result only where it makes no timer.
pub add_timer-same :
    (t : ℤ) (a : ℕ) (w : Wheel)
    → BookWheel.add_timer t a w ≡ (elim t [ pos n ↦ none | negsuc n ↦ some (w, none) ])
unfolding BookWheel.add_timer
add_timer-same (negsuc n) a w = refl
add_timer-same (pos timeout) a w = no_result (BookWheel.link_new a timer w)
  where
    no_result : (m : Option Wheel) → ◌≡◌ {A = Option (Wheel × Ptr)} (and_then m (λ w'. none)) none
    no_result none = refl
    no_result (some w') = refl

    ticks : ℕ
    ticks = TimeWheel.ticks timeout

    timer : Timer
    timer = record {
      rotation = ticks / slot_count;
      time_slot = (w.cur_slot + ticks % slot_count) % slot_count;
      next = none;
      prev = none;
    }

pub delete_behind-same :
    (a : ℕ) (t : Timer) (w : Wheel)
    → w.heap a ≡ some t
    → BookWheel.delete_behind a t w
      ≡ and_then (TimeWheel.unlink a t w.heap) (λ h. some (record w { heap = h }))
unfolding BookWheel.delete_behind TimeWheel.unlink
delete_behind-same a t w e =
    free-modify a (λ h. some (record w { heap = h })) t.prev t.next
      (λ u. record u { next = t.next }) (λ u. record u { prev = t.prev }) w.heap (t, e)
    ∙ and_then_nested (TimeWheel.set_next t.prev t.next w.heap)
        (λ h1. TimeWheel.set_prev_if t.next t.prev h1) (λ h2. put h2 a none)
        (λ h. some (record w { heap = h }))

delete_first-same :
    (a : ℕ) (t : Timer) (w : Wheel)
    → w.heap a ≡ some t
    → BookWheel.delete_first a t w
      ≡ and_then
          (TimeWheel.set_prev_if t.next none w.heap)
          (λ h. some (record w { heap = put h a none; slots = put w.slots t.time_slot t.next }))
unfolding BookWheel.delete_first
delete_first-same a t w e =
    free-modify_if a (λ h. some (record w { heap = h; slots = put w.slots t.time_slot t.next }))
      t.next (λ u. record u { prev = none }) w.heap (t, e)

pub del_timer-same : (p : Ptr) (w : Wheel) → BookWheel.del_timer p w ≡ TimeWheel.del_timer p w
unfolding BookWheel.del_timer TimeWheel.del_timer
del_timer-same none w = refl
del_timer-same (some a) w = elim (Option-cases (w.heap a)) [
  | inl x ↦ rw x refl
  | inr (t, x) ↦ rw (x, delete_first-same a t w x, delete_behind-same a t w x) refl
]
