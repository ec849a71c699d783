-- ===== src/TimeWheel/Destroying.antt =====
-- time_wheel.h: the destructor.
use linux_network.Base.{
  number-cases, ℕ, zero, suc, ◌+◌, ◌≤◌, ◌<◌, ◌≡◌, ◌≢◌, refl, ap, ◌∙◌, subst, inl, inr, none, some,
  List, [], ◌∷◌, length, arith,
}
use linux_network.Chain.{put-eq, put-ne}
use linux_network.Chain.Addresses.{Distinct, entry, head}
use linux_network.TimeWheel.{
  Wheel, Heap, Ptr, put, slot_count, destroy_slot, destroy_from, destroy, and_then,
}
use linux_network.TimeWheel.Segments.{Entry, Seg, Seg-Agree}
use linux_network.TimeWheel.Surgery.{head_freed}
use linux_network.TimeWheel.Ticking.{Listed, Elsewhere}
use linux_network.TimeWheel.Looping.{Elsewhere-trans}
use linux_network.TimeWheel.Due.{In}
use linux_network.TimeWheel.Wheels.{Represents}
use linux_network.TimeWheel.Countdown.{Fuel}

-- A free address stays free; the timers of a list become free.
abbrev StayFree : Heap → Heap → Type 0
StayFree h h' = (a : ℕ) → h a ≡ none → h' a ≡ none

abbrev pub Freed : List Entry → Heap → Type 0
Freed es h = (a r : ℕ) → In (entry a r) es → h a ≡ none

put-StayFree : (h : Heap) (b : ℕ) → StayFree h (put h b none)
put-StayFree h b a free = ground arith

destroy_slot_lem :
    (fuel : ℕ) (w : Wheel) (j : ℕ) (p : Ptr) (es : List Entry)
    → length es ≤ fuel
    → w.slots j ≡ head es none
    → Seg w.heap j p es none
    → Distinct es
    → (w' : Wheel) × (destroy_slot fuel j w ≡ some w')
      × Freed es w'.heap
      × StayFree w.heap w'.heap
      × Elsewhere j w w'
unfolding destroy_slot
destroy_slot_lem zero w j p [] enough start seg u = (
  w,
  rw (destroy_slot, start) refl,
  λ a r m. elim m [ ],
  λ a free. free,
  (refl, λ i ne. refl, λ i ne a t e x. e),
)
destroy_slot_lem (suc fuel) w j p [] enough start seg u = (
  w,
  rw (destroy_slot, start) refl,
  λ a r m. elim m [ ],
  λ a free. free,
  (refl, λ i ne. refl, λ i ne a t e x. e),
)
destroy_slot_lem zero w j p (e ∷ es) enough start seg u = absurd (omega arith)
destroy_slot_lem (suc fuel) w j p (e ∷ es) enough start seg u =
    let w1 : Wheel = record w {
      heap = put w.heap e.address none;
      slots = put w.slots j (head es none);
    } in
    let (rest, out) = head_freed w.heap j p e es seg u in
    let (w', ran, freed, stay, els) =
      destroy_slot_lem fuel w1 j (some e.address) es (omega arith) (put-eq w.slots j (head es none))
        rest u.1 in
    (
      w',
      rw (destroy_slot, start, seg.0, ran) refl,
      λ a r m. elim m [
        | inl x ↦
            stay a (
              ap (put w.heap e.address none) (ap (λ f. f.address) x) ∙ put-eq w.heap e.address none)
        | inr n ↦ freed a r n
      ],
      λ a free. stay a (put-StayFree w.heap e.address a free),
      Elsewhere-trans j w w1 w' (refl, λ i ne. put-ne w.slots j i (head es none) ne, out) els,
    )

destroy_from_lem :
    (fuel k i : ℕ) (w : Wheel) (c : ℕ → List Entry)
    → i + k ≡ slot_count
    → ((j : ℕ) → i ≤ j → j < slot_count → Listed w j (c j))
    → Fuel fuel c
    → (w' : Wheel) × (destroy_from fuel k i w ≡ some w')
      × ((j : ℕ) → i ≤ j → j < slot_count → Freed (c j) w'.heap)
      × StayFree w.heap w'.heap
unfolding destroy_from
destroy_from_lem fuel zero i w c total lists f =
    (w, refl, λ j le lt. absurd (omega arith), λ a free. free)
destroy_from_lem fuel (suc k) i w c total lists f =
    let (start, seg, u) = lists i (omega arith) (omega arith) in
    let (w1, ran, freed, stay, (cur, slots, out)) =
      destroy_slot_lem fuel w i none (c i) (f i (omega arith)) start seg u in
    let keeps : (j : ℕ) → i + 1 ≤ j → j < slot_count → Listed w1 j (c j) = λ j le lt.
      let ne : j ≢ i = λ e. absurd (omega arith) in
      let (start', seg', u') = lists j (omega arith) lt in
      (slots j ne ∙ start', Seg-Agree w.heap w1.heap j none (c j) none (out j ne) seg', u') in
    let (w', ran', freed', stay') = destroy_from_lem fuel k (i + 1) w1 c (omega arith) keeps f in
    (
      w',
      ap (λ o. and_then o (λ x. destroy_from fuel k (i + 1) x)) ran ∙ ran',
      λ j le lt a r m. elim (number-cases j i) [
        | inl e ↦ stay' a (freed a r (subst (λ x. In (entry a r) (c x)) e m))
        | inr ne ↦ freed' j (omega arith) lt a r m
      ],
      λ a free. stay' a (stay a free),
    )

-- The destructor of a well-linked wheel with at most `fuel` timers in each slot frees every timer of
-- every slot, and never frees or follows a pointer that is null or freed.
pub destroy-frees :
    (fuel : ℕ) (w : Wheel) (c : ℕ → List Entry)
    → Represents w c
    → Fuel fuel c
    → (w' : Wheel) × (destroy fuel w ≡ some w') × ((j : ℕ) → j < slot_count → Freed (c j) w'.heap)
unfolding destroy
destroy-frees fuel w c rep f =
    let (w', ran, freed, stay) =
      destroy_from_lem fuel slot_count 0 w c refl (λ j le lt. rep.1 j lt) f in
    (w', ran, λ j lt. freed j (omega arith) lt)
