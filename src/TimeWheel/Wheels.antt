-- ===== src/TimeWheel/Wheels.antt =====
-- time_wheel.h: the wheel as the lists of its slots, and what each operation does to them.
use linux_network.Base.{
  number-cases, ℕ, ◌+◌, ◌/◌, ◌%◌, ◌<◌, ◌≡◌, refl, sym, ap, ◌∙◌, subst, inl, inr, none, some, List,
  [], ◌∷◌, arith, pos,
}
use linux_network.Chain.{put-eq, put-ne}
use linux_network.Chain.Addresses.{entry}
use linux_network.Chain.Segments.{Seg-put, none-NotIn}
use linux_network.TimeWheel.Segments.{wheel_links, Entry, node, Seg-Agree, Agree-put_free}
use linux_network.TimeWheel.{Wheel, put, and_then, slot_count, ticks, link_front, add_timer}
use linux_network.TimeWheel.Surgery.{Outside-trans, Outside-put, set_prev_if_lem}
use linux_network.TimeWheel.Ticking.{Listed, Elsewhere}

-- The current slot is one of the wheel's, and each slot `i` lists the timers of `c i`: its nodes are on
-- the heap, know their slot and are linked in both directions, and no two are at one address.
abbrev pub Represents : Wheel → (ℕ → List Entry) → Type 0
Represents w c = (w.cur_slot < slot_count) × ((i : ℕ) → i < slot_count → Listed w i (c i))

pub Represents-change :
    (w w' : Wheel) (c : ℕ → List Entry) (j : ℕ) (es : List Entry)
    → Represents w c
    → Listed w' j es
    → Elsewhere j w w'
    → Represents w' (put c j es)
Represents-change w w' c j es (bound, lists) l (same, slots, out) = (
  subst (λ k. k < slot_count) (sym same) bound,
  λ i lt. elim (number-cases i j) [
    | inl e ↦
        subst (λ k. Listed w' k (put c j es k)) (sym e)
          (subst (Listed w' j) (sym (put-eq c j es)) l)
    | inr ne ↦
        let (start, seg, u) = lists i lt in
        subst (Listed w' i) (sym (put-ne c j i es ne))
          (slots i ne ∙ start, Seg-Agree w.heap w'.heap i none (c i) none (out i ne) seg, u)
  ],
)

abbrev pub slot_of : Wheel → ℕ → ℕ
slot_of w timeout = (w.cur_slot + ticks timeout % slot_count) % slot_count

abbrev pub new_entry : ℕ → ℕ → Entry
new_entry timeout a = entry a (ticks timeout / slot_count)

pub mod_lt : (n : ℕ) → n % slot_count < slot_count
mod_lt n = omega arith

link_front_lem :
    (w : Wheel) (j a r : ℕ) (es : List Entry)
    → Listed w j es
    → w.heap a ≡ none
    → (w' : Wheel) × (link_front a
          (record { rotation = r; time_slot = j; next = none; prev = none })
          w
        ≡ some w')
      × Listed w' j (entry a r ∷ es)
      × Elsewhere j w w'
unfolding link_front
link_front_lem w j a r [] (start, seg, u) free =
    let v = some (node j (entry a r) none none) in
    (
      record w { heap = put w.heap a v; slots = put w.slots j (some a) },
      rw (link_front, start) refl,
      (put-eq w.slots j (some a), (put-eq w.heap a v, tt), (tt, tt)),
      (refl, λ i ne. put-ne w.slots j i (some a) ne, λ i ne. Agree-put_free w.heap i a v free),
    )
link_front_lem w j a r (b ∷ es) (start, seg, u) free =
    let v0 = some (node j (entry a r) none none) in
    let v = some (node j (entry a r) none (some b.address)) in
    let h1 = put w.heap a v0 in
    let h2 = put h1 a v in
    let new = none-NotIn (wheel_links j) w.heap none (b ∷ es) none a free seg in
    let (h3, wrote, seg3, same, out) =
      set_prev_if_lem h2 j none (some a) (b ∷ es)
        (Seg-put (wheel_links j) h1 none (b ∷ es) none a v new
          (Seg-put (wheel_links j) w.heap none (b ∷ es) none a v0 new seg))
        u in
    (
      record w { heap = h3; slots = put w.slots j (some a) },
      rw (link_front, start, put-eq w.heap a v0, wrote) refl,
      (put-eq w.slots j (some a), (same a new ∙ put-eq h1 a v, seg3), (new, u)),
      (
        refl,
        λ i ne. put-ne w.slots j i (some a) ne,
        Outside-trans j w.heap h2 h3
            (Outside-trans j w.heap h1 h2 (λ i ne. Agree-put_free w.heap i a v0 free)
              (Outside-put h1 j a (node j (entry a r) none none) v (put-eq w.heap a v0) refl))
            out,
      ),
    )

-- add_timer with a timeout that is not negative, where `new` answers an address that is free: it
-- returns the new timer, which stands in front of the slot that the timeout leads to; the rest of the
-- wheel is as it was.
pub add_timer-adds :
    (w : Wheel) (c : ℕ → List Entry) (timeout a : ℕ)
    → Represents w c
    → w.heap a ≡ none
    → let j = slot_of w timeout in
      (w' : Wheel) × (add_timer (pos timeout) a w ≡ some (w', some a))
      × (w'.cur_slot ≡ w.cur_slot)
      × Represents w' (put c j (new_entry timeout a ∷ c j))
unfolding add_timer
add_timer-adds w c timeout a rep free =
    let j = slot_of w timeout in
    let lt : j < slot_count = mod_lt (w.cur_slot + ticks timeout % slot_count) in
    let (w', linked, listed, els) =
      link_front_lem w j a (ticks timeout / slot_count) (c j) (rep.1 j lt) free in
    (
      w',
      ap (λ o. and_then o (λ x. some (x, some a))) linked,
      els.0,
      Represents-change w w' c j (new_entry timeout a ∷ c j) rep listed els,
    )
