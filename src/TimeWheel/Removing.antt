-- ===== src/TimeWheel/Removing.antt =====
-- time_wheel.h: del_timer and tick on the whole wheel.
use linux_network.Base.{
  ==_self, ℕ, ◌+◌, ◌%◌, ◌≤◌, ◌<◌, ◌≡◌, refl, sym, ap, ◌∙◌, subst, inl, inr, none, some, List, [],
  ◌∷◌, ◌++◌, length, append_assoc,
}
use linux_network.Chain.{put-eq, put-ne}
use linux_network.Chain.Addresses.{Distinct-unlink, head, head-unlink, not_first, snoc-cases}
use linux_network.Chain.Segments.{SameOutside, Seg-append_right, Seg-put}
use linux_network.TimeWheel.Segments.{wheel_links, Entry, node}
use linux_network.TimeWheel.{Wheel, put, slot_count, del_timer, tick}
use linux_network.TimeWheel.Surgery.{Outside-trans, Outside-put, set_prev_if_lem}
use linux_network.TimeWheel.Unlinking.{unlink_lem}
use linux_network.TimeWheel.Ticking.{Gone, Listed, Elsewhere, aged, due}
use linux_network.TimeWheel.Looping.{tick_loop_lem}
use linux_network.TimeWheel.Wheels.{Represents, Represents-change, mod_lt}

-- `all` is the list of slot `i` before, `es` the list behind.
abbrev Deleted : Wheel → ℕ → List Entry → Entry → List Entry → Type 0
Deleted w i all e es =
    (w' : Wheel) × (del_timer (some e.address) w ≡ some w')
    × Listed w' i es
    × Elsewhere i w w'
    × (w'.heap e.address ≡ none)
    × SameOutside all w.heap w'.heap

del_timer-first :
    (w : Wheel) (i : ℕ) (e : Entry) (es : List Entry)
    → Listed w i (e ∷ es)
    → Deleted w i (e ∷ es) e es
unfolding del_timer
del_timer-first w i e es (start, seg, u) =
    let (h, wrote, seg', same, out) = set_prev_if_lem w.heap i (some e.address) none es seg.1 u.1 in
    (
      record w { heap = put h e.address none; slots = put w.slots i (head es none) },
      rw (seg.0, start, ==_self e.address, wrote) refl,
      (
        put-eq w.slots i (head es none),
        Seg-put (wheel_links i) h none es none e.address none u.0 seg',
        u.1,
      ),
      (
        refl,
        λ j ne. put-ne w.slots i j (head es none) ne,
        Outside-trans i w.heap h (put h e.address none) out (
            Outside-put h i e.address (node i e none (head es none)) none
              (same e.address u.0 ∙ seg.0) refl),
      ),
      put-eq h e.address none,
      λ a n. put-ne h e.address a none n.0 ∙ same a n.1,
    )

del_timer-later :
    (w : Wheel) (i : ℕ) (ds : List Entry) (d e : Entry) (es : List Entry)
    → Listed w i (ds ++ d ∷ e ∷ es)
    → Deleted w i (ds ++ d ∷ e ∷ es) e (ds ++ d ∷ es)
unfolding del_timer
del_timer-later w i ds d e es (start, seg, u) =
    let right = Seg-append_right (wheel_links i) w.heap none ds (d ∷ e ∷ es) none seg in
    let (h, unlinked, seg', out, gone, same) = unlink_lem w.heap i ds d e es seg u in
    (
      record w { heap = h },
      rw (right.1.0, start, not_first ds d e es u, unlinked) refl,
      (start ∙ head-unlink ds d e es, seg', Distinct-unlink ds d e es u),
      (refl, λ j ne. refl, out),
      gone,
      same,
    )

del_timer_lem :
    (w : Wheel) (i : ℕ) (ds : List Entry) (e : Entry) (es : List Entry)
    → Listed w i (ds ++ e ∷ es)
    → Deleted w i (ds ++ e ∷ es) e (ds ++ es)
del_timer_lem w i ds e es l = elim (snoc-cases ds) [
  | inl x ↦
      subst (λ xs. Deleted w i (xs ++ e ∷ es) e (xs ++ es)) (sym x)
        (del_timer-first w i e es (subst (λ xs. Listed w i (xs ++ e ∷ es)) x l))
  | inr (xs, d, x) ↦
      let split : (ys : List Entry) → ds ++ ys ≡ xs ++ d ∷ ys =
        λ ys. ap (λ l. l ++ ys) x ∙ append_assoc xs (d ∷ []) ys in
      subst (λ all. Deleted w i all e (ds ++ es)) (sym (split (e ∷ es)))
        (subst (Deleted w i (xs ++ d ∷ e ∷ es) e) (sym (split es))
          (del_timer-later w i xs d e es (subst (Listed w i) (split (e ∷ es)) l)))
]

-- del_timer on a timer of a well-linked wheel, wherever in its list it stands: it leaves its list
-- and is deleted. The other lists, the current slot, and the heap outside the list of the timer's slot
-- stay as they are.
pub del_timer-removes :
    (w : Wheel) (c : ℕ → List Entry) (i : ℕ) (ds : List Entry) (e : Entry) (es : List Entry)
    → Represents w c
    → i < slot_count
    → c i ≡ ds ++ e ∷ es
    → (w' : Wheel) × (del_timer (some e.address) w ≡ some w')
      × (w'.cur_slot ≡ w.cur_slot)
      × Represents w' (put c i (ds ++ es))
      × (w'.heap e.address ≡ none)
      × SameOutside (c i) w.heap w'.heap
del_timer-removes w c i ds e es rep lt split =
    let (w', deleted, listed, els, gone, same) =
      del_timer_lem w i ds e es (subst (Listed w i) split (rep.1 i lt)) in
    (
      w',
      deleted,
      els.0,
      Represents-change w w' c i (ds ++ es) rep listed els,
      gone,
      subst (λ all. SameOutside all w.heap w'.heap) (sym split) same,
    )

-- A tick of a well-linked wheel, with as much fuel as the current slot has timers: it runs the timers
-- of that slot that have no turns left, in order, and deletes them, so that nothing is at
-- their addresses any more; the others of the slot lose a turn, the other slots keep theirs, the heap
-- outside the list of the slot stays as it is, and the wheel moves on by one slot.
pub tick-fires :
    (fuel : ℕ) (w : Wheel) (c : ℕ → List Entry)
    → Represents w c
    → length (c w.cur_slot) ≤ fuel
    → (w' : Wheel) × (tick fuel w ≡ some (w', due (c w.cur_slot)))
      × (w'.cur_slot ≡ (w.cur_slot + 1) % slot_count)
      × Represents w' (put c w.cur_slot (aged (c w.cur_slot)))
      × Gone (due (c w.cur_slot)) w'.heap
      × SameOutside (c w.cur_slot) w.heap w'.heap
unfolding tick
tick-fires fuel w c rep enough =
    let l = rep.1 w.cur_slot rep.0 in
    let (w', looped, listed, els, gone, same) =
      tick_loop_lem fuel w w.cur_slot [] (c w.cur_slot) refl enough l in
    let (bound, lists) = Represents-change w w' c w.cur_slot (aged (c w.cur_slot)) rep listed els in
    (
      record w' { cur_slot = (w'.cur_slot + 1) % slot_count },
      rw (l.0, looped) refl,
      ap (λ k. (k + 1) % slot_count) els.0,
      (mod_lt (w'.cur_slot + 1), lists),
      gone,
      same,
    )
