-- ===== src/TimerList/Roundtrip.antt =====
-- cpt_11_2_1.h: add_timer, then del_timer on the same timer.
use linux_network.Base.{
  ℕ, ◌≤◌, ◌≡◌, ◌≢◌, refl, sym, ap, ◌∙◌, subst, Bool-cases, inl, inr, ◌⊎◌, Option, none, some, [],
  ◌∷◌, ◌++◌, ltb, length, number-cases,
}
use linux_network.Chain.{Ptr, and_then}
use linux_network.Chain.Addresses.{Entry, entry, NotIn}
use linux_network.Chain.Segments.{Seg}
use linux_network.TimerList.{Timer, TimerList, add_timer, del_timer}
use linux_network.TimerList.Sorting.{Due, timer_links, Entries, Represents, insert}
use linux_network.TimerList.Adding.{add_timer_lem}
use linux_network.TimerList.Removing.{del_timer-unlinks}

-- Where a timer goes in a list.
abbrev pub Place : Entry Due → Entries → Type 0
Place e es = (ds : Entries) × (fs : Entries) × (insert e es ≡ ds ++ e ∷ fs) × (ds ++ fs ≡ es)

insert-Place : (e : Entry Due) (es : Entries) → Place e es
insert-Place e [] = ([], [], refl, refl)
insert-Place e (x ∷ xs) = elim (Bool-cases (ltb e.value.expire x.value.expire)) [
  | inl t ↦ ([], x ∷ xs, rw t refl, refl)
  | inr t ↦
      let (ds, fs, placed, whole) = insert-Place e xs in
      (x ∷ ds, fs, rw t (ap (λ l. x ∷ l) placed), ap (λ l. x ∷ l) whole)
]

-- The heap holds one node for each timer of a list, so two heaps that hold the list agree there.
same_nodes :
    (h h' : ℕ → Option Timer) (p : Ptr) (es : Entries) (b : ℕ)
    → Seg timer_links h p es none
    → Seg timer_links h' p es none
    → (h' b ≡ h b) ⊎ NotIn b es
same_nodes h h' p [] b s s' = inr tt
same_nodes h h' p (e ∷ es) b s s' = elim (number-cases b e.address) [
  | inl x ↦ inl (ap h' x ∙ s'.0 ∙ sym s.0 ∙ sym (ap h x))
  | inr ne ↦ elim (same_nodes h h' (some e.address) es b s.1 s'.1) [
    | inl x ↦ inl x
    | inr n ↦ inr (ne, n)
  ]
]

-- For a new timer at `a` that is not in the list, with as much fuel as the list has timers: add_timer
-- and then del_timer on it give back the list as it was, with every node on the heap but for the timer
-- at `a`, which is freed.
pub del_timer-add_timer :
    (fuel : ℕ) (l : TimerList) (es : Entries) (a : ℕ) (v : Due)
    → length es ≤ fuel
    → Represents l es
    → l.heap a ≡ some (timer_links.node v none none)
    → NotIn a es
    → (l' : TimerList) × (and_then (add_timer fuel (some a) l) (del_timer (some a)) ≡ some l')
      × Represents l' es
      × (l'.head ≡ l.head)
      × (l'.heap a ≡ none)
      × ((b : ℕ) → b ≢ a → l'.heap b ≡ l.heap b)
del_timer-add_timer fuel l es a v enough rep at_a new =
    let (l1, added, rep1, same1) = add_timer_lem fuel l es a v enough rep at_a new in
    let (ds, fs, placed, whole) = insert-Place (entry a v) es in
    let (l2, deleted, rep2, gone, same2) =
      del_timer-unlinks l1 ds (entry a v) fs (subst (Represents l1) placed rep1) in
    let rep' : Represents l2 es = subst (Represents l2) whole rep2 in
    (
      l2,
      ap (λ o. and_then o (del_timer (some a))) added ∙ deleted,
      rep',
      rep'.0 ∙ sym rep.0,
      gone,
      λ b ne. elim (same_nodes l.heap l2.heap none es b rep.2 rep'.2) [
        | inl x ↦ x
        | inr n ↦ same2 b ne (subst (NotIn b) (sym whole) n) ∙ same1 b ne n
      ],
    )
