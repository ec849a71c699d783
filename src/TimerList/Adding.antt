-- ===== src/TimerList/Adding.antt =====
-- cpt_11_2_1.h: add_timer, and its loop.
use mathlib.Core.List.{Perm}
use linux_network.Base.{
  ℕ, zero, suc, ◌≤◌, ◌≡◌, refl, sym, ap, ◌∙◌, subst, Bool-cases, inl, inr, Option, none, some, [],
  ◌∷◌, ◌++◌, ltb, length, append_assoc, arith,
}
use linux_network.Chain.{Ptr, and_then, and_then_assoc}
use linux_network.Chain.Addresses.{
  Entry, entry, head, NotIn, last-append, head-append, append-ne-nil,
}
use linux_network.Chain.Segments.{SameBut, Seg-append_right}
use linux_network.Chain.Linking.{link-and_then, link_lem, link_front_lem, Distinct-link}
use linux_network.TimerList.{
  TimerList, insert_loop, add_behind, add_timer, push_front, set_next, set_prev,
}
use linux_network.TimerList.Sorting.{
  Due, timer_links, Entries, Represents, insert, IsAscending, insert-IsAscending, insert-perm,
}

-- The result `o` of an operation on `l` and the timer at `a`: it stands, it has the timers `es'`, and
-- the heap is as before but for `a` and the timers `es` that `l` had.
abbrev pub Gives : TimerList → Entries → ℕ → Entries → Option TimerList → Type 0
Gives l es a es' o =
    (l' : TimerList) × (o ≡ some l') × Represents l' es' × SameBut a es l.heap l'.heap

pub insert_loop_lem :
    (fuel : ℕ) (l : TimerList) (ds : Entries) (d : Entry Due) (es : Entries) (a : ℕ) (v : Due)
    (p q : Ptr)
    → length es ≤ fuel
    → Represents l (ds ++ d ∷ es)
    → l.heap a ≡ some (timer_links.node v p q)
    → NotIn a (ds ++ d ∷ es)
    → Gives l
        (ds ++ d ∷ es)
        a
        (ds ++ d ∷ insert (entry a v) es)
        (insert_loop fuel a d.address (head es none) l)
unfolding insert_loop
insert_loop_lem fuel l ds d [] a v p q enough (start, end, s, u) at_a new =
    let (h, linked, seg, same) = link_lem timer_links l.heap ds d a v p q [] s u at_a new in
    (
      record l { heap = h; tail = some a },
      sym (
            link-and_then timer_links (some d.address) a none l.heap
              (λ h. some (record l { heap = h; tail = some a })))
          ∙ ap (λ o. and_then o (λ h. some (record l { heap = h; tail = some a }))) linked,
      (
        start ∙ head-append ds d [] (entry a v ∷ []) none,
        λ x. sym (last-append none ds d (entry a v ∷ [])),
        seg,
        Distinct-link ds d (entry a v) [] u new,
      ),
      same,
    )
insert_loop_lem zero l ds d (e ∷ es) a v p q enough rep at_a new = absurd (omega arith)
insert_loop_lem (suc fuel) l ds d (e ∷ es) a v p q enough (start, end, s, u) at_a new =
    let at_e = (Seg-append_right timer_links l.heap none ds (d ∷ e ∷ es) none s).1.0 in
    elim (Bool-cases (ltb v.expire e.value.expire)) [
      | inl t ↦
          let (h, linked, seg, same) =
            link_lem timer_links l.heap ds d a v p q (e ∷ es) s u at_a new in
          rw (at_a, at_e, t)
            (
              record l { heap = h },
              sym (
                    link-and_then timer_links (some d.address) a (some e.address) l.heap
                      (λ h. some (record l { heap = h })))
                  ∙ ap (λ o. and_then o (λ h. some (record l { heap = h }))) linked,
              (
                start ∙ head-append ds d (e ∷ es) (entry a v ∷ e ∷ es) none,
                λ x.
                    end (append-ne-nil ds d (e ∷ es))
                    ∙ last-append none ds d (e ∷ es)
                    ∙ sym (last-append none ds d (entry a v ∷ e ∷ es)),
                seg,
                Distinct-link ds d (entry a v) (e ∷ es) u new,
              ),
              same,
            )
      | inr t ↦
          let shift : (ys : Entries) → (ds ++ d ∷ []) ++ e ∷ ys ≡ ds ++ d ∷ e ∷ ys =
            λ ys. append_assoc ds (d ∷ []) (e ∷ ys) in
          let (l', ran, rep, same) =
            insert_loop_lem fuel l (ds ++ d ∷ []) e es a v p q (omega arith)
              (subst (Represents l) (sym (shift es)) (start, end, s, u)) at_a
              (subst (NotIn a) (sym (shift es)) new) in
          rw (at_a, at_e, t)
            (
              l',
              ran,
              subst (Represents l') (shift (insert (entry a v) es)) rep,
              subst (λ ys. SameBut a ys l.heap l'.heap) (shift es) same,
            )
    ]

pub add_behind_lem :
    (fuel : ℕ) (l : TimerList) (ds : Entries) (e : Entry Due) (es : Entries) (a : ℕ) (v : Due)
    (p q : Ptr)
    → length es ≤ fuel
    → Represents l (ds ++ e ∷ es)
    → l.heap a ≡ some (timer_links.node v p q)
    → NotIn a (ds ++ e ∷ es)
    → Gives l
        (ds ++ e ∷ es)
        a
        (ds ++ e ∷ insert (entry a v) es)
        (add_behind fuel a (some e.address) l)
unfolding add_behind
add_behind_lem fuel l ds e es a v p q enough rep at_a new =
    let (l', ran, after, same) = insert_loop_lem fuel l ds e es a v p q enough rep at_a new in
    (l', rw ((Seg-append_right timer_links l.heap none ds (e ∷ es) none rep.2).0) ran, after, same)

push_front_lem :
    (l : TimerList) (e : Entry Due) (es : Entries) (a : ℕ) (v : Due)
    → Represents l (e ∷ es)
    → l.heap a ≡ some (timer_links.node v none none)
    → NotIn a (e ∷ es)
    → Gives l (e ∷ es) a (entry a v ∷ e ∷ es) (push_front a e.address l)
unfolding push_front
push_front_lem l e es a v (start, end, s, u) at_a new =
    let (h, linked, seg, same) = link_front_lem timer_links l.heap a v none e es s u at_a new in
    (
      record l { heap = h; head = some a },
      sym (
            and_then_assoc (set_next (some a) (some e.address) l.heap)
              (set_prev (some e.address) (some a))
              (λ h. some (record l { heap = h; head = some a })))
          ∙ ap (λ o. and_then o (λ h. some (record l { heap = h; head = some a }))) linked,
      (refl, λ x. end (append-ne-nil [] e es), seg, (new, u)),
      same,
    )

-- A list that is not empty.
add_timer-cons :
    (fuel : ℕ) (l : TimerList) (e : Entry Due) (es : Entries) (a : ℕ) (v : Due)
    → length es ≤ fuel
    → Represents l (e ∷ es)
    → l.heap a ≡ some (timer_links.node v none none)
    → NotIn a (e ∷ es)
    → Gives l (e ∷ es) a (insert (entry a v) (e ∷ es)) (add_timer fuel (some a) l)
unfolding add_timer
add_timer-cons fuel l e es a v enough rep at_a new =
    elim (Bool-cases (ltb v.expire e.value.expire)) [
      | inl t ↦ rw (add_timer, rep.0, at_a, rep.2.0, t) (push_front_lem l e es a v rep at_a new)
      | inr t ↦
          rw (add_timer, rep.0, at_a, rep.2.0, t)
            (add_behind_lem fuel l [] e es a v none none enough rep at_a new)
    ]

-- add_timer on a timer outside the list.
pub add_timer_lem :
    (fuel : ℕ) (l : TimerList) (es : Entries) (a : ℕ) (v : Due)
    → length es ≤ fuel
    → Represents l es
    → l.heap a ≡ some (timer_links.node v none none)
    → NotIn a es
    → Gives l es a (insert (entry a v) es) (add_timer fuel (some a) l)
unfolding add_timer
add_timer_lem fuel l [] a v enough (start, end, s, u) at_a new = (
  record l { head = some a; tail = some a },
  rw (add_timer, start) refl,
  (refl, λ x. refl, (at_a, tt), (tt, tt)),
  λ b ne n. refl,
)
add_timer_lem fuel l (e ∷ es) a v enough rep at_a new =
    add_timer-cons fuel l e es a v (omega arith) rep at_a new

-- With as much fuel as the list has timers, a sorted list and a new timer that is not in it: add_timer
-- gives a sorted list of just these timers, and touches no others on the heap.
pub add_timer-IsAscending :
    (fuel : ℕ) (l : TimerList) (es : Entries) (a : ℕ) (v : Due)
    → length es ≤ fuel
    → Represents l es
    → IsAscending es
    → l.heap a ≡ some (timer_links.node v none none)
    → NotIn a es
    → (es' : Entries) × Gives l es a es' (add_timer fuel (some a) l)
      × IsAscending es'
      × Perm es' (entry a v ∷ es)
add_timer-IsAscending fuel l es a v enough rep sorted at_a new = (
  insert (entry a v) es,
  add_timer_lem fuel l es a v enough rep at_a new,
  insert-IsAscending (entry a v) es sorted,
  insert-perm (entry a v) es,
)
