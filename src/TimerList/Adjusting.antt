-- ===== src/TimerList/Adjusting.antt =====
-- cpt_11_2_1.h: adjust_timer, for a timer whose time of expiry has been put off.
use mathlib.Core.List.{Perm}
use linux_network.Base.{
  ==_self, ℕ, ◌≤◌, ◌≡◌, refl, sym, ap, ◌∙◌, subst, true, false, Bool-cases, inl, inr, Option, none,
  some, [], ◌∷◌, ◌++◌, ltb, length, append_assoc, arith,
}
use linux_network.Chain.{is_at, put, put-eq, put-ne, and_then, and_then_assoc, modify-some}
use linux_network.Chain.Addresses.{
  Entry, last, NotIn, Distinct, last-append, append-ne-nil, not_first, snoc-cases, head-unlink,
  Distinct-unlink, Distinct-NotIn,
}
use linux_network.Chain.Segments.{SameBut, Seg-append_right, Seg-put, relink_prev}
use linux_network.Chain.Unlinking.{bypass_lem}
use linux_network.TimerList.{
  Timer, TimerList, add_behind, move_behind, adjust_timer, set_next, set_prev,
}
use linux_network.TimerList.Sorting.{
  Due, timer_links, Entries, Represents, insert, AtMost, IsAscending, insert-IsAscending,
  insert-perm, insert-append,
}
use linux_network.TimerList.Adding.{Gives, add_behind_lem}

move_behind-first :
    (fuel : ℕ) (l : TimerList) (e f : Entry Due) (fs : Entries)
    → length fs ≤ fuel
    → Represents l (e ∷ f ∷ fs)
    → Gives l
        (f ∷ fs)
        e.address
        (f ∷ insert e fs)
        (move_behind fuel e.address (timer_links.node e.value none (some f.address)) l)
unfolding move_behind
move_behind-first fuel l e f fs enough (start, end, s, u) =
    let (h1, wrote, seg1, same1) =
      relink_prev timer_links l.heap (some e.address) none (f ∷ fs) s.1 u.1 in
    let v = some (timer_links.node e.value none none) in
    let h2 = put h1 e.address v in
    let l2 : TimerList = record l { heap = h2; head = some f.address } in
    let (l', ran, rep, same) =
      add_behind_lem fuel l2 [] f fs e.address e.value none none enough
        (
          refl,
          λ x. end (append-ne-nil [] e (f ∷ fs)),
          Seg-put timer_links h1 none (f ∷ fs) none e.address v u.0 seg1,
          u.1,
        )
        (put-eq h1 e.address v) u.0 in
    let first : is_at l.head e.address ≡ true =
      ap (λ p. is_at p e.address) start ∙ ==_self e.address in
    (
      l',
      rw (first) (
          ap
            (λ o. and_then o (λ h. and_then (set_next (some e.address) none h) (λ h'.
              add_behind fuel e.address (some f.address)
                (record l { heap = h'; head = some f.address }))))
            wrote
          ∙ ap
              (λ o. and_then o (λ h'.
                add_behind fuel e.address (some f.address)
                  (record l { heap = h'; head = some f.address })))
              (modify-some h1 e.address (λ t. record t { next = none }) _
                (same1 e.address u.0 ∙ s.0))
          ∙ ran),
      rep,
      λ b ne n. same b ne n ∙ put-ne h1 e.address b v ne ∙ same1 b n,
    )

move_behind-later :
    (fuel : ℕ) (l : TimerList) (ds : Entries) (d e f : Entry Due) (fs : Entries)
    → length fs ≤ fuel
    → Represents l (ds ++ d ∷ e ∷ f ∷ fs)
    → Gives l
        (ds ++ d ∷ f ∷ fs)
        e.address
        (ds ++ d ∷ f ∷ insert e fs)
        (move_behind fuel e.address (timer_links.node e.value (some d.address) (some f.address)) l)
unfolding move_behind
move_behind-later fuel l ds d e f fs enough (start, end, s, u) =
    let (h2, passed, seg2, at_e, same2) = bypass_lem timer_links l.heap ds d e (f ∷ fs) s u in
    let right = Seg-append_right timer_links l.heap none ds (d ∷ e ∷ f ∷ fs) none s in
    let l2 : TimerList = record l { heap = h2 } in
    let shift : (ys : Entries) → (ds ++ d ∷ []) ++ f ∷ ys ≡ ds ++ d ∷ f ∷ ys =
      λ ys. append_assoc ds (d ∷ []) (f ∷ ys) in
    let rep2 : Represents l2 (ds ++ d ∷ f ∷ fs) = (
      start ∙ head-unlink ds d e (f ∷ fs),
      λ x.
          end (append-ne-nil ds d (e ∷ f ∷ fs))
          ∙ last-append none ds d (e ∷ f ∷ fs)
          ∙ sym (last-append none ds d (f ∷ fs)),
      seg2,
      Distinct-unlink ds d e (f ∷ fs) u,
    ) in
    let out : NotIn e.address (ds ++ d ∷ f ∷ fs) =
      subst (NotIn e.address) (append_assoc ds (d ∷ []) (f ∷ fs)) (
        Distinct-NotIn (ds ++ d ∷ []) e (f ∷ fs)
          (subst Distinct (sym (append_assoc ds (d ∷ []) (e ∷ f ∷ fs))) u)) in
    let (l', ran, rep, same) =
      add_behind_lem fuel l2 (ds ++ d ∷ []) f fs e.address e.value (some d.address) (some f.address)
        enough (subst (Represents l2) (sym (shift fs)) rep2) (at_e ∙ right.1.0)
        (subst (NotIn e.address) (sym (shift fs)) out) in
    let behind : is_at l.head e.address ≡ false =
      ap (λ p. is_at p e.address) start ∙ not_first ds d e (f ∷ fs) u in
    let k : (ℕ → Option Timer) → Option TimerList =
      λ h. and_then (h e.address) (λ t. add_behind fuel e.address t.next (record l { heap = h })) in
    (
      l',
      rw (behind) (
          sym (
            and_then_assoc (set_next (some d.address) (some f.address) l.heap)
              (set_prev (some f.address) (some d.address)) k)
          ∙ ap (λ o. and_then o k) passed
          ∙ ap (λ o. and_then o (λ t. add_behind fuel e.address t.next l2)) (at_e ∙ right.1.0)
          ∙ ran),
      subst (Represents l') (shift (insert e fs)) rep,
      λ b ne n. same b ne (subst (NotIn b) (sym (shift fs)) n) ∙ same2 b n,
    )

move_behind_lem :
    (fuel : ℕ) (l : TimerList) (ds : Entries) (e f : Entry Due) (fs : Entries)
    → length fs ≤ fuel
    → Represents l (ds ++ e ∷ f ∷ fs)
    → Gives l
        (ds ++ f ∷ fs)
        e.address
        (ds ++ f ∷ insert e fs)
        (move_behind fuel e.address (timer_links.node e.value (last none ds) (some f.address)) l)
move_behind_lem fuel l ds e f fs enough rep = elim (snoc-cases ds) [
  | inl x ↦
      subst (Outcome e f fs) (sym x) (
        move_behind-first fuel l e f fs enough
          (subst (λ zs. Represents l (zs ++ e ∷ f ∷ fs)) x rep))
  | inr (xs, d, x) ↦
      subst (Outcome e f fs) (sym x)
        (later xs d (subst (λ zs. Represents l (zs ++ e ∷ f ∷ fs)) x rep))
]
  where
    Outcome : (e f : Entry Due) (fs zs : Entries) → Type 0
    Outcome e f fs zs =
        Gives l (zs ++ f ∷ fs) e.address (zs ++ f ∷ insert e fs)
          (move_behind fuel e.address (timer_links.node e.value (last none zs) (some f.address)) l)

    later :
        (xs : Entries) (d : Entry Due)
        → Represents l ((xs ++ d ∷ []) ++ e ∷ f ∷ fs)
        → Outcome e f fs (xs ++ d ∷ [])
    later xs d rep' =
        let split : (ys : Entries) → (xs ++ d ∷ []) ++ ys ≡ xs ++ d ∷ ys =
          λ ys. append_assoc xs (d ∷ []) ys in
        let (l', ran, after, same) =
          move_behind-later fuel l xs d e f fs enough
            (subst (Represents l) (split (e ∷ f ∷ fs)) rep') in
        (
          l',
          ap (λ p. move_behind fuel e.address (timer_links.node e.value p (some f.address)) l)
                (last-append none xs d [])
              ∙ ran,
          subst (Represents l') (sym (split (f ∷ insert e fs))) after,
          subst (λ zs. SameBut e.address zs l.heap l'.heap) (sym (split (f ∷ fs))) same,
        )

-- The timer goes behind the later ones that do not expire after it.
pub adjust_timer_lem :
    (fuel : ℕ) (l : TimerList) (ds : Entries) (e : Entry Due) (es : Entries)
    → length es ≤ fuel
    → Represents l (ds ++ e ∷ es)
    → Gives l (ds ++ es) e.address (ds ++ insert e es) (adjust_timer fuel (some e.address) l)
unfolding adjust_timer
adjust_timer_lem fuel l ds e [] enough rep =
    let right = Seg-append_right timer_links l.heap none ds (e ∷ []) none rep.2 in
    (l, rw (right.0) refl, rep, λ b ne n. refl)
adjust_timer_lem fuel l ds e (f ∷ fs) enough rep =
    let right = Seg-append_right timer_links l.heap none ds (e ∷ f ∷ fs) none rep.2 in
    elim (Bool-cases (ltb e.value.expire f.value.expire)) [
      | inl t ↦ rw (right.0, right.1.0, t) (l, refl, rep, λ b ne n. refl)
      | inr t ↦ rw (right.0, right.1.0, t) (move_behind_lem fuel l ds e f fs (omega arith) rep)
    ]

-- A list that is sorted but for the timer `e`, whose time of expiry has been put off past that of the
-- timers before it, with as much fuel as timers stand behind it: adjust_timer gives a sorted list of
-- the same timers, and touches no others on the heap.
pub adjust_timer-IsAscending :
    (fuel : ℕ) (l : TimerList) (ds : Entries) (e : Entry Due) (es : Entries)
    → length es ≤ fuel
    → Represents l (ds ++ e ∷ es)
    → IsAscending (ds ++ es)
    → AtMost e.value.expire ds
    → (es' : Entries) × Gives l (ds ++ es) e.address es' (adjust_timer fuel (some e.address) l)
      × IsAscending es'
      × Perm es' (e ∷ (ds ++ es))
adjust_timer-IsAscending fuel l ds e es enough rep sorted before = (
  insert e (ds ++ es),
  subst (λ zs. Gives l (ds ++ es) e.address zs (adjust_timer fuel (some e.address) l))
      (sym (insert-append e ds es before)) (adjust_timer_lem fuel l ds e es enough rep),
  insert-IsAscending e (ds ++ es) sorted,
  insert-perm e (ds ++ es),
)
