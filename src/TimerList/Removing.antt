-- ===== src/TimerList/Removing.antt =====
-- cpt_11_2_1.h: del_timer on a timer of the list, wherever it stands.
use linux_network.Base.{
  ==_self, ℕ, ◌≡◌, refl, sym, ap, ◌∙◌, subst, true, false, inl, inr, Option, none, some, [], ◌∷◌,
  ◌++◌, append_assoc,
}
use linux_network.Chain.{is_at, put, put-eq, put-ne, and_then, and_then_assoc, free}
use linux_network.Chain.Addresses.{
  Entry, last, Distinct, last-append, append-ne-nil, not_first, not_last, snoc-cases,
  Distinct-unlink, head-unlink, Distinct-append,
}
use linux_network.Chain.Segments.{SameBut, Seg-append_right}
use linux_network.Chain.Unlinking.{bypass-free, first-free}
use linux_network.TimerList.{
  Timer, TimerList, delete_first, delete_last, delete_inner, del_timer, set_next, set_prev,
}
use linux_network.TimerList.Sorting.{Due, timer_links, Entries, Represents}

-- The result `o` of an operation on `l`: it stands, it has the timers `es`, the address `a` is free, and
-- the rest of the heap is as before but for the timers `es`.
abbrev pub Frees : TimerList → ℕ → Entries → Option TimerList → Type 0
Frees l a es o =
    (l' : TimerList) × (o ≡ some l')
    × Represents l' es
    × (l'.heap a ≡ none)
    × SameBut a es l.heap l'.heap

delete_first_lem :
    (l : TimerList) (e f : Entry Due) (es : Entries)
    → Represents l (e ∷ f ∷ es)
    → Frees l e.address
        (f ∷ es)
        (delete_first e.address (timer_links.node e.value none (some f.address)) l)
unfolding delete_first
delete_first_lem l e f es (start, end, s, u) =
    let (h, ran, seg, gone, same) = first-free timer_links l.heap e (f ∷ es) s u in
    let k : (ℕ → Option Timer) → Option TimerList =
      λ h'. some (record l { heap = h'; head = some f.address }) in
    (
      record l { heap = h; head = some f.address },
      sym (and_then_assoc (set_prev (some f.address) none l.heap) (free e.address) k)
          ∙ ap (λ o. and_then o k) ran,
      (refl, λ x. end (append-ne-nil [] e (f ∷ es)), seg, u.1),
      gone,
      same,
    )

delete_last_lem :
    (l : TimerList) (ds : Entries) (d e : Entry Due)
    → Represents l (ds ++ d ∷ e ∷ [])
    → Frees l e.address
        (ds ++ d ∷ [])
        (delete_last e.address (timer_links.node e.value (some d.address) none) l)
unfolding delete_last
delete_last_lem l ds d e (start, end, s, u) =
    let (h, ran, seg, gone, same) = bypass-free timer_links l.heap ds d e [] s u in
    let k : (ℕ → Option Timer) → Option TimerList =
      λ h'. some (record l { heap = h'; tail = some d.address }) in
    (
      record l { heap = h; tail = some d.address },
      sym (
            ap (λ o. and_then o k)
              (and_then_assoc (set_next (some d.address) none l.heap) some (free e.address))
            ∙ and_then_assoc (set_next (some d.address) none l.heap) (free e.address) k)
          ∙ ap (λ o. and_then o k) ran,
      (
        start ∙ head-unlink ds d e [],
        λ x. sym (last-append none ds d []),
        seg,
        Distinct-unlink ds d e [] u,
      ),
      gone,
      same,
    )

delete_inner_lem :
    (l : TimerList) (ds : Entries) (d e f : Entry Due) (es : Entries)
    → Represents l (ds ++ d ∷ e ∷ f ∷ es)
    → Frees l e.address
        (ds ++ d ∷ f ∷ es)
        (delete_inner e.address (timer_links.node e.value (some d.address) (some f.address)) l)
unfolding delete_inner
delete_inner_lem l ds d e f es (start, end, s, u) =
    let (h, ran, seg, gone, same) = bypass-free timer_links l.heap ds d e (f ∷ es) s u in
    let k : (ℕ → Option Timer) → Option TimerList = λ h'. some (record l { heap = h' }) in
    (
      record l { heap = h },
      sym (
            and_then_assoc
              (and_then (set_next (some d.address) (some f.address) l.heap)
                (set_prev (some f.address) (some d.address)))
              (free e.address) k
            ∙ and_then_assoc (set_next (some d.address) (some f.address) l.heap)
                (set_prev (some f.address) (some d.address)) (λ h'. and_then (free e.address h') k))
          ∙ ap (λ o. and_then o k) ran,
      (
        start ∙ head-unlink ds d e (f ∷ es),
        λ x.
            end (append-ne-nil ds d (e ∷ f ∷ es))
            ∙ last-append none ds d (e ∷ f ∷ es)
            ∙ sym (last-append none ds d (f ∷ es)),
        seg,
        Distinct-unlink ds d e (f ∷ es) u,
      ),
      gone,
      same,
    )

-- The first timer, and one behind another.
del_timer-first :
    (l : TimerList) (e : Entry Due) (es : Entries)
    → Represents l (e ∷ es)
    → Frees l e.address es (del_timer (some e.address) l)
unfolding del_timer
del_timer-first l e [] (start, end, s, u) = (
  record l { heap = put l.heap e.address none; head = none; tail = none },
  rw (start, end (append-ne-nil [] e []), ==_self e.address, s.0) refl,
  (refl, λ x. refl, tt, tt),
  put-eq l.heap e.address none,
  λ b ne n. put-ne l.heap e.address b none ne,
)
del_timer-first l e (f ∷ es) rep =
    let first : is_at l.head e.address ≡ true =
      ap (λ p. is_at p e.address) rep.0 ∙ ==_self e.address in
    let more : is_at l.tail e.address ≡ false =
      ap (λ p. is_at p e.address) (rep.1 (append-ne-nil [] e (f ∷ es)))
      ∙ not_last (some e.address) e.address f es rep.3.0 in
    rw (first, more, rep.2.0) (delete_first_lem l e f es rep)

last-not :
    (ds : Entries) (d e f : Entry Due) (es : Entries)
    → Distinct (ds ++ d ∷ e ∷ f ∷ es)
    → is_at (last none (ds ++ d ∷ e ∷ f ∷ es)) e.address ≡ false
last-not ds d e f es u =
    subst (λ p. is_at p e.address ≡ false) (sym (last-append none ds d (e ∷ f ∷ es)))
      (not_last (some e.address) e.address f es (Distinct-append ds (d ∷ e ∷ f ∷ es) u).2.1.0)

del_timer-later :
    (l : TimerList) (ds : Entries) (d e : Entry Due) (es : Entries)
    → Represents l (ds ++ d ∷ e ∷ es)
    → Frees l e.address (ds ++ d ∷ es) (del_timer (some e.address) l)
unfolding del_timer
del_timer-later l ds d e [] rep =
    let right = Seg-append_right timer_links l.heap none ds (d ∷ e ∷ []) none rep.2 in
    let behind : is_at l.head e.address ≡ false =
      ap (λ p. is_at p e.address) rep.0 ∙ not_first ds d e [] rep.3 in
    let end : is_at l.tail e.address ≡ true =
      ap (λ p. is_at p e.address)
        (rep.1 (append-ne-nil ds d (e ∷ [])) ∙ last-append none ds d (e ∷ []))
      ∙ ==_self e.address in
    rw (behind, end, right.1.0) (delete_last_lem l ds d e rep)
del_timer-later l ds d e (f ∷ es) rep =
    let right = Seg-append_right timer_links l.heap none ds (d ∷ e ∷ f ∷ es) none rep.2 in
    let behind : is_at l.head e.address ≡ false =
      ap (λ p. is_at p e.address) rep.0 ∙ not_first ds d e (f ∷ es) rep.3 in
    let more : is_at l.tail e.address ≡ false =
      ap (λ p. is_at p e.address) (rep.1 (append-ne-nil ds d (e ∷ f ∷ es)))
      ∙ last-not ds d e f es rep.3 in
    rw (behind, more, right.1.0) (delete_inner_lem l ds d e f es rep)

-- del_timer on a timer of the list, the only one, the first, the last or one between others: it leaves
-- the list and is freed, the others keep their order, and nothing else on the heap changes.
pub del_timer-unlinks :
    (l : TimerList) (ds : Entries) (e : Entry Due) (es : Entries)
    → Represents l (ds ++ e ∷ es)
    → Frees l e.address (ds ++ es) (del_timer (some e.address) l)
del_timer-unlinks l ds e es rep = elim (snoc-cases ds) [
  | inl x ↦
      subst (λ xs. Frees l e.address (xs ++ es) (del_timer (some e.address) l)) (sym x)
        (del_timer-first l e es (subst (λ xs. Represents l (xs ++ e ∷ es)) x rep))
  | inr (xs, d, x) ↦
      let split : (ys : Entries) → ds ++ ys ≡ xs ++ d ∷ ys =
        λ ys. ap (λ zs. zs ++ ys) x ∙ append_assoc xs (d ∷ []) ys in
      subst (λ zs. Frees l e.address zs (del_timer (some e.address) l)) (sym (split es))
        (del_timer-later l xs d e es (subst (Represents l) (split (e ∷ es)) rep))
]
