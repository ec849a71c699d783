-- ===== src/TimerList/Expiring.antt =====
-- cpt_11_2_1.h: tick, and the destructor.
use linux_network.Base.{
  ℕ, zero, suc, ◌≤◌, ◌<◌, ◌≡◌, ◌≢◌, refl, sym, ap, ◌∙◌, subst, true, Bool-cases, inl, inr, Option,
  none, some, List, [], ◌∷◌, ltb, if◌then◌else◌, length, map, arith,
}
use linux_network.Chain.{Ptr, put, put-eq, put-ne, and_then, and_then_assoc, modify_if, free}
use linux_network.Chain.Addresses.{Entry, head, last, Distinct, append-ne-nil}
use linux_network.Chain.Segments.{Seg, SameOutside, Seg-put}
use linux_network.Chain.Unlinking.{first-free}
use linux_network.TimerList.{
  Timer, Heap, TimerList, pop_front, tick_loop, tick, destroy_loop, destroy,
}
use linux_network.TimerList.Sorting.{Due, timer_links, Entries, Represents, AtLeast, IsAscending}
use linux_network.TimerList.Removing.{Frees}

-- The timers that have expired at the time `cur`, and the others.
abbrev pub expired : ℕ → Entries → Entries
expired cur [] = []
expired cur (e ∷ es) =
    let rest = expired cur es in if ltb cur e.value.expire then rest else e ∷ rest

abbrev pub remaining : ℕ → Entries → Entries
remaining cur [] = []
remaining cur (e ∷ es) =
    let rest = remaining cur es in if ltb cur e.value.expire then e ∷ rest else rest

abbrev pub clients : Entries → List ℕ
clients = map (λ e. e.value.user_data)

abbrev pub AllFree : Entries → Heap → Type 0
AllFree [] h = Unit
AllFree (e ∷ es) h = (h e.address ≡ none) × AllFree es h

none_expired : (cur n : ℕ) (es : Entries) → cur < n → AtLeast n es → expired cur es ≡ []
none_expired cur n [] lt h = refl
none_expired cur n (e ∷ es) lt h =
    let later : ltb cur e.value.expire ≡ true = ground (arith, h.0) in
    rw later (none_expired cur n es lt h.1)

all_remaining : (cur n : ℕ) (es : Entries) → cur < n → AtLeast n es → remaining cur es ≡ es
all_remaining cur n [] lt h = refl
all_remaining cur n (e ∷ es) lt h =
    let later : ltb cur e.value.expire ≡ true = ground (arith, h.0) in
    rw (later, all_remaining cur n es lt h.1) refl

pop_front_lem :
    (l : TimerList) (e : Entry Due) (es : Entries)
    → Represents l (e ∷ es)
    → Frees l e.address es (pop_front e.address (timer_links.node e.value none (head es none)) l)
unfolding pop_front
pop_front_lem l e es (start, end, s, u) =
    let (h, ran, seg, gone, same) = first-free timer_links l.heap e es s u in
    let k : (ℕ → Option Timer) → Option TimerList =
      λ h'. some (record l { heap = h'; head = head es none }) in
    (
      record l { heap = h; head = head es none },
      sym (
            and_then_assoc (modify_if (head es none) (λ t. record t { prev = none }) l.heap)
              (free e.address) k)
          ∙ ap (λ o. and_then o k) ran,
      (refl, λ ne. tails l e es end ne, seg, u.1),
      gone,
      same,
    )
  where
    tails :
        (l : TimerList) (e : Entry Due) (es : Entries)
        → ((e ∷ es) ≢ [] → l.tail ≡ last none (e ∷ es))
        → es ≢ []
        → l.tail ≡ last none es
    tails l e [] end ne = absurd (ne refl)
    tails l e (f ∷ es) end ne = end (append-ne-nil [] e (f ∷ es))

-- What a tick at the time `cur` makes of the list `l` of `es`.
abbrev pub Ticks : ℕ → TimerList → Entries → Option (TimerList × List ℕ) → Type 0
Ticks cur l es o =
    (l' : TimerList) × (o ≡ some (l', clients (expired cur es)))
    × Represents l' (remaining cur es)
    × AllFree (expired cur es) l'.heap
    × SameOutside es l.heap l'.heap

tick_loop_lem :
    (fuel cur : ℕ) (l : TimerList) (es : Entries)
    → length es ≤ fuel
    → Represents l es
    → IsAscending es
    → Ticks cur l es (tick_loop fuel cur (head es none) l)
unfolding tick_loop
tick_loop_lem fuel cur l [] enough rep sorted = (l, refl, rep, tt, λ b n. refl)
tick_loop_lem zero cur l (e ∷ es) enough rep sorted = absurd (omega arith)
tick_loop_lem (suc fuel) cur l (e ∷ es) enough rep sorted =
    elim (Bool-cases (ltb cur e.value.expire)) [
      | inl t ↦
          let lt : cur < e.value.expire = ground arith in
          rw
            (
              rep.2.0,
              t,
              none_expired cur e.value.expire es lt sorted.0,
              all_remaining cur e.value.expire es lt sorted.0,
            )
            (l, refl, rep, tt, λ b n. refl)
      | inr t ↦
          let (l1, popped, rep1, gone, same) = pop_front_lem l e es rep in
          let (l2, ticked, rep2, free2, same2) =
            tick_loop_lem fuel cur l1 es (omega arith) rep1 sorted.1 in
          rw (rep.2.0, t)
            (
              l2,
              rw (popped, rep1.0, ticked) refl,
              rep2,
              (same2 e.address rep.3.0 ∙ gone, free2),
              λ b n. same2 b n.1 ∙ same b n.0 n.1,
            )
    ]

-- A tick at the time `cur` on a sorted list, with as much fuel as it has timers: the callbacks run of
-- exactly the timers that have expired, in order; these are freed, the others keep their order, and no
-- other address on the heap is touched.
pub tick-expired :
    (fuel cur : ℕ) (l : TimerList) (es : Entries)
    → length es ≤ fuel
    → Represents l es
    → IsAscending es
    → Ticks cur l es (tick fuel cur l)
unfolding tick
tick-expired fuel cur l es enough rep sorted =
    subst (Ticks cur l es) (sym (is_loop l.head ∙ ap (λ p. tick_loop fuel cur p l) rep.0))
      (tick_loop_lem fuel cur l es enough rep sorted)
  where
    is_loop :
        (p : Ptr)
        → (elim p [ none ↦ some (l, []) | some a ↦ tick_loop fuel cur (some a) l ])
          ≡ tick_loop fuel cur p l
    is_loop none = refl
    is_loop (some a) = refl

destroy_loop_lem :
    (fuel : ℕ) (l : TimerList) (p : Ptr) (es : Entries)
    → length es ≤ fuel
    → Seg timer_links l.heap p es none
    → Distinct es
    → (l' : TimerList) × (destroy_loop fuel (head es none) l ≡ some l')
      × AllFree es l'.heap
      × SameOutside es l.heap l'.heap
unfolding destroy_loop
destroy_loop_lem fuel l p [] enough s u = (l, refl, tt, λ b n. refl)
destroy_loop_lem zero l p (e ∷ es) enough s u = absurd (omega arith)
destroy_loop_lem (suc fuel) l p (e ∷ es) enough s u =
    let l1 : TimerList = record l { heap = put l.heap e.address none; head = head es none } in
    let (l2, ran, free2, same2) =
      destroy_loop_lem fuel l1 (some e.address) es (omega arith)
        (Seg-put timer_links l.heap (some e.address) es none e.address none u.0 s.1) u.1 in
    (
      l2,
      rw (s.0, ran) refl,
      (same2 e.address u.0 ∙ put-eq l.heap e.address none, free2),
      λ b n. same2 b n.1 ∙ put-ne l.heap e.address b none n.0,
    )

-- The destructor, with as much fuel as the list has timers: it frees them all, uses no null or freed
-- pointer, and touches no other address on the heap.
destroy-AllFree :
    (fuel : ℕ) (l : TimerList) (es : Entries)
    → length es ≤ fuel
    → Represents l es
    → (l' : TimerList) × (destroy fuel l ≡ some l')
      × AllFree es l'.heap
      × SameOutside es l.heap l'.heap
unfolding destroy
destroy-AllFree fuel l es enough rep =
    let (l', ran, free_all, same) = destroy_loop_lem fuel l none es enough rep.2 rep.3 in
    (l', ap (λ p. destroy_loop fuel p l) rep.0 ∙ ran, free_all, same)
