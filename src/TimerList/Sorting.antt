-- ===== src/TimerList/Sorting.antt =====
-- cpt_11_2_1.h: the list as a sequence of timers, and the sequences that its operations lead to.
use mathlib.Core.List.{Perm}
use mathlib.Core.List.Perm
use linux_network.Base.{
  ℕ, ◌≤◌, ◌≡◌, ◌≢◌, refl, false, Bool-cases, inl, inr, none, List, [], ◌∷◌, ◌++◌, ltb, All, All-map,
  if◌then◌else◌, arith,
}
use linux_network.Chain.{Links}
use linux_network.Chain.Addresses.{Entry, head, last, Distinct}
use linux_network.Chain.Segments.{Seg}
use linux_network.TimerList.{Timer, TimerList}

-- What a timer is for, beside its links.
pub record Due : Type 0 where
  pub expire : ℕ
  pub user_data : ℕ

abbrev pub timer_links : Links Timer Due
timer_links = record {
  node = λ v p q. record { expire = v.expire; user_data = v.user_data; prev = p; next = q };
  with_prev = λ t p. record t { prev = p };
  with_next = λ t q. record t { next = q };
  prev-node = λ v p q p'. refl;
  next-node = λ v p q q'. refl;
}

abbrev pub Entries : Type 0
Entries = List (Entry Due)

-- The list holds the timers `es` in this order: linked in both directions, at distinct addresses, with
-- the tail at the last one where there is one.
abbrev pub Represents : TimerList → Entries → Type 0
Represents l es =
    (l.head ≡ head es none)
    × (es ≢ [] → l.tail ≡ last none es)
    × Seg timer_links l.heap none es none
    × Distinct es

-- In front of the first timer that expires later.
abbrev pub insert : Entry Due → Entries → Entries
insert e [] = e ∷ []
insert e (x ∷ xs) =
    let rest = insert e xs in if ltb e.value.expire x.value.expire then e ∷ x ∷ xs else x ∷ rest

-- Every timer expires at `n` or later; not later than `n`.
abbrev pub AtLeast : ℕ → Entries → Type 0
AtLeast n = All (λ e. n ≤ e.value.expire)

abbrev pub AtMost : ℕ → Entries → Type 0
AtMost n = All (λ e. e.value.expire ≤ n)

abbrev pub IsAscending : Entries → Type 0
IsAscending [] = Unit
IsAscending (e ∷ es) = AtLeast e.value.expire es × IsAscending es

pub All-insert :
    (P : Entry Due → Type 0) (e : Entry Due) (es : Entries) → P e → All P es → All P (insert e es)
All-insert P e [] p h = (p, tt)
All-insert P e (x ∷ xs) p h = elim (Bool-cases (ltb e.value.expire x.value.expire)) [
  | inl t ↦ rw t (p, h)
  | inr t ↦ rw t (h.0, All-insert P e xs p h.1)
]

pub AtLeast-of_le : (m n : ℕ) (es : Entries) → m ≤ n → AtLeast n es → AtLeast m es
AtLeast-of_le m n es le = All-map _ _ es (λ e h. omega arith)

pub insert-IsAscending : (e : Entry Due) (es : Entries) → IsAscending es → IsAscending (insert e es)
insert-IsAscending e [] h = (tt, tt)
insert-IsAscending e (x ∷ xs) h = elim (Bool-cases (ltb e.value.expire x.value.expire)) [
  | inl t ↦
      let lt : e.value.expire ≤ x.value.expire = ground arith in
      rw t ((lt, AtLeast-of_le e.value.expire x.value.expire xs lt h.0), h)
  | inr t ↦
      let le : x.value.expire ≤ e.value.expire = ground arith in
      rw t
        (All-insert (λ y. x.value.expire ≤ y.value.expire) e xs le h.0, insert-IsAscending e xs h.1)
]

pub insert-perm : (e : Entry Due) (es : Entries) → Perm (insert e es) (e ∷ es)
insert-perm e [] = Perm.refl (e ∷ [])
insert-perm e (x ∷ xs) = elim (Bool-cases (ltb e.value.expire x.value.expire)) [
  | inl t ↦ rw t (Perm.refl (e ∷ x ∷ xs))
  | inr t ↦ rw t (Perm.trans (Perm.cons x (insert-perm e xs)) (Perm.swap e x xs))
]

-- Behind timers that do not expire later.
pub insert-append :
    (e : Entry Due) (ds es : Entries)
    → AtMost e.value.expire ds
    → insert e (ds ++ es) ≡ ds ++ insert e es
insert-append e [] es h = refl
insert-append e (d ∷ ds) es h =
    let no : ltb e.value.expire d.value.expire ≡ false = ground arith in
    rw (no, insert-append e ds es h.1) refl
