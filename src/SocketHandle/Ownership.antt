-- ===== src/SocketHandle/Ownership.antt =====
-- thread_pool_server.h, SocketHandle: every descriptor has one owner or one end.
use linux_network.Base.{
  count, count-append, ℕ, zero, suc, ◌+◌, ◌≡◌, ◌≢◌, refl, ap, ◌∙◌, inl, inr, Option, none, some,
  List, [], ◌∷◌, arith, get_elem?, set, subst, get_elem?-set_ne, ◌==◌, ==_iff, Bool-cases,
}
use linux_network.SocketHandle.{
  Handle, Slot, dead, alive, Store, Op, adopts, moves, assigns, releases, destroys, listed, adopt,
  move_into, assign, release_at, destroy_at, step, run, destroy,
}

-- How often `x` stands in a variable, in all variables.
abbrev pub owns : ℕ → Slot → ℕ
owns x dead = 0
owns x (alive h) = count x (listed h)

abbrev pub owned : ℕ → List Slot → ℕ
owned x [] = 0
owned x (s ∷ ss) = owns x s + owned x ss

-- Owners, closes and releases of `x`, against its adoptions.
abbrev pub spent : ℕ → Store → ℕ
spent x s = owned x s.slots + count x s.closed + count x s.released

owned-set :
    (x : ℕ) (ss : List Slot) (i : ℕ) (old new : Slot)
    → get_elem? ss i ≡ some old
    → owned x (set ss i new) + owns x old ≡ owned x ss + owns x new
owned-set x [] i old new e = cc
owned-set x (s ∷ ss) zero old new e = ground arith
owned-set x (s ∷ ss) (suc i) old new e = omega (arith, owned-set x ss i old new e)

get_elem?-set_at :
    (ss : List Slot) (i : ℕ) (old new : Slot)
    → get_elem? ss i ≡ some old
    → get_elem? (set ss i new) i ≡ some new
get_elem?-set_at [] i old new e = cc
get_elem?-set_at (s ∷ ss) zero old new e = refl
get_elem?-set_at (s ∷ ss) (suc i) old new e = get_elem?-set_at ss i old new e

-- Two variables written one after the other.
owned-set_both :
    (x : ℕ) (ss : List Slot) (i j : ℕ) (a b c d : Slot)
    → get_elem? ss i ≡ some a
    → get_elem? ss j ≡ some b
    → i ≢ j
    → owned x (set (set ss i c) j d) + owns x a + owns x b ≡ owned x ss + owns x c + owns x d
owned-set_both x ss i j a b c d e f h = omega (
  arith,
  owned-set x ss i a c e,
  owned-set x (set ss i c) j b d (get_elem?-set_ne ss i j c h ∙ f),
)

owned-set_twice :
    (x : ℕ) (ss : List Slot) (i : ℕ) (a c d : Slot)
    → get_elem? ss i ≡ some a
    → owned x (set (set ss i c) i d) + owns x a ≡ owned x ss + owns x d
owned-set_twice x ss i a c d e =
    omega
      (arith, owned-set x ss i a c e, owned-set x (set ss i c) i c d (get_elem?-set_at ss i a c e))

owned-set_same :
    (x : ℕ) (ss : List Slot) (i j : ℕ) (a c d : Slot)
    → get_elem? ss i ≡ some a
    → i ≡ j
    → owned x (set (set ss i c) j d) + owns x a ≡ owned x ss + owns x d
owned-set_same x ss i j a c d e same = rw (← same) (owned-set_twice x ss i a c d e)

pub destroy-listed : (h : Handle) → destroy h ≡ listed h
unfolding destroy
destroy-listed none = refl
destroy-listed (some fd) = refl

abbrev pub Balanced : ℕ → Store → Type 0
Balanced x s = spent x s ≡ count x s.adopted

abbrev Kept : ℕ → Option Store → Type 0
Kept x none = Unit {0}
Kept x (some t) = Balanced x t

module _ (x : ℕ) (s : Store) (b : Balanced x s) where
  adopt-Kept :
      (i : ℕ) (h : Handle) (o : Option Slot) → get_elem? s.slots i ≡ o → Kept x (adopt s i h o)
  unfolding adopt
  adopt-Kept i h none e = tt
  adopt-Kept i h (some (alive g)) e = tt
  adopt-Kept i h (some dead) e =
      omega (arith, owned-set x s.slots i dead (alive h) e, count-append x (listed h) s.adopted)

  move_into-Kept :
      (i j : ℕ) (o o' : Option Slot)
      → get_elem? s.slots i ≡ o
      → get_elem? s.slots j ≡ o'
      → Kept x (move_into s i j o o')
  unfolding move_into
  move_into-Kept i j none o' e f = tt
  move_into-Kept i j (some (alive g)) o' e f = tt
  move_into-Kept i j (some dead) none e f = tt
  move_into-Kept i j (some dead) (some dead) e f = tt
  move_into-Kept i j (some dead) (some (alive other)) e f =
      let apart : i ≢ j = λ same. cc (e, f, same) in
      omega (
        arith,
        owned-set_both x s.slots i j dead (alive other) (alive other) (alive none) e f apart,
      )

  assign-Kept :
      (i j : ℕ) (o o' : Option Slot)
      → get_elem? s.slots i ≡ o
      → get_elem? s.slots j ≡ o'
      → Kept x (assign s i j o o')
  unfolding assign
  assign-Kept i j none o' e f = tt
  assign-Kept i j (some dead) o' e f = tt
  assign-Kept i j (some (alive g)) none e f = tt
  assign-Kept i j (some (alive g)) (some dead) e f = tt
  assign-Kept i j (some (alive this)) (some (alive other)) e f = elim (Bool-cases (i == j)) [
    | inl same ↦ rw same (
        omega (
          arith,
          owned-set_same x s.slots i j (alive this) (alive this) (alive this) e
              ((==_iff i j).0 same),
        ))
    | inr apart ↦
        let ne : i ≢ j = ground arith in
        rw apart (
          omega (
            arith,
            owned-set_both x s.slots i j (alive this) (alive other) (alive other) (alive none) e f
                ne,
            count-append x (destroy this) s.closed,
            ap (count x) (destroy-listed this),
          ))
  ]

  release_at-Kept : (i : ℕ) (o : Option Slot) → get_elem? s.slots i ≡ o → Kept x (release_at s i o)
  unfolding release_at
  release_at-Kept i none e = tt
  release_at-Kept i (some dead) e = tt
  release_at-Kept i (some (alive h)) e =
      omega (
        arith,
        owned-set x s.slots i (alive h) (alive none) e,
        count-append x (listed h) s.released,
      )

  destroy_at-Kept : (i : ℕ) (o : Option Slot) → get_elem? s.slots i ≡ o → Kept x (destroy_at s i o)
  unfolding destroy_at
  destroy_at-Kept i none e = tt
  destroy_at-Kept i (some dead) e = tt
  destroy_at-Kept i (some (alive h)) e = omega (
    arith,
    owned-set x s.slots i (alive h) dead e,
    count-append x (destroy h) s.closed,
    ap (count x) (destroy-listed h),
  )

  step-Kept : (op : Op) → Kept x (step s op)
  unfolding step
  step-Kept (adopts i h) = adopt-Kept i h _ refl
  step-Kept (moves i j) = move_into-Kept i j _ _ refl refl
  step-Kept (assigns i j) = assign-Kept i j _ _ refl refl
  step-Kept (releases i) = release_at-Kept i _ refl
  step-Kept (destroys i) = destroy_at-Kept i _ refl

then_run :
    (x : ℕ) (ops : List Op) (o : Option Store)
    → Kept x o
    → ((t : Store) → Balanced x t → Kept x (run ops t))
    → Kept x (elim o [ none ↦ none | some t ↦ run ops t ])
then_run x ops none k h = tt
then_run x ops (some t) k h = h t k

run-Kept : (x : ℕ) (ops : List Op) (s : Store) → Balanced x s → Kept x (run ops s)
unfolding run
run-Kept x [] s b = b
run-Kept x (op ∷ ops) s b = then_run x ops (step s op) (step-Kept x s b op) (λ t. run-Kept x ops t)

-- Whatever a program does with its handles, from a store that is balanced: of each descriptor, the variables that own it, the closes
-- and the releases are together as many as its adoptions. So a descriptor that is adopted once has
-- one owner, or has been closed once, or has been released once.
pub run-Balanced :
    (x : ℕ) (ops : List Op) (s t : Store) → Balanced x s → run ops s ≡ some t → Balanced x t
run-Balanced x ops s t b e = subst (Kept x) e (run-Kept x ops s b)
