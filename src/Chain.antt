-- ===== src/Chain.antt =====
-- Doubly linked lists on a heap, for the timers of linux_server: nodes at addresses, the commands that
-- write their links, and the lists that they stand for.
pub mod Addresses
pub mod Segments
pub mod Unlinking
pub mod Linking
pub mod Revaluing
use linux_network.Base.{
  ℕ, ◌≡◌, ◌≢◌, refl, Bool, true, false, Option, none, some, List, [], ◌∷◌, ◌==◌, if◌then◌else◌,
  arith,
}

-- The address of a node, `none` for null.
abbrev pub Ptr : Type 0
Ptr = Option ℕ

abbrev pub is_at : Ptr → ℕ → Bool
is_at none a = false
is_at (some b) a = b == a

module _ {ℓ} {A : Type ℓ} where
  abbrev pub put : (ℕ → A) → ℕ → A → ℕ → A
  put f i v j = if j == i then v else f j

  pub put-eq : (f : ℕ → A) (i : ℕ) (v : A) → put f i v i ≡ v
  put-eq f i v = ground arith

  pub put-ne : (f : ℕ → A) (i j : ℕ) (v : A) → j ≢ i → put f i v j ≡ f j
  put-ne f i j v h = ground arith

-- `none` is a fault: the use of a null or freed pointer.
abbrev pub and_then : {A B : Type 0} → Option A → (A → Option B) → Option B
and_then none k = none
and_then (some x) k = k x

pub and_then_assoc :
    {A B C : Type 0} (m : Option A) (k : A → Option B) (f : B → Option C)
    → and_then (and_then m k) f ≡ and_then m (λ x. and_then (k x) f)
and_then_assoc none k f = refl
and_then_assoc (some x) k f = refl

-- Nodes of type `N` with a value of type `V` and two links.
pub record Links (N V : Type 0) : Type 0 where
  pub node : V → Ptr → Ptr → N
  pub with_prev : N → Ptr → N
  pub with_next : N → Ptr → N
  pub prev-node : (v : V) (p q p' : Ptr) → with_prev (node v p q) p' ≡ node v p' q
  pub next-node : (v : V) (p q q' : Ptr) → with_next (node v p q) q' ≡ node v p q'

module _ {N : Type 0} where
  -- `p->field = …`, and the same behind the test `if (p)`.
  abbrev pub modify : Ptr → (N → N) → (ℕ → Option N) → Option (ℕ → Option N)
  modify none f h = none
  modify (some a) f h = and_then (h a) (λ t. some (put h a (some (f t))))

  abbrev pub modify_if : Ptr → (N → N) → (ℕ → Option N) → Option (ℕ → Option N)
  modify_if none f h = some h
  modify_if (some a) f h = modify (some a) f h

  -- `delete p`
  abbrev pub free : ℕ → (ℕ → Option N) → Option (ℕ → Option N)
  free a h = and_then (h a) (λ t. some (put h a none))

  pub free-some : (h : ℕ → Option N) (a : ℕ) (t : N) → h a ≡ some t → free a h ≡ some (put h a none)
  free-some h a t e = rw e refl

  pub modify-some :
      (h : ℕ → Option N) (a : ℕ) (f : N → N) (t : N)
      → h a ≡ some t
      → modify (some a) f h ≡ some (put h a (some (f t)))
  modify-some h a f t e = rw e refl
