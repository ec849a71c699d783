-- ===== src/Chain/Addresses.antt =====
-- The addresses of a linked list: distinct ones, and lists that share none.
use linux_network.Base.{
  ℕ, ◌≡◌, ◌≢◌, refl, sym, ap, ◌⊎◌, inl, inr, false, none, some, List, [], ◌∷◌, ◌++◌, ne→==false,
}
use linux_network.Chain.{Ptr, is_at}

-- A node of a list, with its value.
pub record Entry {ℓ} (V : Type ℓ) : Type ℓ where
  pub address : ℕ
  pub value : V

module _ {ℓ} {V : Type ℓ} where
  abbrev pub entry : ℕ → V → Entry V
  entry a v = record { address = a; value = v }

  -- Where a list starts and where it ends, between the pointers that stand for its surroundings.
  abbrev pub head : List (Entry V) → Ptr → Ptr
  head [] q = q
  head (e ∷ es) q = some e.address

  abbrev pub last : Ptr → List (Entry V) → Ptr
  last p [] = p
  last p (e ∷ es) = last (some e.address) es

  abbrev pub NotIn : ℕ → List (Entry V) → Type 0
  NotIn a [] = Unit
  NotIn a (e ∷ es) = (a ≢ e.address) × NotIn a es

  abbrev pub Distinct : List (Entry V) → Type 0
  Distinct [] = Unit
  Distinct (e ∷ es) = NotIn e.address es × Distinct es

  abbrev pub Apart : List (Entry V) → List (Entry V) → Type 0
  Apart [] es = Unit
  Apart (d ∷ ds) es = NotIn d.address es × Apart ds es

  pub NotIn-append : (a : ℕ) (ds es : List (Entry V)) → NotIn a (ds ++ es) → NotIn a ds × NotIn a es
  NotIn-append a [] es n = (tt, n)
  NotIn-append a (d ∷ ds) es n =
      let (left, right) = NotIn-append a ds es n.1 in ((n.0, left), right)

  pub append-NotIn : (a : ℕ) (ds es : List (Entry V)) → NotIn a ds → NotIn a es → NotIn a (ds ++ es)
  append-NotIn a [] es l r = r
  append-NotIn a (d ∷ ds) es l r = (l.0, append-NotIn a ds es l.1 r)

  pub Distinct-append :
      (ds es : List (Entry V)) → Distinct (ds ++ es) → Apart ds es × Distinct ds × Distinct es
  Distinct-append [] es u = (tt, tt, u)
  Distinct-append (d ∷ ds) es u =
      let (apart, left, right) = Distinct-append ds es u.1 in
      let (here, there) = NotIn-append d.address ds es u.0 in ((there, apart), (here, left), right)

  pub append-Distinct :
      (ds es : List (Entry V)) → Apart ds es → Distinct ds → Distinct es → Distinct (ds ++ es)
  append-Distinct [] es a u v = v
  append-Distinct (d ∷ ds) es a u v =
      (append-NotIn d.address ds es u.0 a.0, append-Distinct ds es a.1 u.1 v)

  pub Apart-head :
      (ds : List (Entry V)) (e : Entry V) (es : List (Entry V))
      → Apart ds (e ∷ es)
      → NotIn e.address ds
  Apart-head [] e es a = tt
  Apart-head (d ∷ ds) e es a = (λ x. a.0.0 (sym x), Apart-head ds e es a.1)

  pub Apart-tail :
      (ds : List (Entry V)) (e : Entry V) (es : List (Entry V)) → Apart ds (e ∷ es) → Apart ds es
  Apart-tail [] e es a = tt
  Apart-tail (d ∷ ds) e es a = (a.0.1, Apart-tail ds e es a.1)

  Apart-second :
      (ds : List (Entry V)) (d e : Entry V) (es : List (Entry V))
      → Apart ds (d ∷ e ∷ es)
      → Apart ds (d ∷ es)
  Apart-second [] d e es a = tt
  Apart-second (x ∷ ds) d e es a = ((a.0.0, a.0.1.1), Apart-second ds d e es a.1)

  pub Distinct-unlink :
      (ds : List (Entry V)) (d e : Entry V) (es : List (Entry V))
      → Distinct (ds ++ d ∷ e ∷ es)
      → Distinct (ds ++ d ∷ es)
  Distinct-unlink ds d e es u =
      let (apart, left, right) = Distinct-append ds (d ∷ e ∷ es) u in
      append-Distinct ds (d ∷ es) (Apart-second ds d e es apart) left (right.0.1, right.1.1)

  pub head-unlink :
      (ds : List (Entry V)) (d e : Entry V) (es : List (Entry V))
      → head (ds ++ d ∷ e ∷ es) none ≡ head (ds ++ d ∷ es) none
  head-unlink [] d e es = refl
  head-unlink (x ∷ ds) d e es = refl

  -- A node behind another is not the first of its list.
  pub not_first :
      (ds : List (Entry V)) (d e : Entry V) (es : List (Entry V))
      → Distinct (ds ++ d ∷ e ∷ es)
      → is_at (head (ds ++ d ∷ e ∷ es) none) e.address ≡ false
  not_first [] d e es u = ne→==false d.address e.address u.0.0
  not_first (x ∷ ds) d e es u =
      let (apart, left, right) = Distinct-append (x ∷ ds) (d ∷ e ∷ es) u in
      ne→==false x.address e.address apart.0.1.0

  pub snoc-cases :
      (ds : List (Entry V))
      → (ds ≡ []) ⊎ ((xs : List (Entry V)) × (d : Entry V) × (ds ≡ xs ++ d ∷ []))
  snoc-cases [] = inl refl
  snoc-cases (x ∷ ds) = elim (snoc-cases ds) [
    | inl e ↦ inr ([], x, ap (λ l. x ∷ l) e)
    | inr (xs, d, e) ↦ inr (x ∷ xs, d, ap (λ l. x ∷ l) e)
  ]

  pub last-append :
      (p : Ptr) (ds : List (Entry V)) (d : Entry V) (es : List (Entry V))
      → last p (ds ++ d ∷ es) ≡ last (some d.address) es
  last-append p [] d es = refl
  last-append p (x ∷ ds) d es = last-append (some x.address) ds d es

  pub head-append :
      (ds : List (Entry V)) (d : Entry V) (es es' : List (Entry V)) (q : Ptr)
      → head (ds ++ d ∷ es) q ≡ head (ds ++ d ∷ es') q
  head-append [] d es es' q = refl
  head-append (x ∷ ds) d es es' q = refl

  pub append-ne-nil :
      (ds : List (Entry V)) (d : Entry V) (es : List (Entry V)) → (ds ++ d ∷ es) ≢ []
  append-ne-nil [] d es e = cc
  append-ne-nil (x ∷ ds) d es e = cc

  pub Distinct-NotIn :
      (ds : List (Entry V)) (e : Entry V) (es : List (Entry V))
      → Distinct (ds ++ e ∷ es)
      → NotIn e.address (ds ++ es)
  Distinct-NotIn ds e es u =
      let (apart, left, right) = Distinct-append ds (e ∷ es) u in
      append-NotIn e.address ds es (Apart-head ds e es apart) right.0

  pub not_last :
      (p : Ptr) (a : ℕ) (f : Entry V) (fs : List (Entry V))
      → NotIn a (f ∷ fs)
      → is_at (last p (f ∷ fs)) a ≡ false
  not_last p a f [] n = ne→==false f.address a (λ x. n.0 (sym x))
  not_last p a f (g ∷ fs) n = not_last (some f.address) a g fs n.1
