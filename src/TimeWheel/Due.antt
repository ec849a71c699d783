-- ===== src/TimeWheel/Due.antt =====
-- time_wheel.h: which timers of a slot a tick runs, and which it keeps.
use linux_network.Base.{
  ℕ, zero, suc, ◌≤◌, ◌≡◌, refl, sym, ap, ◌∙◌, subst, ◌⊎◌, inl, inr, some, List, [], ◌∷◌, ◌++◌,
  length, arith, length-append,
}
use linux_network.Chain.Addresses.{entry, head}
use linux_network.TimeWheel.{Timer, Heap, Ptr}
use linux_network.TimeWheel.Segments.{Entry, node, Seg}
use linux_network.TimeWheel.Ticking.{aged, aged_one, due, due_one}

abbrev pub In : {A : Type 0} → A → List A → Type 0
In x [] = ⊥
In x (y ∷ ys) = (x ≡ y) ⊎ In x ys

module _ {A : Type 0} where
  In-left : (x : A) (ys zs : List A) → In x ys → In x (ys ++ zs)
  In-left x [] zs m = elim m [ ]
  In-left x (y ∷ ys) zs (inl e) = inl e
  In-left x (y ∷ ys) zs (inr m) = inr (In-left x ys zs m)

  In-right : (x : A) (ys zs : List A) → In x zs → In x (ys ++ zs)
  In-right x [] zs m = m
  In-right x (y ∷ ys) zs m = inr (In-right x ys zs m)

  pub In-append : (x : A) (ys zs : List A) → In x (ys ++ zs) → In x ys ⊎ In x zs
  In-append x [] zs m = inr m
  In-append x (y ∷ ys) zs (inl e) = inl (inl e)
  In-append x (y ∷ ys) zs (inr m) = elim (In-append x ys zs m) [
    | inl n ↦ inl (inr n)
    | inr n ↦ inr n
  ]

pub In-aged : (a r : ℕ) (es : List Entry) → In (entry a (suc r)) es → In (entry a r) (aged es)
In-aged a r [] m = elim m [ ]
In-aged a r (e ∷ es) (inl x) =
    In-left (entry a r) (aged_one e.address e.value) (aged es)
      (subst (λ f. In (entry a r) (aged_one f.address f.value)) x (inl refl))
In-aged a r (e ∷ es) (inr m) =
    In-right (entry a r) (aged_one e.address e.value) (aged es) (In-aged a r es m)

pub In-due : (a : ℕ) (es : List Entry) → In (entry a 0) es → In a (due es)
In-due a [] m = elim m [ ]
In-due a (e ∷ es) (inl x) =
    In-left a (due_one e.address e.value) (due es)
      (subst (λ f. In a (due_one f.address f.value)) x (inl refl))
In-due a (e ∷ es) (inr m) = In-right a (due_one e.address e.value) (due es) (In-due a es m)

due_one-In : (a b r : ℕ) → In a (due_one b r) → entry a 0 ≡ entry b r
due_one-In a b zero (inl x) = ap (λ y. entry y 0) x
due_one-In a b zero (inr m) = elim m [ ]
due_one-In a b (suc r) m = elim m [ ]

pub due-In : (a : ℕ) (es : List Entry) → In a (due es) → In (entry a 0) es
due-In a [] m = elim m [ ]
due-In a (e ∷ es) m = elim (In-append a (due_one e.address e.value) (due es) m) [
  | inl n ↦ inl (due_one-In a e.address e.value n)
  | inr n ↦ inr (due-In a es n)
]

length-aged_one : (a r : ℕ) → length (aged_one a r) ≤ 1
length-aged_one a zero = omega arith
length-aged_one a (suc r) = omega arith

pub length-aged : (es : List Entry) → length (aged es) ≤ length es
length-aged [] = omega arith
length-aged (e ∷ es) = omega (
  arith,
  length-append (aged_one e.address e.value) (aged es),
  length-aged_one e.address e.value,
  length-aged es,
)

-- What the heap says of a timer that stands in a list.
pub Seg-In :
    (h : Heap) (i : ℕ) (p : Ptr) (es : List Entry) (q : Ptr) (a r : ℕ)
    → Seg h i p es q
    → In (entry a r) es
    → (t : Timer) × (h a ≡ some t) × (t.time_slot ≡ i) × (t.rotation ≡ r)
Seg-In h i p [] q a r s m = elim m [ ]
Seg-In h i p (e ∷ es) q a r s (inl x) =
    (node i e p (head es q), ap (λ f. h f.address) x ∙ s.0, refl, sym (ap (λ f. f.value) x))
Seg-In h i p (e ∷ es) q a r s (inr m) = Seg-In h i (some e.address) es q a r s.1 m
