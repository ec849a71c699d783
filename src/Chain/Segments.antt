-- ===== src/Chain/Segments.antt =====
-- What the heap holds for a linked list, and which changes of the heap leave it alone.
use linux_network.Base.{ℕ, ◌≡◌, ◌≢◌, refl, sym, ap, ◌∙◌, Option, none, some, List, [], ◌∷◌, ◌++◌}
use mathlib.Core.Option.{none-ne-some}
use linux_network.Chain.{Ptr, Links, put, put-eq, put-ne, modify_if, modify-some}
use linux_network.Chain.Addresses.{Entry, head, last, NotIn, Distinct, Apart}

-- `h'` differs from `h` at most at the addresses of `es`.
abbrev pub SameOutside : {N V : Type 0} → List (Entry V) → (ℕ → Option N) → (ℕ → Option N) → Type 0
SameOutside es h h' = (a : ℕ) → NotIn a es → h' a ≡ h a

-- The same, and at most at `a` too.
abbrev pub SameBut : {N V : Type 0} → ℕ → List (Entry V) → (ℕ → Option N) → (ℕ → Option N) → Type 0
SameBut a es h h' = (b : ℕ) → b ≢ a → NotIn b es → h' b ≡ h b

module _ {N V : Type 0} (l : Links N V) where
  -- The heap holds the nodes, one linked to the other, behind `p` and in front of `q`.
  abbrev pub Seg : (ℕ → Option N) → Ptr → List (Entry V) → Ptr → Type 0
  Seg h p [] q = Unit
  Seg h p (e ∷ es) q =
      (h e.address ≡ some (l.node e.value p (head es q))) × Seg h (some e.address) es q

  pub Seg-put :
      (h : ℕ → Option N) (p : Ptr) (es : List (Entry V)) (q : Ptr) (a : ℕ) (v : Option N)
      → NotIn a es
      → Seg h p es q
      → Seg (put h a v) p es q
  Seg-put h p [] q a v n s = tt
  Seg-put h p (e ∷ es) q a v n s =
      (put-ne h a e.address v (λ x. n.0 (sym x)) ∙ s.0, Seg-put h (some e.address) es q a v n.1 s.1)

  pub Seg-Apart :
      (h h' : ℕ → Option N) (p : Ptr) (ds es : List (Entry V)) (q : Ptr)
      → Apart ds es
      → SameOutside es h h'
      → Seg h p ds q
      → Seg h' p ds q
  Seg-Apart h h' p [] es q a same s = tt
  Seg-Apart h h' p (d ∷ ds) es q a same s =
      (same d.address a.0 ∙ s.0, Seg-Apart h h' (some d.address) ds es q a.1 same s.1)

  -- A free address is none of the list's.
  pub none-NotIn :
      (h : ℕ → Option N) (p : Ptr) (es : List (Entry V)) (q : Ptr) (a : ℕ)
      → h a ≡ none
      → Seg h p es q
      → NotIn a es
  none-NotIn h p [] q a f s = tt
  none-NotIn h p (e ∷ es) q a f s =
      (λ x. none-ne-some _ (sym f ∙ ap h x ∙ s.0), none-NotIn h (some e.address) es q a f s.1)

  pub Seg-append_left :
      (h : ℕ → Option N) (p : Ptr) (ds es : List (Entry V)) (q : Ptr)
      → Seg h p (ds ++ es) q
      → Seg h p ds (head es q)
  Seg-append_left h p [] es q s = tt
  Seg-append_left h p (d ∷ []) es q s = (s.0, tt)
  Seg-append_left h p (d ∷ d' ∷ ds) es q s =
      (s.0, Seg-append_left h (some d.address) (d' ∷ ds) es q s.1)

  pub Seg-append_right :
      (h : ℕ → Option N) (p : Ptr) (ds es : List (Entry V)) (q : Ptr)
      → Seg h p (ds ++ es) q
      → Seg h (last p ds) es q
  Seg-append_right h p [] es q s = s
  Seg-append_right h p (d ∷ ds) es q s = Seg-append_right h (some d.address) ds es q s.1

  pub Seg-append :
      (h : ℕ → Option N) (p : Ptr) (ds es : List (Entry V)) (q : Ptr)
      → Seg h p ds (head es q)
      → Seg h (last p ds) es q
      → Seg h p (ds ++ es) q
  Seg-append h p [] es q s r = r
  Seg-append h p (d ∷ []) es q s r = (s.0, r)
  Seg-append h p (d ∷ d' ∷ ds) es q s r = (s.0, Seg-append h (some d.address) (d' ∷ ds) es q s.1 r)

  -- `if (p) p->prev = p'` where `p` points to the first node of a list.
  pub relink_prev :
      (h : ℕ → Option N) (p p' : Ptr) (es : List (Entry V))
      → Seg h p es none
      → Distinct es
      → (h' : ℕ → Option N) × (modify_if (head es none) (λ t. l.with_prev t p') h ≡ some h')
        × Seg h' p' es none
        × SameOutside es h h'
  relink_prev h p p' [] s u = (h, refl, tt, λ a n. refl)
  relink_prev h p p' (e ∷ es) s u =
      let v = some (l.node e.value p' (head es none)) in
      (
        put h e.address v,
        modify-some h e.address (λ t. l.with_prev t p') (l.node e.value p (head es none)) s.0
            ∙ ap (λ t. some (put h e.address (some t))) (l.prev-node e.value p (head es none) p'),
        (put-eq h e.address v, Seg-put h (some e.address) es none e.address v u.0 s.1),
        λ a n. put-ne h e.address a v n.0,
      )
