-- ===== src/TimeWheel/Surgery.antt =====
-- time_wheel.h: taking a timer out of its list, and putting one in front.
use linux_network.Base.{ℕ, ◌≡◌, ◌≢◌, refl, sym, ap, ◌∙◌, Option, none, some, List, [], ◌∷◌}
use linux_network.Chain.Addresses.{Distinct, NotIn, head}
use linux_network.Chain.Segments.{Seg-put, SameOutside, relink_prev}
use mathlib.Core.Option.{some-injective}
use linux_network.TimeWheel.Segments.{wheel_links, Entry, node, Seg, Agree, Agree-put}
use linux_network.TimeWheel.{Ptr, Timer, Heap, put, set_prev_if}

-- No timer of the other slots changes.
abbrev pub Outside : ℕ → Heap → Heap → Type 0
Outside i h h' = (j : ℕ) → j ≢ i → Agree j h h'

pub Outside-trans : (i : ℕ) (h h' h'' : Heap) → Outside i h h' → Outside i h' h'' → Outside i h h''
Outside-trans i h h' h'' f g j ne a t e s = g j ne a t (f j ne a t e s) s

pub Outside-put :
    (h : Heap) (i a : ℕ) (t : Timer) (v : Option Timer)
    → h a ≡ some t
    → t.time_slot ≡ i
    → Outside i h (put h a v)
Outside-put h i a t v e s j ne = Agree-put h j i a t v e s ne

-- A timer of another slot is none of the list's.
other-NotIn :
    (h : Heap) (i : ℕ) (p : Ptr) (es : List Entry) (q : Ptr) (a : ℕ) (t : Timer)
    → t.time_slot ≢ i
    → h a ≡ some t
    → Seg h i p es q
    → NotIn a es
other-NotIn h i p [] q a t ne at_a s = tt
other-NotIn h i p (e ∷ es) q a t ne at_a s = (
  λ x. ne (ap (λ u. u.time_slot) (some-injective _ _ (sym at_a ∙ ap h x ∙ s.0))),
  other-NotIn h i (some e.address) es q a t ne at_a s.1,
)

pub Outside-same :
    (h h' : Heap) (i : ℕ) (p : Ptr) (es : List Entry) (q : Ptr)
    → Seg h i p es q
    → SameOutside es h h'
    → Outside i h h'
Outside-same h h' i p es q s same j ne a t at_a slot =
    same a (other-NotIn h i p es q a t (λ x. ne (sym slot ∙ x)) at_a s) ∙ at_a

-- `if (p) p->prev = p'` where `p` points to the first timer of a list.
pub set_prev_if_lem :
    (h : Heap) (i : ℕ) (p p' : Ptr) (es : List Entry)
    → Seg h i p es none
    → Distinct es
    → (h' : Heap) × (set_prev_if (head es none) p' h ≡ some h')
      × Seg h' i p' es none
      × SameOutside es h h'
      × Outside i h h'
set_prev_if_lem h i p p' es s u =
    let (h', wrote, seg, same) = relink_prev (wheel_links i) h p p' es s u in
    (h', wrote, seg, same, Outside-same h h' i p es none s same)

-- The first timer of a list, freed.
pub head_freed :
    (h : Heap) (i : ℕ) (p : Ptr) (e : Entry) (es : List Entry)
    → Seg h i p (e ∷ es) none
    → Distinct (e ∷ es)
    → Seg (put h e.address none) i (some e.address) es none × Outside i h (put h e.address none)
head_freed h i p e es s u = (
  Seg-put (wheel_links i) h (some e.address) es none e.address none u.0 s.1,
  Outside-put h i e.address (node i e p (head es none)) none s.0 refl,
)
