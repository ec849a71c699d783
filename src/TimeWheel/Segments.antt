-- ===== src/TimeWheel/Segments.antt =====
-- time_wheel.h: the list of a slot as a chain of timers on the heap, and how it changes with the heap.
use linux_network.Base.{ℕ, ◌≡◌, ◌≢◌, refl, sym, ap, ◌∙◌, Option, none, some, List, [], ◌∷◌}
use mathlib.Core.Option.{none-ne-some, some-injective}
use linux_network.Chain.{Links, put-ne}
use linux_network.Chain.Addresses
use linux_network.Chain.Addresses.{head, NotIn}
use linux_network.Chain.Segments
use linux_network.TimeWheel.{Ptr, Timer, Heap, put}

-- A timer of a list, with its rotation.
abbrev pub Entry : Type 0
Entry = Addresses.Entry ℕ

-- The timers of slot `i`.
abbrev pub wheel_links : ℕ → Links Timer ℕ
wheel_links i = record {
  node = λ r p q. record { rotation = r; time_slot = i; next = q; prev = p };
  with_prev = λ t p. record t { prev = p };
  with_next = λ t q. record t { next = q };
  prev-node = λ r p q p'. refl;
  next-node = λ r p q q'. refl;
}

abbrev pub node : ℕ → Entry → Ptr → Ptr → Timer
node i e p q = (wheel_links i).node e.value p q

-- The heap holds the timers of slot `i`, one linked to the other, behind `p` and in front of `q`.
abbrev pub Seg : Heap → ℕ → Ptr → List Entry → Ptr → Type 0
Seg h i p es q = Segments.Seg (wheel_links i) h p es q

-- The timers of slot `i` stay as they are.
abbrev pub Agree : ℕ → Heap → Heap → Type 0
Agree i h h' = (a : ℕ) (t : Timer) → h a ≡ some t → t.time_slot ≡ i → h' a ≡ some t

pub Seg-Agree :
    (h h' : Heap) (i : ℕ) (p : Ptr) (es : List Entry) (q : Ptr)
    → Agree i h h'
    → Seg h i p es q
    → Seg h' i p es q
Seg-Agree h h' i p [] q g s = tt
Seg-Agree h h' i p (e ∷ es) q g s =
    (g e.address (node i e p (head es q)) s.0 refl, Seg-Agree h h' i (some e.address) es q g s.1)

-- A change at the address of a timer of slot `j`, or at a free address, leaves the other slots alone.
pub Agree-put :
    (h : Heap) (i j a : ℕ) (t : Timer) (v : Option Timer)
    → h a ≡ some t
    → t.time_slot ≡ j
    → i ≢ j
    → Agree i h (put h a v)
Agree-put h i j a t v e s ne b u f g =
    put-ne h a b v
      (λ x. ne (sym g ∙ ap (λ x. x.time_slot) (some-injective _ _ (sym f ∙ ap h x ∙ e)) ∙ s))
    ∙ f

pub Agree-put_free : (h : Heap) (i a : ℕ) (v : Option Timer) → h a ≡ none → Agree i h (put h a v)
Agree-put_free h i a v e b u f g =
    put-ne h a b v (λ x. none-ne-some _ (sym e ∙ sym (ap h x) ∙ f)) ∙ f
