-- ===== src/TimeWheel/Unlinking.antt =====
-- time_wheel.h: the branch of del_timer and tick for a timer that is not the first of its list.
use linux_network.Base.{ℕ, ◌≡◌, refl, sym, ap, ◌∙◌, Option, none, some, List, ◌∷◌, ◌++◌}
use linux_network.Chain.{and_then_assoc, put-eq, put-ne}
use linux_network.Chain.Unlinking.{bypass_lem, apart_inner}
use linux_network.Chain.Addresses.{NotIn-append, append-NotIn, Distinct, NotIn, head}
use linux_network.Chain.Segments.{SameOutside, Seg-append_right, Seg-put}
use linux_network.TimeWheel.Segments.{wheel_links, Entry, node, Seg}
use linux_network.TimeWheel.{Heap, put, set_next, set_prev_if, and_then, unlink}
use linux_network.TimeWheel.Surgery.{Outside, Outside-trans, Outside-put, Outside-same}

without :
    (ds : List Entry) (d e : Entry) (es : List Entry) (a : ℕ)
    → NotIn a (ds ++ d ∷ e ∷ es)
    → NotIn a (ds ++ d ∷ es)
without ds d e es a n =
    let (front, back) = NotIn-append a ds (d ∷ e ∷ es) n in
    append-NotIn a ds (d ∷ es) front (back.0, back.1.1)

-- The timer `e` between `d` and `es`.
pub unlink_lem :
    (h : Heap) (i : ℕ) (ds : List Entry) (d e : Entry) (es : List Entry)
    → Seg h i none (ds ++ d ∷ e ∷ es) none
    → Distinct (ds ++ d ∷ e ∷ es)
    → (h' : Heap) × (unlink e.address (node i e (some d.address) (head es none)) h ≡ some h')
      × Seg h' i none (ds ++ d ∷ es) none
      × Outside i h h'
      × (h' e.address ≡ none)
      × SameOutside (ds ++ d ∷ e ∷ es) h h'
unfolding unlink
unlink_lem h i ds d e es s u =
    let (h1, passed, seg, at_e, same) = bypass_lem (wheel_links i) h ds d e es s u in
    let sr = Seg-append_right (wheel_links i) h none ds (d ∷ e ∷ es) none s in
    let free_e : Heap → Option Heap = λ h'. some (put h' e.address none) in
    (
      put h1 e.address none,
      sym (
            and_then_assoc (set_next (some d.address) (head es none) h)
              (set_prev_if (head es none) (some d.address)) free_e)
          ∙ ap (λ o. and_then o free_e) passed,
      Seg-put (wheel_links i) h1 none (ds ++ d ∷ es) none e.address none (apart_inner ds d e es u)
          seg,
      Outside-trans i h h1 (put h1 e.address none)
          (Outside-same h h1 i none (ds ++ d ∷ e ∷ es) none s
            (λ a n. same a (without ds d e es a n)))
          (Outside-put h1 i e.address (node i e (some d.address) (head es none)) none
            (at_e ∙ sr.1.0) refl),
      put-eq h1 e.address none,
      λ a n.
          put-ne h1 e.address a none (NotIn-append a ds (d ∷ e ∷ es) n).1.1.0
          ∙ same a (without ds d e es a n),
    )
