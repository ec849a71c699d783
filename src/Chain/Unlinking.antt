-- ===== src/Chain/Unlinking.antt =====
-- Taking a node out of a linked list: the node before it and the node behind it are linked.
use linux_network.Base.{ℕ, ◌≡◌, sym, ap, ◌∙◌, Option, none, some, List, ◌∷◌, ◌++◌}
use linux_network.Chain.{
  Ptr, Links, put, put-eq, put-ne, and_then, modify, modify_if, modify-some, free, free-some,
}
use linux_network.Chain.Addresses.{
  Entry, head, last, NotIn, append-NotIn, NotIn-append, Distinct, Apart, Distinct-append,
  Apart-head, Apart-tail,
}
use linux_network.Chain.Segments.{
  SameOutside, SameBut, Seg, Seg-put, Seg-Apart, Seg-append_left, Seg-append_right, Seg-append,
  relink_prev,
}

pub apart_inner :
    {V : Type 0} (ds : List (Entry V)) (d e : Entry V) (es : List (Entry V))
    → Distinct (ds ++ d ∷ e ∷ es)
    → NotIn e.address (ds ++ d ∷ es)
apart_inner ds d e es u =
    let (apart, left, right) = Distinct-append ds (d ∷ e ∷ es) u in
    append-NotIn e.address ds (d ∷ es) (Apart-head ds e es (Apart-tail ds d (e ∷ es) apart))
      ((λ x. right.0.0 (sym x)), right.1.0)

module _ {N V : Type 0} (l : Links N V) where
  -- `if (p) p->next = q; if (q) q->prev = p;`, the first test left out.
  abbrev pub bypass : Ptr → Ptr → (ℕ → Option N) → Option (ℕ → Option N)
  bypass p q h =
      and_then (modify p (λ t. l.with_next t q) h) (λ h'. modify_if q (λ t. l.with_prev t p) h')

  -- The node `e` between `d` and `es` is passed by; its own links stay.
  pub bypass_lem :
      (h : ℕ → Option N) (ds : List (Entry V)) (d e : Entry V) (es : List (Entry V))
      → Seg l h none (ds ++ d ∷ e ∷ es) none
      → Distinct (ds ++ d ∷ e ∷ es)
      → (h' : ℕ → Option N) × (bypass (some d.address) (head es none) h ≡ some h')
        × Seg l h' none (ds ++ d ∷ es) none
        × (h' e.address ≡ h e.address)
        × SameOutside (ds ++ d ∷ es) h h'
  bypass_lem h ds d e es s u = (
    h2,
    ap (λ o. and_then o (λ h'. modify_if (head es none) (λ t. l.with_prev t (some d.address)) h'))
          wrote_next
        ∙ step.1,
    Seg-append l h2 none ds (d ∷ es) none left (at_d, step.2),
    step.3 e.address parts.2.1.0 ∙ put-ne h d.address e.address v (λ x. parts.2.0.0 (sym x)),
    λ a n.
        let away = (NotIn-append a ds (d ∷ es) n).1 in
        step.3 a away.1 ∙ put-ne h d.address a v away.0,
  )
    where
      v : Option N
      v = some (l.node d.value (last none ds) (head es none))

      h1 : ℕ → Option N
      h1 = put h d.address v

      sr : Seg l h (last none ds) (d ∷ e ∷ es) none
      sr = Seg-append_right l h none ds (d ∷ e ∷ es) none s

      parts : Apart ds (d ∷ e ∷ es) × Distinct ds × Distinct (d ∷ e ∷ es)
      parts = Distinct-append ds (d ∷ e ∷ es) u

      wrote_next : modify (some d.address) (λ t. l.with_next t (head es none)) h ≡ some h1
      wrote_next =
          modify-some h d.address (λ t. l.with_next t (head es none))
            (l.node d.value (last none ds) (some e.address)) sr.0
          ∙ ap (λ t. some (put h d.address (some t)))
              (l.next-node d.value (last none ds) (some e.address) (head es none))

      step :
          (h' : ℕ → Option N) × (modify_if (head es none) (λ t. l.with_prev t (some d.address)) h1
            ≡ some h')
          × Seg l h' (some d.address) es none
          × SameOutside es h1 h'
      step =
          relink_prev l h1 (some e.address) (some d.address) es
            (Seg-put l h (some e.address) es none d.address v parts.2.0.1 sr.1.1) parts.2.1.1

      h2 : ℕ → Option N
      h2 = step.0

      at_d : h2 d.address ≡ v
      at_d = step.3 d.address parts.2.0.1 ∙ put-eq h d.address v

      left : Seg l h2 none ds (some d.address)
      left =
          Seg-Apart l h1 h2 none ds es (some d.address)
            (Apart-tail ds e es (Apart-tail ds d (e ∷ es) parts.0)) step.3
            (Seg-put l h none ds (some d.address) d.address v (Apart-head ds d (e ∷ es) parts.0)
              (Seg-append_left l h none ds (d ∷ e ∷ es) none s))

  -- The same, and then `e` is freed.
  pub bypass-free :
      (h : ℕ → Option N) (ds : List (Entry V)) (d e : Entry V) (es : List (Entry V))
      → Seg l h none (ds ++ d ∷ e ∷ es) none
      → Distinct (ds ++ d ∷ e ∷ es)
      → (h' : ℕ → Option N) × (and_then (bypass (some d.address) (head es none) h) (free e.address)
          ≡ some h')
        × Seg l h' none (ds ++ d ∷ es) none
        × (h' e.address ≡ none)
        × SameBut e.address (ds ++ d ∷ es) h h'
  bypass-free h ds d e es s u =
      let (h1, passed, seg, at_e, same) = bypass_lem h ds d e es s u in
      let sr = Seg-append_right l h none ds (d ∷ e ∷ es) none s in
      (
        put h1 e.address none,
        ap (λ o. and_then o (free e.address)) passed ∙ free-some h1 e.address _ (at_e ∙ sr.1.0),
        Seg-put l h1 none (ds ++ d ∷ es) none e.address none (apart_inner ds d e es u) seg,
        put-eq h1 e.address none,
        λ b ne n. put-ne h1 e.address b none ne ∙ same b n,
      )

  -- The first node, freed: `if (q) q->prev = nullptr; delete p;`
  pub first-free :
      (h : ℕ → Option N) (e : Entry V) (es : List (Entry V))
      → Seg l h none (e ∷ es) none
      → Distinct (e ∷ es)
      → (h' : ℕ → Option N) × (and_then
            (modify_if (head es none) (λ t. l.with_prev t none) h)
            (free e.address)
          ≡ some h')
        × Seg l h' none es none
        × (h' e.address ≡ none)
        × SameBut e.address es h h'
  first-free h e es s u =
      let (h1, wrote, seg, same) = relink_prev l h (some e.address) none es s.1 u.1 in
      (
        put h1 e.address none,
        ap (λ o. and_then o (free e.address)) wrote
            ∙ free-some h1 e.address _ (same e.address u.0 ∙ s.0),
        Seg-put l h1 none es none e.address none u.0 seg,
        put-eq h1 e.address none,
        λ b ne n. put-ne h1 e.address b none ne ∙ same b n,
      )
