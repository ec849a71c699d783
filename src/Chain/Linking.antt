-- ===== src/Chain/Linking.antt =====
-- Putting a node into a linked list: behind a given node, and in front.
use linux_network.Base.{ℕ, ◌≡◌, sym, ap, ◌∙◌, Option, none, some, List, [], ◌∷◌, ◌++◌}
use linux_network.Chain.{
  Ptr, Links, put, put-eq, put-ne, and_then, and_then_assoc, modify, modify_if, modify-some,
}
use linux_network.Chain.Addresses.{
  Entry, entry, head, last, NotIn, NotIn-append, Distinct, Apart, append-Distinct, Distinct-append,
  Apart-head, Apart-tail,
}
use linux_network.Chain.Segments.{
  SameOutside, SameBut, Seg, Seg-put, Seg-Apart, Seg-append_left, Seg-append_right, Seg-append,
  relink_prev,
}

module _ {V : Type 0} where
  Apart-add :
      (ds : List (Entry V)) (d e : Entry V) (es : List (Entry V))
      → Apart ds (d ∷ es)
      → NotIn e.address ds
      → Apart ds (d ∷ e ∷ es)
  Apart-add [] d e es a n = tt
  Apart-add (x ∷ ds) d e es a n = ((a.0.0, (λ y. n.0 (sym y), a.0.1)), Apart-add ds d e es a.1 n.1)

  pub Distinct-link :
      (ds : List (Entry V)) (d e : Entry V) (es : List (Entry V))
      → Distinct (ds ++ d ∷ es)
      → NotIn e.address (ds ++ d ∷ es)
      → Distinct (ds ++ d ∷ e ∷ es)
  Distinct-link ds d e es u n =
      let (apart, left, right) = Distinct-append ds (d ∷ es) u in
      let (before, behind) = NotIn-append e.address ds (d ∷ es) n in
      append-Distinct ds (d ∷ e ∷ es) (Apart-add ds d e es apart before) left
        ((λ y. behind.0 (sym y), right.0), (behind.1, right.1))

module _ {N V : Type 0} (l : Links N V) where
  -- `p->next = a; a->prev = p; a->next = q; if (q) q->prev = a;`
  abbrev pub link : Ptr → ℕ → Ptr → (ℕ → Option N) → Option (ℕ → Option N)
  link p a q h = and_then (modify p (λ t. l.with_next t (some a)) h) (λ h1.
      and_then (modify (some a) (λ t. l.with_prev t p) h1) (λ h2.
        and_then (modify (some a) (λ t. l.with_next t q) h2)
          (λ h3. modify_if q (λ t. l.with_prev t (some a)) h3)))

  pub link-and_then :
      {C : Type 0} (p : Ptr) (a : ℕ) (q : Ptr) (h : ℕ → Option N) (f : (ℕ → Option N) → Option C)
      → and_then (link p a q h) f
        ≡ and_then (modify p (λ t. l.with_next t (some a)) h) (λ h1.
          and_then (modify (some a) (λ t. l.with_prev t p) h1) (λ h2.
            and_then
              (modify (some a) (λ t. l.with_next t q) h2)
              (λ h3. and_then (modify_if q (λ t. l.with_prev t (some a)) h3) f)))
  link-and_then p a q h f = and_then_assoc (modify p (λ t. l.with_next t (some a)) h) _ f ∙ (λ i.
      and_then (modify p (λ t. l.with_next t (some a)) h) (λ h1.
        (and_then_assoc (modify (some a) (λ t. l.with_prev t p) h1) _ f ∙ (λ j.
            and_then (modify (some a) (λ t. l.with_prev t p) h1) (λ h2.
              and_then_assoc (modify (some a) (λ t. l.with_next t q) h2)
                (λ h3. modify_if q (λ t. l.with_prev t (some a)) h3) f j)))
          i))

  pub link_lem :
      (h : ℕ → Option N) (ds : List (Entry V)) (d : Entry V) (a : ℕ) (v : V) (p q : Ptr)
      (es : List (Entry V))
      → Seg l h none (ds ++ d ∷ es) none
      → Distinct (ds ++ d ∷ es)
      → h a ≡ some (l.node v p q)
      → NotIn a (ds ++ d ∷ es)
      → (h' : ℕ → Option N) × (link (some d.address) a (head es none) h ≡ some h')
        × Seg l h' none (ds ++ d ∷ entry a v ∷ es) none
        × SameBut a (ds ++ d ∷ es) h h'
  link_lem h ds d a v p q es s u at_a new = (
    step.0,
    ap (λ o. and_then o rest1) wrote_d
        ∙ ap (λ o. and_then o rest2) wrote_prev
        ∙ ap (λ o. and_then o rest3) wrote_next
        ∙ step.1,
    Seg-append l step.0 none ds (d ∷ entry a v ∷ es) none left (
      step.3 d.address parts.2.0
          ∙ put-ne h2 a d.address _ (λ x. apart_a.1.0 (sym x))
          ∙ put-ne h1 a d.address _ (λ x. apart_a.1.0 (sym x))
          ∙ put-eq h d.address vd,
      (step.3 a apart_a.1.1 ∙ put-eq h2 a va, step.2),
    ),
    λ b ne n.
        let away = (NotIn-append b ds (d ∷ es) n).1 in
        step.3 b away.1
        ∙ put-ne h2 a b va ne
        ∙ put-ne h1 a b va' ne
        ∙ put-ne h d.address b vd away.0,
  )
    where
      apart_a : NotIn a ds × NotIn a (d ∷ es)
      apart_a = NotIn-append a ds (d ∷ es) new

      parts : Apart ds (d ∷ es) × Distinct ds × Distinct (d ∷ es)
      parts = Distinct-append ds (d ∷ es) u

      sr : Seg l h (last none ds) (d ∷ es) none
      sr = Seg-append_right l h none ds (d ∷ es) none s

      vd : Option N
      vd = some (l.node d.value (last none ds) (some a))

      va : Option N
      va = some (l.node v (some d.address) (head es none))

      va' : Option N
      va' = some (l.node v (some d.address) q)

      h1 : ℕ → Option N
      h1 = put h d.address vd

      h2 : ℕ → Option N
      h2 = put h1 a va'

      h3 : ℕ → Option N
      h3 = put h2 a va

      rest3 : (ℕ → Option N) → Option (ℕ → Option N)
      rest3 g = modify_if (head es none) (λ t. l.with_prev t (some a)) g

      rest2 : (ℕ → Option N) → Option (ℕ → Option N)
      rest2 g = and_then (modify (some a) (λ t. l.with_next t (head es none)) g) rest3

      rest1 : (ℕ → Option N) → Option (ℕ → Option N)
      rest1 g = and_then (modify (some a) (λ t. l.with_prev t (some d.address)) g) rest2

      wrote_d : modify (some d.address) (λ t. l.with_next t (some a)) h ≡ some h1
      wrote_d =
          modify-some h d.address _ _ sr.0
          ∙ ap (λ t. some (put h d.address (some t)))
              (l.next-node d.value (last none ds) (head es none) (some a))

      wrote_prev : modify (some a) (λ t. l.with_prev t (some d.address)) h1 ≡ some h2
      wrote_prev =
          modify-some h1 a _ _ (put-ne h d.address a vd apart_a.1.0 ∙ at_a)
          ∙ ap (λ t. some (put h1 a (some t))) (l.prev-node v p q (some d.address))

      wrote_next : modify (some a) (λ t. l.with_next t (head es none)) h2 ≡ some h3
      wrote_next =
          modify-some h2 a _ _ (put-eq h1 a va')
          ∙ ap (λ t. some (put h2 a (some t))) (l.next-node v (some d.address) q (head es none))

      step :
          (h' : ℕ → Option N) × (modify_if (head es none) (λ t. l.with_prev t (some a)) h3
            ≡ some h')
          × Seg l h' (some a) es none
          × SameOutside es h3 h'
      step =
          relink_prev l h3 (some d.address) (some a) es
            (Seg-put l h2 (some d.address) es none a va apart_a.1.1 (
              Seg-put l h1 (some d.address) es none a va' apart_a.1.1
                (Seg-put l h (some d.address) es none d.address vd parts.2.0 sr.1)))
            parts.2.1

      left : Seg l step.0 none ds (some d.address)
      left = Seg-Apart l h3 step.0 none ds es (some d.address) (Apart-tail ds d es parts.0) step.3 (
          Seg-put l h2 none ds (some d.address) a va apart_a.0 (
            Seg-put l h1 none ds (some d.address) a va' apart_a.0 (
              Seg-put l h none ds (some d.address) d.address vd (Apart-head ds d es parts.0)
                (Seg-append_left l h none ds (d ∷ es) none s))))

  -- In front of a list that is not empty: `a->next = b; b->prev = a;`
  pub link_front_lem :
      (h : ℕ → Option N) (a : ℕ) (v : V) (q : Ptr) (e : Entry V) (es : List (Entry V))
      → Seg l h none (e ∷ es) none
      → Distinct (e ∷ es)
      → h a ≡ some (l.node v none q)
      → NotIn a (e ∷ es)
      → (h' : ℕ → Option N) × (and_then
            (modify (some a) (λ t. l.with_next t (some e.address)) h)
            (modify (some e.address) (λ t. l.with_prev t (some a)))
          ≡ some h')
        × Seg l h' none (entry a v ∷ e ∷ es) none
        × SameBut a (e ∷ es) h h'
  link_front_lem h a v q e es s u at_a new =
      let va = some (l.node v none (some e.address)) in
      let h1 = put h a va in
      let (h', wrote, seg, same) =
        relink_prev l h1 none (some a) (e ∷ es) (Seg-put l h none (e ∷ es) none a va new s) u in
      (
        h',
        ap (λ o. and_then o (modify (some e.address) (λ t. l.with_prev t (some a))))
              (modify-some h a _ _ at_a
                ∙ ap (λ t. some (put h a (some t))) (l.next-node v none q (some e.address)))
            ∙ wrote,
        (same a new ∙ put-eq h a va, seg),
        λ b ne n. same b n ∙ put-ne h a b va ne,
      )
