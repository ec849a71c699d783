-- ===== src/Chain/Revaluing.antt =====
-- Changing the value of a node of a linked list.
use linux_network.Base.{ℕ, ◌≡◌, refl, Option, none, some, List, [], ◌∷◌, ◌++◌}
use linux_network.Chain.{Links, put, put-eq}
use linux_network.Chain.Addresses.{
  Entry, entry, head, last, Distinct, Apart, Distinct-append, append-Distinct, Apart-head,
}
use linux_network.Chain.Segments.{Seg, Seg-put, Seg-append_left, Seg-append_right, Seg-append}

module _ {V : Type 0} (ds : List (Entry V)) (a : ℕ) (v v' : V) (es : List (Entry V)) where
  pub head-revalue : head (ds ++ entry a v ∷ es) none ≡ head (ds ++ entry a v' ∷ es) none
  head-revalue = go ds
    where
      go :
          (xs : List (Entry V))
          → head (xs ++ entry a v ∷ es) none ≡ head (xs ++ entry a v' ∷ es) none
      go [] = refl
      go (x ∷ xs) = refl

  pub Distinct-revalue : Distinct (ds ++ entry a v ∷ es) → Distinct (ds ++ entry a v' ∷ es)
  Distinct-revalue u =
      let (apart, left, right) = Distinct-append ds (entry a v ∷ es) u in
      append-Distinct ds (entry a v' ∷ es) (go ds apart) left right
    where
      go : (xs : List (Entry V)) → Apart xs (entry a v ∷ es) → Apart xs (entry a v' ∷ es)
      go [] p = tt
      go (x ∷ xs) p = (p.0, go xs p.1)

  pub Seg-revalue :
      {N : Type 0} (l : Links N V) (h : ℕ → Option N)
      → Seg l h none (ds ++ entry a v ∷ es) none
      → Distinct (ds ++ entry a v ∷ es)
      → Seg l
          (put h a (some (l.node v' (last none ds) (head es none))))
          none
          (ds ++ entry a v' ∷ es)
          none
  Seg-revalue l h s u =
      let (apart, left, right) = Distinct-append ds (entry a v ∷ es) u in
      let w = some (l.node v' (last none ds) (head es none)) in
      Seg-append l (put h a w) none ds (entry a v' ∷ es) none
        (Seg-put l h none ds (some a) a w (Apart-head ds (entry a v) es apart)
          (Seg-append_left l h none ds (entry a v ∷ es) none s))
        (
          put-eq h a w,
          Seg-put l h (some a) es none a w right.0
              (Seg-append_right l h none ds (entry a v ∷ es) none s).1,
        )
