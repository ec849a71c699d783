-- ===== src/TimeWheel/Countdown.antt =====
-- time_wheel.h: how a tick brings each timer nearer.
use linux_network.Base.{
  number-cases, ℕ, zero, suc, ◌+◌, ◌-◌, ◌*◌, ◌%◌, ◌≤◌, ◌<◌, ◌≡◌, ◌≢◌, refl, sym, ap, ◌∙◌, subst,
  inl, inr, none, List, length, arith,
}
use mathlib.Core.Option.{some-injective}
use linux_network.Chain.{put-eq, put-ne}
use linux_network.Chain.Addresses.{entry}
use linux_network.TimeWheel.{Wheel, put, slot_count}
use linux_network.TimeWheel.Segments.{Entry}
use linux_network.TimeWheel.Ticking.{aged, due}
use linux_network.TimeWheel.Wheels.{Represents}
use linux_network.TimeWheel.Due.{In, In-aged, due-In, length-aged, Seg-In}

-- The timer at `a` runs in the tick behind the next `k`.
abbrev pub Waits : Wheel → (ℕ → List Entry) → ℕ → ℕ → Type 0
Waits w c a k =
    (i : ℕ) × (r : ℕ) × (i < slot_count)
    × In (entry a r) (c i)
    × (k ≡ (i + slot_count - w.cur_slot) % slot_count + slot_count * r)

abbrev pub Fuel : ℕ → (ℕ → List Entry) → Type 0
Fuel fuel c = (i : ℕ) → i < slot_count → length (c i) ≤ fuel

-- The arithmetic of a tick, for a timer of the current slot and for one of another.
same_slot :
    (i cur r k : ℕ)
    → i < slot_count
    → i ≡ cur
    → suc k ≡ (i + slot_count - cur) % slot_count + slot_count * r
    → (r' : ℕ) × (r ≡ suc r')
      × (k ≡ (i + slot_count - (cur + 1) % slot_count) % slot_count + slot_count * r')
same_slot i cur zero k lt e h = absurd (omega arith)
same_slot i cur (suc r) k lt e h = (r, refl, omega arith)

other_slot :
    (i cur r k : ℕ)
    → i < slot_count
    → cur < slot_count
    → i ≢ cur
    → suc k ≡ (i + slot_count - cur) % slot_count + slot_count * r
    → k ≡ (i + slot_count - (cur + 1) % slot_count) % slot_count + slot_count * r
other_slot i cur r k lt lc ne h = omega arith

pub not_yet :
    (w : Wheel) (c : ℕ → List Entry) (a k : ℕ)
    → Represents w c
    → Waits w c a (suc k)
    → In a (due (c w.cur_slot))
    → ⊥
not_yet w c a k rep (i, r, lt, m, eq) n =
    let (t, at, slot, rot) = Seg-In w.heap i none (c i) none a r (rep.1 i lt).1 m in
    let (t', at', slot', rot') =
      Seg-In w.heap w.cur_slot none (c w.cur_slot) none a 0 (rep.1 w.cur_slot rep.0).1
        (due-In a (c w.cur_slot) n) in
    let same : t ≡ t' = some-injective t t' (sym at ∙ at') in
    let e : i ≡ w.cur_slot = sym slot ∙ ap (λ x. x.time_slot) same ∙ slot' in
    let z : r ≡ 0 = sym rot ∙ ap (λ x. x.rotation) same ∙ rot' in
    let (r', s, h) = same_slot i w.cur_slot r k lt e eq in absurd (omega arith)

pub Waits-tick :
    (w w' : Wheel) (c : ℕ → List Entry) (a k : ℕ)
    → Represents w c
    → w'.cur_slot ≡ (w.cur_slot + 1) % slot_count
    → Waits w c a (suc k)
    → Waits w' (put c w.cur_slot (aged (c w.cur_slot))) a k
Waits-tick w w' c a k rep moved (i, r, lt, m, eq) = elim (number-cases i w.cur_slot) [
  | inl e ↦
      let (r', s, h) = same_slot i w.cur_slot r k lt e eq in
      (
        i,
        r',
        lt,
        subst (In (entry a r'))
            (sym (
              ap (put c w.cur_slot (aged (c w.cur_slot))) e
              ∙ put-eq c w.cur_slot (aged (c w.cur_slot))))
            (In-aged a r' (c w.cur_slot)
              (subst (λ x. In (entry a (suc r')) (c x)) e (subst (λ x. In (entry a x) (c i)) s m))),
        rw moved h,
      )
  | inr ne ↦ (
    i,
    r,
    lt,
    subst (In (entry a r)) (sym (put-ne c w.cur_slot i (aged (c w.cur_slot)) ne)) m,
    rw moved (other_slot i w.cur_slot r k lt rep.0 ne eq),
  )
]

pub Fuel-tick :
    (fuel : ℕ) (c : ℕ → List Entry) (j : ℕ)
    → j < slot_count
    → Fuel fuel c
    → Fuel fuel (put c j (aged (c j)))
Fuel-tick fuel c j lt f i li = elim (number-cases i j) [
  | inl e ↦
      subst (λ l. length l ≤ fuel) (sym (ap (put c j (aged (c j))) e ∙ put-eq c j (aged (c j))))
        (omega (arith, length-aged (c j), f j lt))
  | inr ne ↦ subst (λ l. length l ≤ fuel) (sym (put-ne c j i (aged (c j)) ne)) (f i li)
]
