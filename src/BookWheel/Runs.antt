-- ===== src/BookWheel/Runs.antt =====
-- cpt_11_4_1.h against time_wheel.h: a caller of either class, who can make no use of what add_timer returns.
use linux_network.Base.{
  ℕ, ◌≡◌, refl, ap, ◌∙◌, Option, none, some, List, [], ◌∷◌, ◌++◌, ℤ, pos, negsuc, Bool, true, false,
  ◌&&◌, if◌then◌else◌, Bool-cases, inl, inr, arith,
}
use linux_network.Chain.{Ptr, and_then}
use linux_network.TimeWheel
use linux_network.TimeWheel.{Wheel}
use linux_network.BookWheel
use linux_network.BookWheel.Same.{add_timer-same, del_timer-same}
use linux_network.BookWheel.SameTick.{all_set, called, tick-same}
use linux_network.BookWheel.Destroying.{destroy-same}

-- What a caller does to a wheel: `add_timer` with the address that `new` gives, and the others with fuel.
pub data Op : Type 0 where
  add : ℤ → ℕ → Op
  del : Ptr → Op
  turn : ℕ → Op
  drop : ℕ → Op

-- The operations of a class of wheels, its answers to add_timer left out.
pub record Operations : Type 0 where
  pub add_timer : ℤ → ℕ → Wheel → Option Wheel
  pub del_timer : Ptr → Wheel → Option Wheel
  pub tick : ℕ → Wheel → Option (Wheel × List ℕ)
  pub destroy : ℕ → Wheel → Option Wheel

abbrev pub time_wheel : Operations
time_wheel = record {
  add_timer = λ t a w. and_then (TimeWheel.add_timer t a w) (λ (w', p). some w');
  del_timer = TimeWheel.del_timer;
  tick = TimeWheel.tick;
  destroy = TimeWheel.destroy;
}

-- With the timers whose callback is set.
abbrev pub book_wheel : (ℕ → Bool) → Operations
book_wheel is_set = record {
  add_timer = λ t a w. and_then (BookWheel.add_timer t a w) (λ (w', p). some w');
  del_timer = BookWheel.del_timer;
  tick = BookWheel.tick is_set;
  destroy = BookWheel.destroy;
}

abbrev pub step : Operations → Op → Wheel → Option (Wheel × List ℕ)
step ops (add t a) w = and_then (ops.add_timer t a w) (λ w'. some (w', []))
step ops (del p) w = and_then (ops.del_timer p w) (λ w'. some (w', []))
step ops (turn fuel) w = ops.tick fuel w
step ops (drop fuel) w = and_then (ops.destroy fuel w) (λ w'. some (w', []))

abbrev join : List ℕ → Option (Wheel × List ℕ) → Option (Wheel × List ℕ)
join fired none = none
join fired (some (w, later)) = some (w, fired ++ later)

-- A sequence of operations: the wheel behind it, and the callbacks that have run.
abbrev pub run : Operations → List Op → Wheel → Option (Wheel × List ℕ)
run ops [] w = some (w, [])
run ops (o ∷ os) w = and_then (step ops o w) (λ (w1, fired). join fired (run ops os w1))

-- Does add_timer make a timer?
abbrev pub makes : List Op → Bool
makes [] = false
makes (add (pos timeout) a ∷ os) = true
makes (add (negsuc n) a ∷ os) = makes os
makes (del p ∷ os) = makes os
makes (turn fuel ∷ os) = makes os
makes (drop fuel ∷ os) = makes os

module _ (is_set : ℕ → Bool) where
  quiet :
      (m : Option Wheel)
      → ◌≡◌ {A = Option (Wheel × List ℕ)}
          (and_then m (λ w'. some (w', [])))
          (and_then (and_then m (λ w'. some (w', []))) (called is_set))
  quiet none = refl
  quiet (some w) = refl

  all_set-append :
      (xs ys : List ℕ) → all_set is_set (xs ++ ys) ≡ (all_set is_set xs && all_set is_set ys)
  all_set-append [] ys = refl
  all_set-append (x ∷ xs) ys = ground (arith, all_set-append xs ys)

  joined :
      (w1 : Wheel) (fired : List ℕ) (r : Option (Wheel × List ℕ))
      → and_then (called is_set (w1, fired)) (λ (w2, f). join f (and_then r (called is_set)))
        ≡ and_then (join fired r) (called is_set)
  joined w1 fired none = elim (Bool-cases (all_set is_set fired)) [
    | inl t ↦ rw t refl
    | inr f ↦ rw f refl
  ]
  joined w1 fired (some (w2, later)) = elim (Bool-cases (all_set is_set fired)) [
    | inl t ↦ elim (Bool-cases (all_set is_set later)) [
      | inl l ↦ rw (t, all_set-append fired later, t, l) refl
      | inr l ↦ rw (t, all_set-append fired later, t, l) refl
    ]
    | inr f ↦ rw (f, all_set-append fired later, f) refl
  ]

  behind :
      (o : Op) (os : List Op) (w : Wheel)
      → step (book_wheel is_set) o w ≡ and_then (step time_wheel o w) (called is_set)
      → ((w1 : Wheel)
          → run (book_wheel is_set) os w1 ≡ and_then (run time_wheel os w1) (called is_set))
      → run (book_wheel is_set) (o ∷ os) w ≡ and_then (run time_wheel (o ∷ os) w) (called is_set)
  behind o os w e rest =
      ap (λ r. and_then r (λ (w1, fired). join fired (run (book_wheel is_set) os w1))) e
      ∙ go (step time_wheel o w)
    where
      inside :
          (w1 : Wheel) (fired : List ℕ)
          → and_then (called is_set (w1, fired)) (λ (w2, f). join f (run (book_wheel is_set) os w2))
            ≡ and_then (join fired (run time_wheel os w1)) (called is_set)
      inside w1 fired = elim (Bool-cases (all_set is_set fired)) [
        | inl t ↦
            let one = joined w1 fired (run time_wheel os w1) in
            rw t (ap (join fired) (rest w1) ∙ (rw t at one))
        | inr f ↦ let one = joined w1 fired (run time_wheel os w1) in rw f (rw f at one)
      ]

      go :
          (r : Option (Wheel × List ℕ))
          → and_then
              (and_then r (called is_set))
              (λ (w1, fired). join fired (run (book_wheel is_set) os w1))
            ≡ and_then
                (and_then r (λ (w1, fired). join fired (run time_wheel os w1)))
                (called is_set)
      go none = refl
      go (some (w1, fired)) = inside w1 fired

  run-called :
      (os : List Op) (w : Wheel)
      → makes os ≡ false
      → run (book_wheel is_set) os w ≡ and_then (run time_wheel os w) (called is_set)
  unfolding TimeWheel.add_timer
  run-called [] w none_made = refl
  run-called (add (pos timeout) a ∷ os) w none_made = absurd cc
  run-called (add (negsuc n) a ∷ os) w none_made =
      behind (add (negsuc n) a) os w
        (ap (λ m. and_then (and_then m (λ (w', p). some w')) (λ w'. some (w', [])))
          (add_timer-same (negsuc n) a w))
        (λ w1. run-called os w1 none_made)
  run-called (del p ∷ os) w none_made =
      behind (del p) os w
        (ap (λ m. and_then m (λ w'. some (w', []))) (del_timer-same p w)
          ∙ quiet (TimeWheel.del_timer p w))
        (λ w1. run-called os w1 none_made)
  run-called (turn fuel ∷ os) w none_made =
      behind (turn fuel) os w (tick-same is_set fuel w) (λ w1. run-called os w1 none_made)
  run-called (drop fuel ∷ os) w none_made =
      behind (drop fuel) os w
        (ap (λ m. and_then m (λ w'. some (w', []))) (destroy-same fuel w)
          ∙ quiet (TimeWheel.destroy fuel w))
        (λ w1. run-called os w1 none_made)

  stuck :
      (r : Option (Wheel × List ℕ)) (os : List Op)
      → ((w1 : Wheel) → run (book_wheel is_set) os w1 ≡ none)
      → and_then r (λ (w1, fired). join fired (run (book_wheel is_set) os w1)) ≡ none
  stuck none os rest = refl
  stuck (some (w1, fired)) os rest = ap (join fired) (rest w1)

  run-made : (os : List Op) (w : Wheel) → makes os ≡ true → run (book_wheel is_set) os w ≡ none
  run-made [] w made = absurd cc
  run-made (add (pos timeout) a ∷ os) w made =
      ap
        (λ m.
          and_then (and_then (and_then m (λ (w', p). some w')) (λ w'. some (w', [])))
            (λ (w1, fired). join fired (run (book_wheel is_set) os w1)))
        (add_timer-same (pos timeout) a w)
  run-made (add (negsuc n) a ∷ os) w made =
      stuck (step (book_wheel is_set) (add (negsuc n) a) w) os (λ w1. run-made os w1 made)
  run-made (del p ∷ os) w made =
      stuck (step (book_wheel is_set) (del p) w) os (λ w1. run-made os w1 made)
  run-made (turn fuel ∷ os) w made =
      stuck (step (book_wheel is_set) (turn fuel) w) os (λ w1. run-made os w1 made)
  run-made (drop fuel ∷ os) w made =
      stuck (step (book_wheel is_set) (drop fuel) w) os (λ w1. run-made os w1 made)

  -- Any sequence of add_timer, del_timer, tick and the destructor, on any wheel. Where an add_timer has a
  -- timeout that is not negative, the class of cpt_11_4_1.h has no result, whatever else is called. Where
  -- none has, it does what the class of time_wheel.h does, with the same faults, the same wheel and the
  -- same callbacks in the same order, provided that every callback that runs there has been set; if one
  -- has not, it has no result.
  pub run-same :
      (os : List Op) (w : Wheel)
      → run (book_wheel is_set) os w
        ≡ (if makes os then none else and_then (run time_wheel os w) (called is_set))
  run-same os w = elim (Bool-cases (makes os)) [
    | inl made ↦ rw made (run-made os w made)
    | inr none_made ↦ rw none_made (run-called os w none_made)
  ]
