-- ===== src/Demo/Reading.antt =====
-- demo.h, pure_ET, pure_LT, readout_LT and Reset_ET: the programs that watch the input of the terminal.
use linux_network.Base.{
  ℕ, zero, suc, ◌-◌, ◌≤◌, ◌≡◌, refl, ap, ◌∙◌, Bool, true, false, ◌&&◌, none, some, List, [], ◌∷◌,
  ◌++◌, leb, if◌then◌else◌, arith,
}
use linux_network.Demo.{
  stdin, Trigger, level, edge, Interest, input, output, Action, add, modify, read, print_line,
  print_text, Program, for_each, pure_lt, reset_et,
}
use linux_network.Demo.Kernel.{
  Model, Kernel, itself, Moment, arrives, turn, drive, greetings, greetings-view,
}

-- The input of a terminal in canonical mode: the lengths of the lines that wait, and whether there has
-- been news of them since they were last reported.
pub record InputView : Type 0 where
  pub trigger : Trigger
  pub lines : List ℕ
  pub news : Bool

abbrev pub waits : List ℕ → Bool
waits [] = false
waits (l ∷ ls) = true

-- A read of `n` bytes takes from the first line only, all of it if it is not longer.
abbrev pub take_line : ℕ → List ℕ → List ℕ
take_line n [] = []
take_line n (l ∷ ls) = if leb l n then ls else (l - n) ∷ ls

abbrev pub reports : Trigger → List ℕ → Bool → Bool
reports level ls news = waits ls
reports edge ls news = news && waits ls

abbrev pub watch : Interest → InputView → InputView
watch (input t) v = record v { trigger = t; news = waits v.lines }
watch (output t) v = v

abbrev pub act_on_input : Action → InputView → InputView
act_on_input (add fd i) v = watch i v
act_on_input (modify fd i) v = watch i v
act_on_input (read fd n) v = record v { lines = take_line n v.lines }
act_on_input print_line v = v
act_on_input print_text v = v

-- epoll on the input of a terminal: level triggering reports while there is something to read, edge
-- triggering reports news once, and EPOLL_CTL_ADD and EPOLL_CTL_MOD make news of what is there.
abbrev pub terminal_input : Model
terminal_input = record {
  View = InputView;
  on_action = act_on_input;
  on_wait =
      λ v. if reports v.trigger v.lines v.news then some (record v { news = false }) else none;
  on_arrive = λ n v. record v { lines = v.lines ++ suc n ∷ []; news = true };
}

-- The turns behind the first arrival.
abbrev pub turns : List Moment → ℕ
turns [] = 0
turns (arrives n ∷ ms) = turns ms
turns (turn ∷ ms) = suc (turns ms)

abbrev pub turns_behind : List Moment → ℕ
turns_behind [] = 0
turns_behind (arrives n ∷ ms) = turns ms
turns_behind (turn ∷ ms) = turns_behind ms

-- The turns with an arrival since the turn before.
abbrev pub bursts : Bool → List Moment → ℕ
bursts news [] = 0
bursts news (arrives n ∷ ms) = bursts true ms
bursts true (turn ∷ ms) = suc (bursts false ms)
bursts false (turn ∷ ms) = bursts false ms

-- The turns in which a line waits, where each takes one; `k` lines wait.
abbrev pub served : ℕ → List Moment → ℕ
served k [] = 0
served k (arrives n ∷ ms) = served (suc k) ms
served zero (turn ∷ ms) = served zero ms
served (suc k) (turn ∷ ms) = suc (served k ms)

-- No line is longer than one read.
abbrev pub Short : List Moment → Type 0
Short [] = Unit
Short (arrives n ∷ ms) = (suc n ≤ 1024) × Short ms
Short (turn ∷ ms) = Short ms

abbrev model_drive : Program → List Moment → InputView → ℕ
model_drive = drive terminal_input (itself terminal_input) stdin

abbrev seen : Trigger → List ℕ → Bool → InputView
seen t ls b = record { trigger = t; lines = ls; news = b }

-- Something to read.
waits-arrived : (ls : List ℕ) (l : ℕ) → waits (ls ++ l ∷ []) ≡ true
waits-arrived [] l = refl
waits-arrived (x ∷ ls) l = refl

pure_lt-turns :
    (ls : List ℕ) (b : Bool) (ms : List Moment)
    → waits ls ≡ true
    → model_drive pure_lt ms (seen level ls b) ≡ turns ms
unfolding for_each
pure_lt-turns ls b [] w = refl
pure_lt-turns ls b (arrives n ∷ ms) w =
    pure_lt-turns (ls ++ suc n ∷ []) true ms (waits-arrived ls (suc n))
pure_lt-turns ls b (turn ∷ ms) w = rw w (omega (arith, pure_lt-turns ls false ms w))

pure_lt-turns_behind :
    (b : Bool) (ms : List Moment) → model_drive pure_lt ms (seen level [] b) ≡ turns_behind ms
pure_lt-turns_behind b [] = refl
pure_lt-turns_behind b (arrives n ∷ ms) = pure_lt-turns (suc n ∷ []) true ms refl
pure_lt-turns_behind b (turn ∷ ms) = pure_lt-turns_behind b ms

reset_et-turns :
    (ls : List ℕ) (ms : List Moment)
    → waits ls ≡ true
    → model_drive reset_et ms (seen edge ls true) ≡ turns ms
unfolding for_each
reset_et-turns ls [] w = refl
reset_et-turns ls (arrives n ∷ ms) w =
    reset_et-turns (ls ++ suc n ∷ []) ms (waits-arrived ls (suc n))
reset_et-turns ls (turn ∷ ms) w = rw w (rw w (omega (arith, reset_et-turns ls ms w)))

reset_et-turns_behind :
    (ms : List Moment) → model_drive reset_et ms (seen edge [] false) ≡ turns_behind ms
reset_et-turns_behind [] = refl
reset_et-turns_behind (arrives n ∷ ms) = reset_et-turns (suc n ∷ []) ms refl
reset_et-turns_behind (turn ∷ ms) = reset_et-turns_behind ms

module _ (k : Kernel terminal_input) where
  start :
      (p : Program) (t : Trigger) (ms : List Moment) (s : k.State)
      → p.setup ≡ add stdin (input t)
      → (k.view s).lines ≡ []
      → greetings terminal_input k stdin p ms s ≡ model_drive p ms (seen t [] false)
  start p t ms s set empty =
      greetings-view terminal_input k stdin p ms s
      ∙ ap (λ a. model_drive p ms (act_on_input a (k.view s))) set
      ∙ ap (λ a. model_drive p ms (seen t a (waits a))) empty

  -- Where nothing waits to be read at the start, pure_LT and Reset_ET greet in every turn from the first
  -- arrival on, and so for ever: level triggering, and edge triggering renewed by EPOLL_CTL_MOD, come to
  -- the same.
  pub pure_lt-reset_et :
      (ms : List Moment) (s : k.State)
      → (k.view s).lines ≡ []
      → (greetings terminal_input k stdin pure_lt ms s ≡ turns_behind ms)
        × (greetings terminal_input k stdin reset_et ms s ≡ turns_behind ms)
  pure_lt-reset_et ms s empty = (
    start pure_lt level ms s refl empty ∙ pure_lt-turns_behind false ms,
    start reset_et edge ms s refl empty ∙ reset_et-turns_behind ms,
  )
