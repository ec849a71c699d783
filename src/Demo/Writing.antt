-- ===== src/Demo/Writing.antt =====
-- demo.h, Write_ET_loop, Write_ET_hang, Write_LT_loop and Write_ET_RELoad: the programs that watch the
-- output of the terminal, which always takes more.
use linux_network.Base.{
  ℕ, ◌+◌, ◌≤◌, ◌≡◌, refl, ap, ◌∙◌, Bool, true, false, Option, none, some, List, [], ◌∷◌,
  if◌then◌else◌, arith,
}
use linux_network.Demo.{
  stdout, Trigger, level, edge, Interest, input, output, Action, add, modify, read, print_line,
  print_text, Program, for_each, write_et_loop, write_et_hang, write_lt_loop, write_et_reload,
}
use linux_network.Demo.Kernel.{
  Model, Kernel, itself, Moment, arrives, turn, drive, greetings, greetings-view,
}
use linux_network.Demo.Reading.{turns}

-- The terminal's output: whether anything has been written since it was last reported, and how much printf
-- holds back.
pub record OutputView : Type 0 where
  pub trigger : Trigger
  pub news : Bool
  pub held : ℕ

abbrev pub watch : Interest → OutputView → OutputView
watch (input t) v = v
watch (output t) v = record v { trigger = t; news = true }

abbrev pub wait_output : Trigger → OutputView → Option OutputView
wait_output level v = some (record v { news = false })
wait_output edge v = if v.news then some (record v { news = false }) else none

-- `text` is what printf does without a line end; with one it writes out what it holds.
abbrev pub act_on_output : (OutputView → OutputView) → Action → OutputView → OutputView
act_on_output text (add fd i) v = watch i v
act_on_output text (modify fd i) v = watch i v
act_on_output text (read fd n) v = v
act_on_output text print_line v = record v { news = true; held = 0 }
act_on_output text print_text v = text v

abbrev pub terminal_output : (OutputView → OutputView) → Model
terminal_output text = record {
  View = OutputView;
  on_action = act_on_output text;
  on_wait = λ v. wait_output v.trigger v;
  on_arrive = λ n v. v;
}

-- The 16 bytes of the greeting are held back where there is room for them, and the watch goes on as set.
pub record IsBuffered (text : OutputView → OutputView) : Type 0 where
  pub holds : (v : OutputView) → v.held + 16 ≤ 1024 → text v ≡ record v { held = v.held + 16 }
  pub keeps : (v : OutputView) → (text v).trigger ≡ v.trigger

-- One greeting, in the first turn.
abbrev pub first_turn : List Moment → ℕ
first_turn [] = 0
first_turn (arrives n ∷ ms) = first_turn ms
first_turn (turn ∷ ms) = 1

module _ (text : OutputView → OutputView) (buffered : IsBuffered text) where
  abbrev model_drive : Program → List Moment → OutputView → ℕ
  model_drive = drive (terminal_output text) (itself (terminal_output text)) stdout

  et_loop-turns :
      (ms : List Moment) (h : ℕ)
      → model_drive write_et_loop ms (record { trigger = edge; news = true; held = h }) ≡ turns ms
  unfolding for_each
  et_loop-turns [] h = refl
  et_loop-turns (arrives n ∷ ms) h = et_loop-turns ms h
  et_loop-turns (turn ∷ ms) h = omega (arith, et_loop-turns ms 0)

  lt_loop-turns :
      (ms : List Moment) (v : OutputView)
      → v.trigger ≡ level
      → model_drive write_lt_loop ms v ≡ turns ms
  unfolding for_each
  lt_loop-turns [] v t = refl
  lt_loop-turns (arrives n ∷ ms) v t = lt_loop-turns ms v t
  lt_loop-turns (turn ∷ ms) v t =
      let v' : OutputView = record v { trigger = level; news = false } in
      rw t (omega (arith, lt_loop-turns ms (text v') (buffered.keeps v')))

  reload-turns :
      (ms : List Moment) (v : OutputView)
      → v.trigger ≡ edge
      → v.news ≡ true
      → model_drive write_et_reload ms v ≡ turns ms
  unfolding for_each
  reload-turns [] v t n = refl
  reload-turns (arrives k ∷ ms) v t n = reload-turns ms v t n
  reload-turns (turn ∷ ms) v t n =
      let v' : OutputView = record v { trigger = edge; news = false } in
      rw (t, n)
        (omega
          (arith, reload-turns ms (record (text v') { trigger = edge; news = true }) refl refl))

  hang-blocked :
      (ms : List Moment) (v : OutputView)
      → v.trigger ≡ edge
      → v.news ≡ false
      → model_drive write_et_hang ms v ≡ 0
  hang-blocked [] v t n = refl
  hang-blocked (arrives k ∷ ms) v t n = hang-blocked ms v t n
  hang-blocked (turn ∷ ms) v t n =
      rw (t, n) (hang-blocked ms (record v { trigger = edge; news = false }) refl refl)

  hang-first_turn :
      (ms : List Moment) (h : ℕ)
      → h + 16 ≤ 1024
      → model_drive write_et_hang ms (record { trigger = edge; news = true; held = h })
        ≡ first_turn ms
  unfolding for_each
  hang-first_turn [] h le = refl
  hang-first_turn (arrives k ∷ ms) h le = hang-first_turn ms h le
  hang-first_turn (turn ∷ ms) h le =
      let v' : OutputView = record { trigger = edge; news = false; held = h } in
      ap (λ n. 1 + n)
        (ap (model_drive write_et_hang ms) (buffered.holds v' le)
          ∙ hang-blocked ms (record v' { held = h + 16 }) refl refl)

  module _ (k : Kernel (terminal_output text)) where
    abbrev pub greets : Program → List Moment → k.State → ℕ
    greets p ms s = greetings (terminal_output text) k stdout p ms s

    -- On a terminal that always takes more, where printf holds back text without a line end and its buffer
    -- has room for one greeting: Write_ET_loop, Write_LT_loop and Write_ET_RELoad greet in every turn, and
    -- so for ever, and Write_ET_hang in its first turn only.
    pub write-turns :
        (ms : List Moment) (s : k.State)
        → (k.view s).held + 16 ≤ 1024
        → (greets write_et_loop ms s ≡ turns ms)
          × (greets write_lt_loop ms s ≡ turns ms)
          × (greets write_et_reload ms s ≡ turns ms)
          × (greets write_et_hang ms s ≡ first_turn ms)
    write-turns ms s room =
        let at = λ (p : Program). greetings-view (terminal_output text) k stdout p ms s in
        let v : OutputView = k.view s in
        (
          at write_et_loop ∙ et_loop-turns ms v.held,
          at write_lt_loop ∙ lt_loop-turns ms (record v { trigger = level; news = true }) refl,
          at write_et_reload ∙ reload-turns ms (record v { trigger = edge; news = true }) refl refl,
          at write_et_hang ∙ hang-first_turn ms v.held room,
        )
