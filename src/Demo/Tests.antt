-- ===== src/Demo/Tests.antt =====
-- Runs of the programs of demo.h and instances of their theorems.
use linux_network.Base.{◌+◌, ◌≤◌, ◌≡◌, refl, true, false, List, [], ◌∷◌, ltb, if◌then◌else◌, arith}
use linux_network.Demo.{
  stdin, level, pure_lt, reset_et, write_et_loop, write_et_hang, write_lt_loop, write_et_reload,
}
use linux_network.Demo.Kernel.{itself, Moment, arrives, turn, greetings}
use linux_network.Demo.Reading.{InputView, terminal_input, pure_lt-reset_et}
use linux_network.Demo.Writing.{OutputView, terminal_output, IsBuffered, greets, write-turns}

-- A turn before there is input, six bytes, three turns, twice four bytes, a turn.
abbrev moments : List Moment
moments = turn ∷ arrives 5 ∷ turn ∷ turn ∷ turn ∷ arrives 3 ∷ arrives 3 ∷ turn ∷ []

abbrev quiet : InputView
quiet = record { trigger = level; lines = []; news = false }

pure_lt-reset_et_example :
    (greetings terminal_input (itself terminal_input) stdin pure_lt moments quiet ≡ 4)
    × (greetings terminal_input (itself terminal_input) stdin reset_et moments quiet ≡ 4)
pure_lt-reset_et_example = pure_lt-reset_et (itself terminal_input) moments quiet refl

-- printf with a buffer of 1024 bytes, which it writes out when it is full.
abbrev hold : OutputView → OutputView
hold v =
    if ltb 1024 (v.held + 16)
    then record v { held = 16; news = true }
    else record v { held = v.held + 16 }

hold-IsBuffered : IsBuffered hold
hold-IsBuffered = record { holds = fits; keeps = λ v. ground arith }
  where
    fits : (v : OutputView) → v.held + 16 ≤ 1024 → hold v ≡ record v { held = v.held + 16 }
    fits v le = ground arith

abbrev fresh : OutputView
fresh = record { trigger = level; news = false; held = 0 }

write-turns_example :
    (greets hold hold-IsBuffered (itself (terminal_output hold)) write_et_loop moments fresh ≡ 5)
    × (greets hold hold-IsBuffered (itself (terminal_output hold)) write_lt_loop moments fresh ≡ 5)
    × (greets hold hold-IsBuffered (itself (terminal_output hold)) write_et_reload moments fresh
        ≡ 5)
    × (greets hold hold-IsBuffered (itself (terminal_output hold)) write_et_hang moments fresh ≡ 1)
write-turns_example =
    write-turns hold hold-IsBuffered (itself (terminal_output hold)) moments fresh (omega arith)
