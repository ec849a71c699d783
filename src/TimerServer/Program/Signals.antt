-- ===== src/TimerServer/Program/Signals.antt =====
-- cpt_11_2_2.h: a signal from its handler to the flags of the main loop.
use linux_network.Base.{
  ℕ, ◌<◌, ◌≡◌, ◌≢◌, refl, Bool, true, false, ◌||◌, List, [], ◌∷◌, map, ◌==◌, All, number-cases,
  ==_iff, ◌∙◌, ne→==false, inl, inr, sym, arith,
}
use linux_network.TimerServer.{Server, handle_signals}
use linux_network.TimerServer.Program.{sig_handler, decode}

abbrev pub mem : ℕ → List ℕ → Bool
mem x [] = false
mem x (y ∷ ys) = (y == x) || mem x ys

or-false : (b : Bool) → (b || false) ≡ b
or-false true = refl
or-false false = refl

pub or-true : (b : Bool) → (b || true) ≡ true
or-true true = refl
or-true false = refl

sig_handler-low : (sig : ℕ) → sig < 128 → sig_handler sig ≡ sig
sig_handler-low sig lt = omega arith

-- Signals with numbers under 128 reach the main loop through the pipe one by one: behind the bytes that
-- sig_handler has sent for them the alarm is pending exactly where it was before or SIGALRM is
-- among them, the server stops exactly where it did before or SIGTERM is among them, and nothing else
-- has changed. SIGALRM and SIGTERM are two different numbers.
pub handle_signals-sig_handler :
    (alrm term : ℕ) (sigs : List ℕ) (s : Server)
    → alrm ≢ term
    → All (λ sig. sig < 128) sigs
    → handle_signals (map (decode alrm term) (map sig_handler sigs)) s
      ≡ record s { timeout = s.timeout || mem alrm sigs; stop = s.stop || mem term sigs }
unfolding handle_signals
handle_signals-sig_handler alrm term [] s ne low = rw (or-false s.timeout, or-false s.stop) refl
handle_signals-sig_handler alrm term (sig ∷ sigs) s ne (lt, low) =
    rw (sig_handler-low sig lt) (elim (number-cases sig alrm) [
      | inl e ↦
          rw ((==_iff sig alrm).1 e, ne→==false sig term (λ d. ne (sym e ∙ d)), or-true s.timeout)
            (handle_signals-sig_handler alrm term sigs (record s { timeout = true }) ne low)
      | inr n ↦ elim (number-cases sig term) [
        | inl e ↦
            rw (ne→==false sig alrm n, (==_iff sig term).1 e, or-true s.stop)
              (handle_signals-sig_handler alrm term sigs (record s { stop = true }) ne low)
        | inr n' ↦
            rw (ne→==false sig alrm n, ne→==false sig term n')
              (handle_signals-sig_handler alrm term sigs s ne low)
      ]
    ])
