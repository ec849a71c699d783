-- ===== src/ProcessPool/Cycle.antt =====
-- Counting round a cycle of `n` places.
use native.Mathlib.Nat.{mod-eq_of_lt, mod-eq-sub-mod}
use linux_network.Base.{ℕ, ◌+◌, ◌-◌, ◌%◌, ◌≤◌, ◌<◌, ◌≡◌, ◌∙◌, arith, ltb, if◌then◌else◌, dec_lt}

-- `d` places after `c`, without a division.
abbrev pub wrap : ℕ → ℕ → ℕ → ℕ
wrap n c d = if ltb (c + d) n then c + d else c + d - n

pub mod-wrap : (n c d : ℕ) → c < n → d ≤ n → (c + d) % n ≡ wrap n c d
mod-wrap n c d h k = elim (dec_lt (c + d) n) [
  | yes below ↦ mod-eq_of_lt below ∙ ground arith
  | no above ↦ mod-eq-sub-mod (omega arith) ∙ mod-eq_of_lt (omega arith) ∙ ground arith
]

-- One place further.
pub wrap-suc : (n c d : ℕ) → c < n → d + 1 < n → (wrap n c d + 1) % n ≡ wrap n c (d + 1)
wrap-suc n c d h k = mod-wrap n (wrap n c d) 1 (ground arith) (omega arith) ∙ ground arith

-- The last place leads back to the first.
pub wrap-last : (n c d : ℕ) → c < n → d + 1 ≡ n → (wrap n c d + 1) % n ≡ c
wrap-last n c d h k = mod-wrap n (wrap n c d) 1 (ground arith) (omega arith) ∙ ground arith

pub wrap-lt : (n c d : ℕ) → c < n → d < n → wrap n c d < n
wrap-lt n c d h k = ground arith
