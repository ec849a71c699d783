-- ===== src/ThreadPool/Family.antt =====
-- Families of workers: one of them changed.
use linux_network.Base.{ℕ, ite, ℕ_discrete}

abbrev pub update {ℓ} : {A : Type ℓ} → (ℕ → A) → ℕ → A → ℕ → A
update f i a j = ite (ℕ_discrete i j) a (f j)
