-- ===== src/SharedMemory/Handing.antt =====
-- io_shared_memory.h: what a receiver gets.
use linux_network.Base.{
  ℕ, suc, ◌≡◌, ◌≢◌, sym, ap, Option, none, some, List, [], ◌∷◌, take, Option-cases, inl, inr, refl,
  subst,
}
use linux_network.SharedMemory.{send_fd, recv_fd, hand_over}

first_of : Option (List ℕ) → ℕ
first_of none = 0
first_of (some []) = 0
first_of (some (x ∷ xs)) = x

received-unlike :
    (n first : ℕ) (fd : List ℕ) (message : Option (List ℕ))
    → first ≢ 0
    → recv_fd (suc n) message ≢ some (first ∷ fd)
unfolding recv_fd first_of
received-unlike n first fd none ne e = ne (sym (ap first_of e))
received-unlike n first fd (some message) ne e = cc

-- Whatever becomes of the message on its way, the receiver of one descriptor or more, the first of them not
-- 0, never gets them: behind a success of recvmsg it uses a result that is not there, and behind a failure
-- it has zeros.
hand_over-loses :
    (carry : List ℕ → Option (List ℕ)) (n first : ℕ) (fd : List ℕ)
    → first ≢ 0
    → hand_over carry (first ∷ fd) (suc n) ≢ some (take (suc n) (first ∷ fd))
hand_over-loses carry n first fd ne e = elim (Option-cases (send_fd (first ∷ fd) (suc n))) [
  | inl none_sent ↦
      let nothing : hand_over carry (first ∷ fd) (suc n) ≡ none = rw (hand_over, none_sent) refl in
      let unlike : ⊥ = cc in unlike
  | inr (message, sent) ↦ received-unlike n first (take n fd) (carry message) ne (
      subst
        (λ o.
          elim o [ none ↦ none | some m ↦ recv_fd (suc n) (carry m) ] ≡ some (first ∷ take n fd))
        sent e)
]
