-- ===== src/Stress/Write.antt =====
-- stress.cpp, write_nbytes: the whole text goes out, or an error is reported.
use linux_network.Base.{
  ℕ, zero, suc, ◌+◌, ◌-◌, ◌≤◌, ◌<◌, ◌≡◌, refl, ap, ◌∙◌, inl, inr, Bool, true, false, some, List, [],
  ◌∷◌, ◌++◌, arith, take, drop, length, leb, Bool-cases, append-nil,
}
use linux_network.Stress.{Sent, wrote, wrote_none, send_error, Writing, write_nbytes, put_out}

-- What send promises for `len` bytes: a count is positive and at most `len`. With no byte left there
-- is no further call.
abbrev pub Obeys : ℕ → List Sent → Type 0
Obeys zero ss = Unit {0}
Obeys (suc len) [] = Unit {0}
Obeys (suc len) (wrote n ∷ ss) = (0 < n) × (n ≤ suc len) × Obeys (suc len - n) ss
Obeys (suc len) (wrote_none ∷ ss) = Unit {0}
Obeys (suc len) (send_error ∷ ss) = Unit {0}

-- Does send ever answer 0 or -1?
abbrev pub fails : List Sent → Bool
fails [] = false
fails (wrote n ∷ ss) = fails ss
fails _ = true

-- A finished write of the first `len` bytes of `buffer`.
pub data Finished (buffer : List ℕ) (len : ℕ) (ss : List Sent) (w : Writing) : Type 0 where
  complete : w.result ≡ some true → w.out ≡ take len buffer → Finished buffer len ss w
  partial :
      (k : ℕ)
      → w.result ≡ some false
      → k < len
      → w.out ≡ take k buffer
      → fails ss ≡ true
      → Finished buffer len ss w

take-nil : (n : ℕ) → take {A = ℕ} n [] ≡ []
take-nil zero = refl
take-nil (suc n) = refl

take-append_split :
    (m n k : ℕ) (xs : List ℕ) → k ≡ m + n → take m xs ++ take n (drop m xs) ≡ take k xs
take-append_split zero n k xs e = let same : k ≡ n = omega arith in rw same
take-append_split (suc m) n zero xs e = absurd (omega arith)
take-append_split (suc m) n (suc k) [] e = take-nil n
take-append_split (suc m) n (suc k) (x ∷ xs) e =
    ap (λ l. x ∷ l) (take-append_split m n k xs (omega arith))

-- One send in front of a finished write.
Finished-cons :
    (buffer : List ℕ) (len n : ℕ) (ss : List Sent) (w : Writing)
    → n ≤ len
    → Finished (drop n buffer) (len - n) ss w
    → Finished buffer len (wrote n ∷ ss) (put_out (take n buffer) w)
Finished-cons buffer len n ss w h (complete r o) =
    complete r (rw o (take-append_split n (len - n) len buffer (omega arith)))
Finished-cons buffer len n ss w h (partial k r lt o f) =
    partial (n + k) r (omega arith) (rw o (take-append_split n k (n + k) buffer refl)) f

all_sent : (n len : ℕ) → n ≤ len → leb (len - n) 0 ≡ true → n ≡ len
all_sent n len h last = ground arith

-- For a text of at least one byte, and counts from send that are positive and no more than was asked
-- for: after as many sends as the text has bytes, at the latest, write_nbytes has returned. It has
-- returned true, with the whole text sent in order, or false, with a proper part of it sent from the
-- start and an answer of send that was 0 or -1.
pub write_nbytes-Finished :
    (ss : List Sent) (buffer : List ℕ) (len : ℕ)
    → 0 < len
    → len ≤ length ss
    → Obeys len ss
    → Finished buffer len ss (write_nbytes ss buffer len)
unfolding write_nbytes
write_nbytes-Finished ss buffer zero pos enough o = absurd (omega arith)
write_nbytes-Finished [] buffer (suc l) pos enough o = absurd (omega arith)
write_nbytes-Finished (send_error ∷ ss) buffer (suc l) pos enough o = partial 0 refl pos refl refl
write_nbytes-Finished (wrote_none ∷ ss) buffer (suc l) pos enough o = partial 0 refl pos refl refl
write_nbytes-Finished (wrote n ∷ ss) buffer (suc l) pos enough o =
    elim (Bool-cases (leb (suc l - n) 0)) [
      | inl last ↦ rw last (
          complete refl
            (append-nil (take n buffer) ∙ ap (λ k. take k buffer) (all_sent n (suc l) o.1 last)))
      | inr more ↦ rw more (
          Finished-cons buffer (suc l) n ss _ o.1 (
            write_nbytes-Finished ss (drop n buffer) (suc l - n) (ground arith) (omega (arith, o.0))
              o.2))
    ]
