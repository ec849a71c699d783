-- ===== src/IoPipe/Passing.antt =====
-- io_pipe.h: what comes through the pipe.
use linux_network.Base.{
  ℕ, zero, suc, ◌≤◌, ◌≡◌, ◌≢◌, refl, ap, pos, true, Option, some, List, [], ◌∷◌, ◌++◌, ltb,
  if◌then◌else◌, length, take, All, arith, Bool-cases, inl, inr, ne→==false,
}
use linux_network.LinuxClient.{c_string}
use linux_network.IoPipe.{
  string_size, wait, close, read, write, printed, fault, forked, processes, test_pipe,
}

abbrev pub IsText : List ℕ → Type 0
IsText = All (λ b. b ≢ 0)

c_string-terminated : (word : List ℕ) → IsText word → c_string (word ++ 0 ∷ []) ≡ word
c_string-terminated [] text = refl
c_string-terminated (b ∷ word) (n, text) =
    rw (ne→==false b 0 n) (ap (λ ws. b ∷ ws) (c_string-terminated word text))

take-all : (n : ℕ) (xs : List ℕ) → length xs ≤ n → take n xs ≡ xs
take-all zero [] le = refl
take-all (suc n) [] le = refl
take-all zero (x ∷ xs) le = absurd (omega (arith, le))
take-all (suc n) (x ∷ xs) le = ap (λ ws. x ∷ ws) (take-all n xs (omega arith))

IsText-take : (n : ℕ) (word : List ℕ) → IsText word → IsText (take n word)
IsText-take zero word text = tt
IsText-take (suc n) [] text = tt
IsText-take (suc n) (b ∷ word) (ne, text) = (ne, IsText-take n word text)

-- read, as it is on a pipe whose writer has ended.
abbrev pub Reads : (List ℕ → ℕ → Option (List ℕ)) → Type 0
Reads pipe_read = (held : List ℕ) (n : ℕ) → pipe_read held n ≡ some (take n held)

module _ (pipe_read : List ℕ → ℕ → Option (List ℕ)) (reads : Reads pipe_read) where
  processes-received :
      (r w : ℕ) (word : List ℕ)
      → IsText word
      → processes pipe_read r w (length word) (some (word ++ 0 ∷ []))
        ≡ forked
            (close r ∷ write w word ∷ [])
            (wait ∷ close w ∷ read r 79 ∷ printed (pos (length (take 79 word))) (take 79 word) ∷ [])
  processes-received r w word text =
      rw
        (
          c_string-terminated word text,
          take-all (length word) word (omega arith),
          reads word 79,
          c_string-terminated (take 79 word) (IsText-take 79 word text),
        )
        refl

  -- Where the pipe and the child can be had, read gives what the pipe holds up to the size that it is asked
  -- for, and write brings in all of the string: a word of less than 100 bytes, none of them 0, is written
  -- by the child, and the parent reports as many of its bytes as fit into 79 and exactly these; with
  -- a longer one scanf writes behind the end of its buffer.
  pub test_pipe-received :
      (r w : ℕ) (word : List ℕ)
      → IsText word
      → test_pipe pipe_read (some word) (some (r, w)) true (length word) ≡ (
          if ltb (length word) string_size
          then forked (close r ∷ write w word ∷ []) (
              wait
              ∷ close w
              ∷ read r 79
              ∷ printed (pos (length (take 79 word))) (take 79 word)
              ∷ [])
          else fault)
  unfolding test_pipe
  test_pipe-received r w word text = elim (Bool-cases (ltb (length word) string_size)) [
    | inl t ↦ rw t (processes-received r w word text)
    | inr f ↦ rw f refl
  ]
