-- ===== src/IoPipe/Tests.antt =====
-- Runs of the programs of io_pipe.h and an instance of their theorem.
use linux_network.Base.{
  ℕ, ◌≡◌, ◌-◌, refl, ltb, if◌then◌else◌, pos, negsuc, true, false, Option, none, some, List, [],
  ◌∷◌, length, take, replicate, arith,
}
use linux_network.IoPipe.{
  wait, close, read, write, printed, set_nonblocking, fault, alone, forked, buffer_size,
  string_size, test_pipe, test_name_pipe,
}
use linux_network.IoPipe.Passing.{test_pipe-received}

abbrev whole_read : List ℕ → ℕ → Option (List ℕ)
whole_read held n = some (take n held)

abbrev word : List ℕ
word = 104 ∷ 105 ∷ []

test_pipe-received_example : test_pipe whole_read (some word) (some (3, 4)) true 2 ≡ (
    if ltb (length word) string_size
    then forked
        (close 3 ∷ write 4 word ∷ [])
        (wait ∷ close 4 ∷ read 3 79 ∷ printed (pos (length (take 79 word))) (take 79 word) ∷ [])
    else fault)
test_pipe-received_example =
    test_pipe-received whole_read (λ held n. refl) 3 4 word (omega arith, (omega arith, tt))

-- A word of 90 bytes: the last eleven are not reported.
long_word_lem :
    test_pipe whole_read (some (replicate 90 65)) (some (3, 4)) true 90
    ≡ forked
        (close 3 ∷ write 4 (replicate 90 65) ∷ [])
        (wait ∷ close 4 ∷ read 3 79 ∷ printed (pos 79) (replicate 79 65) ∷ [])
unfolding test_pipe
long_word_lem = refl

-- The end of the input: `string` is not set; and a fork that fails.
no_input_lem : test_pipe whole_read none (some (3, 4)) true 0 ≡ fault
unfolding test_pipe
no_input_lem = refl

no_child_lem : test_pipe whole_read (some word) (some (3, 4)) false 2 ≡ alone (negsuc 0) []
unfolding test_pipe
no_child_lem = refl

-- All 1024 bytes go into the fifo, not the five of "hello" alone.
test_name_pipe_lem :
    test_name_pipe ([] ∷ (1 ∷ []) ∷ []) (some 3)
    ≡ alone (pos 0) (
        set_nonblocking 3
        ∷ write 3 (104 ∷ 101 ∷ 108 ∷ 108 ∷ 111 ∷ replicate (buffer_size - 5) 0)
        ∷ close 3
        ∷ [])
unfolding test_name_pipe
test_name_pipe_lem = refl
