-- ===== src/IoPipe.antt =====
-- linux_communicator/io_pipe.h: a word that goes through a pipe from a child to its parent, and a write
-- to a fifo. The answers of the system calls are arguments, the read of a pipe a parameter; what is
-- done is a trace.
pub mod Passing
mod Tests
use linux_network.Base.{
  ℕ, ◌-◌, ℤ, pos, negsuc, Bool, true, false, Option, none, some, List, [], ◌∷◌, ◌++◌, ltb,
  if◌then◌else◌, length, take, replicate,
}
use linux_network.LinuxClient.{c_string}

-- sizeof(string), sizeof(readbuffer) and sizeof(buffer)
abbrev pub string_size : ℕ
string_size = 100

abbrev pub readbuffer_size : ℕ
readbuffer_size = 80

abbrev pub buffer_size : ℕ
buffer_size = 1024

-- `printed n text` is the report on `n` bytes, `read fd n` a read of at most `n` bytes.
pub data Action : Type 0 where
  wait : Action
  set_nonblocking : ℕ → Action
  close : ℕ → Action
  read : ℕ → ℕ → Action
  write : ℕ → List ℕ → Action
  printed : ℤ → List ℕ → Action

-- `alone` is a process without a child; `fault` is an access out of the bounds of `string` or to its
-- bytes before they are set.
pub data Run : Type 0 where
  fault : Run
  alone : ℤ → List Action → Run
  forked : (child parent : List Action) → Run

-- What scanf leaves in `string`: `none` at the end of the input, where nothing is stored.
abbrev pub scanned : Option (List ℕ) → Option (List ℕ)
scanned none = none
scanned (some word) = if ltb (length word) string_size then some (word ++ 0 ∷ []) else none

abbrev pub overflows : Option (List ℕ) → Bool
overflows none = false
overflows (some word) = if ltb (length word) string_size then false else true

-- The branch of the child.
abbrev pub child : ℕ → ℕ → List ℕ → List Action
child read_fd write_fd string = close read_fd ∷ write write_fd (c_string string) ∷ []

-- readbuffer behind a read, and the report.
abbrev pub report : Option (List ℕ) → Action
report none = printed (negsuc 0) (c_string (replicate readbuffer_size 0))
report (some bytes) = printed (pos (length bytes)) (c_string (bytes ++ 0 ∷ []))

-- `pipe_read held n` is what read finds of the bytes `held` in the pipe; `take_in n held` are the first
-- `n` bytes that the write of the child has brought in.
module _ (pipe_read : List ℕ → ℕ → Option (List ℕ)) where
  -- The branch of the parent, behind the end of the child.
  abbrev pub parent : ℕ → ℕ → List ℕ → List Action
  parent read_fd write_fd held =
      wait ∷ close write_fd ∷ read read_fd 79 ∷ report (pipe_read held 79) ∷ []

  -- Both processes: `written` bytes of the string come into the pipe.
  abbrev pub processes : ℕ → ℕ → ℕ → Option (List ℕ) → Run
  processes read_fd write_fd written none = fault
  processes read_fd write_fd written (some string) =
      forked (child read_fd write_fd string)
        (parent read_fd write_fd (take written (c_string string)))

  -- test_pipe, on the input, the descriptors of the pipe, whether fork succeeds, and the result of write.
  unfoldable pub test_pipe : Option (List ℕ) → Option (ℕ × ℕ) → Bool → ℕ → Run
  test_pipe input ends fork_ok written = if overflows input then fault else elim ends [
    | none ↦ alone (negsuc 0) []
    | some (read_fd, write_fd) ↦
        if fork_ok then processes read_fd write_fd written (scanned input) else alone (negsuc 0) []
  ]

-- "hello", and 0 up to the end of the buffer.
abbrev pub hello : List ℕ
hello = 104 ∷ 101 ∷ 108 ∷ 108 ∷ 111 ∷ replicate (buffer_size - 5) 0

-- test_name_pipe on argv, with the answer of open.
unfoldable pub test_name_pipe : List (List ℕ) → Option ℕ → Run
test_name_pipe [] opened = alone (pos 1) []
test_name_pipe (name ∷ []) opened = alone (pos 1) []
test_name_pipe (name ∷ fifo ∷ more) none = alone (pos 1) []
test_name_pipe (name ∷ fifo ∷ more) (some fd) =
    alone (pos 0) (set_nonblocking fd ∷ write fd hello ∷ close fd ∷ [])
