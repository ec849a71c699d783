-- ===== src/SharedMemory.antt =====
-- linux_communicator/io_shared_memory.h: a segment of shared memory, filled by one program and read by
-- another, and descriptors sent over a socket. The answers of the system calls are arguments. A result
-- `none` is an access through a pointer that shmat or mmap gives on failure, or the use of what a function
-- that ends without a return gives.
pub mod Handing
mod Tests
use linux_network.Base.{
  ℕ, ℤ, Bool, true, false, Option, none, some, List, [], ◌∷◌, ◌++◌, ltb, leb, if◌then◌else◌, length,
  take, replicate,
}

-- 0x400000
abbrev pub segment_size : ℕ
segment_size = 4194304

-- The bytes of a segment.
abbrev pub Segment : Type 0
Segment = ℕ → ℕ

-- memset(p, 'A', 0x400000)
abbrev pub filled : Segment → Segment
filled p i = if ltb i segment_size then 65 else p i

-- The bytes that printf writes.
abbrev pub shown : Segment → List ℕ
shown p = p 0 ∷ p 1 ∷ p 3 ∷ p 4 ∷ []

-- The calls on a segment. No result of them is tested: a key, an identifier or a descriptor is -1 where its
-- call fails.
pub data Call : Type 0 where
  ftok : Call
  shmget : ℤ → ℕ → Call
  shmat : ℤ → Call
  shmdt : Call
  shm_open : Call
  ftruncate : ℤ → ℕ → Call
  mmap : ℤ → ℕ → Bool → Call  -- with PROT_WRITE or not
  munmap : ℕ → Call

-- What is done with a segment between the calls that bring it and the one that gives it back.
abbrev pub on_segment {ℓ} :
    {A : Type ℓ} → List Call → Call → Option Segment → (Segment → A) → List Call × Option A
on_segment front last none f = (front, none)
on_segment front last (some p) f = (front ++ last ∷ [], some (f p))

abbrev pub attach : ℤ → ℤ → List Call
attach key shmid = ftok ∷ shmget key segment_size ∷ shmat shmid ∷ []

abbrev pub test_shm_write : ℤ → ℤ → Option Segment → List Call × Option Segment
test_shm_write key shmid p = on_segment (attach key shmid) shmdt p filled

abbrev pub test_shm_read : ℤ → ℤ → Option Segment → List Call × Option (List ℕ)
test_shm_read key shmid p = on_segment (attach key shmid) shmdt p shown

abbrev pub map_posix : ℤ → Bool → List Call
map_posix fd writes = shm_open ∷ ftruncate fd segment_size ∷ mmap fd segment_size writes ∷ []

abbrev pub test_shm_posix_write : ℤ → Option Segment → List Call × Option Segment
test_shm_posix_write fd p = on_segment (map_posix fd true) (munmap segment_size) p filled

abbrev pub test_shm_posix_read : ℤ → Option Segment → List Call × Option (List ℕ)
test_shm_posix_read fd p = on_segment (map_posix fd false) (munmap segment_size) p shown

-- The control message of send_fd with `n` descriptors of the array `fd`; `none` where the array is shorter.
unfoldable pub send_fd : List ℕ → ℕ → Option (List ℕ)
send_fd fd n = if leb n (length fd) then some (take n fd) else none

-- recv_fd on the control message that recvmsg brings, `none` where recvmsg fails: then the buffer is as it
-- was set, and what is behind its header is 0. Behind a success there is no return.
unfoldable pub recv_fd : ℕ → Option (List ℕ) → Option (List ℕ)
recv_fd n none = some (replicate n 0)
recv_fd n (some message) = none

-- A process sends `n` descriptors and another receives as many; `carry` is what becomes of the message
-- between sendmsg and recvmsg.
abbrev pub hand_over : (List ℕ → Option (List ℕ)) → List ℕ → ℕ → Option (List ℕ)
hand_over carry fd n = elim (send_fd fd n) [
  | none ↦ none
  | some message ↦ recv_fd n (carry message)
]
