-- ===== src/SharedMemory/Tests.antt =====
-- Runs of the programs of io_shared_memory.h.
use linux_network.Base.{◌≡◌, refl, pos, negsuc, none, some, [], ◌∷◌}
use linux_network.SharedMemory.{
  Segment, segment_size, ftok, shmget, shmat, shmdt, test_shm_write, test_shm_read,
  test_shm_posix_write, test_shm_posix_read, filled, hand_over, send_fd, recv_fd,
}

abbrev zeros : Segment
zeros i = 0

-- The reader behind the writer prints four times the letter A.
written_lem :
    ((test_shm_write (pos 5) (pos 6) (some zeros)).1 ≡ some (filled zeros))
    × (test_shm_read (pos 5) (pos 6) (some (filled zeros)) ≡ (
      ftok ∷ shmget (pos 5) segment_size ∷ shmat (pos 6) ∷ shmdt ∷ [],
      some (65 ∷ 65 ∷ 65 ∷ 65 ∷ []),
    ))
written_lem = (refl, refl)

posix_written_lem :
    ((test_shm_posix_write (pos 3) (some zeros)).1 ≡ some (filled zeros))
    × ((test_shm_posix_read (pos 3) (some (filled zeros))).1 ≡ some (65 ∷ 65 ∷ 65 ∷ 65 ∷ []))
posix_written_lem = (refl, refl)

-- shmget fails: shmat is called all the same, and its result is used.
no_segment_lem :
    test_shm_read (pos 5) (negsuc 0) none
    ≡ (ftok ∷ shmget (pos 5) segment_size ∷ shmat (negsuc 0) ∷ [], none)
no_segment_lem = refl

-- Descriptor 7 of an array of two, where recvmsg fails.
failed_lem : hand_over (λ message. none) (7 ∷ 8 ∷ []) 1 ≡ some (0 ∷ [])
unfolding send_fd recv_fd
failed_lem = refl
