-- ===== src/Stress/Tests.antt =====
-- Runs of the stress client and instances of its theorems.
use linux_network.Base.{true, false, none, some, List, [], ◌∷◌, arith}
use linux_network.Stress.{wrote, write_nbytes, read_error, Event, Attempt}
use linux_network.Stress.Write.{Finished, write_nbytes-Finished}

write_nbytes-Finished_example :
    Finished
      (1 ∷ 2 ∷ 3 ∷ [])
      3
      (wrote 2 ∷ wrote 1 ∷ wrote 5 ∷ [])
      (write_nbytes (wrote 2 ∷ wrote 1 ∷ wrote 5 ∷ []) (1 ∷ 2 ∷ 3 ∷ []) 3)
write_nbytes-Finished_example =
    write_nbytes-Finished (wrote 2 ∷ wrote 1 ∷ wrote 5 ∷ []) (1 ∷ 2 ∷ 3 ∷ []) 3 (omega arith)
      (omega arith) (omega arith)

abbrev broken_read : Event
broken_read = record {
  fd = 7;
  input = true;
  output = false;
  error = true;
  read = read_error;
  sends = [];
}

abbrev attempts : List Attempt
attempts =
    record { socket = some 4; connected = true }
    ∷ record { socket = none; connected = false }
    ∷ record { socket = some 5; connected = false }
    ∷ []
