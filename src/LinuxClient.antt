-- ===== src/LinuxClient.antt =====
-- linux_client/main.cpp: a client that sends one line to the server of thread_pool_server.cpp and prints
-- what comes back. The answers of the system calls are arguments, `stoi` is a parameter; what is done is
-- a trace. What goes to cerr is left out.
pub mod Closing
pub mod Echo
mod Tests
use linux_network.Base.{
  ℕ, zero, suc, ◌+◌, ◌-◌, ◌%◌, Bool, true, false, not, Option, none, some, List, [], ◌∷◌, ◌++◌,
  ◌==◌, if◌then◌else◌, ℤ, pos, negsuc,
}

-- sizeof(buffer)
abbrev pub buffer_size : ℕ
buffer_size = 1024

-- An answer of recv: bytes, 0, -1.
pub data Received : Type 0 where
  bytes : List ℕ → Received
  closed : Received
  failed : Received

pub record Answers : Type 0 where
  pub socket : Option ℕ
  pub inet_pton_ok : Bool
  pub connect_ok : Bool
  pub send_ok : Bool
  pub received : Received

-- `connect fd ip port` and `send fd text` are the calls, whatever they answer.
pub data Action : Type 0 where
  opened : ℕ → Action
  connect : ℕ → List ℕ → ℕ → Action
  send : ℕ → List ℕ → Action
  recv : ℕ → Action
  close : ℕ → Action

-- What is printed on cout behind the last recv.
pub data Printed : Type 0 where
  nothing : Printed
  server_closed : Printed
  reply : List ℕ → Printed

-- How main ends: by a return, or by an exception of stoi.
pub data Ending : Type 0 where
  exits : ℕ → Ending
  aborts : Ending

pub record Outcome : Type 0 where
  pub ending : Ending
  pub actions : List Action
  pub printed : Printed

-- static_cast<uint16_t>
abbrev pub to_uint16 : ℤ → ℕ
to_uint16 (pos n) = n % 65536
to_uint16 (negsuc n) = 65535 - n % 65536

-- message + "\r\n"
abbrev pub payload : List ℕ → List ℕ
payload message = message ++ 13 ∷ 10 ∷ []

-- What `<<` prints of an array of char that ends with 0.
abbrev pub c_string : List ℕ → List ℕ
c_string [] = []
c_string (c ∷ cs) = let rest = c_string cs in if c == 0 then [] else c ∷ rest

abbrev pub print_received : Received → Printed
print_received (bytes text) = reply (c_string (text ++ 0 ∷ []))
print_received closed = server_closed
print_received failed = nothing

abbrev pub exit : ℕ → List Action → Printed → Outcome
exit code actions printed = record { ending = exits code; actions = actions; printed = printed }

-- main, behind a socket.
unfoldable pub talk : ℕ → List ℕ → ℕ → List ℕ → Answers → Outcome
talk fd ip port message ans =
    if not ans.inet_pton_ok
    then exit 1 (opened fd ∷ close fd ∷ []) nothing
    else if not ans.connect_ok
    then exit 1 (opened fd ∷ connect fd ip port ∷ close fd ∷ []) nothing
    else if not ans.send_ok
    then exit 1 (opened fd ∷ connect fd ip port ∷ send fd (payload message) ∷ close fd ∷ []) nothing
    else exit 0
        (opened fd ∷ connect fd ip port ∷ send fd (payload message) ∷ recv fd ∷ close fd ∷ [])
        (print_received ans.received)

module _ (stoi : List ℕ → Option ℤ) where
  -- main, behind the test of argc.
  unfoldable pub run_client : List ℕ → List ℕ → List ℕ → Answers → Outcome
  run_client ip port message ans = elim (stoi port) [
    | none ↦ record { ending = aborts; actions = []; printed = nothing }
    | some n ↦ elim ans.socket [
      | none ↦ exit 1 [] nothing
      | some fd ↦ talk fd ip (to_uint16 n) message ans
    ]
  ]

  -- main on argv.
  unfoldable pub main : List (List ℕ) → Answers → Outcome
  main (name ∷ ip ∷ port ∷ message ∷ []) ans = run_client ip port message ans
  main argv ans = exit 1 [] nothing
