-- ===== src/SockTimer.antt =====
-- sock_timer.h: a connect with a time limit, set as the time limit for sending. The answers of the system
-- calls are arguments, `atoi` is a parameter; what is done is a trace.
pub mod Leaking
mod Tests
use linux_network.Base.{
  ℕ, zero, suc, ℤ, pos, negsuc, Bool, true, false, Option, none, some, List, [], ◌∷◌, if◌then◌else◌,
}
use linux_network.LinuxClient.{to_uint16}

-- An answer of connect: 0, -1 with EINPROGRESS, -1 with another errno.
pub data Connected : Type 0 where
  connected : Connected
  timed_out : Connected
  refused : Connected

pub record Answers : Type 0 where
  pub socket : Option ℕ
  pub setsockopt_ok : Bool
  pub connect : Connected

-- `send_timeout fd n` is setsockopt with SO_SNDTIMEO and `n` seconds.
pub data Action : Type 0 where
  opened : ℕ → Action
  send_timeout : ℕ → ℤ → Action
  connect : ℕ → List ℕ → ℕ → Action
  close : ℕ → Action

-- `aborts` is a failed assertion.
pub data Result : Type 0 where
  aborts : Result
  returns : ℤ → Result

unfoldable pub connect_result : ℕ → Connected → Result
connect_result fd connected = returns (pos fd)
connect_result fd timed_out = returns (negsuc 0)
connect_result fd refused = returns (negsuc 0)

-- timeout_connect behind the assertion on the socket.
unfoldable pub connect_on : ℕ → List ℕ → ℤ → ℤ → Answers → Result × List Action
unfolding connect_result
connect_on fd ip port time ans =
    if ans.setsockopt_ok
    then (
      connect_result fd ans.connect,
      opened fd ∷ send_timeout fd time ∷ connect fd ip (to_uint16 port) ∷ [],
    )
    else (aborts, opened fd ∷ send_timeout fd time ∷ [])

-- assert(sockfd>0)
unfoldable pub timeout_connect : List ℕ → ℤ → ℤ → Answers → Result × List Action
unfolding connect_on
timeout_connect ip port time ans = elim ans.socket [
  | none ↦ (aborts, [])
  | some zero ↦ (aborts, opened 0 ∷ [])
  | some (suc n) ↦ connect_on (suc n) ip port time ans
]

abbrev pub exit_code : Result → Result
exit_code aborts = aborts
exit_code (returns (pos n)) = returns (pos 0)
exit_code (returns (negsuc n)) = returns (pos 1)

-- test_sock_timer on argv.
unfoldable pub test_sock_timer : (List ℕ → ℤ) → List (List ℕ) → Answers → Result × List Action
test_sock_timer atoi [] ans = (returns (pos 1), [])
test_sock_timer atoi (name ∷ []) ans = (returns (pos 1), [])
test_sock_timer atoi (name ∷ ip ∷ []) ans = (returns (pos 1), [])
test_sock_timer atoi (name ∷ ip ∷ port ∷ more) ans =
    let (r, acts) = timeout_connect ip (atoi port) (pos 10) ans in (exit_code r, acts)
