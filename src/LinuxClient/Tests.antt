-- ===== src/LinuxClient/Tests.antt =====
-- Runs of the client and instances of its theorems.
use linux_network.Base.{
  ℕ, ◌≡◌, refl, Bool, true, false, Option, none, some, List, [], ◌∷◌, ◌++◌, arith, ℤ, pos, negsuc,
}
use linux_network.TcpServer
use linux_network.TcpServer.{echo_prefix}
use linux_network.LinuxClient.{
  Answers, opened, connect, close, bytes, reply, exit, nothing, main, run_client, talk, to_uint16,
}
use linux_network.LinuxClient.Closing.{Tidy, main-Tidy}
use linux_network.LinuxClient.Echo.{main-echo}

-- The port 8080, and any other number as 65536 * 2 + 8080.
abbrev stoi : List ℕ → Option ℤ
stoi [] = none
stoi (c ∷ cs) = some (pos 139152)

abbrev answers : Bool → List ℕ → Answers
answers ok text = record {
  socket = some 3;
  inet_pton_ok = true;
  connect_ok = ok;
  send_ok = true;
  received = bytes text;
}

-- "a", "1", "8" and "hi"
abbrev argv : List (List ℕ)
argv = (97 ∷ []) ∷ (49 ∷ []) ∷ (56 ∷ []) ∷ (104 ∷ 105 ∷ []) ∷ []

abbrev line : List ℕ
line = 104 ∷ 105 ∷ 13 ∷ 10 ∷ []

main-Tidy_example : Tidy (answers false []) (main stoi argv (answers false []))
main-Tidy_example = main-Tidy stoi argv (answers false [])

main-echo_example :
    (main stoi argv (answers true (echo_prefix ++ line))).printed ≡ reply (echo_prefix ++ line)
unfolding main run_client talk TcpServer.serve TcpServer.process_request
main-echo_example =
    main-echo stoi (97 ∷ []) (49 ∷ []) (56 ∷ []) (104 ∷ 105 ∷ [])
      (answers true (echo_prefix ++ line)) (pos 139152) 3 9 line (echo_prefix ++ line) true
      (TcpServer.again ∷ TcpServer.closed ∷ []) refl refl refl refl refl (omega arith) refl refl
      refl

refused :
    main stoi argv (answers false [])
    ≡ exit 1 (opened 3 ∷ connect 3 (49 ∷ []) 8080 ∷ close 3 ∷ []) nothing
unfolding main run_client talk
refused = refl

wrapped : to_uint16 (negsuc 0) ≡ 65535
wrapped = refl
