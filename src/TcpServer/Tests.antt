-- ===== src/TcpServer/Tests.antt =====
-- Runs of the TCP server and instances of its theorems.
use linux_network.Base.{◌≡◌, true, false, some, [], ◌∷◌, ◌++◌}
use linux_network.TcpServer.{
  echo_prefix, bytes, closed, again, send, close, returned, serve, Setup, client, Accepted, Round,
}
use linux_network.TcpServer.Echo.{serve-echoes}

serve-echoes_example :
    serve
      (some 9)
      (again ∷ bytes (104 ∷ 105 ∷ []) false ∷ again ∷ bytes (33 ∷ []) true ∷ closed ∷ [])
    ≡ returned (
        send 9 (echo_prefix ++ 104 ∷ 105 ∷ []) false
        ∷ send 9 (echo_prefix ++ 33 ∷ []) true
        ∷ close 9
        ∷ [])
serve-echoes_example =
    serve-echoes 9
      (again ∷ bytes (104 ∷ 105 ∷ []) false ∷ again ∷ bytes (33 ∷ []) true ∷ closed ∷ [])

abbrev pub bind_fails : Setup
bind_fails = record {
  socket = some 3;
  setsockopt_ok = true;
  inet_pton_ok = true;
  bind_ok = false;
  listen_ok = true;
  get_flags_ok = true;
  set_flags_ok = true;
}

abbrev pub round : Accepted → Round
round a = record {
  running = true;
  terminate = false;
  accepted = a;
  get_flags_ok = true;
  set_flags_ok = true;
}

abbrev pub last_round : Round
last_round = record (round (client 7)) { set_flags_ok = false }

abbrev signalled : Round
signalled = record (round (client 6)) { terminate = true }
