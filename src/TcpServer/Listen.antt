-- ===== src/TcpServer/Listen.antt =====
-- thread_pool_server.cpp, ThreadPoolTcpServer: the life of the listening socket.
use linux_network.Base.{ℕ, ◌≡◌, ◌↔◌, refl, Bool, true, false, ◌&&◌, none, some, [], arith}
use linux_network.SocketHandle
use linux_network.SocketHandle.{Handle, listed}
use linux_network.SocketHandle.Ownership.{destroy-listed}
use linux_network.TcpServer.{
  Setup, ok, configure, set_non_blocking, create_listen_socket, destroy_server,
}

-- Every call of createListenSocket succeeds.
abbrev pub all_ok : Setup → Bool
all_ok s =
    s.setsockopt_ok
    && (s.inet_pton_ok && (s.bind_ok && (s.listen_ok && (s.get_flags_ok && s.set_flags_ok))))

pub configure-ok : (s : Setup) → (configure s ≡ ok) ↔ (all_ok s ≡ true)
unfolding configure set_non_blocking
configure-ok s = ground arith

-- The listening socket of a fresh server, from createListenSocket to the end of the server: whichever
-- call fails, and whether or not `run` has come to set its flag, the destructor closes the descriptor
-- that socket() gave, once, and no other; createListenSocket itself closes none.
pub listen_socket_closed_once :
    (s : Setup) (running : Bool)
    → let (result, listen_socket, closes) = create_listen_socket s none in
      (closes ≡ []) × (destroy_server running listen_socket ≡ listed s.socket)
unfolding create_listen_socket destroy_server SocketHandle.move_assign
listen_socket_closed_once s true = ground arith
listen_socket_closed_once s false = ground arith

-- With a descriptor from socket(), createListenSocket succeeds exactly when every later call does, and
-- listen_socket_ holds the descriptor either way; what it held before is closed.
create_listen_socket-some :
    (s : Setup) (old : Handle) (fd : ℕ)
    → s.socket ≡ some fd
    → let (result, listen_socket, closes) = create_listen_socket s old in
      ((result ≡ ok) ↔ (all_ok s ≡ true)) × (listen_socket ≡ some fd) × (closes ≡ listed old)
unfolding create_listen_socket SocketHandle.move_assign configure
create_listen_socket-some s old fd e = rw e (configure-ok s, refl, destroy-listed old)
