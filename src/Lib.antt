-- ===== src/Lib.antt =====
-- linux_network: servers and timers from a book on Linux network programming, and a modern thread
-- pool server beside them.
--
-- What system calls answer is an argument of the model, as lists of answers in the order of the calls;
-- what the program does to the system is a trace of actions. Output to the terminal is left
-- out, but for the reply that LinuxClient prints and for what Demo, EpollEcho, IoPipe and SharedMemory
-- print.
--
-- The parts:
-- - ThreadPool: thread_pool_server.h and thread_pool_server.cpp, class ThreadPool. Workers, `enqueue`
--   and the destructor are threads; `Move` and `Step` are their steps, one for each access to the
--   mutex, the queue, the flag or the condition variable, and `Reach` holds the reachable states.
--   The destructor is behind a flag store, a notify_all and the joins.
-- - CgiConn: linux_server/cpt_15_3.h, class cgi_conn. `init` and `process`, over the buffer.
-- - ProcessPool: linux_server/cpt_15_3.h, class processpool. `create` (the constructor, in Create),
--   `run` with setup_sig_pipe (in Run), `run_parent` with its handlers, `run_child` (in Child) on top of
--   CgiConn, where a process that has reached execl never comes back; main.cpp, which starts it (in Program).
--   Pairing puts the parent and a child together. The search for a live child takes fuel, one step for each process, and ends within it.
-- - SocketHandle: thread_pool_server.h, class SocketHandle. Variables that own descriptors; `run` is a
--   sequence of the operations.
-- - TcpServer: thread_pool_server.h and thread_pool_server.cpp, TcpConnection and ThreadPoolTcpServer.
--   `serve` (what a worker does for a connection), `create_listen_socket`, `accept_loop` (the loop of
--   run), `stop` and `destroy_server`; they use SocketHandle. Program is thread_pool_main.cpp with all of
--   run; Closing puts the pool and its workers behind it.
-- - LinuxClient: linux_client/main.cpp, a client of TcpServer. `main` is main; Closing is about its socket,
--   Echo puts it against a worker of TcpServer. The network between them is a hypothesis: recv gives
--   what the other side has sent, up to the size of the buffer.
-- - Stress: stress_test/stress.cpp, the client that keeps many connections busy. Program is main.
-- - EpollEcho: linux_server/io_epoll.h, `lt`, `et` and the loop around them; Program is test_epoll_func.
-- - TimeWheel: linux_server/time_wheel.h, class time_wheel. Timers on a heap of linked nodes;
--   `add_timer`, `del_timer`, `tick` and `destroy`, against the lists of the slots (Segments, Surgery and
--   Unlinking put a slot on top of Chain, Wheels is the relation to lists). The loops of `tick`
--   and of the destructor take fuel, one step for each timer of a slot, and end within it. A callback
--   is an event that leaves the wheel alone.
-- - BookWheel: linux_server/cpt_11_4_1.h, the same class of wheels but for add_timer, which ends without
--   a value, and for the callback, which nothing sets, against TimeWheel. Both are undefined behaviour, which
--   is `none`; which timers have a callback is a parameter. The fuel is that of TimeWheel.
-- - TimerList: linux_server/cpt_11_2_1.h, class Sort_timer_list. `add_timer`, `adjust_timer`,
--   `del_timer`, `tick` and `destroy` on a heap, against the list of timers in their order (Sorting).
--   `add_behind` is add_timer with two arguments. The loops take fuel, one step for each timer, and end
--   within it.
-- - TimerServer: linux_server/cpt_11_2_2.h, the server that closes idle connections, on top of TimerList.
--   `serve` is the main loop of test_timer_server, `serve_round` one round of it; Program is the whole of
--   test_timer_server and the way of a signal. Accounts ties the
--   timers to the clients, Events gives what an event makes of the open connections, Accepting is about
--   what accept answers, Activity about the time of the last input of a connection. The fuel is for
--   TimerList: the open connections and one for each reported entry are enough.
-- - Chain: linked lists on a heap, the nodes and links of which are parameters; TimeWheel,
--   BookWheel and TimerList use it.
-- - Reactor: epoll_reactor.h and epoll_reactor.cc, class CEpollReactor. `register_io`, `remove_io` and
--   `dispatch_ios` on the map of handlers; `run` is a sequence of calls, `life` one between the constructor
--   and the destructor.
-- - Demo: demo.h, the eight programs that show level and edge triggering. `Program` is what one registers
--   and a round of its loop; Kernel is the interface of epoll that they are put on, with a terminal in
--   canonical mode for input, which gives a read one line at most.
-- - SockTimer: sock_timer.h, a connect with a time limit.
-- - IoPipe: linux_communicator/io_pipe.h, `test_pipe` with its two processes and `test_name_pipe`. The read
--   of a pipe is a parameter.
-- - SharedMemory: linux_communicator/io_shared_memory.h, segments behind shmat and mmap, `send_fd` and
--   `recv_fd`.
-- - Base: the names and lemmas that the parts share.
--
-- Not modelled: futures and task bodies, what the programs print on the terminal but for the cases above,
-- and common.h and epoll_server.h, which have no function bodies.
pub mod Base
pub mod CgiConn
pub mod ProcessPool
pub mod ThreadPool
pub mod SocketHandle
pub mod TcpServer
pub mod Stress
pub mod EpollEcho
pub mod TimeWheel
pub mod BookWheel
pub mod LinuxClient
pub mod Reactor
pub mod Chain
pub mod TimerList
pub mod TimerServer
pub mod Demo
pub mod SockTimer
pub mod IoPipe
pub mod SharedMemory
