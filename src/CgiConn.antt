-- ===== src/CgiConn.antt =====
-- linux_server/cpt_15_3.h, class cgi_conn: one client of a child process. The connection keeps a
-- buffer of 1024 bytes; `process` receives until the buffer holds CR LF, and then runs the file that
-- the line names. The answers of recv, access, fork and execl are arguments: recv's are a list, one
-- answer for each call, and what the system calls do is a trace of actions.
pub mod Scan
pub mod Buffer
pub mod Round
pub mod Line
pub mod Request
mod Tests
use linux_network.Base.{
  ℕ, zero, suc, ◌+◌, ◌-◌, Bool, true, false, ◌&&◌, List, [], ◌∷◌, ◌==◌, leb, if◌then◌else◌, length,
  set, get_or, replicate,
}

-- `BUFFER_SIZE` of cgi_conn
abbrev pub buffer_size : ℕ
buffer_size = 1024

abbrev pub carriage_return : ℕ
carriage_return = 13

abbrev pub line_feed : ℕ
line_feed = 10

abbrev pub stdout_fileno : ℕ
stdout_fileno = 1

-- The fields of cgi_conn. `m_epollfd` is static there: one value for all connections of a process.
pub record Conn : Type 0 where
  pub epollfd : ℕ
  pub sockfd : ℕ
  pub address : ℕ
  pub buf : List ℕ
  pub read_idx : ℕ

-- What a system call answers: recv with a positive count and the bytes that it stored, with 0, with
-- -1 and EAGAIN, or with -1 and another errno.
pub data Received : Type 0 where
  bytes : List ℕ → Received
  closed : Received
  again : Received
  failed : Received

pub data Forked : Type 0 where
  fork_failed : Forked
  in_parent : Forked
  in_child : Forked

-- The system beside recv: does the file exist, what does fork answer, does execl come back.
pub record System : Type 0 where
  pub access : List ℕ → Bool
  pub fork : Forked
  pub exec_returns : Bool

pub data Action : Type 0 where
  epoll_del : ℕ → ℕ → Action
  close : ℕ → Action
  dup : ℕ → Action
  execl : List ℕ → Action
  exit : ℕ → Action

-- `polling` : every answer has been consumed and the loop is at its next recv.
pub data Outcome : Type 0 where
  polling : Conn → Outcome
  ended : Conn → List Action → Outcome

unfoldable pub init : ℕ → ℕ → ℕ → Conn
init epollfd sockfd client_addr = record {
  epollfd = epollfd;
  sockfd = sockfd;
  address = client_addr;
  buf = replicate buffer_size 0;
  read_idx = 0;
}

unfoldable pub removefd : ℕ → ℕ → List Action
removefd epollfd fd = epoll_del epollfd fd ∷ close fd ∷ []

-- recv stores the bytes one after the other from index `i` on.
unfoldable pub write_at : List ℕ → ℕ → List ℕ → List ℕ
write_at buf i [] = buf
write_at buf i (x ∷ xs) = write_at (set buf i x) (suc i) xs

-- The test of the loop that looks for CR LF.
unfoldable pub crlf_at : List ℕ → ℕ → Bool
crlf_at buf idx =
    leb 1 idx && ((get_or buf (idx - 1) 0 == carriage_return) && (get_or buf idx 0 == line_feed))

-- `for (; idx < m_read_idx; idx++)`, on the rounds left; the index at which the loop stops.
unfoldable pub find_crlf : ℕ → ℕ → List ℕ → ℕ
find_crlf zero idx buf = idx
find_crlf (suc n) idx buf =
    let rest = find_crlf n (suc idx) buf in if crlf_at buf idx then idx else rest

-- A `char*` read as a string: the bytes before the first NUL.
unfoldable pub c_string : List ℕ → List ℕ
c_string [] = []
c_string (x ∷ xs) = if x == 0 then [] else x ∷ c_string xs

-- From `access` to the end of the loop's body.
unfoldable pub serve : System → Conn → List ℕ → List Action
serve sys c file_name =
    if sys.access file_name
    then elim sys.fork [
      | fork_failed ↦ removefd c.epollfd c.sockfd
      | in_parent ↦ removefd c.epollfd c.sockfd
      | in_child ↦
          close stdout_fileno
          ∷ dup c.sockfd
          ∷ execl file_name
          ∷ (if sys.exec_returns then exit 0 ∷ [] else [])
    ]
    else removefd c.epollfd c.sockfd

-- recv has stored `xs` and moved `m_read_idx`.
unfoldable pub receive : Conn → List ℕ → Conn
unfolding write_at
receive c xs = record c { buf = write_at c.buf c.read_idx xs; read_idx = c.read_idx + length xs }

-- The buffer with a NUL in place of the CR.
unfoldable pub terminate : Conn → ℕ → Conn
terminate c idx = record c { buf = set c.buf (idx - 1) 0 }

unfoldable pub process : System → List Received → Conn → Outcome
process sys [] c = polling c
process sys (failed ∷ rs) c = ended c (removefd c.epollfd c.sockfd)
process sys (again ∷ rs) c = process sys rs c
process sys (closed ∷ rs) c = ended c (removefd c.epollfd c.sockfd)
process sys (bytes xs ∷ rs) c =
    let c' = receive c xs in
    let idx = find_crlf (length xs) c.read_idx c'.buf in
    let pending = process sys rs c' in
    let line = terminate c' idx in
    if idx == c'.read_idx then pending else ended line (serve sys line (c_string line.buf))
