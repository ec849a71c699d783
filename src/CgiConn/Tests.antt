-- ===== src/CgiConn/Tests.antt =====
-- Runs of cgi_conn and instances of its theorems.
use linux_network.Base.{ℕ, ◌≡◌, refl, zero, suc, true, false, List, [], ◌∷◌, arith}
use linux_network.CgiConn.{
  Conn, Received, bytes, closed, again, System, in_child, close, dup, execl, init, crlf_at,
  write_at, serve, process, c_string, find_crlf, receive, terminate,
}
use linux_network.CgiConn.Line.{trace, FirstCrlf}
use linux_network.CgiConn.Scan.{NoneIn}
use linux_network.CgiConn.Request.{process-serve, process-Pending, Pending, init-WellFormed}

abbrev shell : System
shell = record { access = λ _. true; fork = in_child; exec_returns = false }

-- "/a" CR LF in three pieces, with EAGAIN in between and more bytes behind the line
abbrev pieces : List Received
pieces = bytes (47 ∷ []) ∷ again ∷ bytes (97 ∷ 13 ∷ []) ∷ bytes (10 ∷ 33 ∷ []) ∷ []

abbrev fresh : Conn
fresh = init 5 9 0

abbrev text : List ℕ
text = 47 ∷ 97 ∷ 13 ∷ 10 ∷ 33 ∷ []

text_before : NoneIn text 0 3
unfolding crlf_at
text_before zero a b = refl
text_before (suc zero) a b = refl
text_before (suc (suc zero)) a b = refl
text_before (suc (suc (suc k))) a b = absurd (omega arith)

text-FirstCrlf : FirstCrlf text 3
unfolding crlf_at
text-FirstCrlf = record { inside = omega arith; here = refl; earlier = text_before }

process-serve_example :
    trace (process shell pieces fresh) ≡ close 1 ∷ dup 9 ∷ execl (47 ∷ 97 ∷ []) ∷ []
unfolding init serve c_string
process-serve_example =
    process-serve shell pieces [] fresh 3 (init-WellFormed 5 9 0) (omega arith) text-FirstCrlf

-- No line yet.
abbrev start : List Received
start = bytes (47 ∷ []) ∷ again ∷ bytes (97 ∷ 13 ∷ []) ∷ []

start_clean : NoneIn (47 ∷ 97 ∷ 13 ∷ []) 0 3
unfolding crlf_at
start_clean zero a b = refl
start_clean (suc zero) a b = refl
start_clean (suc (suc zero)) a b = refl
start_clean (suc (suc (suc k))) a b = absurd (omega arith)

process-Pending_example : (d : Conn) × Pending shell start (closed ∷ []) fresh d
unfolding init
process-Pending_example =
    process-Pending shell start (closed ∷ []) fresh (init-WellFormed 5 9 0) (omega arith)
      start_clean

-- The whole run, evaluated.
serve_runs : trace (process shell pieces fresh) ≡ close 1 ∷ dup 9 ∷ execl (47 ∷ 97 ∷ []) ∷ []
unfolding init process receive write_at find_crlf crlf_at terminate serve c_string
serve_runs = refl
