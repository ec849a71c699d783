-- ===== src/CgiConn/Request.antt =====
-- cpt_15_3.h, cgi_conn::process: the request line does not depend on how recv cuts the bytes.
use linux_network.Base.{
  ℕ, ◌+◌, ◌-◌, ◌≤◌, ◌<◌, ◌≡◌, refl, sym, ap, ◌∙◌, List, [], ◌∷◌, ◌++◌, append_assoc, append-nil,
  arith, dec_lt, length, take, subst, length-append, length-replicate, ◌⊎◌,
}
use linux_network.CgiConn.{
  buffer_size, Conn, Received, bytes, closed, again, failed, System, receive, serve, process,
  c_string, init, removefd, close, epoll_del,
}
use linux_network.CgiConn.Scan.{NoneIn}
use linux_network.CgiConn.Buffer.{crlf_at-take, length-take}
use linux_network.CgiConn.Round.{received, WellFormed, sizes, process-keep}
use linux_network.CgiConn.Line.{
  Obeys, payload, FirstCrlf, trace, serve-same, receive-fds, text_after, long, clean_buf,
  receive-WellFormed, serve-line,
}

NoneIn-below : (text : List ℕ) (i j : ℕ) → i ≤ j → NoneIn text 0 j → NoneIn text 0 i
NoneIn-below text i j h clean k a b = clean k a (omega arith)

part-le :
    {c : Conn} (w : WellFormed c) (xs : List ℕ) (some_bytes : 0 < length xs)
    (fits : length xs ≤ buffer_size - 1 - c.read_idx) (ys : List ℕ)
    → c.read_idx + length xs ≤ length (received c ++ (xs ++ ys))
part-le {c} w xs some_bytes fits ys = omega (
  arith,
  long w xs some_bytes fits ys,
  ap length (append_assoc (received c) xs ys),
  length-append (received c ++ xs) ys,
)

-- A well-formed connection has received no CR LF.
nothing_yet : {c : Conn} {k : ℕ} → WellFormed c → FirstCrlf (received c ++ []) k → ⊥
nothing_yet {c} {k} w f = cc (
  f'.here,
  crlf_at-take c.buf c.read_idx k (omega (arith, inside)),
  w.pending k (omega arith) (omega (arith, inside)),
)
  where
    f' : FirstCrlf (received c) k
    f' = rw append-nil at f

    inside : k < c.read_idx
    inside = omega (arith, f'.inside, length-take c.buf c.read_idx (omega (arith, w.whole, w.room)))

-- `rs` has been consumed on the way from `c` to `d`.
pub record Pending (sys : System) (rs rest : List Received) (c d : Conn) : Type 0 where
  pub goes_on : process sys (rs ++ rest) c ≡ process sys rest d
  pub well_formed : WellFormed d
  pub text : received d ≡ received c ++ payload rs
  pub same_epollfd : d.epollfd ≡ c.epollfd
  pub same_sockfd : d.sockfd ≡ c.sockfd

-- While no CR LF has arrived, process consumes every answer of recv, keeps the bytes in order in its
-- buffer, within its bounds, and goes on receiving; its descriptors stay the same.
pub process-Pending :
    (sys : System) (rs rest : List Received) (c : Conn)
    → WellFormed c
    → Obeys c.read_idx rs
    → NoneIn (received c ++ payload rs) 0 (length (received c ++ payload rs))
    → (d : Conn) × Pending sys rs rest c d
unfolding process
process-Pending sys [] rest c w o n = (
  c,
  record {
    goes_on = refl;
    well_formed = w;
    text = sym (append-nil _);
    same_epollfd = refl;
    same_sockfd = refl;
  },
)
process-Pending sys (again ∷ rs) rest c w o n =
    let (d, p) = process-Pending sys rs rest c w o n in
    (
      d,
      record {
        goes_on = p.goes_on;
        well_formed = p.well_formed;
        text = p.text;
        same_epollfd = p.same_epollfd;
        same_sockfd = p.same_sockfd;
      },
    )
process-Pending sys (closed ∷ rs) rest c w o n = elim o [ ]
process-Pending sys (failed ∷ rs) rest c w o n = elim o [ ]
process-Pending sys (bytes xs ∷ rs) rest c w o n =
    let early = NoneIn-below _ (c.read_idx + length xs) _ (part-le w xs o.0 o.1 (payload rs)) n in
    let e = text_after w xs o.0 o.1 (payload rs) in
    let (d, p) =
      process-Pending sys rs rest (receive c xs)
        (receive-WellFormed w xs o.0 o.1 (payload rs) early)
        (subst (λ m. Obeys m rs) (sym (sizes w xs o.0 o.1).1) o.2) (rw e n) in
    (
      d,
      record {
        goes_on =
            process-keep w xs o.0 o.1 sys (rs ++ rest)
              (clean_buf w xs o.0 o.1 (payload rs) _ (omega arith) early)
            ∙ p.goes_on;
        well_formed = p.well_formed;
        text = p.text ∙ e;
        same_epollfd = p.same_epollfd ∙ (receive-fds c xs).0;
        same_sockfd = p.same_sockfd ∙ (receive-fds c xs).1;
      },
    )

-- From a well-formed connection, with answers of recv that keep to the length asked for: the line
-- before the first CR LF is served, up to a NUL in it, however recv cuts the bytes and however often
-- it answers EAGAIN in between, and whatever comes later.
pub process-serve :
    (sys : System) (rs rest : List Received) (c : Conn) (k : ℕ)
    → WellFormed c
    → Obeys c.read_idx rs
    → FirstCrlf (received c ++ payload rs) k
    → trace (process sys (rs ++ rest) c)
      ≡ serve sys c (c_string (take (k - 1) (received c ++ payload rs)))
unfolding process
process-serve sys [] rest c k w o f = absurd (nothing_yet w f)
process-serve sys (again ∷ rs) rest c k w o f = process-serve sys rs rest c k w o f
process-serve sys (closed ∷ rs) rest c k w o f = elim o [ ]
process-serve sys (failed ∷ rs) rest c k w o f = elim o [ ]
process-serve sys (bytes xs ∷ rs) rest c k w o f = elim (dec_lt k (c.read_idx + length xs)) [
  | yes h ↦ serve-line w xs o.0 o.1 (payload rs) sys (rs ++ rest) k h f
  | no h ↦
      let early = NoneIn-below _ (c.read_idx + length xs) k (omega arith) f.earlier in
      let e = text_after w xs o.0 o.1 (payload rs) in
      ap trace (
        process-keep w xs o.0 o.1 sys (rs ++ rest)
          (clean_buf w xs o.0 o.1 (payload rs) _ (omega arith) early))
      ∙ process-serve sys rs rest (receive c xs) k
          (receive-WellFormed w xs o.0 o.1 (payload rs) early)
          (subst (λ m. Obeys m rs) (sym (sizes w xs o.0 o.1).1) o.2) (rw e f)
      ∙ serve-same sys _ c _ (receive-fds c xs).0 (receive-fds c xs).1
      ∙ ap (λ l. serve sys c (c_string (take (k - 1) l))) e
]

pub init-WellFormed :
    (epollfd sockfd client_addr : ℕ) → WellFormed (init epollfd sockfd client_addr)
unfolding init
init-WellFormed epollfd sockfd client_addr = record {
  whole = length-replicate {A = ℕ} buffer_size 0;
  room = omega arith;
  pending = λ k a b. absurd (omega arith);
}

-- The same for a connection that has just been set up.
pub process-fresh :
    (sys : System) (rs : List Received) (epollfd sockfd client_addr k : ℕ)
    → Obeys 0 rs
    → FirstCrlf (payload rs) k
    → trace (process sys rs (init epollfd sockfd client_addr))
      ≡ serve sys (init epollfd sockfd client_addr) (c_string (take (k - 1) (payload rs)))
unfolding init
process-fresh sys rs epollfd sockfd client_addr k o f =
    let whole =
      process-serve sys rs [] (init epollfd sockfd client_addr) k
        (init-WellFormed epollfd sockfd client_addr) o f in
    rw (append-nil rs) at whole

-- From a well-formed connection: when recv reports the end of the connection or an error other than
-- EAGAIN before a CR LF has arrived, the descriptor is taken out of epoll and closed, once each, and nothing else is done.
process-hangup :
    (sys : System) (rs rest : List Received) (last : Received) (c : Conn)
    → WellFormed c
    → Obeys c.read_idx rs
    → NoneIn (received c ++ payload rs) 0 (length (received c ++ payload rs))
    → (last ≡ closed) ⊎ (last ≡ failed)
    → trace (process sys (rs ++ last ∷ rest) c) ≡ epoll_del c.epollfd c.sockfd ∷ close c.sockfd ∷ []
unfolding process removefd
process-hangup sys rs rest last c w o n hangup =
    let (d, p) = process-Pending sys rs (last ∷ rest) c w o n in
    ap trace p.goes_on ∙ ground (arith, p.same_epollfd, p.same_sockfd)
