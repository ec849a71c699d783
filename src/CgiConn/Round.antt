-- ===== src/CgiConn/Round.antt =====
-- cpt_15_3.h, cgi_conn::process: one round of the loop after recv has stored some bytes.
use linux_network.Base.{
  ℕ, ◌+◌, ◌-◌, ◌≤◌, ◌<◌, ◌≡◌, refl, sym, ap, ◌∙◌, true, false, List, ◌∷◌, ◌++◌, arith, dec_lt, ◌==◌,
  length, take, ==_iff,
}
use linux_network.CgiConn.{
  buffer_size, Conn, Received, bytes, System, ended, crlf_at, find_crlf, receive, terminate, serve,
  process, c_string,
}
use linux_network.CgiConn.Scan.{NoneIn, Found, find_crlf-Found}
use linux_network.CgiConn.Buffer.{
  length-write_at, take-write_at, crlf_at-take, length-take, crlf_at-append,
}

-- The bytes that the connection has received so far.
abbrev pub received : Conn → List ℕ
received c = take c.read_idx c.buf

-- The buffer is whole, keeps a byte free, and no CR LF has been received.
pub record WellFormed (c : Conn) : Type 0 where
  pub whole : length c.buf ≡ buffer_size
  pub room : c.read_idx < buffer_size
  pub pending : NoneIn c.buf 0 c.read_idx

module _ {c : Conn} (w : WellFormed c) (xs : List ℕ) (some_bytes : 0 < length xs)
    (fits : length xs ≤ buffer_size - 1 - c.read_idx) where
  pub received-receive : received (receive c xs) ≡ received c ++ xs
  unfolding receive
  received-receive = take-write_at c.buf c.read_idx _ xs refl (omega (arith, w.whole, w.room))

  pub sizes :
      (length (receive c xs).buf ≡ buffer_size) × ((receive c xs).read_idx ≡ c.read_idx + length xs)
  unfolding receive
  sizes = (length-write_at c.buf c.read_idx xs ∙ w.whole, refl)

  pub length-received : length (received (receive c xs)) ≡ c.read_idx + length xs
  length-received = omega (
    arith,
    length-take (receive c xs).buf (receive c xs).read_idx (omega (arith, sizes, w.room)),
    sizes.1,
  )

  -- Among the received bytes the buffer and the bytes answer alike.
  pub crlf_at-received :
      (k : ℕ)
      → k < c.read_idx + length xs
      → crlf_at (receive c xs).buf k ≡ crlf_at (received c ++ xs) k
  crlf_at-received k h =
      sym (crlf_at-take (receive c xs).buf (receive c xs).read_idx k (omega (arith, sizes.1)))
      ∙ ap (λ l. crlf_at l k) received-receive

  -- Nothing before the old end of the bytes is touched.
  old : NoneIn (receive c xs).buf 0 c.read_idx
  old k a b =
      crlf_at-received k (omega arith)
      ∙ crlf_at-append (received c) xs k
          (omega (arith, length-take c.buf c.read_idx (omega (arith, w.whole, w.room))))
      ∙ crlf_at-take c.buf c.read_idx k b
      ∙ w.pending k a b

  none_before :
      (r : ℕ) → Found (length xs) c.read_idx (receive c xs).buf r → NoneIn (receive c xs).buf 0 r
  none_before r f k a b = elim (dec_lt k c.read_idx) [
    | yes lo ↦ old k a lo
    | no hi ↦ f.before k (omega arith) b
  ]

  abbrev stop : ℕ
  stop = find_crlf (length xs) c.read_idx (receive c xs).buf

  found : Found (length xs) c.read_idx (receive c xs).buf stop
  found = find_crlf-Found (length xs) c.read_idx (receive c xs).buf

  -- With no CR LF among the bytes the loop goes on to the next recv.
  pub process-keep :
      (sys : System) (rs : List Received)
      → NoneIn (receive c xs).buf 0 (c.read_idx + length xs)
      → process sys (bytes xs ∷ rs) c ≡ process sys rs (receive c xs)
  unfolding process
  process-keep sys rs clean = rw at_end
    where
      at_end : (stop == (receive c xs).read_idx) ≡ true
      at_end = elim (dec_lt stop (c.read_idx + length xs)) [
        | yes h ↦ cc (found.hit h, clean stop (omega arith) h)
        | no h ↦ (==_iff _ _).1 (omega (arith, found.high, sizes.1))
      ]

  stop-eq :
      (k : ℕ)
      → k < c.read_idx + length xs
      → crlf_at (receive c xs).buf k ≡ true
      → NoneIn (receive c xs).buf 0 k
      → stop ≡ k
  stop-eq k h hit first = elim (dec_lt stop k) [
    | yes lo ↦ cc (found.hit (omega arith), first stop (omega arith) lo)
    | no hi ↦ elim (dec_lt k stop) [
      | yes over ↦ cc (hit, none_before stop found k (omega arith) over)
      | no same ↦ omega arith
    ]
  ]

  -- Otherwise the line before the first CR LF is served.
  pub process-line :
      (sys : System) (rs : List Received) (k : ℕ)
      → k < c.read_idx + length xs
      → crlf_at (receive c xs).buf k ≡ true
      → NoneIn (receive c xs).buf 0 k
      → let line = terminate (receive c xs) k in
        process sys (bytes xs ∷ rs) c ≡ ended line (serve sys line (c_string line.buf))
  unfolding process
  process-line sys rs k h hit first = rw (at_line, inside) refl
    where
      at_line : stop ≡ k
      at_line = stop-eq k h hit first

      inside : (k == (receive c xs).read_idx) ≡ false
      inside = ground (arith, sizes)
