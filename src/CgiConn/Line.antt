-- ===== src/CgiConn/Line.antt =====
-- cpt_15_3.h, cgi_conn::process: the line that ends at the first CR LF, whatever comes behind it.
use linux_network.Base.{
  ℕ, ◌+◌, ◌-◌, ◌≤◌, ◌<◌, ◌≡◌, refl, sym, ap, ◌∙◌, true, List, [], ◌∷◌, ◌++◌, append_assoc, arith,
  length, take,
}
use linux_network.CgiConn.{
  buffer_size, Conn, Received, bytes, closed, again, failed, System, Action, Outcome, polling,
  ended, crlf_at, receive, terminate, serve, process, c_string,
}
use linux_network.CgiConn.Scan.{NoneIn}
use linux_network.CgiConn.Buffer.{crlf_at-append, take-append, c_string-set, take-take}
use linux_network.CgiConn.Round.{
  received, WellFormed, received-receive, sizes, length-received, crlf_at-received, process-line,
}

-- What recv promises of an answer that is bytes: at least one, and at most as many as were asked
-- for, which is what `BUFFER_SIZE - 1 - idx` leaves after `n` bytes.
abbrev pub Obeys : ℕ → List Received → Type 0
Obeys n [] = Unit {0}
Obeys n (bytes xs ∷ rs) =
    (0 < length xs) × (length xs ≤ buffer_size - 1 - n) × Obeys (n + length xs) rs
Obeys n (again ∷ rs) = Obeys n rs
Obeys n (closed ∷ rs) = ⊥
Obeys n (failed ∷ rs) = ⊥

-- All bytes of a list of answers.
abbrev pub payload : List Received → List ℕ
payload [] = []
payload (bytes xs ∷ rs) = xs ++ payload rs
payload (_ ∷ rs) = payload rs

-- The first CR LF of `text` ends at index `k`.
pub record FirstCrlf (text : List ℕ) (k : ℕ) : Type 0 where
  pub inside : k < length text
  pub here : crlf_at text k ≡ true
  pub earlier : NoneIn text 0 k

-- The actions of an outcome.
abbrev pub trace : Outcome → List Action
trace (polling c) = []
trace (ended c acts) = acts

-- What a request does depends on the connection only by its descriptors.
pub serve-same :
    (sys : System) (c d : Conn) (name : List ℕ)
    → c.epollfd ≡ d.epollfd
    → c.sockfd ≡ d.sockfd
    → serve sys c name ≡ serve sys d name
unfolding serve
serve-same sys c d name e s = ground arith

pub receive-fds :
    (c : Conn) (xs : List ℕ)
    → ((receive c xs).epollfd ≡ c.epollfd) × ((receive c xs).sockfd ≡ c.sockfd)
unfolding receive
receive-fds c xs = (refl, refl)

module _ {c : Conn} (w : WellFormed c) (xs : List ℕ) (some_bytes : 0 < length xs)
    (fits : length xs ≤ buffer_size - 1 - c.read_idx) (ys : List ℕ) where
  -- The text so far and what is still to come, seen after the bytes `xs`.
  pub text_after : received (receive c xs) ++ ys ≡ received c ++ (xs ++ ys)
  text_after =
      ap (λ l. l ++ ys) (received-receive w xs some_bytes fits) ∙ append_assoc (received c) xs ys

  pub long : length (received c ++ xs) ≡ c.read_idx + length xs
  long =
      ap length (sym (received-receive w xs some_bytes fits)) ∙ length-received w xs some_bytes fits

  pub crlf_at-text :
      (k : ℕ)
      → k < c.read_idx + length xs
      → crlf_at (receive c xs).buf k ≡ crlf_at (received c ++ (xs ++ ys)) k
  crlf_at-text k h =
      crlf_at-received w xs some_bytes fits k h
      ∙ sym (crlf_at-append (received c ++ xs) ys k (omega (arith, long)))
      ∙ ap (λ l. crlf_at l k) (append_assoc (received c) xs ys)

  pub clean_buf :
      (j : ℕ)
      → j ≤ c.read_idx + length xs
      → NoneIn (received c ++ (xs ++ ys)) 0 j
      → NoneIn (receive c xs).buf 0 j
  clean_buf j h clean k a b = crlf_at-text k (omega arith) ∙ clean k a b

  pub receive-WellFormed :
      NoneIn (received c ++ (xs ++ ys)) 0 (c.read_idx + length xs) → WellFormed (receive c xs)
  receive-WellFormed clean = record {
    whole = (sizes w xs some_bytes fits).0;
    room = omega (arith, (sizes w xs some_bytes fits).1, w.room);
    pending = λ k a b.
        clean_buf _ (omega arith) clean k a (omega (arith, (sizes w xs some_bytes fits).1));
  }

  -- The file name is the text before the CR, up to a NUL in it.
  c_string-line :
      (k : ℕ)
      → k < c.read_idx + length xs
      → c_string (terminate (receive c xs) k).buf
        ≡ c_string (take (k - 1) (received c ++ (xs ++ ys)))
  unfolding terminate
  c_string-line k h =
      c_string-set (receive c xs).buf (k - 1) (omega (arith, sizes w xs some_bytes fits, w.room))
      ∙ ap c_string (
          sym (
            take-take (receive c xs).buf (k - 1) (receive c xs).read_idx
              (omega (arith, sizes w xs some_bytes fits)))
          ∙ sym (
              take-append (received (receive c xs)) ys (k - 1)
                (omega (arith, length-received w xs some_bytes fits)))
          ∙ ap (take (k - 1)) text_after)

  pub serve-line :
      (sys : System) (rs : List Received) (k : ℕ)
      → k < c.read_idx + length xs
      → FirstCrlf (received c ++ (xs ++ ys)) k
      → trace (process sys (bytes xs ∷ rs) c)
        ≡ serve sys c (c_string (take (k - 1) (received c ++ (xs ++ ys))))
  unfolding terminate
  serve-line sys rs k h f =
      ap trace (
        process-line w xs some_bytes fits sys rs k h (crlf_at-text k h ∙ f.here)
          (clean_buf k (omega arith) f.earlier))
      ∙ serve-same sys _ c _ (receive-fds c xs).0 (receive-fds c xs).1
      ∙ ap (serve sys c) (c_string-line k h)
