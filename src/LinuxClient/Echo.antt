-- ===== src/LinuxClient/Echo.antt =====
-- linux_client/main.cpp and thread_pool_server.cpp, TcpConnection: the client against a worker.
use linux_network.Base.{
  ℕ, zero, suc, ◌-◌, ◌≤◌, ◌≡◌, ◌≢◌, refl, sym, ap, ◌∙◌, Bool, true, Bool-cases, inl, inr, Option,
  none, some, List, [], ◌∷◌, ◌++◌, arith, take, All, ne→==false, ℤ,
}
use linux_network.LinuxClient
use linux_network.LinuxClient.{
  Answers, Outcome, Printed, reply, main, run_client, payload, c_string, talk, to_uint16,
}
use linux_network.LinuxClient.Closing.{run_client-talk}
use linux_network.TcpServer
use linux_network.TcpServer.Echo.{hangs_up, serve-echoes}
use mathlib.Core.Option.{some-injective}
use linux_network.TcpServer.{echo_prefix, serve, process_request, Progress, receiving, returned}

-- A chunk that recv gives of a stream, where the buffer is the only limit.
abbrev pub chunk : ℕ → List ℕ → List ℕ
chunk size stream = take (size - 1) stream

-- The first text that a program sends.
abbrev pub sent_first : List TcpServer.Action → Option (List ℕ)
sent_first [] = none
sent_first (TcpServer.send fd text ok ∷ acts) = some text
sent_first (TcpServer.close fd ∷ acts) = sent_first acts

abbrev pub actions_of : Progress → List TcpServer.Action
actions_of (receiving acts) = acts
actions_of (returned acts) = acts

abbrev pub client_sends : List LinuxClient.Action → Option (List ℕ)
client_sends [] = none
client_sends (LinuxClient.opened fd ∷ acts) = client_sends acts
client_sends (LinuxClient.connect fd ip port ∷ acts) = client_sends acts
client_sends (LinuxClient.send fd text ∷ acts) = some text
client_sends (LinuxClient.recv fd ∷ acts) = client_sends acts
client_sends (LinuxClient.close fd ∷ acts) = client_sends acts

take-take : (m n : ℕ) (xs : List ℕ) → m ≤ n → take m (take n xs) ≡ take m xs
take-take zero n xs le = refl
take-take (suc m) zero xs le = absurd (omega arith)
take-take (suc m) (suc n) [] le = refl
take-take (suc m) (suc n) (x ∷ xs) le = ap (λ l. x ∷ l) (take-take m n xs (omega arith))

-- No byte is 0.
abbrev pub NoZero : List ℕ → Type 0
NoZero = All (λ c. c ≢ 0)

NoZero-take : (n : ℕ) (xs : List ℕ) → NoZero xs → NoZero (take n xs)
NoZero-take zero xs h = tt
NoZero-take (suc n) [] h = tt
NoZero-take (suc n) (x ∷ xs) h = (h.0, NoZero-take n xs h.1)

NoZero-append : (xs ys : List ℕ) → NoZero xs → NoZero ys → NoZero (xs ++ ys)
NoZero-append [] ys h k = k
NoZero-append (x ∷ xs) ys h k = (h.0, NoZero-append xs ys h.1 k)

c_string-NoZero : (xs : List ℕ) → NoZero xs → c_string (xs ++ 0 ∷ []) ≡ xs
c_string-NoZero [] h = refl
c_string-NoZero (x ∷ xs) h = rw (ne→==false x 0 h.0, c_string-NoZero xs h.1) refl

prefix_lem :
    (text : List ℕ) → chunk 1024 (echo_prefix ++ take 1023 text) ≡ echo_prefix ++ take 1017 text
prefix_lem text = ap (λ l. echo_prefix ++ l) (take-take 1017 1023 text (omega arith))

-- The first answer of a worker.
worker_answers :
    (worker : ℕ) (q : List ℕ) (sent : Bool) (rs : List TcpServer.Received)
    → sent_first (actions_of (serve (some worker) (TcpServer.bytes q sent ∷ rs)))
      ≡ some (echo_prefix ++ q)
worker_answers worker q sent rs = elim (Bool-cases (hangs_up rs)) [
  | inl t ↦ rw (serve-echoes worker (TcpServer.bytes q sent ∷ rs), t) refl
  | inr t ↦ rw (serve-echoes worker (TcpServer.bytes q sent ∷ rs), t) refl
]

-- What the client does once its calls succeed.
talk_lem :
    (fd : ℕ) (ip : List ℕ) (port : ℕ) (m : List ℕ) (ans : Answers)
    → ans.inet_pton_ok ≡ true
    → ans.connect_ok ≡ true
    → ans.send_ok ≡ true
    → (client_sends (talk fd ip port m ans).actions ≡ some (payload m))
      × ((talk fd ip port m ans).printed ≡ LinuxClient.print_received ans.received)
unfolding talk
talk_lem fd ip port m ans x y z = (rw (x, y, z) refl, rw (x, y, z) refl)

module _ (stoi : List ℕ → Option ℤ) where
  -- Where the client's calls succeed, its message has no byte 0, a worker gets as much of what the client
  -- sends as its buffer takes, and the client as much of the worker's first answer as its own buffer
  -- takes: the client prints "Echo: " and of the message with its line end the first 1017 bytes, so that
  -- a message of up to 1015 bytes comes back whole.
  pub main-echo :
      (name ip port m : List ℕ) (ans : Answers) (n : ℤ) (fd worker : ℕ) (p r : List ℕ) (sent : Bool)
      (rs : List TcpServer.Received)
      → stoi port ≡ some n
      → ans.socket ≡ some fd
      → ans.inet_pton_ok ≡ true
      → ans.connect_ok ≡ true
      → ans.send_ok ≡ true
      → NoZero m
      → client_sends (main stoi (name ∷ ip ∷ port ∷ m ∷ []) ans).actions ≡ some p
      → sent_first (
          actions_of
            (serve (some worker) (TcpServer.bytes (chunk TcpServer.buffer_size p) sent ∷ rs)))
        ≡ some r
      → ans.received ≡ LinuxClient.bytes (chunk LinuxClient.buffer_size r)
      → (main stoi (name ∷ ip ∷ port ∷ m ∷ []) ans).printed
        ≡ reply (echo_prefix ++ take 1017 (m ++ 13 ∷ 10 ∷ []))
  unfolding main
  main-echo name ip port m ans n fd worker p r sent rs number opened x y z nonzero sends answers
        gets =
      let on = run_client-talk stoi ip port m ans n fd number opened in
      let (sends', prints) = talk_lem fd ip (to_uint16 n) m ans x y z in
      let p_is : payload m ≡ p =
        some-injective _ _ (sym sends' ∙ ap (λ o. client_sends o.actions) (sym on) ∙ sends) in
      let r_is : echo_prefix ++ take 1023 p ≡ r =
        some-injective _ _ (sym (worker_answers worker (take 1023 p) sent rs) ∙ answers) in
      let text : chunk 1024 r ≡ echo_prefix ++ take 1017 (payload m) =
        ap (chunk 1024) (sym r_is)
        ∙ prefix_lem p
        ∙ ap (λ l. echo_prefix ++ take 1017 l) (sym p_is) in
      ap (λ o. o.printed) on
      ∙ prints
      ∙ ap LinuxClient.print_received (gets ∙ ap LinuxClient.bytes text)
      ∙ ap reply (
          c_string-NoZero (echo_prefix ++ take 1017 (payload m)) (
            NoZero-append echo_prefix (take 1017 (payload m)) (omega arith) (
              NoZero-take 1017 (payload m) (NoZero-append m (13 ∷ 10 ∷ []) nonzero (omega arith)))))
