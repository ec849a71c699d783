-- ===== src/LinuxClient/Closing.antt =====
-- linux_client/main.cpp: the socket on every path.
use linux_network.Base.{
  ℕ, ◌≡◌, ◌≢◌, refl, sym, subst, true, Bool-cases, ◌&&◌, ◌⊎◌, ◌↔◌, inl, inr, Option, Option-cases,
  some, List, [], ◌∷◌, ◌++◌, arith, ℤ,
}
use linux_network.LinuxClient.{
  Answers, Action, opened, connect, send, recv, close, exits, aborts, Outcome, exit, nothing, talk,
  run_client, main, to_uint16, payload,
}

abbrev pub closes : List Action → List ℕ
closes [] = []
closes (opened fd ∷ acts) = closes acts
closes (connect fd ip port ∷ acts) = closes acts
closes (send fd text ∷ acts) = closes acts
closes (recv fd ∷ acts) = closes acts
closes (close fd ∷ acts) = fd ∷ closes acts

-- The socket is opened first and closed last, and not closed between.
abbrev pub Closed : ℕ → List Action → Type 0
Closed fd acts = (mid : List Action) × (acts ≡ opened fd ∷ mid ++ close fd ∷ []) × (closes mid ≡ [])

abbrev pub Tidy : Answers → Outcome → Type 0
Tidy ans o =
    ((o.actions ≡ []) × (o.ending ≢ exits 0))
    ⊎ ((fd : ℕ) × (ans.socket ≡ some fd)
        × Closed fd o.actions
        × ((o.ending ≡ exits 0) ↔ ((ans.inet_pton_ok && ans.connect_ok && ans.send_ok) ≡ true)))

talk-Closed :
    (fd : ℕ) (ip : List ℕ) (port : ℕ) (message : List ℕ) (ans : Answers)
    → Closed fd (talk fd ip port message ans).actions
unfolding talk
talk-Closed fd ip port message ans = elim (Bool-cases ans.inet_pton_ok) [
  | inr t ↦ ([], rw t refl, refl)
  | inl t ↦ elim (Bool-cases ans.connect_ok) [
    | inr u ↦ (connect fd ip port ∷ [], rw (t, u) refl, refl)
    | inl u ↦ elim (Bool-cases ans.send_ok) [
      | inr v ↦ (connect fd ip port ∷ send fd (payload message) ∷ [], rw (t, u, v) refl, refl)
      | inl v ↦
          (connect fd ip port ∷ send fd (payload message) ∷ recv fd ∷ [], rw (t, u, v) refl, refl)
    ]
  ]
]

one-ne-zero : exits 1 ≢ exits 0
one-ne-zero e = cc

aborts-ne-exits : aborts ≢ exits 0
aborts-ne-exits e = cc

talk-ending :
    (fd : ℕ) (ip : List ℕ) (port : ℕ) (message : List ℕ) (ans : Answers)
    → ((talk fd ip port message ans).ending ≡ exits 0)
      ↔ ((ans.inet_pton_ok && ans.connect_ok && ans.send_ok) ≡ true)
unfolding talk
talk-ending fd ip port message ans = ground arith

module _ (stoi : List ℕ → Option ℤ) where
  pub run_client-talk :
      (ip port message : List ℕ) (ans : Answers) (n : ℤ) (fd : ℕ)
      → stoi port ≡ some n
      → ans.socket ≡ some fd
      → run_client stoi ip port message ans ≡ talk fd ip (to_uint16 n) message ans
  unfolding run_client talk
  run_client-talk ip port message ans n fd x y = rw (x, y, run_client) refl

  run_client-Tidy :
      (ip port message : List ℕ) (ans : Answers) → Tidy ans (run_client stoi ip port message ans)
  unfolding run_client
  run_client-Tidy ip port message ans = elim (Option-cases (stoi port)) [
    | inl x ↦ rw (x, run_client) (inl (refl, aborts-ne-exits))
    | inr (n, x) ↦ elim (Option-cases ans.socket) [
      | inl y ↦
          let gone : run_client stoi ip port message ans ≡ exit 1 [] nothing =
            rw (x, y, run_client) refl in
          subst (Tidy ans) (sym gone) (inl (refl, one-ne-zero))
      | inr (fd, y) ↦ subst (Tidy ans) (sym (run_client-talk ip port message ans n fd x y)) (
          inr (
            fd,
            y,
            talk-Closed fd ip (to_uint16 n) message ans,
            talk-ending fd ip (to_uint16 n) message ans,
          ))
    ]
  ]

  -- Whatever the arguments, stoi and the system calls give: either the client opens no socket, does
  -- nothing and does not exit with 0, or it opens one, closes it once and last, and exits with 0 exactly
  -- when inet_pton, connect and send have succeeded, whatever recv answers.
  pub main-Tidy : (argv : List (List ℕ)) (ans : Answers) → Tidy ans (main stoi argv ans)
  unfolding main
  main-Tidy [] ans = inl (refl, one-ne-zero)
  main-Tidy (a ∷ []) ans = inl (refl, one-ne-zero)
  main-Tidy (a ∷ b ∷ []) ans = inl (refl, one-ne-zero)
  main-Tidy (a ∷ b ∷ c ∷ []) ans = inl (refl, one-ne-zero)
  main-Tidy (a ∷ b ∷ c ∷ d ∷ []) ans = run_client-Tidy b c d ans
  main-Tidy (a ∷ b ∷ c ∷ d ∷ e ∷ argv) ans = inl (refl, one-ne-zero)
