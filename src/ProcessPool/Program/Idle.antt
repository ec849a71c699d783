-- ===== src/ProcessPool/Program/Idle.antt =====
-- main.cpp: the parent of the process pool from its start to its end.
use linux_network.Base.{
  ℕ, ◌<◌, ◌≡◌, ◌∙◌, refl, ap, ℤ, true, Bool-cases, inl, inr, none, some, List, [], ◌∷◌, ◌++◌,
  if◌then◌else◌, arith,
}
use linux_network.LinuxClient.{to_uint16}
use linux_network.CgiConn.{Conn}
use linux_network.ProcessPool.{WaitAnswer, returned, run_parent, waiting}
use linux_network.ProcessPool
use linux_network.ProcessPool.Wait.{fails, run_parent-idle}
use linux_network.ProcessPool.Create.{
  Spawn, Created, create, ParentRound, ParentPool, create-parent,
}
use linux_network.ProcessPool.Child.{ChildWait}
use linux_network.ProcessPool.Run.{Setup, Ready, setup_sig_pipe, addfd, first_parent, runs_parent}
use linux_network.ProcessPool.Pairing.{run-parent}
use linux_network.ProcessPool.Program.{
  Life, aborts, running, exits, opened, bind, listen, set_up, parent_did, delete_pool, close,
  process_number, finish, run_pool, with_pool, main, in_front,
}

-- The end of a parent whose epoll_wait fails.
abbrev pub given_up : ℕ → Ready → Life
given_up listenfd r = exits 0 (
    set_up (r.actions ++ addfd r.epollfd listenfd)
    ∷ parent_did (ProcessPool.close r.epollfd ∷ [])
    ∷ delete_pool
    ∷ close listenfd
    ∷ [])

finish-idle :
    (c : Created) (listenfd : ℕ) (r : Ready) (ws : List WaitAnswer)
    → finish listenfd (
        runs_parent
          (r.actions ++ addfd r.epollfd listenfd)
          (first_parent c listenfd r)
          (run_parent (first_parent c listenfd r) ws))
      ≡ (if fails ws then given_up listenfd r else running)
unfolding finish
finish-idle c listenfd r ws = elim (Bool-cases (fails ws)) [
  | inl t ↦ rw (run_parent-idle (first_parent c listenfd r) ws refl, t) refl
  | inr f ↦ rw (run_parent-idle (first_parent c listenfd r) ws refl, f) refl
]

run_pool-idle :
    (env : ℕ → Spawn) (s : Setup) (r : Ready) (users : ℕ → Conn) (ws : List WaitAnswer)
    (cws : List ChildWait) (listenfd : ℕ) (c : Created)
    → setup_sig_pipe s ≡ some r
    → c.idx ≡ none
    → run_pool env s users ws cws listenfd c ≡ (if fails ws then given_up listenfd r else running)
unfolding run_pool
run_pool-idle env s r users ws cws listenfd c e no_idx =
    ap (λ o. elim o [ none ↦ aborts | some q ↦ finish listenfd q ])
      (run-parent c listenfd users s r ws cws e no_idx)
    ∙ finish-idle c listenfd r ws

with_pool-idle :
    (env : ℕ → Spawn) (s : Setup) (r : Ready) (users : ℕ → Conn) (ws : List WaitAnswer)
    (cws : List ChildWait) (listenfd : ℕ) (c : Created)
    → create env process_number ≡ some c
    → setup_sig_pipe s ≡ some r
    → c.idx ≡ none
    → with_pool env s users ws cws listenfd ≡ (if fails ws then given_up listenfd r else running)
unfolding with_pool
with_pool-idle env s r users ws cws listenfd c made e no_idx =
    ap (λ o. elim o [ none ↦ aborts | some d ↦ run_pool env s users ws cws listenfd d ]) made
    ∙ run_pool-idle env s r users ws cws listenfd c e no_idx

-- Where the calls in front of the loop succeed and every fork answers in the parent, the program of the
-- process pool makes eight live children and then serves nobody, whatever epoll_wait reports: it waits for
-- ever, or, once epoll_wait has failed with another errno than EINTR, closes the epoll descriptor and the
-- listening socket and ends with 0.
pub main-idle :
    (atoi : List ℕ → ℤ) (name ip port : List ℕ) (more : List (List ℕ)) (listenfd : ℕ)
    (env : ℕ → Spawn) (s : Setup) (r : Ready) (users : ℕ → Conn) (ws : List WaitAnswer)
    (cws : List ChildWait)
    → ((j : ℕ) → j < process_number → ParentRound env j)
    → setup_sig_pipe s ≡ some r
    → (c : Created) × (create env process_number ≡ some c)
      × ParentPool process_number c
      × (main env s users ws cws atoi
            (name ∷ ip ∷ port ∷ more)
            (record { socket = some listenfd; bind_ok = true; listen_ok = true })
          ≡ in_front
              (opened listenfd ∷ bind listenfd ip (to_uint16 (atoi port)) ∷ listen listenfd 5 ∷ [])
              (if fails ws then given_up listenfd r else running))
unfolding main
main-idle atoi name ip port more listenfd env s r users ws cws ok e =
    let (c, made, pool) = create-parent env process_number (omega arith) (omega arith) ok in
    (
      c,
      made,
      pool,
      ap
          (in_front
            (opened listenfd ∷ bind listenfd ip (to_uint16 (atoi port)) ∷ listen listenfd 5 ∷ []))
          (with_pool-idle env s r users ws cws listenfd c made e pool.no_idx),
    )
