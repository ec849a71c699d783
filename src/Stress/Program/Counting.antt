-- ===== src/Stress/Program/Counting.antt =====
-- stress.cpp: the calls of write_nbytes and read_once for one descriptor, in a trace.
use linux_network.Base.{
  ℕ, suc, ◌+◌, ℤ, pos, negsuc, ◌≡◌, refl, List, [], ◌∷◌, ◌++◌, ◌==◌, if◌then◌else◌, arith,
}
use linux_network.Stress.{
  Action, epoll_add, epoll_mod, epoll_del, close, recv, send, set_nonblocking, Attempt,
}
use linux_network.Stress.Connections.{watches, connected, start_conn-connected}
use linux_network.Stress.Program.{start_conns, attempts}

module _ (x : ℕ) where
  -- How often write_nbytes and read_once are called for `x`.
  abbrev pub writes : List Action → ℕ
  writes [] = 0
  writes (send fd out ∷ acts) = let rest = writes acts in if fd == x then suc rest else rest
  writes (recv fd ∷ acts) = writes acts
  writes (epoll_add fd i ∷ acts) = writes acts
  writes (epoll_mod fd i ∷ acts) = writes acts
  writes (epoll_del fd ∷ acts) = writes acts
  writes (close fd ∷ acts) = writes acts
  writes (set_nonblocking fd ∷ acts) = writes acts

  abbrev pub reads : List Action → ℕ
  reads [] = 0
  reads (recv fd ∷ acts) = let rest = reads acts in if fd == x then suc rest else rest
  reads (send fd out ∷ acts) = reads acts
  reads (epoll_add fd i ∷ acts) = reads acts
  reads (epoll_mod fd i ∷ acts) = reads acts
  reads (epoll_del fd ∷ acts) = reads acts
  reads (close fd ∷ acts) = reads acts
  reads (set_nonblocking fd ∷ acts) = reads acts

  writes-cons :
      (a : Action) (acts : List Action) → writes (a ∷ acts) ≡ writes acts + writes (a ∷ [])
  writes-cons (send fd out) acts = ground arith
  writes-cons (recv fd) acts = omega arith
  writes-cons (epoll_add fd i) acts = omega arith
  writes-cons (epoll_mod fd i) acts = omega arith
  writes-cons (epoll_del fd) acts = omega arith
  writes-cons (close fd) acts = omega arith
  writes-cons (set_nonblocking fd) acts = omega arith

  reads-cons : (a : Action) (acts : List Action) → reads (a ∷ acts) ≡ reads acts + reads (a ∷ [])
  reads-cons (recv fd) acts = ground arith
  reads-cons (send fd out) acts = omega arith
  reads-cons (epoll_add fd i) acts = omega arith
  reads-cons (epoll_mod fd i) acts = omega arith
  reads-cons (epoll_del fd) acts = omega arith
  reads-cons (close fd) acts = omega arith
  reads-cons (set_nonblocking fd) acts = omega arith

  pub writes-append : (xs ys : List Action) → writes (xs ++ ys) ≡ writes ys + writes xs
  writes-append [] ys = omega arith
  writes-append (a ∷ xs) ys =
      let ih = writes-append xs ys in
      let here = writes-cons a xs in let there = writes-cons a (xs ++ ys) in omega arith

  pub reads-append : (xs ys : List Action) → reads (xs ++ ys) ≡ reads ys + reads xs
  reads-append [] ys = omega arith
  reads-append (a ∷ xs) ys =
      let ih = reads-append xs ys in
      let here = reads-cons a xs in let there = reads-cons a (xs ++ ys) in omega arith

  silent-watches : (fds : List ℕ) → (writes (watches fds) ≡ 0) × (reads (watches fds) ≡ 0)
  silent-watches [] = (refl, refl)
  silent-watches (fd ∷ fds) = silent-watches fds

  pub silent-start_conns :
      (answer : ℕ → Attempt) (num : ℤ)
      → (writes (start_conns answer num) ≡ 0) × (reads (start_conns answer num) ≡ 0)
  silent-start_conns answer (pos n) =
      rw (start_conn-connected (attempts answer n 0))
        (silent-watches (connected (attempts answer n 0)))
  silent-start_conns answer (negsuc n) = (refl, refl)
