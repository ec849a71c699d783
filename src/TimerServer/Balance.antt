-- ===== src/TimerServer/Balance.antt =====
-- cpt_11_2_2.h: the connections opened and closed, counted for each descriptor, and the main loop.
use linux_network.Base.{
  ℕ, ◌+◌, ◌≡◌, refl, sym, ap, ◌∙◌, Bool-cases, inl, inr, none, some, List, [], ◌∷◌, ◌++◌, ◌==◌,
  arith, count, chosen, passed, ◌&&◌,
}
use linux_network.Chain.Addresses.{Entry}
use linux_network.TimerList.Sorting.{Due, Entries, insert}
use linux_network.TimerList.Expiring.{remaining, expired, clients}
use linux_network.TimerServer.{
  Event, Action, epoll_add, epoll_del, close, alarm, timeslot, Received, bytes, closed, again,
  failed,
}
use linux_network.TimerServer.Accounts.{timer_of, IsOpen}
use linux_network.TimerServer.Reading.{IsOpen-split, remove, renew, after_read, acts_of_read}
use linux_network.TimerServer.Events.{Allowed, after, acts_of}
use linux_network.TimerServer.Idle.{shut_all}
use linux_network.TimerServer.Serving.{
  AllAllowed, after_all, acts_of_all, any_rings, after_round, acts_of_round,
}

-- The descriptors that the actions register, and those that they close.
abbrev pub added : List Action → List ℕ
added [] = []
added (epoll_add fd ∷ acts) = fd ∷ added acts
added (epoll_del epfd fd ∷ acts) = added acts
added (close fd ∷ acts) = added acts
added (alarm n ∷ acts) = added acts

abbrev pub shut : List Action → List ℕ
shut [] = []
shut (epoll_add fd ∷ acts) = shut acts
shut (epoll_del epfd fd ∷ acts) = shut acts
shut (close fd ∷ acts) = fd ∷ shut acts
shut (alarm n ∷ acts) = shut acts

module _ (x : ℕ) where
  abbrev pub Balanced : Entries → List Action → Entries → Type 0
  Balanced es acts es' =
      count x (added acts) + count x (clients es) ≡ count x (shut acts) + count x (clients es')

  count-added_append :
      (front back : List Action)
      → count x (added (front ++ back)) ≡ count x (added front) + count x (added back)
  count-added_append [] back = omega arith
  count-added_append (epoll_add fd ∷ acts) back = omega (arith, count-added_append acts back)
  count-added_append (epoll_del epfd fd ∷ acts) back = count-added_append acts back
  count-added_append (close fd ∷ acts) back = count-added_append acts back
  count-added_append (alarm n ∷ acts) back = count-added_append acts back

  count-shut_append :
      (front back : List Action)
      → count x (shut (front ++ back)) ≡ count x (shut front) + count x (shut back)
  count-shut_append [] back = omega arith
  count-shut_append (epoll_add fd ∷ acts) back = count-shut_append acts back
  count-shut_append (epoll_del epfd fd ∷ acts) back = count-shut_append acts back
  count-shut_append (close fd ∷ acts) back = omega (arith, count-shut_append acts back)
  count-shut_append (alarm n ∷ acts) back = count-shut_append acts back

  pub Balanced-append :
      (es es1 es2 : Entries) (front back : List Action)
      → Balanced es front es1
      → Balanced es1 back es2
      → Balanced es (front ++ back) es2
  Balanced-append es es1 es2 front back p q =
      omega (arith, p, q, count-added_append front back, count-shut_append front back)

  count-insert :
      (e : Entry Due) (es : Entries)
      → count x (clients (insert e es)) ≡ count x (e.value.user_data ∷ clients es)
  count-insert e [] = refl
  count-insert e (y ∷ ys) = ground (arith, count-insert e ys)

  count-middle :
      (ds : Entries) (e : Entry Due) (fs : Entries)
      → count x (clients (ds ++ e ∷ fs)) ≡ count x (e.value.user_data ∷ clients (ds ++ fs))
  count-middle [] e fs = refl
  count-middle (d ∷ ds) e fs = omega (arith, count-middle ds e fs)

  count-remove :
      (fd : ℕ) (es : Entries)
      → IsOpen fd es
      → count x (clients es) ≡ count x (fd ∷ clients (remove fd es))
  count-remove fd es m =
      let (ds, e, fs, split, named, removed, found) = IsOpen-split fd es m in
      ap (λ l. count x (clients l)) split
      ∙ count-middle ds e fs
      ∙ ap (λ f. count x (f ∷ clients (ds ++ fs))) named
      ∙ ap (λ l. count x (fd ∷ clients l)) (sym removed)

  Balanced-insert :
      (fd a now : ℕ) (es : Entries)
      → Balanced es (epoll_add fd ∷ []) (insert (timer_of a fd now) es)
  Balanced-insert fd a now es = omega (arith, count-insert (timer_of a fd now) es)

  count-renew :
      (fd now : ℕ) (es : Entries)
      → IsOpen fd es
      → count x (clients es) ≡ count x (clients (renew fd now es))
  count-renew fd now es m =
      let (ds, e, fs, split, named, removed, found) = IsOpen-split fd es m in
      let renewed : renew fd now es ≡ insert (timer_of e.address fd now) (remove fd es) =
        ap (λ o. elim o [ none ↦ es | some a ↦ insert (timer_of a fd now) (remove fd es) ]) found in
      count-remove fd es m
      ∙ sym (count-insert (timer_of e.address fd now) (remove fd es))
      ∙ ap (λ l. count x (clients l)) (sym renewed)

  Balanced-after_read :
      (fd now : ℕ) (r : Received) (es : Entries)
      → IsOpen fd es
      → Balanced es (acts_of_read fd r) (after_read fd r now es)
  Balanced-after_read fd now bytes es m = omega (arith, count-renew fd now es m)
  Balanced-after_read fd now closed es m = omega (arith, count-remove fd es m)
  Balanced-after_read fd now again es m = refl
  Balanced-after_read fd now failed es m = omega (arith, count-remove fd es m)

  count-expired :
      (now : ℕ) (es : Entries)
      → count x (clients es)
        ≡ count x (clients (expired now es)) + count x (clients (remaining now es))
  count-expired now [] = refl
  count-expired now (e ∷ es) = ground (arith, count-expired now es)

  count-shut_all : (fds : List ℕ) → count x (shut (shut_all fds)) ≡ count x fds
  count-shut_all [] = refl
  count-shut_all (fd ∷ fds) = omega (arith, count-shut_all fds)

  count-added_all : (fds : List ℕ) → count x (added (shut_all fds)) ≡ 0
  count-added_all [] = refl
  count-added_all (fd ∷ fds) = count-added_all fds

  Balanced-tick :
      (now : ℕ) (es : Entries)
      → Balanced es (shut_all (clients (expired now es)) ++ alarm timeslot ∷ []) (remaining now es)
  Balanced-tick now es =
      let fds = clients (expired now es) in
      omega (
        arith,
        count-added_append (shut_all fds) (alarm timeslot ∷ []),
        count-shut_append (shut_all fds) (alarm timeslot ∷ []),
        count-shut_all fds,
        count-added_all fds,
        count-expired now es,
      )

module _ (listenfd pipefd : ℕ) where
  Balanced-after :
      (x : ℕ) (e : Event) (es : Entries)
      → Allowed listenfd pipefd e es
      → Balanced x es (acts_of listenfd pipefd e) (after listenfd pipefd e es)
  Balanced-after x e es ok = elim (Bool-cases (e.fd == listenfd)) [
    | inl t ↦
        let (fd, accepted, lt, new_fd, new) = chosen _ _ (e.fd == listenfd) t ok in
        rw (t, accepted) (Balanced-insert x fd e.new e.now es)
    | inr t ↦ elim (Bool-cases (e.fd == pipefd && e.input)) [
      | inl p ↦ rw (t, p) refl
      | inr p ↦ elim (Bool-cases e.input) [
        | inl i ↦
            rw (t, p, i)
              (Balanced-after_read x e.fd e.now e.received es (
                chosen _ _ e.input i
                  (passed _ _ (e.fd == pipefd && e.input) p (passed _ _ (e.fd == listenfd) t ok))))
        | inr i ↦ rw (t, p, i) refl
      ]
    ]
  ]

  Balanced-after_all :
      (x n : ℕ) (evs : List Event) (es : Entries)
      → AllAllowed listenfd pipefd n evs es
      → Balanced x es (acts_of_all listenfd pipefd evs) (after_all listenfd pipefd evs es)
  Balanced-after_all x n [] es ok = refl
  Balanced-after_all x n (e ∷ evs) es ok =
      Balanced-append x es (after listenfd pipefd e es) (after_all listenfd pipefd (e ∷ evs) es)
        (acts_of listenfd pipefd e) (acts_of_all listenfd pipefd evs) (Balanced-after x e es ok.1)
        (Balanced-after_all x e.now evs (after listenfd pipefd e es) ok.2)

  pub Balanced-round :
      (x n : ℕ) (evs : List Event) (now : ℕ) (es : Entries)
      → AllAllowed listenfd pipefd n evs es
      → Balanced x es
          (acts_of_round listenfd pipefd evs now es)
          (after_round listenfd pipefd evs now es)
  Balanced-round x n evs now es ok = elim (Bool-cases (any_rings listenfd pipefd evs)) [
    | inl t ↦
        let es1 = after_all listenfd pipefd evs es in
        rw t (
          Balanced-append x es es1 (remaining now es1) (acts_of_all listenfd pipefd evs)
            (shut_all (clients (expired now es1)) ++ alarm timeslot ∷ [])
            (Balanced-after_all x n evs es ok) (Balanced-tick x now es1))
    | inr t ↦ rw t (Balanced-after_all x n evs es ok)
  ]
