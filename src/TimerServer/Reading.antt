-- ===== src/TimerServer/Reading.antt =====
-- cpt_11_2_2.h: what a read makes of the connections.
use linux_network.Base.{
  ℕ, ◌≤◌, ◌<◌, ◌≡◌, refl, sym, ap, ◌∙◌, subst, true, false, inl, inr, Option, none, some, List, [],
  ◌∷◌, ◌++◌, ==_iff, ◌==◌, ne→==false, number-cases, lt→ltb, if◌then◌else◌, arith, length,
  All-split, length-append,
}
use linux_network.Chain.Addresses.{Entry}
use linux_network.TimerList.Sorting.{Due, Entries, insert}
use linux_network.TimerServer.{
  Server, Action, epoll_del, close, Received, bytes, closed, again, failed, fd_limit,
  global_epollfd, read_client, drop_client, renew_client, expiry,
}
use linux_network.TimerServer.Accounts.{timer_of, IsOpen, OwnedBy, Serves, AtMost-of_le}
use linux_network.TimerServer.Clients.{Becomes, drop_client_lem, renew_client_lem, expiry_le}

-- The connections without `fd`, the address of its timer, and the connections with a fresh timer for it.
abbrev pub remove : ℕ → Entries → Entries
remove fd [] = []
remove fd (e ∷ es) = let rest = remove fd es in if e.value.user_data == fd then es else e ∷ rest

abbrev pub address_of : ℕ → Entries → Option ℕ
address_of fd [] = none
address_of fd (e ∷ es) =
    let rest = address_of fd es in if e.value.user_data == fd then some e.address else rest

abbrev pub renew : ℕ → ℕ → Entries → Entries
renew fd now es = elim (address_of fd es) [
  | none ↦ es
  | some a ↦ insert (timer_of a fd now) (remove fd es)
]

abbrev pub after_read : ℕ → Received → ℕ → Entries → Entries
after_read fd bytes now es = renew fd now es
after_read fd closed now es = remove fd es
after_read fd again now es = es
after_read fd failed now es = remove fd es

abbrev pub shuts : ℕ → List Action
shuts fd = epoll_del global_epollfd fd ∷ close fd ∷ []

abbrev pub acts_of_read : ℕ → Received → List Action
acts_of_read fd bytes = []
acts_of_read fd closed = shuts fd
acts_of_read fd again = []
acts_of_read fd failed = shuts fd

-- An open connection among the others.
abbrev pub Splits : ℕ → Entries → Type 0
Splits fd es =
    (ds : Entries) × (e : Entry Due) × (fs : Entries) × (es ≡ ds ++ e ∷ fs)
    × (e.value.user_data ≡ fd)
    × (remove fd es ≡ ds ++ fs)
    × (address_of fd es ≡ some e.address)

pub IsOpen-split : (fd : ℕ) (es : Entries) → IsOpen fd es → Splits fd es
IsOpen-split fd [] m = elim m [ ]
IsOpen-split fd (e ∷ es) m = elim (number-cases e.value.user_data fd) [
  | inl x ↦
      let here : (e.value.user_data == fd) ≡ true = (==_iff e.value.user_data fd).1 x in
      ([], e, es, refl, x, rw here refl, rw here refl)
  | inr ne ↦ elim m [
    | inl x ↦ absurd (ne x)
    | inr n ↦
        let not_here : (e.value.user_data == fd) ≡ false = ne→==false e.value.user_data fd ne in
        let (ds, f, fs, split, x, removed, found) = IsOpen-split fd es n in
        (
          e ∷ ds,
          f,
          fs,
          ap (λ l. e ∷ l) split,
          x,
          rw (not_here) (ap (λ l. e ∷ l) removed),
          rw (not_here) found,
        )
  ]
]

-- Time passes.
pub Serves-later :
    (n now : ℕ) (s : Server) (es : Entries) → n ≤ now → Serves n s es → Serves now s es
Serves-later n now s es le (rep, sorted, most, owned, only) =
    (rep, sorted, AtMost-of_le (expiry n) (expiry now) es (expiry_le n now le) most, owned, only)

-- A read on an open connection.
pub read_client_lem :
    (fuel n now fd : ℕ) (r : Received) (s : Server) (es : Entries)
    → length es ≤ fuel
    → Serves n s es
    → n ≤ now
    → IsOpen fd es
    → Becomes now s (after_read fd r now es) (acts_of_read fd r) (read_client fuel fd r now s)
unfolding read_client
read_client_lem fuel n now fd r s es enough inv le m = go r
  where
    sp : Splits fd es
    sp = IsOpen-split fd es m

    ds : Entries
    ds = sp.0

    fs : Entries
    fs = sp.2

    e : Entry Due
    e = sp.1

    inv' : Serves n s (ds ++ e ∷ fs)
    inv' = subst (Serves n s) sp.3 inv

    room : length fs ≤ fuel
    room = omega (arith, enough, ap length sp.3, length-append ds (e ∷ fs))

    dropped : Becomes now s (remove fd es) (shuts fd) (drop_client fd s)
    dropped = rw (sp.5) (
        subst (λ f. Becomes now s (ds ++ fs) (shuts f) (drop_client f s)) sp.4
          (drop_client_lem n now s ds e fs inv' le))

    renewed_to : renew fd now es ≡ insert (timer_of e.address fd now) (ds ++ fs)
    renewed_to =
        ap (λ o. elim o [ none ↦ es | some a ↦ insert (timer_of a fd now) (remove fd es) ]) sp.6
        ∙ ap (insert (timer_of e.address fd now)) sp.5

    renewed : Becomes now s (renew fd now es) [] (renew_client fuel fd now s)
    renewed =
        subst (λ zs. Becomes now s zs [] (renew_client fuel fd now s)) (sym renewed_to)
          (subst
            (λ f.
              Becomes now s (insert (timer_of e.address f now) (ds ++ fs)) []
                (renew_client fuel f now s))
            sp.4 (renew_client_lem fuel n now s ds e fs room inv' le))

    in_range : fd < fd_limit
    in_range = subst (λ f. f < fd_limit) sp.4 (All-split (OwnedBy s.users) ds e fs inv'.3).1.0

    go :
        (r : Received)
        → Becomes now s (after_read fd r now es) (acts_of_read fd r) (read_client fuel fd r now s)
    go bytes = renewed
    go closed = dropped
    go again =
        (s, rw (lt→ltb fd fd_limit in_range) refl, Serves-later n now s es le inv, refl, refl)
    go failed = dropped
