-- ===== src/TimerServer/Idle.antt =====
-- cpt_11_2_2.h, timer_handler: the connections whose timers have expired.
use linux_network.Base.{
  ℕ, ◌≤◌, ◌≡◌, refl, ap, ◌∙◌, Bool-cases, inl, inr, ◌⊎◌, Option, none, some, List, [], ◌∷◌, ◌++◌,
  ltb, number-cases, length, All,
}
use linux_network.Chain.Addresses.{Entry, NotIn}
use linux_network.TimerList.{Timer}
use linux_network.TimerList.Sorting.{Due, Entries, IsAscending}
use linux_network.TimerList.Expiring.{expired, remaining, clients, AllFree, tick-expired}
use linux_network.TimerServer.{
  Client, Server, Action, alarm, timeslot, expiry, callbacks, timer_handler,
}
use linux_network.TimerServer.Accounts.{OwnedBy, Owned, Serves, AtMost-of_le}
use linux_network.TimerServer.Clients.{expiry_le}
use linux_network.TimerServer.Reading.{shuts}

abbrev pub shut_all : List ℕ → List Action
shut_all [] = []
shut_all (fd ∷ fds) = shuts fd ++ shut_all fds

-- The callbacks close the connections of their timers.
callbacks-Owned :
    (now : ℕ) (users : ℕ → Client) (es : Entries)
    → Owned users es
    → callbacks users (clients (expired now es)) ≡ shut_all (clients (expired now es))
unfolding callbacks
callbacks-Owned now users [] o = refl
callbacks-Owned now users (e ∷ es) o = elim (Bool-cases (ltb now e.value.expire)) [
  | inl t ↦ rw t (callbacks-Owned now users es o.1)
  | inr t ↦ rw (t, o.0.1, callbacks-Owned now users es o.1) refl
]

-- The facts about every timer hold of those that remain.
pub All-remaining :
    (P : Entry Due → Type 0) (now : ℕ) (es : Entries) → All P es → All P (remaining now es)
All-remaining P now [] h = tt
All-remaining P now (e ∷ es) h = elim (Bool-cases (ltb now e.value.expire)) [
  | inl t ↦ rw t (h.0, All-remaining P now es h.1)
  | inr t ↦ rw t (All-remaining P now es h.1)
]

remaining-IsAscending : (now : ℕ) (es : Entries) → IsAscending es → IsAscending (remaining now es)
remaining-IsAscending now [] h = tt
remaining-IsAscending now (e ∷ es) h = elim (Bool-cases (ltb now e.value.expire)) [
  | inl t ↦ rw t (All-remaining _ now es h.0, remaining-IsAscending now es h.1)
  | inr t ↦ rw t (remaining-IsAscending now es h.1)
]

-- An address outside what remains is freed, or was not in use.
freed_or_out :
    (now b : ℕ) (h : ℕ → Option Timer) (es : Entries)
    → AllFree (expired now es) h
    → NotIn b (remaining now es)
    → (h b ≡ none) ⊎ NotIn b es
freed_or_out now b h [] = λ free out. inr tt
freed_or_out now b h (e ∷ es) = elim (Bool-cases (ltb now e.value.expire)) [
  | inl t ↦ rw t (λ free out. elim (freed_or_out now b h es free out.1) [
    | inl x ↦ inl x
    | inr n ↦ inr (out.0, n)
  ])
  | inr t ↦ rw t (λ free out. elim (number-cases b e.address) [
    | inl x ↦ inl (ap h x ∙ free.0)
    | inr ne ↦ elim (freed_or_out now b h es free.1 out) [ inl x ↦ inl x | inr n ↦ inr (ne, n) ]
  ])
]

-- At the time `now`, with as much fuel as connections are open, the alarm closes exactly the connections
-- whose timers have expired and stops watching them (but on the wrong epoll descriptor), in the order of the
-- timers; the others stay open, and the alarm is set again.
pub timer_handler-idle :
    (fuel n now : ℕ) (s : Server) (es : Entries)
    → length es ≤ fuel
    → Serves n s es
    → n ≤ now
    → (s' : Server) × (timer_handler fuel now s
        ≡ some (s', shut_all (clients (expired now es)) ++ alarm timeslot ∷ []))
      × Serves now s' (remaining now es)
      × (s'.stop ≡ s.stop)
unfolding timer_handler
timer_handler-idle fuel n now s es enough (rep, sorted, most, owned, only) le =
    let (l, ticked, rep', free, same) = tick-expired fuel now s.timers es enough rep sorted in
    (
      record s { timers = l },
      rw (ticked, callbacks-Owned now s.users es owned) refl,
      (
        rep',
        remaining-IsAscending now es sorted,
        All-remaining _ now es (AtMost-of_le (expiry n) (expiry now) es (expiry_le n now le) most),
        All-remaining (OwnedBy s.users) now es owned,
        λ b out. elim (freed_or_out now b l.heap es free out) [
          | inl x ↦ x
          | inr n' ↦ same b n' ∙ only b n'
        ],
      ),
      refl,
    )
