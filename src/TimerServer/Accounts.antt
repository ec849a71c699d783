-- ===== src/TimerServer/Accounts.antt =====
-- cpt_11_2_2.h: the connections that are open, as the sorted list of their timers, and the tie between
-- this list and the state of the server.
use linux_network.Base.{
  ℕ, ◌≤◌, ◌<◌, ◌≡◌, ◌≢◌, ◌∙◌, true, false, Bool-cases, inl, inr, ◌⊎◌, Option, none, some, [], ◌∷◌,
  ◌++◌, ltb, arith, All, All-map, All-split,
}
use linux_network.Chain.{put, put-ne}
use linux_network.Chain.Addresses.{Entry, entry, NotIn}
use linux_network.TimerList.{Timer}
use linux_network.TimerList.Sorting.{Due, Entries, Represents, insert, AtMost, IsAscending}
use linux_network.TimerServer.{Client, Server, fd_limit, expiry}

-- The timer of a connection, with its descriptor.
abbrev pub timer_of : ℕ → ℕ → ℕ → Entry Due
timer_of a fd now = entry a (record { expire = expiry now; user_data = fd })

abbrev pub IsOpen : ℕ → Entries → Type 0
IsOpen fd [] = ⊥
IsOpen fd (e ∷ es) = (e.value.user_data ≡ fd) ⊎ IsOpen fd es

abbrev pub IsShut : ℕ → Entries → Type 0
IsShut fd [] = Unit
IsShut fd (e ∷ es) = (e.value.user_data ≢ fd) × IsShut fd es

-- Every timer belongs to the client that it names, whose entry in `users` leads back to it.
abbrev pub OwnedBy : (ℕ → Client) → Entry Due → Type 0
OwnedBy users e =
    (e.value.user_data < fd_limit)
    × (users e.value.user_data ≡ record { sockfd = e.value.user_data; timer = some e.address })

abbrev pub Owned : (ℕ → Client) → Entries → Type 0
Owned users = All (OwnedBy users)

abbrev pub OnlyAt : (ℕ → Option Timer) → Entries → Type 0
OnlyAt h es = (b : ℕ) → NotIn b es → h b ≡ none

-- At the time `n` the connections of `es` are open: their timers are the list of the server, sorted and
-- never further away than a fresh one, and there is nothing else on the heap.
abbrev pub Serves : ℕ → Server → Entries → Type 0
Serves n s es =
    Represents s.timers es
    × IsAscending es
    × AtMost (expiry n) es
    × Owned s.users es
    × OnlyAt s.timers.heap es

pub AtMost-of_le : (m n : ℕ) (es : Entries) → m ≤ n → AtMost m es → AtMost n es
AtMost-of_le m n es le = All-map _ _ es (λ e h. omega arith)

pub NotIn-insert :
    (b : ℕ) (e : Entry Due) (es : Entries) → NotIn b (insert e es) → (b ≢ e.address) × NotIn b es
NotIn-insert b e [] n = n
NotIn-insert b e (x ∷ xs) n = elim (Bool-cases (ltb e.value.expire x.value.expire)) [
  | inl t ↦ out t n
  | inr t ↦
      let n' = passed t n in let (away, rest) = NotIn-insert b e xs n'.1 in (away, (n'.0, rest))
]
  where
    out :
        ltb e.value.expire x.value.expire ≡ true
        → NotIn b (insert e (x ∷ xs))
        → NotIn b (e ∷ x ∷ xs)
    out t = rw t (λ n. n)

    passed :
        ltb e.value.expire x.value.expire ≡ false
        → NotIn b (insert e (x ∷ xs))
        → NotIn b (x ∷ insert e xs)
    passed t = rw t (λ n. n)

-- A client that has no timer may be changed.
pub Owned-put :
    (users : ℕ → Client) (fd : ℕ) (c : Client) (es : Entries)
    → IsShut fd es
    → Owned users es
    → Owned (put users fd c) es
Owned-put users fd c [] n o = tt
Owned-put users fd c (e ∷ es) n o =
    ((o.0.0, put-ne users fd e.value.user_data c n.0 ∙ o.0.1), Owned-put users fd c es n.1 o.1)

module _ (ds : Entries) (e : Entry Due) (es : Entries) where
  pub IsAscending-split : IsAscending (ds ++ e ∷ es) → IsAscending (ds ++ es)
  IsAscending-split h = go ds h
    where
      go : (xs : Entries) → IsAscending (xs ++ e ∷ es) → IsAscending (xs ++ es)
      go [] h = h.1
      go (x ∷ xs) h = ((All-split (λ y. x.value.expire ≤ y.value.expire) xs e es h.0).2, go xs h.1)

  pub NotIn-split : (b : ℕ) → b ≢ e.address → NotIn b (ds ++ es) → NotIn b (ds ++ e ∷ es)
  NotIn-split b ne n = go ds n
    where
      go : (xs : Entries) → NotIn b (xs ++ es) → NotIn b (xs ++ e ∷ es)
      go [] n = (ne, n)
      go (x ∷ xs) n = (n.0, go xs n.1)
