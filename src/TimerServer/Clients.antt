-- ===== src/TimerServer/Clients.antt =====
-- cpt_11_2_2.h: a new connection, a connection that sends something, and one that is over.
use linux_network.Base.{
  ℕ, ◌≤◌, ◌<◌, ◌≡◌, refl, sym, ap, ◌∙◌, subst, Option, none, some, List, [], ◌∷◌, ◌++◌, lt→ltb,
  arith, length, All-split, number-cases, inl, inr,
}
use linux_network.Chain.{put, put-eq, put-ne, and_then, modify-some}
use linux_network.Chain.Addresses.{Entry, head, last, NotIn, last-append, append-ne-nil}
use linux_network.Chain.Segments.{Seg-put, Seg-append_right}
use linux_network.Chain.Revaluing.{head-revalue, Distinct-revalue, Seg-revalue}
use linux_network.TimerList
use linux_network.TimerList.{TimerList}
use linux_network.TimerList.Sorting.{
  Due, timer_links, Entries, Represents, insert, All-insert, insert-IsAscending, insert-append,
}
use linux_network.TimerList.Adding.{add_timer_lem}
use linux_network.TimerList.Adjusting.{adjust_timer_lem}
use linux_network.TimerList.Removing.{del_timer-unlinks}
use linux_network.TimerServer.{
  Client, Server, Action, epoll_add, epoll_del, close, fd_limit, global_epollfd, expiry, add_client,
  drop_client, renew_client,
}
use linux_network.TimerServer.Accounts.{
  timer_of, IsShut, Serves, OwnedBy, AtMost-of_le, NotIn-insert, Owned-put, IsAscending-split,
  NotIn-split,
}

-- The result `o` of an operation at the time `now`: the server goes on, with the connections `es`, with
-- its flags as in `s`, and the operation has done `acts`.
abbrev pub Becomes : ℕ → Server → Entries → List Action → Option (Server × List Action) → Type 0
Becomes now s es acts o =
    (s' : Server) × (o ≡ some (s', acts))
    × Serves now s' es
    × (s'.timeout ≡ s.timeout)
    × (s'.stop ≡ s.stop)

pub expiry_le : (n now : ℕ) → n ≤ now → expiry n ≤ expiry now
expiry_le n now le = omega arith

pub add_client_lem :
    (fuel n : ℕ) (s : Server) (es : Entries) (fd a now : ℕ)
    → length es ≤ fuel
    → Serves n s es
    → n ≤ now
    → fd < fd_limit
    → IsShut fd es
    → NotIn a es
    → Becomes now s (insert (timer_of a fd now) es) (epoll_add fd ∷ []) (add_client fuel fd a now s)
unfolding add_client
add_client_lem fuel n s es fd a now enough (rep, sorted, most, owned, only) le lt shut new =
    let t = some (timer_links.node (timer_of a fd now).value none none) in
    let h1 = put s.timers.heap a t in
    let l1 : TimerList = record (s.timers) { heap = h1 } in
    let c : Client = record { sockfd = fd; timer = some a } in
    let (l2, added, rep2, same) =
      add_timer_lem fuel l1 es a (timer_of a fd now).value enough
        (rep.0, rep.1, Seg-put timer_links s.timers.heap none es none a t new rep.2, rep.3)
        (put-eq s.timers.heap a t) new in
    let k : TimerList → Option (Server × List Action) =
      λ l. some (record s { users = put s.users fd c; timers = l }, epoll_add fd ∷ []) in
    (
      record s { users = put s.users fd c; timers = l2 },
      rw (lt→ltb fd fd_limit lt) (ap (λ o. and_then o k) added),
      (
        rep2,
        insert-IsAscending (timer_of a fd now) es sorted,
        All-insert _ (timer_of a fd now) es (omega arith)
            (AtMost-of_le (expiry n) (expiry now) es (expiry_le n now le) most),
        All-insert (OwnedBy (put s.users fd c)) (timer_of a fd now) es (lt, put-eq s.users fd c)
            (Owned-put s.users fd c es shut owned),
        λ b out.
            let (ne, away) = NotIn-insert b (timer_of a fd now) es out in
            same b ne away ∙ put-ne s.timers.heap a b t ne ∙ only b away,
      ),
      refl,
      refl,
    )

pub drop_client_lem :
    (n now : ℕ) (s : Server) (ds : Entries) (e : Entry Due) (es : Entries)
    → Serves n s (ds ++ e ∷ es)
    → n ≤ now
    → Becomes now s
        (ds ++ es)
        (epoll_del global_epollfd e.value.user_data ∷ close e.value.user_data ∷ [])
        (drop_client e.value.user_data s)
unfolding drop_client
drop_client_lem n now s ds e es (rep, sorted, most, owned, only) le =
    let (front, own, others) = All-split (OwnedBy s.users) ds e es owned in
    let (l, deleted, rep', gone, same) = del_timer-unlinks s.timers ds e es rep in
    (
      record s { timers = l },
      rw (lt→ltb e.value.user_data fd_limit own.0, own.1, deleted) refl,
      (
        rep',
        IsAscending-split ds e es sorted,
        AtMost-of_le (expiry n) (expiry now) (ds ++ es) (expiry_le n now le)
            (All-split _ ds e es most).2,
        others,
        λ b out. elim (number-cases b e.address) [
          | inl x ↦ ap l.heap x ∙ gone
          | inr ne ↦ same b ne out ∙ only b (NotIn-split ds e es b ne out)
        ],
      ),
      refl,
      refl,
    )

pub renew_client_lem :
    (fuel n now : ℕ) (s : Server) (ds : Entries) (e : Entry Due) (es : Entries)
    → length es ≤ fuel
    → Serves n s (ds ++ e ∷ es)
    → n ≤ now
    → Becomes now s
        (insert (timer_of e.address e.value.user_data now) (ds ++ es))
        []
        (renew_client fuel e.value.user_data now s)
unfolding renew_client
renew_client_lem fuel n now s ds e es enough (rep, sorted, most, owned, only) le =
    let (front, own, others) = All-split (OwnedBy s.users) ds e es owned in
    let (before, own_time, rest) =
      All-split _ ds e es
        (AtMost-of_le (expiry n) (expiry now) (ds ++ e ∷ es) (expiry_le n now le) most) in
    let e' : Entry Due = timer_of e.address e.value.user_data now in
    let w = some (timer_links.node e'.value (last none ds) (head es none)) in
    let h1 = put s.timers.heap e.address w in
    let l1 : TimerList = record (s.timers) { heap = h1 } in
    let rep1 : Represents l1 (ds ++ e' ∷ es) = (
      rep.0 ∙ head-revalue ds e.address e.value e'.value es,
      λ x.
          rep.1 (append-ne-nil ds e es)
          ∙ last-append none ds e es
          ∙ sym (last-append none ds e' es),
      Seg-revalue ds e.address e.value e'.value es timer_links s.timers.heap rep.2 rep.3,
      Distinct-revalue ds e.address e.value e'.value es rep.3,
    ) in
    let (l2, adjusted, rep2, same) = adjust_timer_lem fuel l1 ds e' es enough rep1 in
    let in_place = insert-append e' ds es before in
    let k : (ℕ → Option TimerList.Timer) → Option (Server × List Action) = λ h.
      and_then (TimerList.adjust_timer fuel (some e.address) (record (s.timers) { heap = h }))
        (λ l. some (record s { timers = l }, [])) in
    (
      record s { timers = l2 },
      rw (lt→ltb e.value.user_data fd_limit own.0, own.1)
          (ap (λ o. and_then o k)
              (modify-some s.timers.heap e.address (λ t. record t { expire = expiry now })
                (timer_links.node e.value (last none ds) (head es none))
                (Seg-append_right timer_links s.timers.heap none ds (e ∷ es) none rep.2).0)
            ∙ ap (λ o. and_then o (λ l. some (record s { timers = l }, []))) adjusted),
      (
        subst (Represents l2) (sym in_place) rep2,
        insert-IsAscending e' (ds ++ es) (IsAscending-split ds e es sorted),
        All-insert _ e' (ds ++ es) (omega arith) rest,
        All-insert (OwnedBy s.users) e' (ds ++ es) own others,
        λ b out.
            let (ne, away) = NotIn-insert b e' (ds ++ es) out in
            same b ne away
            ∙ put-ne s.timers.heap e.address b w ne
            ∙ only b (NotIn-split ds e es b ne away),
      ),
      refl,
      refl,
    )
