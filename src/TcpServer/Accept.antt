-- ===== src/TcpServer/Accept.antt =====
-- thread_pool_server.cpp, ThreadPoolTcpServer::run: the loop that accepts connections.
use linux_network.Base.{
  ℕ, ◌≡◌, ◌≢◌, refl, ap, Bool, false, ◌&&◌, not, List, [], ◌∷◌, ◌++◌, arith, if◌then◌else◌,
}
use linux_network.TcpServer.{
  client, would_block, accept_error, Round, Event, enqueued, slept, closed_client, End, looping,
  finished, hand_over, accept_round, accept_loop, set_non_blocking,
}

-- The descriptors that the events hand to the pool or close.
abbrev pub disposed : List Event → List ℕ
disposed [] = []
disposed (enqueued fd ∷ es) = fd ∷ disposed es
disposed (slept ∷ es) = disposed es
disposed (closed_client fd ∷ es) = fd ∷ disposed es

abbrev pub goes_in : Round → Bool
goes_in r = r.running && not r.terminate

abbrev pub flags_ok : Round → Bool
flags_ok r = r.get_flags_ok && r.set_flags_ok

-- The descriptors that accept gives while the loop runs: up to the first round that its condition or an
-- exception ends.
abbrev pub gained : List Round → List ℕ
gained [] = []
gained (r ∷ rs) =
    if goes_in r
    then elim r.accepted [
      | client fd ↦ fd ∷ (if flags_ok r then gained rs else [])
      | would_block ↦ gained rs
      | accept_error ↦ []
    ]
    else []

-- Every descriptor that accept gives is handed to the pool or closed, once, in the order of the
-- connections: none is lost, also where setting it to non-blocking throws.
pub accept_loop-disposed : (rs : List Round) → disposed (accept_loop rs).0 ≡ gained rs
unfolding accept_loop accept_round hand_over set_non_blocking
accept_loop-disposed [] = refl
accept_loop-disposed (r ∷ rs) = ground (arith, accept_loop-disposed rs)

round_ends :
    (q : Round) (later : List Event × End)
    → later.1 ≢ looping
    → (if goes_in q then accept_round q later else ([], finished)).1 ≢ looping
unfolding accept_round hand_over
round_ends q later h = ground arith

-- Once `run` reads running_ as false or s_terminate as true, the loop is over: nothing that would come
-- later is accepted, and the rounds before stay as they are.
accept_loop-stops :
    (rs rest : List Round) (r : Round)
    → goes_in r ≡ false
    → (accept_loop (rs ++ r ∷ rest) ≡ accept_loop (rs ++ r ∷ []))
      × ((accept_loop (rs ++ r ∷ rest)).1 ≢ looping)
unfolding accept_loop accept_round hand_over
accept_loop-stops [] rest r h = ground arith
accept_loop-stops (q ∷ rs) rest r h =
    let (same, ends) = accept_loop-stops rs rest r h in
    (
      ap (λ l. if goes_in q then accept_round q l else ([], finished)) same,
      round_ends q (accept_loop (rs ++ r ∷ rest)) ends,
    )
