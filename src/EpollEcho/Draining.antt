-- ===== src/EpollEcho/Draining.antt =====
-- io_epoll.h, `et`: the loop that reads a descriptor until nothing is left.
use linux_network.Base.{ℕ, ◌≡◌, refl, ap, true, List, [], ◌∷◌, ◌++◌, map}
use linux_network.EpollEcho.{
  Received, bytes, closed, again, failed, Action, epoll_add, set_nonblocking, close, lt_event,
  lt_content, et_event, et_content, read_later, something_else, epoll_failure, et_read, add_action,
}

-- The contents that are printed, by `lt` or by `et`.
abbrev pub printed : List Action → List (List ℕ)
printed [] = []
printed (lt_content xs ∷ acts) = xs ∷ printed acts
printed (et_content xs ∷ acts) = xs ∷ printed acts
printed (epoll_add fd enable_et ∷ acts) = printed acts
printed (set_nonblocking fd ∷ acts) = printed acts
printed (close fd ∷ acts) = printed acts
printed (lt_event ∷ acts) = printed acts
printed (et_event ∷ acts) = printed acts
printed (read_later ∷ acts) = printed acts
printed (something_else ∷ acts) = printed acts
printed (epoll_failure ∷ acts) = printed acts

abbrev pub chunks : List (List ℕ) → List Received
chunks = map bytes

-- Whatever bytes recv gives until it answers EAGAIN are printed, all of them and in order; then the
-- loop prints that it will read later and ends, the descriptor is not closed, and no later answer is used.
pub et_read-drains :
    (fd : ℕ) (xss : List (List ℕ)) (rest : List Received)
    → et_read fd (chunks xss ++ again ∷ rest)
      ≡ record { acts = map et_content xss ++ read_later ∷ []; over = true }
unfolding et_read
et_read-drains fd [] rest = refl
et_read-drains fd (xs ∷ xss) rest = ap (add_action (et_content xs)) (et_read-drains fd xss rest)

-- At the end of a connection the loop closes the descriptor and goes on, so that recv fails on the
-- closed descriptor and it is closed a second time, whatever has been received before.
et_read-double_close :
    (fd : ℕ) (xss : List (List ℕ)) (rest : List Received)
    → et_read fd (chunks xss ++ closed ∷ failed ∷ rest)
      ≡ record { acts = map et_content xss ++ close fd ∷ close fd ∷ []; over = true }
unfolding et_read
et_read-double_close fd [] rest = refl
et_read-double_close fd (xs ∷ xss) rest =
    ap (add_action (et_content xs)) (et_read-double_close fd xss rest)
