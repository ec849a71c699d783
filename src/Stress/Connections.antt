-- ===== src/Stress/Connections.antt =====
-- stress.cpp, the loop over the events: a connection is written to and read from in turn.
use linux_network.Base.{
  ℕ, ◌≡◌, refl, Bool, true, false, not, Option, none, some, List, [], ◌∷◌, arith, length,
  if◌then◌else◌,
}
use linux_network.Stress.{
  Interest, for_input, for_output, Action, epoll_add, epoll_mod, close, set_nonblocking, Event,
  Writing, write_nbytes, ReadAnswer, read_some, handle_event, after_write, read_once, close_conn,
  start_conn, Attempt,
}

-- Does the call that an event leads to succeed? An event for output has no answer while write_nbytes
-- has not returned.
abbrev pub reads : ReadAnswer → Bool
reads read_some = true
reads _ = false

-- What is asked of epoll for the descriptor in the end, whatever else is done.
abbrev pub last_mod : List Action → Option Interest
last_mod [] = none
last_mod (epoll_mod fd i ∷ []) = some i
last_mod (a ∷ as') = last_mod as'

abbrev pub closes : List Action → List ℕ
closes [] = []
closes (close fd ∷ as') = fd ∷ closes as'
closes (_ ∷ as') = closes as'

-- What the next event of a descriptor will be.
abbrev pub turn : Event → Option Interest
turn e = if e.input then some for_output else if e.output then some for_input else none

-- Has the call that the event leads to failed, or does the event report an error?
abbrev pub failed : List ℕ → Event → Bool
failed request e =
    if e.input
    then not (reads e.read)
    else if e.output
    then elim (write_nbytes e.sends request (length request)).result [
      | some false ↦ true
      | _ ↦ false
    ]
    else e.error

after_write-turn :
    (fd : ℕ) (w : Writing) (acts : List Action)
    → after_write fd w ≡ some acts
    → (last_mod acts ≡ some for_input)
      × (closes acts ≡ (if (elim w.result [ some false ↦ true | _ ↦ false ]) then fd ∷ [] else []))
unfolding after_write
after_write-turn fd w acts h = ground arith

-- An event for input is answered by one read and then by watching for output, an event for output by
-- writing the request and then by watching for input, whatever became of the call; without either,
-- epoll is asked for nothing. The descriptor is closed, once, exactly when the read or the write has
-- failed, or when neither was called and the event reports an error.
handle_event-turns :
    (request : List ℕ) (e : Event) (acts : List Action)
    → handle_event request e ≡ some acts
    → (last_mod acts ≡ turn e) × (closes acts ≡ (if failed request e then e.fd ∷ [] else []))
unfolding handle_event read_once close_conn
handle_event-turns request e acts h =
    ground (arith, after_write-turn e.fd (write_nbytes e.sends request (length request)) acts)

-- The descriptors of the attempts that connect, and of those whose socket does not.
abbrev pub connected : List Attempt → List ℕ
connected [] = []
connected (a ∷ as') = elim a.socket [
  | none ↦ connected as'
  | some fd ↦ if a.connected then fd ∷ connected as' else connected as'
]

abbrev pub watches : List ℕ → List Action
watches [] = []
watches (fd ∷ fds) = epoll_add fd for_output ∷ set_nonblocking fd ∷ watches fds

-- start_conn watches for output on each descriptor whose connect succeeds, in order, and makes it
-- non-blocking; it does nothing else: a socket whose connect fails is neither watched nor closed.
pub start_conn-connected : (as' : List Attempt) → start_conn as' ≡ watches (connected as')
unfolding start_conn
start_conn-connected [] = refl
start_conn-connected (a ∷ as') = ground (arith, start_conn-connected as')
