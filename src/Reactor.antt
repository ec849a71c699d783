-- ===== src/Reactor.antt =====
-- epoll_reactor.h and epoll_reactor.cc, class CEpollReactor: the map of handlers and what is done with
-- it. A handler is the number of its address, 0 for a null pointer. What HandleInput and HandleOutput
-- do to the map is an argument: the repository only declares them.
pub mod Dispatching
pub mod Registering
mod Tests
use Prim.Native.Nat.{bit_or}
use linux_network.Base.{
  ℕ, zero, suc, Bool, true, false, ◌&&◌, not, Option, none, some, List, [], ◌∷◌, ◌++◌, map, ltb,
  ◌==◌, if◌then◌else◌,
}

-- EPOLLIN and EPOLLOUT
abbrev pub epollin : ℕ
epollin = 1

abbrev pub epollout : ℕ
epollout = 4

-- m_mapEvents: handlers with the descriptors that they are registered for.
abbrev pub Events : Type 0
Events = List (ℕ × ℕ)

-- `epoll_mod fd handler events`
pub data Action : Type 0 where
  epoll_add : ℕ → ℕ → Action
  epoll_del : ℕ → Action
  epoll_mod : ℕ → ℕ → ℕ → Action
  handle_input : ℕ → Action
  handle_output : ℕ → Action

abbrev pub find : Events → ℕ → Option ℕ
find [] h = none
find ((k, fd) ∷ m) h = let rest = find m h in if k == h then some fd else rest

abbrev pub erase : Events → ℕ → Events
erase [] h = []
erase ((k, fd) ∷ m) h = let rest = erase m h in if k == h then rest else (k, fd) ∷ rest

-- `m[h] = fd`, in the order of the keys.
abbrev pub assign : Events → ℕ → ℕ → Events
assign [] h fd = (h, fd) ∷ []
assign ((k, fd') ∷ m) h fd =
    let rest = assign m h fd in
    if k == h then (h, fd) ∷ m else if ltb h k then (h, fd) ∷ (k, fd') ∷ m else (k, fd') ∷ rest

-- CEventHandler::GetIds, whose body is empty: what stands in the two variables behind the call.
unfoldable pub get_ids : ℕ → ℕ × ℕ → ℕ × ℕ
get_ids h ids = ids

unfoldable pub register_io : Events → ℕ → Events × List Action
unfolding get_ids
register_io m h =
    let (read_id, write_id) = get_ids h (0, 0) in
    let id = if not (write_id == 0) && (read_id == 0) then write_id else read_id in
    if not (id == 0) then (assign m h id, epoll_add id h ∷ []) else (m, [])

unfoldable pub remove_io : Events → ℕ → Events × List Action
remove_io m h = elim (find m h) [ none ↦ (m, []) | some fd ↦ (erase m h, epoll_del fd ∷ []) ]

-- The first loop of DispatchIOs.
unfoldable pub update_interest : Events → List Action
unfolding get_ids
update_interest [] = []
update_interest ((h, fd) ∷ m) =
    let (read_id, write_id) = get_ids h (0, 0) in
    let events = if ltb 0 read_id then epollin else 0 in
    let events' = if ltb 0 write_id then bit_or events epollout else events in
    let rest = update_interest m in if h == 0 then rest else epoll_mod fd h events' ∷ rest

pub data Call : Type 0 where
  register : ℕ → Call
  remove : ℕ → Call
  dispatch : List (ℕ × ℕ) → Call

-- m_fdEpoll opened by the constructor and closed by the destructor, and what is done between them.
pub data LifeAction : Type 0 where
  created : Option ℕ → LifeAction
  did : Action → LifeAction
  closed : Option ℕ → LifeAction

module _ (input output : ℕ → Events → Events) where
  -- One of the two tests of the second loop with its call.
  unfoldable pub call_if : Bool → ℕ → (ℕ → Events → Events) → Action → Events → Events × List Action
  call_if flag h effect act m = elim (find m h) [
    | none ↦ (m, [])
    | some fd ↦ if flag then (effect h m, act ∷ []) else (m, [])
  ]

  -- An entry that epoll_wait reports: its handler and its events.
  unfoldable pub dispatch_event : ℕ × ℕ → Events → Events × List Action
  unfolding call_if
  dispatch_event (h, events) m =
      let (m', first) = call_if (not (bit_or events epollin == 0)) h input (handle_input h) m in
      let (m'', second) =
        call_if (not (bit_or events epollout == 0)) h output (handle_output h) m' in
      (m'', first ++ second)

  unfoldable pub dispatch_events : List (ℕ × ℕ) → Events → Events × List Action
  unfolding dispatch_event
  dispatch_events [] m = (m, [])
  dispatch_events (e ∷ es) m =
      let (m', acts) = dispatch_event e m in
      let (m'', later) = dispatch_events es m' in (m'', acts ++ later)

  unfoldable pub dispatch_ios : List (ℕ × ℕ) → Events → Events × List Action
  unfolding update_interest dispatch_events
  dispatch_ios reported m =
      let (m', acts) = dispatch_events reported m in (m', update_interest m ++ acts)

  unfoldable pub call : Call → Events → Events × List Action
  unfolding register_io remove_io dispatch_ios
  call (register h) m = register_io m h
  call (remove h) m = remove_io m h
  call (dispatch reported) m = dispatch_ios reported m

  -- A sequence of calls.
  unfoldable pub run : List Call → Events → Events × List Action
  unfolding call
  run [] m = (m, [])
  run (c ∷ cs) m = let (m', acts) = call c m in let (m'', later) = run cs m' in (m'', acts ++ later)

  -- A reactor from its constructor to its destructor: `epfd` is what epoll_create gives, `none` for -1, which
  -- the code does not test.
  unfoldable pub life : Option ℕ → List Call → List LifeAction
  life epfd cs = created epfd ∷ map did (run cs []).1 ++ closed epfd ∷ []
