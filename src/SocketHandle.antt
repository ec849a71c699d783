-- ===== src/SocketHandle.antt =====
-- thread_pool_server.h, class SocketHandle: an owner of a descriptor. `none` is the value -1.
pub mod Ownership
mod Tests
use linux_network.Base.{
  ℕ, suc, Bool, true, false, Option, none, some, List, [], ◌∷◌, ◌++◌, get_elem?, set, ◌==◌,
  if◌then◌else◌,
}

abbrev pub Handle : Type 0
Handle = Option ℕ

-- The destructor's call of close.
unfoldable pub destroy : Handle → List ℕ
destroy none = []
destroy (some fd) = fd ∷ []

-- The move constructor: the new handle, and what is left of the other.
unfoldable pub move_construct : Handle → Handle × Handle
move_construct other = (other, none)

-- The move assignment; `same` is `this == &other`. The handles behind it, and what it closes.
unfoldable pub move_assign : Bool → Handle → Handle → Handle × Handle × List ℕ
unfolding destroy
move_assign true this other = (this, this, [])
move_assign false this other = (other, none, destroy this)

unfoldable pub release : Handle → Handle × Handle
release h = (none, h)

-- A variable of the program that holds a handle or is not alive.
pub data Slot : Type 0 where
  dead : Slot
  alive : Handle → Slot

-- The variables, and what became of the descriptors so far.
pub record Store : Type 0 where
  pub slots : List Slot
  pub adopted : List ℕ
  pub closed : List ℕ
  pub released : List ℕ

pub data Op : Type 0 where
  adopts : ℕ → Handle → Op  -- SocketHandle a(fd)
  moves : ℕ → ℕ → Op  -- SocketHandle a(std::move(b))
  assigns : ℕ → ℕ → Op  -- a = std::move(b)
  releases : ℕ → Op  -- a.release()
  destroys : ℕ → Op  -- the end of a's life

abbrev pub listed : Handle → List ℕ
listed none = []
listed (some fd) = fd ∷ []

-- One use of a handle; `none` where C++ gives it no meaning: a variable that is not alive is used, or
-- one that is alive is constructed.
unfoldable pub adopt : Store → ℕ → Handle → Option Slot → Option Store
adopt s i h (some dead) =
    some (record s { slots = set s.slots i (alive h); adopted = listed h ++ s.adopted })
adopt s i h _ = none

unfoldable pub move_into : Store → ℕ → ℕ → Option Slot → Option Slot → Option Store
unfolding move_construct
move_into s i j (some dead) (some (alive other)) =
    let (new, rest) = move_construct other in
    some (record s { slots = set (set s.slots i (alive new)) j (alive rest) })
move_into s i j _ _ = none

unfoldable pub assign : Store → ℕ → ℕ → Option Slot → Option Slot → Option Store
unfolding move_assign
assign s i j (some (alive this)) (some (alive other)) =
    let (a, b, closes) = move_assign (i == j) this other in
    some
      (record s { slots = set (set s.slots i (alive a)) j (alive b); closed = closes ++ s.closed })
assign s i j _ _ = none

unfoldable pub release_at : Store → ℕ → Option Slot → Option Store
unfolding release
release_at s i (some (alive h)) =
    let (rest, out) = release h in
    some (record s { slots = set s.slots i (alive rest); released = listed out ++ s.released })
release_at s i _ = none

unfoldable pub destroy_at : Store → ℕ → Option Slot → Option Store
unfolding destroy
destroy_at s i (some (alive h)) =
    some (record s { slots = set s.slots i dead; closed = destroy h ++ s.closed })
destroy_at s i _ = none

unfoldable pub step : Store → Op → Option Store
step s (adopts i h) = adopt s i h (get_elem? s.slots i)
step s (moves i j) = move_into s i j (get_elem? s.slots i) (get_elem? s.slots j)
step s (assigns i j) = assign s i j (get_elem? s.slots i) (get_elem? s.slots j)
step s (releases i) = release_at s i (get_elem? s.slots i)
step s (destroys i) = destroy_at s i (get_elem? s.slots i)

unfoldable pub run : List Op → Store → Option Store
run [] s = some s
run (op ∷ ops) s = elim (step s op) [ none ↦ none | some t ↦ run ops t ]
