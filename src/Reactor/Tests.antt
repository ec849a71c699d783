-- ===== src/Reactor/Tests.antt =====
-- Runs of the reactor and instances of its theorems.
use linux_network.Base.{ℕ, ◌≡◌, refl, some, [], ◌∷◌}
use linux_network.Reactor.{
  Events, register, remove, dispatch, life, created, closed, epoll_del, remove_io, erase,
}
use linux_network.Reactor.Registering.{life-inert}
use linux_network.Reactor.Dispatching.{unchanged}

-- A handler that leaves the map in HandleOutput.
abbrev forget : ℕ → Events → Events
forget h m = erase m h

life-inert_example :
    life unchanged forget
      (some 3)
      (register 8 ∷ dispatch ((8, 1) ∷ []) ∷ register 9 ∷ remove 8 ∷ [])
    ≡ created (some 3) ∷ closed (some 3) ∷ []
life-inert_example =
    life-inert unchanged forget (some 3)
      (register 8 ∷ dispatch ((8, 1) ∷ []) ∷ register 9 ∷ remove 8 ∷ [])

remove_io_run : remove_io ((8, 5) ∷ (9, 6) ∷ []) 9 ≡ ((8, 5) ∷ [], epoll_del 6 ∷ [])
unfolding remove_io
remove_io_run = refl
