-- ===== src/Demo/Kernel.antt =====
-- demo.h: what its programs rely on of epoll and of the terminal, as an interface, and how a program and
-- a kernel run together.
use linux_network.Base.{
  ℕ, suc, ◌+◌, ◌≡◌, refl, sym, ap, ◌∙◌, Option, none, some, List, [], ◌∷◌, Option-cases, inl, inr,
}
use linux_network.Demo.{Action, add, modify, read, print_line, print_text, Program}

-- What is seen of a watched descriptor: how the actions of the program change it, what epoll_wait does
-- (`none` where it goes on blocking), and what `n + 1` new bytes do.
pub record Model : Type 1 where
  pub View : Type 0
  pub on_action : Action → View → View
  pub on_wait : View → Option View
  pub on_arrive : ℕ → View → View

abbrev pub map_option : {A B : Type 0} → (A → B) → Option A → Option B
map_option f none = none
map_option f (some x) = some (f x)

-- A kernel that keeps to the model.
pub record Kernel (m : Model) : Type 1 where
  pub State : Type 0
  pub view : State → m.View
  pub action : Action → State → State
  pub wait : State → Option State
  pub arrive : ℕ → State → State
  pub view-action : (a : Action) (s : State) → view (action a s) ≡ m.on_action a (view s)
  pub view-wait : (s : State) → map_option view (wait s) ≡ m.on_wait (view s)
  pub view-arrive : (n : ℕ) (s : State) → view (arrive n s) ≡ m.on_arrive n (view s)

abbrev pub answered : {A B : Type 0} → Option A → B → (A → B) → B
answered none blocked go = blocked
answered (some x) blocked go = go x

-- The kernel that is its model.
abbrev pub itself : (m : Model) → Kernel m
itself m = record {
  State = m.View;
  view = λ v. v;
  action = m.on_action;
  wait = m.on_wait;
  arrive = m.on_arrive;
  view-action = λ a s. refl;
  view-wait = λ s. same (m.on_wait s);
  view-arrive = λ n s. refl;
}
  where
    same : {A : Type 0} (o : Option A) → map_option (λ v. v) o ≡ o
    same none = refl
    same (some v) = refl

-- `n + 1` bytes arrive, or the program, which stands in epoll_wait, gets its turn.
pub data Moment : Type 0 where
  arrives : ℕ → Moment
  turn : Moment

abbrev pub prints : List Action → ℕ
prints [] = 0
prints (add fd i ∷ acts) = prints acts
prints (modify fd i ∷ acts) = prints acts
prints (read fd n ∷ acts) = prints acts
prints (print_line ∷ acts) = suc (prints acts)
prints (print_text ∷ acts) = suc (prints acts)

module _ (m : Model) (k : Kernel m) where
  abbrev pub perform : List Action → k.State → k.State
  perform [] s = s
  perform (a ∷ acts) s = perform acts (k.action a s)

  -- How often the program prints, where epoll_wait reports `fd`.
  abbrev pub drive : ℕ → Program → List Moment → k.State → ℕ
  drive fd p [] s = 0
  drive fd p (arrives n ∷ ms) s = drive fd p ms (k.arrive n s)
  drive fd p (turn ∷ ms) s =
      answered (k.wait s) (drive fd p ms s)
        (λ s'. prints (p.round (fd ∷ [])) + drive fd p ms (perform (p.round (fd ∷ [])) s'))

  abbrev pub greetings : ℕ → Program → List Moment → k.State → ℕ
  greetings fd p ms s = drive fd p ms (k.action p.setup s)

module _ (m : Model) (k : Kernel m) where
  view-perform :
      (acts : List Action) (s : k.State)
      → k.view (perform m k acts s) ≡ perform m (itself m) acts (k.view s)
  view-perform [] s = refl
  view-perform (a ∷ acts) s =
      view-perform acts (k.action a s) ∙ ap (perform m (itself m) acts) (k.view-action a s)

  -- A kernel and its model greet alike.
  pub drive-view :
      (fd : ℕ) (p : Program) (ms : List Moment) (s : k.State)
      → drive m k fd p ms s ≡ drive m (itself m) fd p ms (k.view s)
  drive-view fd p [] s = refl
  drive-view fd p (arrives n ∷ ms) s =
      drive-view fd p ms (k.arrive n s) ∙ ap (drive m (itself m) fd p ms) (k.view-arrive n s)
  drive-view fd p (turn ∷ ms) s = elim (Option-cases (k.wait s)) [
    | inl x ↦
        let seen : none ≡ m.on_wait (k.view s) = ap (map_option k.view) (sym x) ∙ k.view-wait s in
        rw (x, ← seen) (drive-view fd p ms s)
    | inr (s', x) ↦
        let seen : some (k.view s') ≡ m.on_wait (k.view s) =
          ap (map_option k.view) (sym x) ∙ k.view-wait s in
        rw (x, ← seen)
          (ap (λ n. prints (p.round (fd ∷ [])) + n)
            (drive-view fd p ms (perform m k (p.round (fd ∷ [])) s')
              ∙ ap (drive m (itself m) fd p ms) (view-perform (p.round (fd ∷ [])) s')))
  ]

  pub greetings-view :
      (fd : ℕ) (p : Program) (ms : List Moment) (s : k.State)
      → greetings m k fd p ms s ≡ greetings m (itself m) fd p ms (k.view s)
  greetings-view fd p ms s =
      drive-view fd p ms (k.action p.setup s)
      ∙ ap (drive m (itself m) fd p ms) (k.view-action p.setup s)
