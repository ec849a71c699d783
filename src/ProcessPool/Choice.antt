-- ===== src/ProcessPool/Choice.antt =====
-- cpt_15_3.h, the do-while of run_parent: which child gets a connection.
use linux_network.Base.{
  ℕ, zero, suc, ◌+◌, ◌%◌, ◌<◌, ◌≡◌, refl, sym, ◌∙◌, subst, ◌⊎◌, inl, inr, Bool, true, false, some,
  List, [], ◌∷◌, arith, ◌==◌, ==_iff, Bool-cases, dec_lt,
}
use linux_network.ProcessPool.{
  Process, Parent, Action, send, is_live, child, find_child, hand_out, dispatch,
}
use linux_network.ProcessPool.Cycle.{wrap, mod-wrap, wrap-suc, wrap-last}

-- The `d` children from the counter on have ended.
abbrev pub EndedFrom : ℕ → ℕ → List Process → ℕ → Type 0
EndedFrom n c ps d = (e : ℕ) → e < d → is_live (child ps ((c + e) % n)) ≡ false

-- The first live child from the counter on, going round.
pub record FirstLive (n c : ℕ) (ps : List Process) (r : ℕ) : Type 0 where
  pub steps : ℕ
  pub few : steps < n
  pub place : r ≡ (c + steps) % n
  pub live : is_live (child ps r) ≡ true
  pub passed : EndedFrom n c ps steps

abbrev pub NoneLive : ℕ → ℕ → List Process → ℕ → Type 0
NoneLive n c ps r = (r ≡ c) × EndedFrom n c ps n

module _ (n c : ℕ) (ps : List Process) (inside : c < n) where
  EndedFrom-suc :
      (d i : ℕ)
      → d < n
      → i ≡ wrap n c d
      → is_live (child ps i) ≡ false
      → EndedFrom n c ps d
      → EndedFrom n c ps (d + 1)
  EndedFrom-suc d i h place gone before e lt = elim (dec_lt e d) [
    | yes lo ↦ before e lo
    | no hi ↦
        let same : e ≡ d = omega arith in
        rw (same, mod-wrap n c d inside (omega arith), ← place) gone
  ]

  further : (d i : ℕ) → d < n → i ≡ wrap n c d → d + 1 < n → ((i + 1) % n == c) ≡ false
  further d i h place more =
      let next : (i + 1) % n ≡ wrap n c (d + 1) = rw place (wrap-suc n c d inside more) in
      ground arith

  round : (d i : ℕ) → d < n → i ≡ wrap n c d → d + 1 ≡ n → (i + 1) % n ≡ c
  round d i h place whole = rw place (wrap-last n c d inside whole)

  search_from :
      (fuel d i : ℕ)
      → d + fuel ≡ n
      → d < n
      → i ≡ wrap n c d
      → EndedFrom n c ps d
      → (r : ℕ) × (find_child fuel n c ps i ≡ some r) × (FirstLive n c ps r ⊎ NoneLive n c ps r)
  unfolding find_child
  search_from zero d i f h place before = absurd (omega arith)
  search_from (suc fuel) d i f h place before = elim (Bool-cases (is_live (child ps i))) [
    | inl here ↦ (
      i,
      rw here,
      inl (record {
        steps = d;
        few = h;
        place = place ∙ sym (mod-wrap n c d inside (omega arith));
        live = here;
        passed = before;
      }),
    )
    | inr gone ↦ elim (dec_lt (d + 1) n) [
      | yes more ↦
          let (r, e, found) =
            search_from fuel (d + 1) ((i + 1) % n) (omega arith) more
              (rw place (wrap-suc n c d inside more)) (EndedFrom-suc d i h place gone before) in
          (r, rw (gone, further d i h place more) e, found)
      | no last ↦
          let back = round d i h place (omega arith) in
          let whole : d + 1 ≡ n = omega arith in
          (
            (i + 1) % n,
            rw (gone, (==_iff _ _).1 back) refl,
            inr (back, subst (EndedFrom n c ps) whole (EndedFrom-suc d i h place gone before)),
          )
    ]
  ]

  -- With the counter below the number of processes, the do-while ends within one turn. It stops at the
  -- first live child from the counter on, going round, or, when no child lives, back at the counter.
  pub find_child-total :
      (r : ℕ) × (find_child n n c ps c ≡ some r) × (FirstLive n c ps r ⊎ NoneLive n c ps r)
  find_child-total =
      search_from n 0 c (omega arith) (omega arith) (ground arith) (λ e h. absurd (omega arith))

pub record Dispatched (p q : Parent) (acts : List Action) (leave : Bool) : Type 0 where
  pub chosen : ℕ
  pub first : FirstLive p.number p.counter p.children chosen
  pub told : acts ≡ send (child p.children chosen).pipe_parent ∷ []
  pub moved : q ≡ record p { counter = (chosen + 1) % p.number }
  pub stays : leave ≡ false

pub record Abandoned (p q : Parent) (acts : List Action) (leave : Bool) : Type 0 where
  pub nobody : EndedFrom p.number p.counter p.children p.number
  pub silent : acts ≡ []
  pub stopped : q ≡ record p { stop = true }
  pub leaves : leave ≡ true

ended_at :
    (p : Parent)
    → p.counter < p.number
    → EndedFrom p.number p.counter p.children p.number
    → is_live (child p.children p.counter) ≡ false
ended_at p h nobody =
    let here : (p.counter + 0) % p.number ≡ p.counter =
      mod-wrap p.number p.counter 0 h (omega arith) ∙ ground arith in
    rw here at (nobody 0 (omega arith))

pub dispatch-hand_out :
    (p : Parent) (r : ℕ)
    → find_child p.number p.number p.counter p.children p.counter ≡ some r
    → dispatch p ≡ hand_out p r
unfolding dispatch
dispatch-hand_out p r e = rw (e, dispatch)

pub hand_out-live :
    (p : Parent) (r : ℕ)
    → is_live (child p.children r) ≡ true
    → hand_out p r ≡ (
      record p { counter = (r + 1) % p.number },
      send (child p.children r).pipe_parent ∷ [],
      false,
    )
unfolding hand_out
hand_out-live p r h = rw h

hand_out-ended :
    (p : Parent) (r : ℕ)
    → is_live (child p.children r) ≡ false
    → hand_out p r ≡ (record p { stop = true }, [], true)
unfolding hand_out
hand_out-ended p r h = rw h

-- The branch for the listening socket, with the counter below the number of processes: the first live
-- child from the counter on is told of the connection and the counter moves behind it; or no child is
-- left, and the loop over the events is left, with m_stop set and nothing sent.
dispatch-cases :
    (p : Parent)
    → p.counter < p.number
    → let (q, acts, leave) = dispatch p in Dispatched p q acts leave ⊎ Abandoned p q acts leave
dispatch-cases p h =
    let (r, e, found) = find_child-total p.number p.counter p.children h in
    elim found [
      | inl f ↦ inl (
          rw (dispatch-hand_out p r e, hand_out-live p r f.live)
            (record { chosen = r; first = f; told = refl; moved = refl; stays = refl }))
      | inr (back, none_live) ↦ inr (
          rw (dispatch-hand_out p r e, hand_out-ended p r (rw back (ended_at p h none_live)))
            (record { nobody = none_live; silent = refl; stopped = refl; leaves = refl }))
    ]
