-- ===== src/ProcessPool/Children.antt =====
-- cpt_15_3.h, the signal branch of run_parent: SIGCHLD forgets the children that ended, SIGTERM and
-- SIGINT reach every child that is left.
use linux_network.Base.{
  ℕ, ◌+◌, ◌≡◌, refl, sym, ◌∙◌, ◌⊎◌, inl, inr, Bool, true, false, ◌||◌, none, some, List, [], ◌∷◌,
  arith, ◌==◌, length, length-append, map, not, if◌then◌else◌,
}
use linux_network.ProcessPool.{
  Process, Parent, Signal, sigchld, sigterm, sigint, kill, is_live, reap, reap_all, none_left,
  kill_all, handle_signal,
}

-- Is `pid` among the pids that waitpid returned?
abbrev pub has : ℕ → List ℕ → Bool
has pid [] = false
has pid (q ∷ qs) = (pid == q) || has pid qs

-- What SIGCHLD means for one child, for the pipe that it closes, and for all of them.
abbrev pub gone : List ℕ → Process → Bool
gone pids p = elim p.pid [ none ↦ false | some q ↦ has q pids ]

abbrev pub survive : List ℕ → List Process → List Process
survive pids [] = []
survive pids (p ∷ ps) = (if gone pids p then record p { pid = none } else p) ∷ survive pids ps

abbrev pub any_live : List Process → Bool
any_live [] = false
any_live (p ∷ ps) = is_live p || any_live ps

-- The pids of the children that are left.
abbrev pub live_pids : List Process → List ℕ
live_pids [] = []
live_pids (p ∷ ps) = elim p.pid [ none ↦ live_pids ps | some q ↦ q ∷ live_pids ps ]

reap-survive : (pid : ℕ) (ps : List Process) → (reap pid ps).0 ≡ survive (pid ∷ []) ps
unfolding reap
reap-survive pid [] = refl
reap-survive pid (p ∷ ps) = ground (arith, reap-survive pid ps)

survive-survive :
    (pid : ℕ) (pids : List ℕ) (ps : List Process)
    → survive pids (survive (pid ∷ []) ps) ≡ survive (pid ∷ pids) ps
survive-survive pid pids [] = refl
survive-survive pid pids (p ∷ ps) = ground (arith, survive-survive pid pids ps)

survive-nil : (ps : List Process) → survive [] ps ≡ ps
survive-nil [] = refl
survive-nil (p ∷ ps) = ground (arith, survive-nil ps)

reap_all-survive : (pids : List ℕ) (ps : List Process) → (reap_all pids ps).0 ≡ survive pids ps
unfolding reap_all
reap_all-survive [] ps = sym (survive-nil ps)
reap_all-survive (pid ∷ pids) ps =
    reap_all-survive pids (reap pid ps).0 ∙ rw (reap-survive pid ps) (survive-survive pid pids ps)

none_left-any_live :
    (stop : Bool) (ps : List Process) → none_left stop ps ≡ (if any_live ps then false else stop)
unfolding none_left
none_left-any_live stop [] = refl
none_left-any_live stop (p ∷ ps) =
    ground (arith, none_left-any_live (if is_live p then false else stop) ps)

-- Each close belongs to one child that is forgotten.
length-reap :
    (pid : ℕ) (ps : List Process)
    → length (reap pid ps).1 + length (live_pids (reap pid ps).0) ≡ length (live_pids ps)
unfolding reap
length-reap pid [] = refl
length-reap pid (p ∷ ps) = ground (arith, length-reap pid ps)

length-reap_all :
    (pids : List ℕ) (ps : List Process)
    → length (reap_all pids ps).1 + length (live_pids (reap_all pids ps).0) ≡ length (live_pids ps)
unfolding reap_all
length-reap_all [] ps = omega arith
length-reap_all (pid ∷ pids) ps = omega (
  arith,
  length-reap pid ps,
  length-reap_all pids (reap pid ps).0,
  length-append (reap pid ps).1 (reap_all pids (reap pid ps).0).1,
)

-- SIGCHLD: exactly the children whose pids waitpid returned are forgotten, in place; one pipe is
-- closed for each of them; m_stop is set exactly when no child is left; the rest stays as it is.
sigchld_lem :
    (p : Parent) (pids : List ℕ)
    → let (q, acts) = handle_signal p (sigchld pids) in
      (q ≡ record p {
        children = survive pids p.children;
        stop = not (any_live (survive pids p.children));
      })
      × (length acts + length (live_pids q.children) ≡ length (live_pids p.children))
unfolding handle_signal
sigchld_lem p pids = (
  rw (reap_all-survive pids p.children, none_left-any_live true (survive pids p.children))
      (ground arith),
  length-reap_all pids p.children,
)

kill_all-live_pids : (ps : List Process) → kill_all ps ≡ map kill (live_pids ps)
unfolding kill_all
kill_all-live_pids [] = refl
kill_all-live_pids (p ∷ ps) = ground (arith, kill_all-live_pids ps)

-- SIGTERM and SIGINT: SIGTERM goes to every child that is left, in order, and to nobody else; the
-- parent's own state does not change.
sigterm_lem :
    (p : Parent) (s : Signal)
    → (s ≡ sigterm) ⊎ (s ≡ sigint)
    → handle_signal p s ≡ (p, map kill (live_pids p.children))
unfolding handle_signal
sigterm_lem p s (inl e) = rw (e, kill_all-live_pids p.children) refl
sigterm_lem p s (inr e) = rw (e, kill_all-live_pids p.children) refl
