-- ===== src/Core/Forward.antt =====
-- Sequences of calls on the lifecycle: packages/core/src/lifecycle.ts.
use finance_agent_os.Base.{
  ℕ, ◌+◌, ◌≤◌, ◌<◌, ◌≡◌, ◌∙◌, sym, ◌⊎◌, inl, inr, refl, Bool, true, false, some, List, [], ◌∷◌,
  ◌++◌, length, length-keep_last, arith, Bool-cases, Option-cases,
}
use finance_agent_os.Core.Phases.{
  LifecyclePhase, created, rank, Lifecycle, add_hook, transition, advance, transition_to, restart,
  may_transition, get_next_startup_phase, startup_index, shutdown_index,
}

-- The calls that change the lifecycle, with the clock's reading.
pub data Step : Type 0 where
  hook : LifecyclePhase → ℕ → Step
  next : ℕ → Step
  go_to : ℕ → LifecyclePhase → Step
  again : Step

unfoldable pub take_step : Step → Lifecycle → Lifecycle
take_step (hook p h) l = add_hook p h l
take_step (next now) l = (advance now l).1
take_step (go_to now target) l = (transition_to now target l).1
take_step again l = (restart l).1

unfoldable pub take_steps : List Step → Lifecycle → Lifecycle
take_steps [] l = l
take_steps (x ∷ xs) l = take_steps xs (take_step x l)

may_transition-rank : (p q : LifecyclePhase) → may_transition p q ≡ true → rank p < rank q
unfolding may_transition startup_index shutdown_index
may_transition-rank created q h = ground arith
may_transition-rank _ q h = ground arith

next_rank : (p q : LifecyclePhase) → get_next_startup_phase p ≡ some q → rank q ≡ rank p + 1
unfolding get_next_startup_phase
next_rank created q h = ground arith
next_rank _ q h = ground arith

-- A call moves forward, if it moves at all; only a restart goes back, from STOPPED to CREATED.
abbrev pub Forward : LifecyclePhase → LifecyclePhase → Type 0
Forward p q = (q ≡ p) ⊎ (rank p < rank q)

advance-Forward : (now : ℕ) (l : Lifecycle) → Forward l.phase (advance now l).1.phase
unfolding advance transition
advance-Forward now l = elim (Option-cases (get_next_startup_phase l.phase)) [
  | inl e ↦ inl (ground arith)
  | inr (q, e) ↦ inr (ground (arith, next_rank l.phase q e))
]

transition_to-Forward :
    (now : ℕ) (target : LifecyclePhase) (l : Lifecycle)
    → Forward l.phase (transition_to now target l).1.phase
unfolding transition_to transition
transition_to-Forward now target l = elim (Bool-cases (may_transition l.phase target)) [
  | inl e ↦ inr (ground (arith, may_transition-rank l.phase target e))
  | inr e ↦ inl (ground arith)
]

-- Whether the calls have no restart among them.
abbrev pub no_restart : List Step → Bool
no_restart [] = true
no_restart (again ∷ xs) = false
no_restart (hook p h ∷ xs) = no_restart xs
no_restart (next now ∷ xs) = no_restart xs
no_restart (go_to now target ∷ xs) = no_restart xs

Forward-trans : {p q r : LifecyclePhase} → Forward p q → Forward q r → Forward p r
Forward-trans {p} {q} {r} (inl e) (inl f) = inl (f ∙ e)
Forward-trans {p} {q} {r} (inl e) (inr f) = inr (rw (sym e) f)
Forward-trans {p} {q} {r} (inr e) (inl f) = inr (rw f e)
Forward-trans {p} {q} {r} (inr e) (inr f) = inr (omega arith)

-- The phases are strict: through any sequence of hooks, `advance` and `transitionTo` without a
-- reset, the phase stays where it was or moves forward in the order of startup and shutdown.
pub only-Forward :
    (xs : List Step) (l : Lifecycle)
    → no_restart xs ≡ true
    → Forward l.phase (take_steps xs l).phase
unfolding take_steps take_step add_hook
only-Forward [] l h = inl refl
only-Forward (hook p k ∷ xs) l h = only-Forward xs (add_hook p k l) h
only-Forward (next now ∷ xs) l h =
    Forward-trans (advance-Forward now l) (only-Forward xs (advance now l).1 h)
only-Forward (go_to now target ∷ xs) l h =
    Forward-trans (transition_to-Forward now target l)
      (only-Forward xs (transition_to now target l).1 h)
only-Forward (again ∷ xs) l h = absurd (cc)

-- The transition log keeps to its bound through every call.
step_bounded :
    (x : Step) (l : Lifecycle)
    → length l.transition_log ≤ l.max_log_size
    → let l' = take_step x l in
      (length l'.transition_log ≤ l'.max_log_size) × (l'.max_log_size ≡ l.max_log_size)
unfolding take_step add_hook advance transition_to transition restart
step_bounded (hook p k) l h = (h, refl)
step_bounded (next now) l h = elim (Option-cases (get_next_startup_phase l.phase)) [
  | inl e ↦ ground arith
  | inr (q, e) ↦ ground (
    arith,
    length-keep_last l.max_log_size
        (l.transition_log ++ record { phase = q; previous_phase = l.phase; timestamp = now } ∷ []),
  )
]
step_bounded (go_to now target) l h = ground (
  arith,
  length-keep_last l.max_log_size (
      l.transition_log
      ++ record { phase = target; previous_phase = l.phase; timestamp = now } ∷ []),
)
step_bounded again l h = ground arith

-- The transition log keeps to its bound, and the bound stays, through every sequence of calls, from
-- a log that does.
pub log_bounded :
    (xs : List Step) (l : Lifecycle)
    → length l.transition_log ≤ l.max_log_size
    → let l' = take_steps xs l in
      (length l'.transition_log ≤ l'.max_log_size) × (l'.max_log_size ≡ l.max_log_size)
unfolding take_steps
log_bounded [] l h = (h, refl)
log_bounded (x ∷ xs) l h =
    let (b, e) = step_bounded x l h in let (c, f) = log_bounded xs (take_step x l) b in (c, f ∙ e)
