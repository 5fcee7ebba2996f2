-- ===== src/Core/Phases.antt =====
-- The phases of the runtime: packages/core/src/lifecycle.ts. Hooks are numbers, and `notified` lists
-- those that were called; a hook that throws is only logged by the code.
use finance_agent_os.Base.{
  ℕ, ◌+◌, Bool, false, ◌&&◌, ◌||◌, Option, none, some, is_some, List, [], ◌∷◌, ◌++◌, keep_last, eqb,
  if◌then◌else◌, Result, ok, err,
}

pub data LifecyclePhase : Type 0 where
  created registering initializing starting running stopping draining stopped : LifecyclePhase

-- The position of a phase in STARTUP_ORDER with SHUTDOWN_ORDER behind it.
abbrev pub rank : LifecyclePhase → ℕ
rank created = 0
rank registering = 1
rank initializing = 2
rank starting = 3
rank running = 4
rank stopping = 5
rank draining = 6
rank stopped = 7

abbrev pub is_phase : LifecyclePhase → LifecyclePhase → Bool
is_phase a b = eqb (rank a) (rank b)

-- `STARTUP_ORDER.indexOf`, which has no index (-1) for the phases of the shutdown.
unfoldable pub startup_index : LifecyclePhase → Option ℕ
startup_index created = some 0
startup_index registering = some 1
startup_index initializing = some 2
startup_index starting = some 3
startup_index running = some 4
startup_index _ = none

-- `SHUTDOWN_ORDER.indexOf`
unfoldable pub shutdown_index : LifecyclePhase → Option ℕ
shutdown_index stopping = some 0
shutdown_index draining = some 1
shutdown_index stopped = some 2
shutdown_index _ = none

unfoldable pub get_next_startup_phase : LifecyclePhase → Option LifecyclePhase
get_next_startup_phase created = some registering
get_next_startup_phase registering = some initializing
get_next_startup_phase initializing = some starting
get_next_startup_phase starting = some running
get_next_startup_phase _ = none

pub record Transition : Type 0 where
  pub phase : LifecyclePhase
  pub previous_phase : LifecyclePhase
  pub timestamp : ℕ

pub record Lifecycle : Type 0 where
  pub phase : LifecyclePhase
  pub hooks : List (LifecyclePhase × ℕ)
  pub notified : List ℕ
  pub transition_log : List Transition
  pub max_log_size : ℕ

pub data PhaseError : Type 0 where
  cannot_advance cannot_reset : LifecyclePhase → PhaseError
  invalid_transition : LifecyclePhase → LifecyclePhase → PhaseError

-- The hooks of a phase, in the order of their registration.
unfoldable pub hooks_of : LifecyclePhase → List (LifecyclePhase × ℕ) → List ℕ
hooks_of p [] = []
hooks_of p ((q, hook) ∷ rest) =
    let more = hooks_of p rest in if is_phase q p then hook ∷ more else more

unfoldable pub add_hook : LifecyclePhase → ℕ → Lifecycle → Lifecycle
add_hook p hook l = record l { hooks = l.hooks ++ (p, hook) ∷ [] }

unfoldable pub transition : ℕ → LifecyclePhase → Lifecycle → Lifecycle
unfolding hooks_of
transition now target l = record l {
  phase = target;
  transition_log = keep_last l.max_log_size (
      l.transition_log
      ++ record { phase = target; previous_phase = l.phase; timestamp = now } ∷ []);
  notified = l.notified ++ hooks_of target l.hooks;
}

unfoldable pub advance : ℕ → Lifecycle → Result PhaseError LifecyclePhase × Lifecycle
advance now l = elim (get_next_startup_phase l.phase) [
  | none ↦ (err (cannot_advance l.phase), l)
  | some next ↦ (ok next, transition now next l)
]

-- `targetStartupIdx === startupIdx + 1`, where both are indices
abbrev is_next : Option ℕ → Option ℕ → Bool
is_next (some target) (some current) = eqb target (current + 1)
is_next _ _ = false

-- The tests of `transitionTo`, one after the other.
unfoldable pub may_transition : LifecyclePhase → LifecyclePhase → Bool
unfolding startup_index shutdown_index
may_transition phase target =
    (is_phase target running && is_phase phase starting)
    || (is_phase target stopping && is_phase phase running)
    || (is_phase target draining && is_phase phase stopping)
    || (is_phase target stopped && is_phase phase draining)
    || (is_some (shutdown_index target) && is_some (startup_index phase))
    || is_next (startup_index target) (startup_index phase)

unfoldable pub transition_to :
    ℕ → LifecyclePhase → Lifecycle → Result PhaseError LifecyclePhase × Lifecycle
transition_to now target l =
    if may_transition l.phase target
    then (ok target, transition now target l)
    else (err (invalid_transition l.phase target), l)

unfoldable pub restart : Lifecycle → Result PhaseError (Unit {0}) × Lifecycle
restart l =
    if is_phase l.phase stopped
    then (ok tt, record l { phase = created })
    else (err (cannot_reset l.phase), l)
