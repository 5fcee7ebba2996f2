-- ===== src/Tests/Guard.antt =====
-- Runs of the loop guard.
use finance_agent_os.Base.{ℕ, ◌≤◌, List, [], ◌∷◌, lookup-empty}
use finance_agent_os.Guard.LoopGuard.{LoopGuard, default_config}
use finance_agent_os.Guard.Depths.{Act, enter, exit, Bounded}
use finance_agent_os.Guard.Retries.{allowed_retries, retries_bounded}

abbrev new_guard : LoopGuard
new_guard = record {
  processed_events = [];
  correlation_depths = [];
  symbol_last_activity = [];
  retry_counts = [];
}

new_guard-Bounded : Bounded default_config new_guard
new_guard-Bounded id n h = absurd (cc (lookup-empty {V = ℕ} id))

abbrev three_steps : List Act
three_steps = enter "r1" ∷ enter "r1" ∷ exit "r1" ∷ []

retries_bounded_example :
    allowed_retries default_config "r1" ("r1" ∷ "r2" ∷ "r1" ∷ "r1" ∷ "r1" ∷ []) new_guard ≤ 3
retries_bounded_example =
    retries_bounded default_config "r1" ("r1" ∷ "r2" ∷ "r1" ∷ "r1" ∷ "r1" ∷ []) new_guard
