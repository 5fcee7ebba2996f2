-- ===== src/Guard/Retries.antt =====
-- The retries of a correlation id: apps/server/src/core/loop-guard.ts.
use finance_agent_os.Base.{
  ℕ, ◌+◌, ◌-◌, ◌≤◌, String, ◌==◌, eq_iff, lookup, lookup-insert, insert, List, [], ◌∷◌, or_default,
  arith, if◌then◌else◌,
}
use finance_agent_os.Guard.LoopGuard.{LoopGuardConfig, LoopGuard, record_retry}

module _ (c : LoopGuardConfig) where
  -- The retries of the ids in turn, and how many of those of `id` are allowed.
  unfoldable pub allowed_retries : String → List String → LoopGuard → ℕ
  allowed_retries id [] g = 0
  allowed_retries id (j ∷ js) g =
      let ((allowed, count), g') = record_retry c j g in
      let rest = allowed_retries id js g' in
      if j == id then (if allowed then rest + 1 else rest) else rest

  retries_left :
      (id : String) (js : List String) (g : LoopGuard)
      → allowed_retries id js g ≤ c.max_retries - or_default (lookup id g.retry_counts) 0
  unfolding allowed_retries record_retry
  retries_left id [] g = omega arith
  retries_left id (j ∷ js) g =
      let count = or_default (lookup j g.retry_counts) 0 + 1 in
      let ih = retries_left id js (record g { retry_counts = insert j count g.retry_counts }) in
      ground (arith, ih, eq_iff j id, lookup-insert j id count g.retry_counts)

  -- A correlation id is retried at most `maxRetries` times: of any sequence of retries on a guard, a
  -- new one or not, those of an id that are allowed are no more than the maximum.
  pub retries_bounded :
      (id : String) (js : List String) (g : LoopGuard) → allowed_retries id js g ≤ c.max_retries
  retries_bounded id js g = omega (arith, retries_left id js g)
