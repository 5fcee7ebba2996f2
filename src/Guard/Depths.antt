-- ===== src/Guard/Depths.antt =====
-- Depths of correlation traces: apps/server/src/core/loop-guard.ts.
use finance_agent_os.Base.{
  ℕ, ◌+◌, ◌-◌, ◌≤◌, ◌<◌, ◌≡◌, true, String, eq_iff, some, Option-cases, inl, inr, List, [], ◌∷◌,
  lookup, lookup-insert, lookup-remove, lookup-empty, insert, or_default, arith,
}
use finance_agent_os.Guard.LoopGuard.{
  LoopGuardConfig, LoopGuard, reset_guard, record_event, enter_trace, exit_trace,
  check_symbol_cooldown, record_retry, cleanup,
}

-- The calls that change the guard.
pub data Act : Type 0 where
  event : ℕ → String → Act
  enter exit retry : String → Act
  cooldown : ℕ → String → Act
  clean : ℕ → Act
  restart : Act

module _ (c : LoopGuardConfig) where
  unfoldable pub act : Act → LoopGuard → LoopGuard
  act (event now id) g = record_event c now id g
  act (enter id) g = (enter_trace c id g).1
  act (exit id) g = exit_trace c id g
  act (retry id) g = (record_retry c id g).1
  act (cooldown now s) g = (check_symbol_cooldown c now s g).1
  act (clean now) g = cleanup c now g
  act restart g = reset_guard g

  unfoldable pub acts : List Act → LoopGuard → LoopGuard
  acts [] g = g
  acts (a ∷ as') g = acts as' (act a g)

  -- Every depth on record is positive and within the maximum.
  abbrev pub Bounded : LoopGuard → Type 0
  Bounded g =
      (id : String) (n : ℕ)
      → lookup id g.correlation_depths ≡ some n
      → (0 < n) × (n ≤ c.max_recursion_depth)

  enter_trace-Bounded : (j : String) (g : LoopGuard) → Bounded g → Bounded (enter_trace c j g).1
  unfolding enter_trace
  enter_trace-Bounded j g b id n h =
      let next = or_default (lookup j g.correlation_depths) 0 + 1 in
      ground (arith, b id n, lookup-insert j id next g.correlation_depths)

  exit_trace-Bounded : (j : String) (g : LoopGuard) → Bounded g → Bounded (exit_trace c j g)
  unfolding exit_trace
  exit_trace-Bounded j g b id n h =
      let current = or_default (lookup j g.correlation_depths) 1 in
      ground (
        arith,
        b id n,
        b j current,
        lookup-insert j id (current - 1) g.correlation_depths,
        lookup-remove j id g.correlation_depths,
      )

  act-Bounded : (a : Act) (g : LoopGuard) → Bounded g → Bounded (act a g)
  unfolding act record_event record_retry check_symbol_cooldown cleanup reset_guard
  act-Bounded (event now id) g b j n h = b j n (ground arith)
  act-Bounded (enter id) g b j n h = enter_trace-Bounded id g b j n h
  act-Bounded (exit id) g b j n h = exit_trace-Bounded id g b j n h
  act-Bounded (retry id) g b j n h = b j n h
  act-Bounded (cooldown now s) g b j n h = b j n (ground arith)
  act-Bounded (clean now) g b j n h = b j n h
  act-Bounded restart g b j n h = absurd (cc (lookup-empty {V = ℕ} j))

  -- The recursion of a trace is bounded: through any sequence of calls on a guard whose depths are
  -- positive and within the maximum, as a new guard's are, they stay so.
  pub depths-Bounded :
      (calls : List Act) (g : LoopGuard)
      → Bounded g
      → (id : String) (n : ℕ) → lookup id (acts calls g).correlation_depths ≡ some n
      → (0 < n) × (n ≤ c.max_recursion_depth)
  unfolding acts
  depths-Bounded [] g b = b
  depths-Bounded (a ∷ rest) g b = depths-Bounded rest (act a g) (act-Bounded a g b)

  -- A step that is entered and left restores every depth: on a guard whose depths are positive and
  -- within the maximum, an allowed `enterTrace` with `exitTrace` behind it leaves the depth of every
  -- correlation id as it was.
  pub enter_exit_restores :
      (id j : String) (g : LoopGuard)
      → Bounded g
      → (enter_trace c id g).0.0 ≡ true
      → lookup j (exit_trace c id (enter_trace c id g).1).correlation_depths
        ≡ lookup j g.correlation_depths
  unfolding enter_trace exit_trace
  enter_exit_restores id j g b h = elim (Option-cases (lookup id g.correlation_depths)) [
    | inl e ↦ ground (
      arith,
      eq_iff id j,
      eq_iff id id,
      lookup-insert id id 1 g.correlation_depths,
      lookup-insert id j 1 g.correlation_depths,
      lookup-remove id j (insert id 1 g.correlation_depths),
    )
    | inr (n, e) ↦ ground (
      arith,
      eq_iff id j,
      eq_iff id id,
      b id n e,
      lookup-insert id id (n + 1) g.correlation_depths,
      lookup-insert id j (n + 1) g.correlation_depths,
      lookup-insert id j n (insert id (n + 1) g.correlation_depths),
    )
  ]
