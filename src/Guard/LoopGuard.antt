-- ===== src/Guard/LoopGuard.antt =====
-- `LoopGuard`: apps/server/src/core/loop-guard.ts. A difference of times is moved to the other side of
-- its comparison, where the natural numbers have no sign to lose.
use finance_agent_os.Base.{
  ℕ, ◌+◌, ◌-◌, Bool, true, false, ◌&&◌, not, String, ◌==◌, to_upper, Option, none, some, [], ◌∷◌,
  Dict, lookup, insert, remove, or_default, ltb, leb, eqb, if◌then◌else◌,
}

pub record LoopGuardConfig : Type 0 where
  pub max_recursion_depth : ℕ
  pub symbol_cooldown_ms : ℕ
  pub max_retries : ℕ
  pub history_ttl_ms : ℕ

-- DEFAULT_CONFIG
abbrev pub default_config : LoopGuardConfig
default_config = record {
  max_recursion_depth = 4;
  symbol_cooldown_ms = 2000;
  max_retries = 3;
  history_ttl_ms = 300000;
}

pub record LoopGuard : Type 0 where
  pub processed_events : Dict ℕ
  pub correlation_depths : Dict ℕ
  pub symbol_last_activity : Dict ℕ
  pub retry_counts : Dict ℕ

unfoldable pub reset_guard : LoopGuard → LoopGuard
reset_guard g = record {
  processed_events = [];
  correlation_depths = [];
  symbol_last_activity = [];
  retry_counts = [];
}

module _ (c : LoopGuardConfig) where
  -- A time stamp of 0 counts as none.
  unfoldable pub is_duplicate_event : ℕ → String → LoopGuard → Bool
  is_duplicate_event now event g = elim (lookup event g.processed_events) [
    | none ↦ false
    | some at ↦ not (event == "") && not (eqb at 0) && ltb now (at + c.history_ttl_ms)
  ]

  unfoldable pub record_event : ℕ → String → LoopGuard → LoopGuard
  record_event now event g =
      if event == "" then g else record g { processed_events = insert event now g.processed_events }

  -- Whether the step is allowed, and the depth that it reaches.
  unfoldable pub enter_trace : String → LoopGuard → (Bool × ℕ) × LoopGuard
  enter_trace correlation g =
      let next = or_default (lookup correlation g.correlation_depths) 0 + 1 in
      if correlation == ""
      then ((true, 1), g)
      else if ltb c.max_recursion_depth next
      then ((false, next), g)
      else (
        (true, next),
        record g { correlation_depths = insert correlation next g.correlation_depths },
      )

  unfoldable pub exit_trace : String → LoopGuard → LoopGuard
  exit_trace correlation g =
      let current = or_default (lookup correlation g.correlation_depths) 1 in
      if correlation == ""
      then g
      else if leb current 1
      then record g { correlation_depths = remove correlation g.correlation_depths }
      else record g { correlation_depths = insert correlation (current - 1) g.correlation_depths }

  -- `none` is `{ allowed: true }`, `some` the time to wait.
  unfoldable pub check_symbol_cooldown : ℕ → String → LoopGuard → Option ℕ × LoopGuard
  check_symbol_cooldown now symbol g =
      let s = to_upper symbol in
      let last = or_default (lookup s g.symbol_last_activity) 0 in
      if ltb now (last + c.symbol_cooldown_ms)
      then (some (last + c.symbol_cooldown_ms - now), g)
      else (none, record g { symbol_last_activity = insert s now g.symbol_last_activity })

  unfoldable pub record_retry : String → LoopGuard → (Bool × ℕ) × LoopGuard
  record_retry correlation g =
      let count = or_default (lookup correlation g.retry_counts) 0 + 1 in
      (
        (leb count c.max_retries, count),
        record g { retry_counts = insert correlation count g.retry_counts },
      )

  -- The entries that the loop of `cleanup` meets.
  unfoldable pub clean_events : ℕ → Dict ℕ → Dict ℕ → Dict ℕ
  clean_events now [] events = events
  clean_events now ((event, at) ∷ entries) events =
      clean_events now entries
        (if ltb (at + c.history_ttl_ms) now then remove event events else events)

  unfoldable pub cleanup : ℕ → LoopGuard → LoopGuard
  cleanup now g = record g {
    processed_events = clean_events now g.processed_events g.processed_events;
  }
