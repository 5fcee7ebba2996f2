-- ===== src/Guard/Cooldowns.antt =====
-- The cooldown between signals for a symbol: apps/server/src/core/loop-guard.ts.
use finance_agent_os.Base.{
  ℕ, ◌+◌, ◌≤◌, ◌<◌, ◌≡◌, ◌≢◌, String, eq_iff, eq_refl, to_upper, none, List, [], ◌∷◌, lookup,
  lookup-insert, or_default, arith,
}
use finance_agent_os.Guard.LoopGuard.{LoopGuardConfig, LoopGuard, check_symbol_cooldown}

module _ (c : LoopGuardConfig) where
  -- Checks in turn, each with the clock's reading and its symbol.
  unfoldable pub checks : List (ℕ × String) → LoopGuard → LoopGuard
  checks [] g = g
  checks ((now, symbol) ∷ rest) g = checks rest (check_symbol_cooldown c now symbol g).1

  -- No reading of the clock is before `start`.
  abbrev pub AllFrom : ℕ → List (ℕ × String) → Type 0
  AllFrom start [] = Unit
  AllFrom start ((now, symbol) ∷ rest) = (start ≤ now) × AllFrom start rest

  -- The symbol was active at `start` or later.
  abbrev pub Active : ℕ → String → LoopGuard → Type 0
  Active start key g = start ≤ or_default (lookup key g.symbol_last_activity) 0

  check-Active :
      (start now : ℕ) (key symbol : String) (g : LoopGuard)
      → start ≤ now
      → Active start key g
      → Active start key (check_symbol_cooldown c now symbol g).1
  unfolding check_symbol_cooldown
  check-Active start now key symbol g later a = ground (
    arith,
    eq_iff (to_upper symbol) key,
    lookup-insert (to_upper symbol) key now g.symbol_last_activity,
  )

  checks-Active :
      (start : ℕ) (key : String) (rest : List (ℕ × String)) (g : LoopGuard)
      → AllFrom start rest
      → Active start key g
      → Active start key (checks rest g)
  unfolding checks
  checks-Active start key [] g from a = a
  checks-Active start key ((now, symbol) ∷ rest) g (h, from) a =
      checks-Active start key rest (check_symbol_cooldown c now symbol g).1 from
        (check-Active start now key symbol g h a)

  allowed-Active :
      (now : ℕ) (symbol : String) (g : LoopGuard)
      → (check_symbol_cooldown c now symbol g).0 ≡ none
      → Active now (to_upper symbol) (check_symbol_cooldown c now symbol g).1
  unfolding check_symbol_cooldown
  allowed-Active now symbol g h = ground (
    arith,
    eq_refl (to_upper symbol),
    lookup-insert (to_upper symbol) (to_upper symbol) now g.symbol_last_activity,
  )

  Active-refused :
      (start now : ℕ) (symbol : String) (g : LoopGuard)
      → Active start (to_upper symbol) g
      → now < start + c.symbol_cooldown_ms
      → (check_symbol_cooldown c now symbol g).0 ≢ none
  unfolding check_symbol_cooldown
  Active-refused start now symbol g a h e = ground arith

  -- The cooldown holds. Once the guard lets a symbol through, it refuses every spelling of the symbol
  -- in upper and lower case until the cooldown is over, whatever it is asked in between at a clock
  -- that does not go back behind the first check.
  pub cooldown_holds :
      (now later : ℕ) (symbol again : String) (between : List (ℕ × String)) (g : LoopGuard)
      → (check_symbol_cooldown c now symbol g).0 ≡ none
      → AllFrom now between
      → later < now + c.symbol_cooldown_ms
      → to_upper again ≡ to_upper symbol
      → (check_symbol_cooldown c later again
          (checks between (check_symbol_cooldown c now symbol g).1)).0
        ≢ none
  cooldown_holds now later symbol again between g pass from soon same =
      let after = (check_symbol_cooldown c now symbol g).1 in
      Active-refused now later again (checks between after)
        (rw same (
          checks-Active now (to_upper symbol) between after from
            (allowed-Active now symbol g pass)))
        soon
