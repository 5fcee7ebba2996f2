-- ===== src/Pipeline/Replay.antt =====
-- Repeated executions, the halt, and the live gate:
-- apps/server/src/execution-pipeline/pipeline.ts.
use Prim.Native.String
use finance_agent_os.Base.{
  ap, insert, ◌∙◌, ◌⊎◌, some, String, trimmed_or, ◌≡◌, refl, Bool, true, false, eq_refl, Option,
  none, Option-cases, lookup, lookup-insert, arith, inl, inr, List, [], ◌∷◌,
}
use finance_agent_os.Pipeline.Signal.{RawSignal}
use finance_agent_os.Pipeline.State.{
  Around, PipelineResult, Pipeline, Context, kill_switch, construct, enable_live_trading,
  disable_live_trading, is_live_enabled, record_audit,
}
use finance_agent_os.Pipeline.Execute.{World}
use finance_agent_os.Pipeline.Run.{switch_halted, execute_internal, execute, inflight_key}

-- The idempotency key that the signal gives, without surrounding blanks, else the signal's id.
abbrev pub idempotency_of : Context → Option RawSignal → String
idempotency_of c none = c.signal_id
idempotency_of c (some s) = trimmed_or s.idempotency_key c.signal_id

-- The name of a result: the correlation id and the idempotency key.
abbrev pub result_key : Context → Option RawSignal → String
result_key c signal = String.◌++◌ c.correlation_id (String.◌++◌ ":" (idempotency_of c signal))

module _ (a : Around) where
  inflight_key_lem :
      (c : Context) (signal : Option RawSignal) → inflight_key a c signal ≡ result_key c signal
  unfolding inflight_key
  inflight_key_lem c none = refl
  inflight_key_lem c (some s) = refl

  execute_prior :
      (c : Context) (signal : Option RawSignal) (w : World a) (r : PipelineResult)
      → lookup (result_key c signal) w.pipe.done ≡ some r
      → execute a c signal w ≡ (r, w)
  unfolding execute
  execute_prior c signal w r e = ground (arith, inflight_key_lem c signal, e)

  abbrev with_result : String → PipelineResult → World a → World a
  with_result key r w = record w { pipe = record (w.pipe) { done = insert key r w.pipe.done } }

  execute_fresh :
      (c : Context) (signal : Option RawSignal) (w : World a)
      → lookup (result_key c signal) w.pipe.done ≡ none
      → execute a c signal w ≡ (
        (execute_internal a c signal w).0,
        with_result
            (result_key c signal)
            (execute_internal a c signal w).0
            (execute_internal a c signal w).1,
      )
  unfolding execute
  execute_fresh c signal w e = ground (arith, inflight_key_lem c signal, e)

  -- A signal is executed once. Its result is the one that was stored under its correlation id and its
  -- idempotency key (or its id, where it gives no key), and if there was none, the result of executing
  -- it; afterwards the result is stored there. A second execution with the same correlation id and
  -- idempotency key, whatever else the signal says, returns that result and changes nothing.
  pub executed_once :
      (c c' : Context) (signal other : Option RawSignal) (w : World a)
      → c'.correlation_id ≡ c.correlation_id
      → idempotency_of c' other ≡ idempotency_of c signal
      → let (r, w') = execute a c signal w in
        ((lookup (result_key c signal) w.pipe.done ≡ some r)
          ⊎ ((lookup (result_key c signal) w.pipe.done ≡ none)
              × (r ≡ (execute_internal a c signal w).0)))
        × (lookup (result_key c signal) w'.pipe.done ≡ some r)
        × (execute a c' other w' ≡ (r, w'))
  executed_once c c' signal other w correlation idempotency =
      let same : result_key c' other ≡ result_key c signal =
        ap (λ x. String.◌++◌ x (String.◌++◌ ":" (idempotency_of c' other))) correlation
        ∙ ap (λ x. String.◌++◌ c.correlation_id (String.◌++◌ ":" x)) idempotency in
      elim (Option-cases (lookup (result_key c signal) w.pipe.done)) [
        | inr (r, e) ↦
            rw (execute_prior c signal w r e) (inl e, e, execute_prior c' other w r (rw (same) e))
        | inl e ↦
            let r = (execute_internal a c signal w).0 in
            let w' = with_result (result_key c signal) r (execute_internal a c signal w).1 in
            let stored : lookup (result_key c signal) w'.pipe.done ≡ some r = ground (
              arith,
              lookup-insert (result_key c signal) (result_key c signal) r
                  (execute_internal a c signal w).1.pipe.done,
              eq_refl (result_key c signal),
            ) in
            rw (execute_fresh c signal w e)
              (inr (e, refl), stored, execute_prior c' other w' r (rw (same) stored))
      ]

  -- While the kill switch is halted, a signal that was not executed before fails at the kill switch,
  -- and neither the broker, nor the risk agent, nor the order manager, nor the daily counts change.
  pub halted_blocks :
      (c : Context) (signal : Option RawSignal) (w : World a)
      → switch_halted a w.pipe ≡ true
      → lookup (inflight_key a c signal) w.pipe.done ≡ none
      → let (r, w') = execute a c signal w in
        (r.success ≡ false)
        × (r.stage ≡ kill_switch)
        × (w'.broker ≡ w.broker)
        × (w'.risk ≡ w.risk)
        × (w'.pipe.orders ≡ w.pipe.orders)
        × (w'.pipe.daily_counts ≡ w.pipe.daily_counts)
  unfolding execute execute_internal record_audit
  halted_blocks c signal w h e =
      (ground arith, ground arith, ground arith, ground arith, ground arith, ground arith)

  -- The block outlives the halt: once a signal was blocked by the kill switch, the pipeline gives the
  -- blocked result for its ids however its state changes, unless the results are cleared.
  pub block_outlives_halt :
      (c c' : Context) (signal : Option RawSignal) (w later : World a)
      → switch_halted a w.pipe ≡ true
      → lookup (inflight_key a c signal) w.pipe.done ≡ none
      → inflight_key a c' signal ≡ inflight_key a c signal
      → later.pipe.done ≡ (execute a c signal w).1.pipe.done
      → ((execute a c' signal later).0.success ≡ false)
        × ((execute a c' signal later).0.stage ≡ kill_switch)
  unfolding execute execute_internal record_audit
  block_outlives_halt c c' signal w later h e same kept =
      let blocked = execute_internal a c signal w in
      let at =
        lookup-insert (inflight_key a c signal) (inflight_key a c signal) blocked.0
          blocked.1.pipe.done in
      let eq = eq_refl (inflight_key a c signal) in (ground (arith, at, eq), ground (arith, at, eq))

-- The switches of the live gate; `set_env` is a change of LIVE_TRADING_ENABLED from outside.
pub data LiveAct : Type 0 where
  enable disable : LiveAct
  set_env : Bool → LiveAct

unfoldable pub live_act : LiveAct → Pipeline → Pipeline
live_act enable p = (enable_live_trading p).1
live_act disable p = disable_live_trading p
live_act (set_env e) p = record p { live_env = e }

unfoldable pub live_acts : List LiveAct → Pipeline → Pipeline
live_acts [] p = p
live_acts (x ∷ xs) p = live_acts xs (live_act x p)

sandbox_act : (x : LiveAct) (p : Pipeline) → p.sandbox ≡ true → (live_act x p).sandbox ≡ true
unfolding live_act enable_live_trading
sandbox_act enable p h = ground arith
sandbox_act disable p h = h
sandbox_act (set_env e) p h = h

off_act :
    (x : LiveAct) (p : Pipeline)
    → p.sandbox ≡ true
    → p.live_enabled ≡ false
    → (live_act x p).live_enabled ≡ false
unfolding live_act enable_live_trading
off_act enable p h o = ground arith
off_act disable p h o = refl
off_act (set_env e) p h o = o

stays_off :
    (xs : List LiveAct) (p : Pipeline)
    → p.sandbox ≡ true
    → p.live_enabled ≡ false
    → ((live_acts xs p).live_enabled ≡ false) × (is_live_enabled (live_acts xs p) ≡ false)
unfolding live_acts is_live_enabled
stays_off [] p h o = (o, ground arith)
stays_off (x ∷ xs) p h o = stays_off xs (live_act x p) (sandbox_act x p h) (off_act x p h o)

-- The sandbox cannot be left: a pipeline that is constructed in sandbox mode, whatever its
-- configuration asks for, never has live trading enabled, through any sequence of enabling, disabling
-- and changes of the environment variable.
pub sandbox_never_live :
    (xs : List LiveAct) (p : Pipeline)
    → p.sandbox ≡ true
    → let q = live_acts xs (construct p) in (q.live_enabled ≡ false) × (is_live_enabled q ≡ false)
sandbox_never_live xs p h = stays_off xs (construct p) (built_sandbox p h) (built_off p h)
  where
    built_sandbox : (p : Pipeline) → p.sandbox ≡ true → (construct p).sandbox ≡ true
    built_sandbox p h = unfold construct in ground arith

    built_off : (p : Pipeline) → p.sandbox ≡ true → (construct p).live_enabled ≡ false
    built_off p h = unfold construct in ground arith
