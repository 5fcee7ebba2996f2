-- ===== src/Tests/Pipeline.antt =====
-- Runs of the execution pipeline.
use finance_agent_os.Base.{
  ℕ, lookup, ◌+◌, ◌≡◌, ◌⊎◌, refl, none, some, Option, [], ◌∷◌, List, pos, finite, absent, false,
  true, ok,
}
use finance_agent_os.Safety.KillSwitch.{fresh_switch, triggered}
use finance_agent_os.Pipeline.Signal.{RawSignal}
use finance_agent_os.Pipeline.State.{Around, BrokerStatus, Pipeline, Context}
use finance_agent_os.Pipeline.Execute.{World}
use finance_agent_os.Pipeline.Run.{execute, execute_internal}
use finance_agent_os.Pipeline.Safety.{Cleared, broker_needs_clearance}
use finance_agent_os.Pipeline.Replay.{executed_once, LiveAct, enable, disable, set_env}
use finance_agent_os.Tests.Data.{env, empty_manager}

-- A broker that fills every order and counts them, and a risk agent that approves every signal.
abbrev filling : Around
filling = record {
  BrokerState = ℕ;
  RiskState = ℕ;
  positions = λ n. [];
  equity = λ n. none;
  place = λ s signal_id correlation_id ticket n. (
    ok (record {
      status = BrokerStatus.filled;
      quantity = finite (pos s.quantity);
      filled_price = some s.price;
      fee = none;
      reason = none;
    }),
    n + 1,
  );
  evaluate = λ s n. (ok (record { approved = true; reason = none; ticket = none }), n + 1);
  permissions = λ agent. none;
}

abbrev pipeline : Pipeline
pipeline = record {
  live_enabled = false;
  sandbox = true;
  live_env = false;
  require_risk_approval = false;
  max_order_value = none;
  kill_switch = some (fresh_switch true "secret");
  hard_limits = none;
  orders = some empty_manager;
  daily_counts = [];
  done = [];
  order_idempotency = [];
  audit = [];
  published = [];
}

abbrev halted_pipeline : Pipeline
halted_pipeline = record pipeline {
  kill_switch = some (record (fresh_switch true "secret") { state = triggered });
}

abbrev signal : RawSignal
signal = record {
  id = some "s1";
  symbol = some "btcusdt";
  side = some "BUY";
  quantity = finite (pos 5);
  price = finite (pos 100);
  order_type = none;
  strategy = none;
  agent_id = some "desk";
  correlation_id = some "r1";
  idempotency_key = none;
  confidence = absent;
  timestamp = none;
}

abbrev raw : Option RawSignal
raw = some signal

abbrev context : Context
context = record { env = env; correlation_id = "r1"; signal_id = "s1"; fill_hash = "5:100:5" }

abbrev world : World filling
world = record { pipe = pipeline; broker = 0; risk = 0 }

abbrev halted_world : World filling
halted_world = record world { pipe = halted_pipeline }

broker_needs_clearance_example :
    ((execute filling context raw world).1.broker ≡ 0) ⊎ Cleared filling context raw world
broker_needs_clearance_example = broker_needs_clearance filling context raw world

-- Another quantity under the same ids.
abbrev changed : RawSignal
changed = record signal { quantity = finite (pos 7) }

executed_once_example :
    let (r, w') = execute filling context raw world in
    ((lookup "r1:s1" world.pipe.done ≡ some r)
      ⊎ ((lookup "r1:s1" world.pipe.done ≡ none)
          × (r ≡ (execute_internal filling context raw world).0)))
    × (lookup "r1:s1" w'.pipe.done ≡ some r)
    × (execute filling context (some changed) w' ≡ (r, w'))
executed_once_example = executed_once filling context context raw (some changed) world refl refl

-- The halted pipeline after the blocked signal, with its switch armed again.
abbrev rearmed : World filling
rearmed =
    let w = (execute filling context raw halted_world).1 in
    record w { pipe = record (w.pipe) { kill_switch = some (fresh_switch true "secret") } }

abbrev live_switches : List LiveAct
live_switches = set_env true ∷ enable ∷ disable ∷ enable ∷ []
