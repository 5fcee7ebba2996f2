-- ===== src/Tests/Core.antt =====
-- Runs of the runtime's phases.
use finance_agent_os.Base.{refl, [], ◌∷◌, List}
use finance_agent_os.Core.Phases.{Lifecycle, created, running, stopped}
use finance_agent_os.Core.Forward.{Step, hook, next, go_to, take_steps, Forward, only-Forward}

abbrev new_lifecycle : Lifecycle
new_lifecycle = record {
  phase = created;
  hooks = [];
  notified = [];
  transition_log = [];
  max_log_size = 2;
}

-- A startup, with one call that is refused, and a shutdown.
abbrev startup : List Step
startup =
    hook running 1
    ∷ next 1
    ∷ next 2
    ∷ go_to 3 running
    ∷ next 4
    ∷ go_to 5 running
    ∷ go_to 6 stopped
    ∷ []

only-Forward_example : Forward created (take_steps startup new_lifecycle).phase
only-Forward_example = only-Forward startup new_lifecycle refl
