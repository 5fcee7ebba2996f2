-- ===== src/Workflow/Once.antt =====
-- How often the orchestrator gives a run to the pipeline:
-- apps/server/src/orchestrator/orchestrator.ts.
use finance_agent_os.Base.{
  ℕ, ◌+◌, ◌≤◌, ◌≡◌, refl, arith, true, false, String, ◌==◌, eq_iff, Option, some, List, [], ◌∷◌,
  Dict, lookup, insert, lookup-insert, if◌then◌else◌, Bool-cases, inl, inr, ◌∙◌, ◌++◌,
}
use finance_agent_os.Pipeline.Signal.{RawSignal}
use finance_agent_os.Workflow.State.{WorkflowRun, Orchestrator}
use finance_agent_os.Workflow.Approve.{Confirmation, Begun, begin_approve}
use finance_agent_os.Workflow.Outcome.{
  Outcome, handed, kept, unconfirmed, stale, cleared, begin_approve-Outcome,
}
use finance_agent_os.Workflow.Events.{
  Event, start, researched, approve, answered, refuse, restart, apply, Enabled, Reachable, nothing,
  next,
}
use finance_agent_os.Workflow.Spent.{count_executions, Entry, is_spent, Sound, save-Sound, held}
use finance_agent_os.Workflow.Steps.{
  start-Sound, researched-Sound, answered-Sound, reject-Sound, recover-Sound,
}

count_executions-append :
    (id key : String) (s : RawSignal) (xs : List (String × RawSignal))
    → count_executions id (xs ++ (key, s) ∷ [])
      ≡ (if key == id then count_executions id xs + 1 else count_executions id xs)
unfolding count_executions
count_executions-append id key s [] = ground arith
count_executions-append id key s ((own, t) ∷ rest) =
    ground (arith, count_executions-append id key s rest)

now-Entry :
    (id : String) (n : ℕ) (r : WorkflowRun) (m : Dict WorkflowRun)
    → r.id ≡ id
    → is_spent r ≡ true
    → Entry id n (lookup id (insert r.id r m))
now-Entry id n r m e s = rw (lookup-insert r.id id r m, (eq_iff r.id id).1 e) (e, λ _. s)

handed-Sound :
    (id key : String) (sig : RawSignal) (r r' : WorkflowRun) (w : Orchestrator)
    → lookup key w.runs ≡ some r
    → is_spent r ≡ false
    → r'.id ≡ r.id
    → is_spent r' ≡ true
    → Sound w key
    → Sound w id
    → Sound (handed key sig r' w) id
handed-Sound id key sig r r' w at unspent same spent k s =
    let own = held w.runs key id _ _ r k.in_memory s.in_memory at in
    let c = count_executions-append id key sig w.executions in
    elim (Bool-cases (key == id)) [
      | inr differs ↦
          let c' : count_executions id (w.executions ++ (key, sig) ∷ [])
              ≡ count_executions id w.executions =
            ground (arith, c, differs) in
          let t = save-Sound id r' w (λ _ _. spent) s in
          record {
            in_memory = rw (c') t.in_memory;
            on_disk = rw (c') t.on_disk;
            written = rw (c') t.written;
            once = rw (c') t.once;
          }
      | inl here ↦
          let e = (eq_iff key id).0 here in
          let fresh : count_executions id w.executions ≡ 0 = ground (arith, own.1 (own.0 ∙ e)) in
          record {
            in_memory = now-Entry id _ r' w.runs (same ∙ own.0 ∙ e) spent;
            on_disk = now-Entry id _ r' w.disk (same ∙ own.0 ∙ e) spent;
            written = λ _.
                ground
                  (arith, lookup-insert r'.id id r' w.disk, (eq_iff r'.id id).1 (same ∙ own.0 ∙ e));
            once = ground (arith, c, fresh, here);
          }
    ]

begin_approve-Sound :
    (id : String) (max_age now : ℕ) (last : Option (Option ℕ)) (key : String) (c : Confirmation)
    (w : Orchestrator)
    → Sound w key
    → Sound w id
    → Sound (begin_approve max_age now last key c w).1 id
begin_approve-Sound id max_age now last key c w k s =
    go (begin_approve-Outcome max_age now last key c w)
  where
    go : {b : Begun} {w' : Orchestrator} → Outcome max_age now last key c w b w' → Sound w' id
    go (kept n) = s
    go (unconfirmed r e g) =
        let own = held w.runs key id _ _ r k.in_memory s.in_memory e in
        save-Sound id _ w (λ same n. absurd (ground (arith, own.1 same n))) s
    go (stale r e) = save-Sound id _ w (λ _ _. refl) s
    go (cleared x) =
        handed-Sound id key _ x.run _ w x.stored (ground (arith, x.waiting)) refl refl k s

apply-Sound :
    (id : String) (ev : Event) (w : Orchestrator)
    → Enabled ev w
    → ((key : String) → Sound w key)
    → Sound (apply ev w) id
unfolding apply
apply-Sound id (start key now) w en s = start-Sound id key now w en.1 (s id)
apply-Sound id (researched reader key started now a) w en s =
    researched-Sound id reader key started now a w en (s key) (s id)
apply-Sound id (approve max_age now last key c) w en s =
    begin_approve-Sound id max_age now last key c w (s key) (s id)
apply-Sound id (answered now p a key r) w en s = answered-Sound id now p a r w (s id)
apply-Sound id (refuse now key reason) w en s = reject-Sound id now key reason w (s id)
apply-Sound id (restart now ids) w en s = recover-Sound id now ids w s

pub Reachable-Sound : (id : String) {w : Orchestrator} → Reachable w → Sound w id
unfolding count_executions lookup
Reachable-Sound id nothing = record {
  in_memory = tt;
  on_disk = tt;
  written = λ n. absurd (omega (arith, n));
  once = omega arith;
}
Reachable-Sound id (next ev r en) = apply-Sound id ev _ en (λ key. Reachable-Sound key r)

-- Whatever the order of the events, with restarts among them, the signal of a run is given to the
-- pipeline at most once.
pub executed_at_most_once :
    (id : String) {w : Orchestrator} → Reachable w → count_executions id w.executions ≤ 1
executed_at_most_once id r = (Reachable-Sound id r).once
