-- ===== src/Workflow/Spent.antt =====
-- Runs that were given to the pipeline: apps/server/src/orchestrator/orchestrator.ts.
use finance_agent_os.Base.{
  ℕ, ◌+◌, ◌≤◌, ◌≡◌, arith, Bool, true, false, String, ◌==◌, eq_iff, Option, none, some, is_some,
  List, [], ◌∷◌, Dict, lookup, insert, lookup-insert, if◌then◌else◌, Bool-cases, inl, inr, subst,
  sym, ap, ◌∙◌,
}
use finance_agent_os.Pipeline.Signal.{RawSignal}
use finance_agent_os.Workflow.State.{
  running, awaiting_approval, completed, user_rejected, failed, research, proposal, risk_review,
  approval, paper_execution, portfolio_update, audit_record, done, WorkflowStage, WorkflowRun,
  Orchestrator, save,
}

-- How often the run's signal was given to the pipeline.
unfoldable pub count_executions : String → List (String × RawSignal) → ℕ
count_executions id [] = 0
count_executions id ((own, s) ∷ rest) =
    let n = count_executions id rest in if own == id then n + 1 else n

abbrev is_paper : WorkflowStage → Bool
is_paper s = elim s [
  | research ↦ false
  | proposal ↦ false
  | risk_review ↦ false
  | approval ↦ false
  | paper_execution ↦ true
  | portfolio_update ↦ false
  | audit_record ↦ false
  | done ↦ false
]

-- The run can no longer be approved, nor come to wait for an approval.
abbrev pub is_spent : WorkflowRun → Bool
is_spent r = elim r.status [
  | running ↦ is_paper r.stage
  | awaiting_approval ↦ false
  | completed ↦ true
  | user_rejected ↦ true
  | failed ↦ true
]

abbrev pub Entry : String → ℕ → Option WorkflowRun → Type 0
Entry id n none = Unit
Entry id n (some r) = (r.id ≡ id) × (1 ≤ n → is_spent r ≡ true)

pub record Sound (w : Orchestrator) (id : String) : Type 0 where
  pub in_memory : Entry id (count_executions id w.executions) (lookup id w.runs)
  pub on_disk : Entry id (count_executions id w.executions) (lookup id w.disk)
  pub written : 1 ≤ count_executions id w.executions → is_some (lookup id w.disk) ≡ true
  pub once : count_executions id w.executions ≤ 1

pub insert-Entry :
    (id : String) (n : ℕ) (r : WorkflowRun) (m : Dict WorkflowRun)
    → (r.id ≡ id → 1 ≤ n → is_spent r ≡ true)
    → Entry id n (lookup id m)
    → Entry id n (lookup id (insert r.id r m))
insert-Entry id n r m h e = rw (lookup-insert r.id id r m) (elim (Bool-cases (r.id == id)) [
  | inl same ↦ rw (same) ((eq_iff r.id id).0 same, h ((eq_iff r.id id).0 same))
  | inr differs ↦ rw (differs) e
])

pub save-Sound :
    (id : String) (r : WorkflowRun) (w : Orchestrator)
    → (r.id ≡ id → 1 ≤ count_executions id w.executions → is_spent r ≡ true)
    → Sound w id
    → Sound (save r w) id
save-Sound id r w h s = record {
  in_memory = insert-Entry id _ r w.runs h s.in_memory;
  on_disk = insert-Entry id _ r w.disk h s.on_disk;
  written = λ n. ground (arith, s.written n, lookup-insert r.id id r w.disk);
  once = s.once;
}

-- What `Sound` reads is the same in both.
pub reread :
    {w w' : Orchestrator} {id : String}
    → w'.runs ≡ w.runs
    → w'.disk ≡ w.disk
    → w'.executions ≡ w.executions
    → Sound w id
    → Sound w' id
reread r d e s = record {
  in_memory = rw (r, e) s.in_memory;
  on_disk = rw (d, e) s.on_disk;
  written = rw (d, e) s.written;
  once = rw (e) s.once;
}

-- What a store holds under a key.
pub held :
    (m : Dict WorkflowRun) (key id : String) (k n : ℕ) (r : WorkflowRun)
    → Entry key k (lookup key m)
    → Entry id n (lookup id m)
    → lookup key m ≡ some r
    → (r.id ≡ key) × (r.id ≡ id → 1 ≤ n → is_spent r ≡ true)
held m key id k n r ek ei at =
    let e : Entry key k (some r) = subst (Entry key k) at ek in
    (
      e.0,
      λ same more.
          let here = ap (λ x. lookup x m) (sym same ∙ e.0) ∙ at in
          let f : Entry id n (some r) = subst (Entry id n) here ei in f.1 more,
    )
