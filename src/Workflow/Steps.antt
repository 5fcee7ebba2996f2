-- ===== src/Workflow/Steps.antt =====
-- The events but the first part of an approval: apps/server/src/orchestrator/orchestrator.ts.
use finance_agent_os.Base.{
  ℕ, ◌≤◌, ◌≡◌, refl, arith, true, String, ◌==◌, Option, none, some, List, [], ◌∷◌, Dict, lookup,
  insert, Result, ok, err, filter, not, Bool-cases, Option-cases, inl, inr, sym, ◌∙◌, values,
  lookup-empty, trim,
}
use Prim.Native.String
use finance_agent_os.Workflow.State.{
  running, awaiting_approval, completed, user_rejected, failed, WorkflowRun, Orchestrator, save,
  publish, is_running, is_awaiting, WorkflowStatus, RunError, invalid_proposal, risk_blocked,
  agent_failed, confirmation_mismatch, stale_data, interrupted, execution_rejected, pipeline_error,
  PipelineAnswer,
}
use finance_agent_os.Workflow.Proposal.{slice_text}
use finance_agent_os.Workflow.Start.{
  Reader, Answers, new_run, event_of, begin_run, finished_run, finish_run, proposed, reviewed,
  hydrate, clean_orphans,
}
use finance_agent_os.Workflow.Approve.{recorded, finish_approve, reject, recover}
use finance_agent_os.Workflow.Spent.{
  count_executions, Entry, is_spent, Sound, insert-Entry, save-Sound, reread, held,
}

finished_run-Keyed :
    (reader : Reader) (id : String) (started now : ℕ) (a : Answers)
    → (finished_run reader id started now a).id ≡ id
unfolding finished_run proposed reviewed
finished_run-Keyed reader id started now a = ground arith

pub start-Sound :
    (id key : String) (now : ℕ) (w : Orchestrator)
    → lookup key w.disk ≡ none
    → Sound w id
    → Sound (begin_run key now w) id
unfolding begin_run
start-Sound id key now w fresh s =
    let unknown : key ≡ id → 1 ≤ count_executions id w.executions → ⊥ =
      λ e n. ground (arith, s.written n) in
    reread refl refl refl (save-Sound id (new_run key now) w (λ e n. absurd (unknown e n)) s)

event_of-Sound :
    (id : String) (r : WorkflowRun) (w : Orchestrator) → Sound w id → Sound (event_of r w) id
event_of-Sound id r w s = go r.status r.error
  where
    go :
        (t : WorkflowStatus) (e : Option RunError)
        → Sound (event_of (record r { status = t; error = e }) w) id
    go running e = s
    go awaiting_approval e = reread refl refl refl s
    go completed e = s
    go user_rejected e = s
    go failed none = s
    go failed (some (agent_failed m)) = s
    go failed (some (invalid_proposal m)) = reread refl refl refl s
    go failed (some (risk_blocked m)) = reread refl refl refl s
    go failed (some confirmation_mismatch) = reread refl refl refl s
    go failed (some stale_data) = reread refl refl refl s
    go failed (some interrupted) = reread refl refl refl s
    go failed (some (execution_rejected m n)) = reread refl refl refl s
    go failed (some (pipeline_error m)) = reread refl refl refl s

pub researched-Sound :
    (id : String) (reader : Reader) (key : String) (started now : ℕ) (a : Answers)
    (w : Orchestrator)
    → lookup key w.runs ≡ some (new_run key started)
    → Sound w key
    → Sound w id
    → Sound (finish_run reader key started now a w) id
unfolding finish_run
researched-Sound id reader key started now a w at k s =
    let r = finished_run reader key started now a in
    event_of-Sound id r (save r w) (
      save-Sound id r w
        (λ e n.
          let unspent =
            (held w.runs key id _ _ (new_run key started) k.in_memory s.in_memory at).1
              (sym (finished_run-Keyed reader key started now a) ∙ e) n in
          absurd (ground arith))
        s)

recorded-Spent :
    (now : ℕ) (p : Option (Option String)) (a : Result String PipelineAnswer) (r : WorkflowRun)
    → is_spent (recorded now p a r) ≡ true
unfolding recorded
recorded-Spent now p (ok a) r = ground arith
recorded-Spent now p (err e) r = refl

pub answered-Sound :
    (id : String) (now : ℕ) (p : Option (Option String)) (a : Result String PipelineAnswer)
    (r : WorkflowRun) (w : Orchestrator)
    → Sound w id
    → Sound (finish_approve now p a r w) id
unfolding finish_approve
answered-Sound id now p a r w s = reread refl refl refl (
    save-Sound id (recorded now p a r) _ (λ e n. recorded-Spent now p a r)
      (reread {w' = record w { in_flight = filter (λ x. not (x == r.id)) w.in_flight }} refl refl
        refl s))

pub reject-Sound :
    (id : String) (now : ℕ) (key reason : String) (w : Orchestrator)
    → Sound w id
    → Sound (reject now key reason w).1 id
unfolding reject
reject-Sound id now key reason w s = elim (Option-cases (lookup key w.runs)) [
  | inl e ↦ rw (e, reject) s
  | inr (r, e) ↦ elim (Bool-cases (is_awaiting r.status)) [
    | inr b ↦ rw (e, reject, b) s
    | inl b ↦ elim (Bool-cases (slice_text 1000 (trim reason) == "")) [
      | inl c ↦ rw (e, reject, b, c) s
      | inr c ↦
          rw (e, reject, b, c)
            (reread refl refl refl (
              save-Sound id _
                (publish "audit.recorded" (String.◌++◌ (String.◌++◌ "audit-" r.id) "-rejected") w)
                (λ _ n. refl) (reread refl refl refl s)))
    ]
  ]
]

hydrate-Entry :
    (id : String) (n : ℕ) (ids : List String) (disk runs : Dict WorkflowRun)
    → ((key : String) (r : WorkflowRun)
        → lookup key disk ≡ some r
        → r.id ≡ id
        → 1 ≤ n
        → is_spent r ≡ true)
    → Entry id n (lookup id runs)
    → Entry id n (lookup id (hydrate ids disk runs))
unfolding hydrate
hydrate-Entry id n [] disk runs h e = e
hydrate-Entry id n (key ∷ ids) disk runs h e = elim (Option-cases (lookup key disk)) [
  | inl at ↦ rw (at, hydrate) (hydrate-Entry id n ids disk runs h e)
  | inr (r, at) ↦
      rw (at, hydrate)
        (hydrate-Entry id n ids disk (insert r.id r runs) h
          (insert-Entry id n r runs (h key r at) e))
]

clean-Sound :
    (id : String) (now : ℕ) (rs : List WorkflowRun) (w : Orchestrator)
    → Sound w id
    → Sound (clean_orphans now rs w) id
unfolding clean_orphans
clean-Sound id now [] w s = s
clean-Sound id now (r ∷ rs) w s = elim (Bool-cases (is_running r.status)) [
  | inl e ↦ rw (e, clean_orphans) (clean-Sound id now rs _ (save-Sound id _ w (λ e n. refl) s))
  | inr e ↦ rw (e, clean_orphans) (clean-Sound id now rs w s)
]

pub recover-Sound :
    (id : String) (now : ℕ) (ids : List String) (w : Orchestrator)
    → ((key : String) → Sound w key)
    → Sound (recover now ids w) id
unfolding recover
recover-Sound id now ids w s =
    let runs = hydrate ids w.disk [] in
    let t : Orchestrator = record w { runs = runs; in_flight = [] } in
    let spent : (key : String) (r : WorkflowRun)
        → lookup key w.disk ≡ some r
        → r.id ≡ id
        → 1 ≤ count_executions id w.executions
        → is_spent r ≡ true =
      λ key r at. (held w.disk key id _ _ r (s key).on_disk (s id).on_disk at).1 in
    let memory : Entry id (count_executions id w.executions) (lookup id runs) =
      hydrate-Entry id _ ids w.disk [] spent (rw (lookup-empty {V = WorkflowRun} id) tt) in
    clean-Sound id now (values runs) t (record {
      in_memory = memory;
      on_disk = (s id).on_disk;
      written = (s id).written;
      once = (s id).once;
    })
