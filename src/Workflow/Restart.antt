-- ===== src/Workflow/Restart.antt =====
-- Runs behind a restart of the server: apps/server/src/orchestrator/orchestrator.ts.
use finance_agent_os.Base.{
  ℕ, ◌≡◌, refl, sym, ap, ◌∙◌, arith, true, String, ◌==◌, eq_iff, includes, none, some, Option-cases,
  Bool-cases, ◌⊎◌, inl, inr, List, [], ◌∷◌, All, Any, Dict, lookup, insert, lookup-insert, values,
  if◌then◌else◌, subst,
}
use finance_agent_os.Workflow.State.{WorkflowRun, Orchestrator, failed, interrupted, is_running}
use finance_agent_os.Workflow.Start.{hydrate, clean_orphans}
use finance_agent_os.Workflow.Approve.{recover}
use finance_agent_os.Workflow.Events.{Reachable}
use finance_agent_os.Workflow.Spent.{Entry}
use finance_agent_os.Workflow.Once.{Reachable-Sound}
use finance_agent_os.Workflow.Caps.{hydrate-All}

-- The run as a restart leaves it.
abbrev pub settled : ℕ → WorkflowRun → WorkflowRun
settled now r =
    if is_running r.status
    then record r { status = failed; error = some interrupted; updated_at = now }
    else r

stored_id :
    (key : String) (n : ℕ) (x : WorkflowRun) (m : Dict WorkflowRun)
    → Entry key n (lookup key m)
    → lookup key m ≡ some x
    → x.id ≡ key
stored_id key n x m e at = let f : Entry key n (some x) = subst (Entry key n) at e in f.0

lookup-Any :
    (key : String) (r : WorkflowRun) (m : Dict WorkflowRun)
    → lookup key m ≡ some r
    → Any (λ x. x ≡ r) (values m)
unfolding lookup
lookup-Any key r [] e = absurd (ground arith)
lookup-Any key r ((own, old) ∷ m) e = elim (Bool-cases (own == key)) [
  | inl s ↦ inl (ground (arith, s))
  | inr d ↦ inr (lookup-Any key r m (ground (arith, d)))
]

module _ (id : String) (now : ℕ) (r : WorkflowRun) where
  -- No other run has the id.
  abbrev Only : WorkflowRun → Type 0
  Only x = x.id ≡ id → x ≡ r

  stopped :
      (x : WorkflowRun)
      → is_running x.status ≡ true
      → x ≡ r
      → some (record x { status = failed; error = some interrupted; updated_at = now })
        ≡ some (settled now r)
  stopped x t e =
      subst
        (λ y.
          some (record x { status = failed; error = some interrupted; updated_at = now })
          ≡ some (settled now y))
        e (rw (t) refl)

  clean_orphans-Settled :
      (rs : List WorkflowRun) (w : Orchestrator)
      → r.id ≡ id
      → All Only rs
      → (lookup id w.runs ≡ some (settled now r))
        ⊎ ((is_running r.status ≡ true) × Any (λ x. x ≡ r) rs)
      → lookup id (clean_orphans now rs w).runs ≡ some (settled now r)
  unfolding clean_orphans
  clean_orphans-Settled [] w k a (inl e) = e
  clean_orphans-Settled [] w k a (inr (t, m)) = absurd m
  clean_orphans-Settled (x ∷ rs) w k (o, a) d = elim (Bool-cases (is_running x.status)) [
    | inl t ↦
        rw (t, clean_orphans)
          (clean_orphans-Settled rs _ k a (elim (Bool-cases (x.id == id)) [
            | inl s ↦
                inl
                  (rw (lookup-insert x.id id _ w.runs, s) (stopped x t (o ((eq_iff x.id id).0 s))))
            | inr s ↦ elim d [
              | inl e ↦ inl (rw (lookup-insert x.id id _ w.runs, s) e)
              | inr (u, inl e) ↦
                  absurd (ground (arith, s, (eq_iff x.id id).1 (ap (λ y. y.id) e ∙ k)))
              | inr (u, inr m) ↦ inr (u, m)
            ]
          ]))
    | inr t ↦
        rw (t, clean_orphans)
          (clean_orphans-Settled rs w k a (elim d [
            | inl e ↦ inl e
            | inr (u, inl e) ↦ absurd (ground (arith, t, u, ap (λ y. is_running y.status) e))
            | inr (u, inr m) ↦ inr (u, m)
          ]))
  ]

  absent :
      (key : String) (ids : List String) (disk runs : Dict WorkflowRun)
      → lookup id disk ≡ some r
      → lookup key disk ≡ none
      → (includes (key ∷ ids) id ≡ true) ⊎ (lookup id runs ≡ some r)
      → (includes ids id ≡ true) ⊎ (lookup id runs ≡ some r)
  absent key ids disk runs at e (inr m) = inr m
  absent key ids disk runs at e (inl h) = elim (Bool-cases (key == id)) [
    | inl s ↦
        absurd (ground (arith, sym at ∙ ap (λ y. lookup y disk) (sym ((eq_iff key id).0 s)) ∙ e))
    | inr s ↦ inl (ground (arith, s, h))
  ]

  present :
      (key : String) (x : WorkflowRun) (ids : List String) (disk runs : Dict WorkflowRun)
      → lookup id disk ≡ some r
      → r.id ≡ id
      → ((key : String) (x : WorkflowRun) → lookup key disk ≡ some x → Only x)
      → lookup key disk ≡ some x
      → (includes (key ∷ ids) id ≡ true) ⊎ (lookup id runs ≡ some r)
      → (includes ids id ≡ true) ⊎ (lookup id (insert x.id x runs) ≡ some r)
  present key x ids disk runs at k o e d = elim (Bool-cases (x.id == id)) [
    | inl s ↦
        inr (rw (lookup-insert x.id id x runs, s) (ap some (o key x e ((eq_iff x.id id).0 s))))
    | inr s ↦ elim d [
      | inr m ↦ inr (rw (lookup-insert x.id id x runs, s) m)
      | inl h ↦ elim (Bool-cases (key == id)) [
        | inr t ↦ inl (ground (arith, t, h))
        | inl t ↦
            let f = sym e ∙ ap (λ y. lookup y disk) ((eq_iff key id).0 t) ∙ at in
            absurd (ground (arith, s, f, k, (eq_iff x.id id).1))
      ]
    ]
  ]

  hydrate-lookup :
      (ids : List String) (disk runs : Dict WorkflowRun)
      → lookup id disk ≡ some r
      → r.id ≡ id
      → ((key : String) (x : WorkflowRun) → lookup key disk ≡ some x → Only x)
      → (includes ids id ≡ true) ⊎ (lookup id runs ≡ some r)
      → lookup id (hydrate ids disk runs) ≡ some r
  unfolding hydrate
  hydrate-lookup [] disk runs at k o (inl h) = absurd (ground (arith, h))
  hydrate-lookup [] disk runs at k o (inr e) = e
  hydrate-lookup (key ∷ ids) disk runs at k o d = elim (Option-cases (lookup key disk)) [
    | inl e ↦
        rw (e, hydrate) (hydrate-lookup ids disk runs at k o (absent key ids disk runs at e d))
    | inr (x, e) ↦
        rw (e, hydrate) (hydrate-lookup ids disk _ at k o (present key x ids disk runs at k o e d))
  ]

-- A restart whose index names a run on the disk leaves it in memory as it was, or as failed where it
-- was running.
pub recover-settled :
    {w : Orchestrator} (id : String) (now : ℕ) (ids : List String) (r : WorkflowRun)
    → Reachable w
    → lookup id w.disk ≡ some r
    → includes ids id ≡ true
    → lookup id (recover now ids w).runs ≡ some (settled now r)
unfolding recover
recover-settled {w} id now ids r reach at listed =
    let own : (key : String) (x : WorkflowRun) → lookup key w.disk ≡ some x → x.id ≡ key =
      λ key x e. stored_id key _ x w.disk (Reachable-Sound key reach).on_disk e in
    let k = own id r at in
    let only : (key : String) (x : WorkflowRun) → lookup key w.disk ≡ some x → x.id ≡ id → x ≡ r =
      λ key x e h.
        let f = sym e ∙ ap (λ y. lookup y w.disk) (sym (own key x e) ∙ h) ∙ at in
        ground (arith, f) in
    let runs = hydrate ids w.disk [] in
    let here = hydrate-lookup id now r ids w.disk [] at k only (inl listed) in
    let t : Orchestrator = record w { runs = runs; in_flight = [] } in
    let all = hydrate-All (Only id now r) ids w.disk [] only tt in
    clean_orphans-Settled id now r (values runs) t k all (elim (Bool-cases (is_running r.status)) [
      | inl u ↦ inr (u, lookup-Any id r runs here)
      | inr u ↦ inl (rw (here, u) refl)
    ])
