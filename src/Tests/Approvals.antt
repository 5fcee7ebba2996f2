-- ===== src/Tests/Approvals.antt =====
-- Runs of the approval queue.
use finance_agent_os.Base.{
  ◌≡◌, refl, ◌==◌, lookup, insert, lookup-insert, eq_iff, if◌then◌else◌, none, some, [], ◌∷◌, pos,
  arith, false, true, ok,
}
use finance_agent_os.Order.Status.{buy}
use finance_agent_os.Approvals.Service.{TradeProposal, ApprovalService, pending, rejected, executor}
use finance_agent_os.Approvals.Decisions.{Keyed, Call, accept, look, call}
use finance_agent_os.Approvals.Final.{here, step, decision_final}

abbrev proposal : TradeProposal
proposal = record {
  id = "p1";
  input = record {
    symbol = "BTCUSDT";
    side = buy;
    quantity = pos 5;
    price = pos 100;
    confidence = none;
    reason = none;
    strategy = none;
    signal_id = none;
    thread_id = none;
    plan_id = none;
    ttl_ms = none;
  };
  status = pending;
  created_at = 10;
  expires_at = 310;
  decided_at = none;
  result = none;
}

abbrev queue : ApprovalService
queue = record {
  proposals = ("p1", proposal) ∷ [];
  next_id = 1;
  always = true;
  live = false;
  ttl_ms = 300;
  started = true;
  published = [];
}

-- The proposal, already rejected.
abbrev refused_queue : ApprovalService
refused_queue = record queue {
  proposals = ("p1", record proposal { status = rejected; decided_at = some 15 }) ∷ [];
}

refused_queue-Keyed : Keyed refused_queue
unfolding lookup insert
refused_queue-Keyed id p h =
    by_insert
      (lookup-insert "p1" id (record proposal { status = rejected; decided_at = some 15 }) [])
  where
    by_insert :
        lookup id refused_queue.proposals ≡ (
          if "p1" == id
          then some (record proposal { status = rejected; decided_at = some 15 })
          else none)
        → p.id ≡ id
    by_insert e = ground (arith, eq_iff "p1" id)

-- An approval of it, and a look at the queue long after its expiry.
abbrev late_approval : Call
late_approval = accept 20 25 "p1" (some executor) (ok "done")

decision_final_example :
    (lookup "p1" (call (look 900) (call late_approval refused_queue)).proposals
      ≡ some (record proposal { status = rejected; decided_at = some 15 }))
    × Keyed (call (look 900) (call late_approval refused_queue))
unfolding lookup
decision_final_example =
    decision_final "p1" (record proposal { status = rejected; decided_at = some 15 })
      (step (look 900) (step late_approval (here refused_queue) tt) tt) refused_queue-Keyed refl
      refl
