-- ===== src/Approvals/Service.antt =====
-- The approval service: apps/server/src/approvals/approval-service.ts and types.ts. Quantities,
-- prices and confidences are in fixed units; a result of the pipeline is an opaque text.
use Prim.Native.String.{◌++◌}
use finance_agent_os.Base.{
  ℕ, ◌+◌, ℤ, Bool, true, false, ◌||◌, ◌&&◌, not, String, Option, none, some, List, [], ◌∷◌, Dict,
  lookup, insert, values, filter, ltb, leb, eqb, or_default, if◌then◌else◌, Result, ok, err,
}
use mathlib.Core.List
use finance_agent_os.Order.Status.{OrderSide}

pub data ProposalStatus : Type 0 where
  pending approved rejected expired failed : ProposalStatus

abbrev status_code : ProposalStatus → ℕ
status_code pending = 0
status_code approved = 1
status_code rejected = 2
status_code expired = 3
status_code failed = 4

abbrev pub has_status : ProposalStatus → ProposalStatus → Bool
has_status a b = eqb (status_code a) (status_code b)

pub record ProposeInput : Type 0 where
  pub symbol : String
  pub side : OrderSide
  pub quantity : ℤ
  pub price : ℤ
  pub confidence : Option ℤ
  pub reason : Option String
  pub strategy : Option String
  pub signal_id : Option String
  pub thread_id : Option String
  pub plan_id : Option String
  pub ttl_ms : Option ℕ

pub record TradeProposal : Type 0 where
  pub id : String
  pub input : ProposeInput
  pub status : ProposalStatus
  pub created_at : ℕ
  pub expires_at : ℕ
  pub decided_at : Option ℕ
  pub result : Option String

pub data ApprovalError : Type 0 where
  not_found not_pending expired_error no_pipeline : ApprovalError
  execution : String → ApprovalError

pub data ApprovalEvent : Type 0 where
  proposal_created proposal_expired proposal_approved : TradeProposal → ApprovalEvent
  proposal_failed : String → String → ApprovalEvent
  proposal_rejected : TradeProposal → String → ApprovalEvent

pub record ApprovalService : Type 0 where
  pub proposals : Dict TradeProposal
  pub next_id : ℕ
  pub always : Bool
  pub live : Bool
  pub ttl_ms : ℕ
  pub started : Bool
  pub published : List ApprovalEvent

abbrev pub is_gating : ApprovalService → Bool
is_gating s = s.always || s.live

abbrev pub publish : ApprovalEvent → ApprovalService → ApprovalService
publish e s = record s { published = List.◌++◌ s.published (e ∷ []) }

abbrev pub start : ApprovalService → ApprovalService
start s = record s { started = true }

abbrev pub stop : ApprovalService → ApprovalService
stop s = record s { started = false }

-- Whether `sweep` expires the proposal.
abbrev pub is_due : ℕ → TradeProposal → Bool
is_due now p = has_status p.status pending && leb p.expires_at now

abbrev pub expire : ℕ → TradeProposal → TradeProposal
expire now p = record p { status = expired; decided_at = some now }

abbrev pub swept : ℕ → TradeProposal → TradeProposal
swept now p = if is_due now p then expire now p else p

unfoldable pub sweep_all : ℕ → Dict TradeProposal → Dict TradeProposal
sweep_all now [] = []
sweep_all now ((id, p) ∷ m) = (id, swept now p) ∷ sweep_all now m

unfoldable pub expiries : ℕ → List TradeProposal → List ApprovalEvent
expiries now [] = []
expiries now (p ∷ ps) =
    let rest = expiries now ps in
    if is_due now p then proposal_expired (expire now p) ∷ rest else rest

unfoldable pub sweep : ℕ → ApprovalService → ApprovalService
unfolding sweep_all expiries
sweep now s = record s {
  proposals = sweep_all now s.proposals;
  published = List.◌++◌ s.published (expiries now (values s.proposals));
}

-- `propose`; `show` prints a number in decimal.
unfoldable pub propose :
    (ℕ → String) → ℕ → ProposeInput → ApprovalService → TradeProposal × ApprovalService
propose show now input s =
    let proposal : TradeProposal = record {
      id = "prop-" ++ show now ++ "-" ++ show (s.next_id + 1);
      input = input;
      status = pending;
      created_at = now;
      expires_at = now + or_default input.ttl_ms s.ttl_ms;
      decided_at = none;
      result = none;
    } in
    (
      proposal,
      publish (proposal_created proposal) (record s {
        next_id = s.next_id + 1;
        proposals = insert proposal.id proposal s.proposals;
      }),
    )

unfoldable pub get : ℕ → String → ApprovalService → Option TradeProposal × ApprovalService
get now id s = let s' = sweep now s in (lookup id s'.proposals, s')

unfoldable pub list :
    ℕ → Option ProposalStatus → ApprovalService → List TradeProposal × ApprovalService
list now status s =
    let s' = sweep now s in
    (
      elim status [
        | none ↦ values s'.proposals
        | some st ↦ filter (λ p. has_status p.status st) (values s'.proposals)
      ],
      s',
    )

abbrev put : TradeProposal → ApprovalService → ApprovalService
put p s = record s { proposals = insert p.id p s.proposals }

-- What the factory makes, as `approve` reads it: an executor, a promise of one, a promise of a
-- result or of nothing, or something else.
pub data Produced : Type 0 where
  executor promised_executor promised_nothing unusable : Produced
  promised_result : String → Produced

-- The part of `approve` in front of its first `await`: the sweep at `swept_at`, and the checks with
-- the clock at `now`. It ends with the proposal to execute.
unfoldable pub begin_approve :
    ℕ
    → ℕ
    → String
    → Option Produced
    → ApprovalService
    → Result ApprovalError TradeProposal × ApprovalService
begin_approve swept_at now id pipeline s =
    let s' = sweep swept_at s in
    elim (lookup id s'.proposals) [
      | none ↦ (err not_found, s')
      | some p ↦
          if has_status p.status expired
          then (err expired_error, s')
          else if not (has_status p.status pending)
          then (err not_pending, s')
          else if ltb p.expires_at now
          then (
            err expired_error,
            publish (proposal_expired (expire now p)) (put (expire now p) s'),
          )
          else elim pipeline [
            | none ↦ (err no_pipeline, s')
            | some unusable ↦ (err no_pipeline, s')
            | some promised_nothing ↦ (err no_pipeline, s')
            | some executor ↦ (ok p, s')
            | some promised_executor ↦ (ok p, s')
            | some (promised_result r) ↦ (ok p, s')
          ]
    ]

-- What the executor may throw: an `ApprovalError`, or another error with a message.
pub data Thrown : Type 0 where
  approval_error : ApprovalError → Thrown
  other_error : String → Thrown

-- The part behind the `await`, on the object that the first part found: `outcome` is the
-- executor's result, or what it throws.
unfoldable pub finish_approve :
    ℕ
    → String
    → Result Thrown String
    → ApprovalService
    → Result ApprovalError TradeProposal × ApprovalService
finish_approve now id outcome s = elim (lookup id s.proposals) [
  | none ↦ (err not_found, s)
  | some p ↦ elim outcome [
    | err (approval_error e) ↦ (err e, s)
    | err (other_error message) ↦ (
      err (execution message),
      publish (proposal_failed p.id message)
          (put (record p { status = failed; decided_at = some now }) s),
    )
    | ok r ↦
        let p' : TradeProposal = record p {
          status = approved;
          decided_at = some now;
          result = some r;
        } in
        (ok p', publish (proposal_approved p') (put p' s))
  ]
]

-- `approve` with nothing in between.
unfoldable pub approve :
    ℕ
    → ℕ
    → String
    → Option Produced
    → Result Thrown String
    → ApprovalService
    → Result ApprovalError TradeProposal × ApprovalService
unfolding begin_approve finish_approve
approve started_at ended id pipeline outcome s =
    let (r, s') = begin_approve started_at started_at id pipeline s in
    elim r [ err e ↦ (err e, s') | ok p ↦ finish_approve ended id outcome s' ]

unfoldable pub reject :
    ℕ
    → String
    → Option String
    → ApprovalService
    → Result ApprovalError TradeProposal × ApprovalService
reject now id reason s =
    let s' = sweep now s in
    elim (lookup id s'.proposals) [
      | none ↦ (err not_found, s')
      | some p ↦
          if not (has_status p.status pending)
          then (err not_pending, s')
          else let p' : TradeProposal = record p { status = rejected; decided_at = some now } in
            (
              ok p',
              publish (proposal_rejected p' (or_default reason "rejected by user")) (put p' s'),
            )
    ]
