-- ===== src/Workflow/Proposal.antt =====
-- `validateProposal`: apps/server/src/orchestrator/types.ts. Quantities and prices are in units of
-- 1e-9; a text has as many characters as code points.
use finance_agent_os.Base.{
  ℕ, zero, suc, ◌+◌, ◌*◌, ◌/◌, Bool, true, false, ◌&&◌, ◌||◌, String, ◌==◌, trim, to_upper, codes,
  Option, none, some, List, [], ◌∷◌, length, ltb, leb, Number, positive_finite, if◌then◌else◌,
  Result, ok, err,
}
use finance_agent_os.Order.Status.{OrderSide, buy, sell, OrderType, market, limit}
use finance_agent_os.Order.Data.{Given, missing, other, valid}

-- The fields of the object that the agent's text holds. A text field is `none` where it is absent or
-- no text.
pub record RawProposal : Type 0 where
  pub symbol : Option String
  pub side : Option String
  pub quantity : Number
  pub price : Number
  pub order_type : Given String
  pub rationale : Option String
  pub assumptions : Option String

pub record WorkflowProposal : Type 0 where
  pub symbol : String
  pub side : OrderSide
  pub quantity : ℕ
  pub price : ℕ
  pub order_type : OrderType
  pub rationale : String
  pub assumptions : Option String

pub data ProposalError : Type 0 where
  not_an_object bad_symbol bad_side bad_quantity large_quantity bad_price large_price :
      ProposalError
  bad_type short_rationale : ProposalError

-- `s.slice(0, n)`
unfoldable pub slice_text : ℕ → String → String
slice_text zero s = ""
slice_text (suc n) String.[] = ""
slice_text (suc n) (String.◌∷◌ c s) = String.◌∷◌ c (slice_text n s)

-- [A-Z0-9]
abbrev pub is_alnum : ℕ → Bool
is_alnum c = (leb b'A' c && leb c b'Z') || (leb b'0' c && leb c b'9')

abbrev pub all_alnum : List ℕ → Bool
all_alnum [] = true
all_alnum (c ∷ cs) = is_alnum c && all_alnum cs

-- /^[A-Z0-9]{2,20}$/
unfoldable pub is_proposal_symbol : String → Bool
unfolding codes
is_proposal_symbol s = let cs = codes s in all_alnum cs && leb 2 (length cs) && leb (length cs) 20

-- Caps of 10,000 and 10,000,000
abbrev pub quantity_cap : ℕ
quantity_cap = 10000 * 1000000000

abbrev pub price_cap : ℕ
price_cap = 10000000 * 1000000000

-- `Math.round(x * 1e8) / 1e8`
unfoldable pub round_8 : ℕ → ℕ
round_8 n = (n + 5) / 10 * 10

infixl 5 ◌>>=◌
abbrev ◌>>=◌ :
    {A B : Type 0} → Result ProposalError A → (A → Result ProposalError B) → Result ProposalError B
ok a >>= f = f a
err e >>= f = err e

infixl 5 ◌>>◌
abbrev ◌>>◌ :
    {B : Type 0} → Result ProposalError (Unit {0}) → Result ProposalError B → Result ProposalError B
m >> k = m >>= λ _. k

abbrev guard : Bool → ProposalError → Result ProposalError (Unit {0})
guard true e = ok tt
guard false e = err e

abbrev upper_of : Option String → String
upper_of none = ""
upper_of (some s) = to_upper (trim s)

abbrev side_of : Option String → Result ProposalError OrderSide
side_of none = err bad_side
side_of (some s) = if s == "buy" then ok buy else if s == "sell" then ok sell else err bad_side

abbrev capped : ProposalError → ProposalError → ℕ → Number → Result ProposalError ℕ
capped bad large cap n = elim (positive_finite n) [
  | none ↦ err bad
  | some q ↦ if ltb cap q then err large else ok q
]

abbrev type_of : Given String → Result ProposalError OrderType
type_of missing = ok market
type_of other = err bad_type
type_of (valid s) =
    if s == "market" then ok market else if s == "limit" then ok limit else err bad_type

abbrev rationale_of : Option String → Result ProposalError String
rationale_of none = err short_rationale
rationale_of (some s) =
    if leb 10 (length (codes (trim s))) then ok (slice_text 4000 (trim s)) else err short_rationale

abbrev sliced : Option String → Option String
sliced none = none
sliced (some s) = some (slice_text 4000 s)

unfoldable pub validate_proposal : Option RawProposal → Result ProposalError WorkflowProposal
unfolding is_proposal_symbol round_8
validate_proposal none = err not_an_object
validate_proposal (some p) = do
  let symbol = upper_of p.symbol
  guard (is_proposal_symbol symbol) bad_symbol
  side ← side_of p.side
  quantity ← capped bad_quantity large_quantity quantity_cap p.quantity
  price ← capped bad_price large_price price_cap p.price
  order_type ← type_of p.order_type
  rationale ← rationale_of p.rationale
  ok (record {
    symbol = symbol;
    side = side;
    quantity = round_8 quantity;
    price = round_8 price;
    order_type = order_type;
    rationale = rationale;
    assumptions = sliced p.assumptions;
  })
