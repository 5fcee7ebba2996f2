-- ===== src/Order/Status.antt =====
-- The canonical order state machine: apps/server/src/order-manager/canonical.ts.
use finance_agent_os.Base.{ℕ, Bool, false, true, ◌||◌, List, [], ◌∷◌, String, eqb, ◌≡◌, ◌↔◌, arith}

pub data OrderSide : Type 0 where
  buy sell : OrderSide

pub data OrderType : Type 0 where
  market limit stop stop_limit : OrderType

pub data OrderStatus : Type 0 where
  created pending submitted partially_filled filled cancelled rejected failed : OrderStatus

pub data ExecutionMode : Type 0 where
  paper live : ExecutionMode

abbrev status_code : OrderStatus → ℕ
status_code created = 0
status_code pending = 1
status_code submitted = 2
status_code partially_filled = 3
status_code filled = 4
status_code cancelled = 5
status_code rejected = 6
status_code failed = 7

-- `===` on two statuses
unfoldable pub is_status : OrderStatus → OrderStatus → Bool
is_status s t = eqb (status_code s) (status_code t)

pub is_status_iff : (s t : OrderStatus) → (is_status s t ≡ true) ↔ (s ≡ t)
unfolding is_status
is_status_iff created t = ground arith
is_status_iff _ t = ground arith

-- VALID_TRANSITIONS
unfoldable pub valid_transitions : OrderStatus → List OrderStatus
valid_transitions created = pending ∷ cancelled ∷ rejected ∷ failed ∷ []
valid_transitions pending = submitted ∷ cancelled ∷ rejected ∷ failed ∷ []
valid_transitions submitted = partially_filled ∷ filled ∷ cancelled ∷ rejected ∷ failed ∷ []
valid_transitions partially_filled = partially_filled ∷ filled ∷ cancelled ∷ rejected ∷ failed ∷ []
valid_transitions filled = []
valid_transitions cancelled = []
valid_transitions rejected = []
valid_transitions failed = pending ∷ []

abbrev includes_status : List OrderStatus → OrderStatus → Bool
includes_status [] t = false
includes_status (s ∷ ss) t = is_status s t || includes_status ss t

unfoldable pub can_transition : OrderStatus → OrderStatus → Bool
unfolding valid_transitions is_status
can_transition from to = includes_status (valid_transitions from) to

unfoldable pub is_terminal : OrderStatus → Bool
unfolding is_status
is_terminal s = is_status s filled || is_status s cancelled || is_status s rejected

unfoldable pub is_open : OrderStatus → Bool
unfolding is_status
is_open s =
    is_status s created
    || is_status s pending
    || is_status s submitted
    || is_status s partially_filled
    || is_status s failed

-- `status.toLowerCase()`
unfoldable pub status_word : OrderStatus → String
status_word created = "created"
status_word pending = "pending"
status_word submitted = "submitted"
status_word partially_filled = "partially_filled"
status_word filled = "filled"
status_word cancelled = "cancelled"
status_word rejected = "rejected"
status_word failed = "failed"

unfoldable pub order_status_to_event : OrderStatus → String
order_status_to_event created = "order.created"
order_status_to_event pending = "order.pending"
order_status_to_event submitted = "order.submitted"
order_status_to_event partially_filled = "order.partially_filled"
order_status_to_event filled = "order.filled"
order_status_to_event cancelled = "order.cancelled"
order_status_to_event rejected = "order.rejected"
order_status_to_event failed = "order.failed"
