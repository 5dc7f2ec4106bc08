-- ===== src/Models/Status.antt =====
-- The status columns of app/models.py, the other columns with a fixed set of values, and the tests that
-- the services make on them.
use kunlun_model_gateway.Base.{ℕ, ◌≡◌, refl, Bool, true, false, List, [], ◌∷◌, ◌==◌, ◌||◌, arith}

pub data UserStatus : Type 0 where
  active frozen pending_email : UserStatus

pub data KeyStatus : Type 0 where
  active revoked : KeyStatus

pub data BudgetStatus : Type 0 where
  active superseded : BudgetStatus

pub data RequestStatus : Type 0 where
  reserved settled under_reserved failed pending_reconciliation reconciled_released : RequestStatus

pub data OrderStatus : Type 0 where
  pending checkout_requesting pending_reconciliation paid refunding refunded failed closed :
      OrderStatus

pub data RefundStatus : Type 0 where
  requesting retrying pending_reconciliation refunded risk resolved : RefundStatus

-- The accounts of app/services/ledger.py.
pub data Account : Type 0 where
  customer_available customer_reserved platform_clearing platform_revenue : Account
  platform_risk platform_loss platform_provider_expense platform_provider_payable : Account

pub data Kind : Type 0 where
  reserve settle release operator_release credit payment_credit : Kind
  payment_refund payment_refund_risk refund_risk_recover refund_risk_write_off : Kind

-- The idempotency keys of the ledger, by the format string that builds each.
pub data LedgerKey : Type 0 where
  model_reserve model_settle model_release : ℕ → LedgerKey
  payment_event : ℕ → ℕ → LedgerKey
  refund refund_risk : ℕ → LedgerKey
  refund_risk_disposition : ℕ → ℕ → LedgerKey

-- The idempotency key of a refund is the client's, or the one that a webhook event stands for.
pub data RefundKey : Type 0 where
  client : ℕ → RefundKey
  webhook : ℕ → ℕ → RefundKey

-- The statuses that a payment provider may answer with.
pub data BridgeStatus : Type 0 where
  pending paid failed refunded refunding closed : BridgeStatus

-- The reasons that are written as texts, and the format strings of those with a code or a status.
pub data RiskReason : Type 0 where
  checkout_claim_expired checkout_callback_before_response refund_balance_insufficient : RiskReason
  resolved_recovered resolved_written_off operator_reconciliation : RiskReason
  query_error refund_error error_code : ℕ → RiskReason
  query_status refund_status provider_status : BridgeStatus → RiskReason
  other : ℕ → RiskReason

pub data EventStatus : Type 0 where
  processed processed_duplicate : EventStatus

pub data AttemptStatus : Type 0 where
  stream_opened succeeded failed : AttemptStatus

pub data Topic : Type 0 where
  wallet_credited refund_completed refund_risk_resolved : Topic

pub data SafetyPhase : Type 0 where
  input output : SafetyPhase

pub data SafetyOutcome : Type 0 where
  allowed blocked unavailable : SafetyOutcome

pub data TargetType : Type 0 where
  user payment_order payment_refund model_request : TargetType

-- Tests that the services make on the status columns.
abbrev pub is_active_user : UserStatus → Bool
is_active_user UserStatus.active = true
is_active_user _ = false

abbrev pub is_active_key : KeyStatus → Bool
is_active_key KeyStatus.active = true
is_active_key KeyStatus.revoked = false

abbrev pub is_active_budget : BudgetStatus → Bool
is_active_budget BudgetStatus.active = true
is_active_budget BudgetStatus.superseded = false

abbrev request_code : RequestStatus → ℕ
request_code RequestStatus.reserved = 0
request_code RequestStatus.settled = 1
request_code RequestStatus.under_reserved = 2
request_code RequestStatus.failed = 3
request_code RequestStatus.pending_reconciliation = 4
request_code RequestStatus.reconciled_released = 5

-- `status == s`.
abbrev pub is_request : RequestStatus → RequestStatus → Bool
is_request s t = request_code s == request_code t

-- `status in allowed`.
abbrev pub is_among : RequestStatus → List RequestStatus → Bool
is_among s [] = false
is_among s (t ∷ ts) = is_request s t || is_among s ts

-- A request in one of these states still holds its reservation.
abbrev pub holds : RequestStatus → Bool
holds RequestStatus.reserved = true
holds RequestStatus.pending_reconciliation = true
holds _ = false

abbrev pub same_text : List ℕ → List ℕ → Bool
same_text [] [] = true
same_text (a ∷ s) (b ∷ t) = elim (a == b) [ true ↦ same_text s t | false ↦ false ]
same_text [] (b ∷ t) = false
same_text (a ∷ s) [] = false

pub same_text_refl : (s : List ℕ) → same_text s s ≡ true
same_text_refl [] = refl
same_text_refl (c ∷ s) = ground (arith, same_text_refl s)

pub same_text-eq : (s t : List ℕ) → same_text s t ≡ true → s ≡ t
same_text-eq [] [] e = refl
same_text-eq [] (d ∷ t) e = absurd (cc)
same_text-eq (c ∷ s) [] e = absurd (cc)
same_text-eq (c ∷ s) (d ∷ t) e = ground (arith, same_text-eq s t)
