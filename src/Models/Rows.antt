-- ===== src/Models/Rows.antt =====
-- The rows of app/models.py, with the columns that the services read and write.
use kunlun_model_gateway.Base.{ℕ, Bool, Option, List}
use kunlun_model_gateway.Base.Int.{ℤ}
use kunlun_model_gateway.Models.Status.{
  AttemptStatus, BudgetStatus, EventStatus, KeyStatus, Kind, OrderStatus, RefundKey, RequestStatus,
  SafetyPhase, TargetType, Topic, UserStatus, LedgerKey, RefundStatus, RiskReason, SafetyOutcome,
  Account,
}

pub record User : Type 0 where
  pub id : ℕ
  pub email : ℕ
  pub password_hash : ℕ
  pub status : UserStatus
  pub email_verified_at : Option ℕ

pub record AccessSession : Type 0 where
  pub user_id : ℕ
  pub token_digest : ℕ
  pub expires_at : ℕ
  pub revoked : Bool

-- EmailVerificationToken and PasswordResetToken have the same columns.
pub record IdentityToken : Type 0 where
  pub id : ℕ
  pub user_id : ℕ
  pub token_digest : ℕ
  pub expires_at : ℕ
  pub consumed_at : Option ℕ

pub record ApiKey : Type 0 where
  pub id : ℕ
  pub user_id : ℕ
  pub secret_digest : ℕ
  pub status : KeyStatus
  pub revoked_at : Option ℕ

pub record Wallet : Type 0 where
  pub user_id : ℕ
  pub balance_microusd : ℕ
  pub reserved_microusd : ℕ

-- LedgerTransaction, with the LedgerEntry rows that its `transaction_id` joins to it.
pub record LedgerTransaction : Type 0 where
  pub user_id : ℕ
  pub kind : Kind
  pub reference : ℕ
  pub idempotency_key : LedgerKey
  pub entries : List (Account × ℤ)

pub record PaymentOrder : Type 0 where
  pub id : ℕ
  pub user_id : ℕ
  pub provider : ℕ
  pub credit_amount_microusd : ℕ
  pub payment_amount_minor : Option ℕ
  pub payment_currency : Option (List ℕ)
  pub quote_numerator : ℕ
  pub quote_denominator : ℕ
  pub quote_id : Option ℕ
  pub client_idempotency_key : Option ℕ
  pub status : OrderStatus
  pub provider_transaction_id : Option ℕ
  pub checkout_url : Option ℕ
  pub checkout_claim_started_at : Option ℕ
  pub reconciliation_claim_started_at : Option ℕ
  pub risk_reason : Option RiskReason
  pub paid_at : Option ℕ
  pub refunded_at : Option ℕ

pub record PaymentWebhookEvent : Type 0 where
  pub provider : ℕ
  pub event_id : ℕ
  pub nonce : ℕ
  pub order_id : ℕ
  pub raw_digest : ℕ
  pub status : EventStatus

pub record Budget : Type 0 where
  pub id : ℕ
  pub user_id : ℕ
  pub limit_microusd : ℕ
  pub reserved_microusd : ℕ
  pub spent_microusd : ℕ
  pub status : BudgetStatus
  pub period_start : ℕ
  pub period_end : ℕ
  pub created_at : ℕ

pub record ModelPrice : Type 0 where
  pub model : List ℕ
  pub version : ℕ
  pub input_microusd_per_million : ℕ
  pub output_microusd_per_million : ℕ
  pub max_output_tokens : ℕ
  pub active : Bool

pub record ModelRequest : Type 0 where
  pub id : ℕ
  pub user_id : ℕ
  pub api_key_id : ℕ
  pub budget_id : Option ℕ
  pub idempotency_key : Option ℕ
  pub requested_model : List ℕ
  pub final_model : Option (List ℕ)
  pub final_provider : Option ℕ
  pub status : RequestStatus
  pub price_version : ℕ
  pub input_price : ℕ
  pub output_price : ℕ
  pub reserved_microusd : ℕ
  pub charged_microusd : ℕ
  pub upstream_cost_microusd : ℕ
  pub input_tokens : ℕ
  pub output_tokens : ℕ
  pub usage_estimated : Bool
  pub fallback_count : ℕ
  pub failure_category : Option (List ℕ)
  pub created_at : ℕ
  pub completed_at : Option ℕ

pub record ProviderAttempt : Type 0 where
  pub request_id : ℕ
  pub ordinal : ℕ
  pub provider : ℕ
  pub status : AttemptStatus
  pub status_code : Option ℕ
  pub failure_category : Option (List ℕ)

pub record OutboxEvent : Type 0 where
  pub topic : Topic
  pub reference : ℕ

pub record PaymentRefund : Type 0 where
  pub id : ℕ
  pub order_id : ℕ
  pub user_id : ℕ
  pub provider_refund_id : Option ℕ
  pub idempotency_key : RefundKey
  pub payment_amount_minor : ℕ
  pub payment_currency : List ℕ
  pub credit_amount_microusd : ℕ
  pub status : RefundStatus
  pub risk_reason : Option RiskReason
  pub claim_started_at : ℕ
  pub completed_at : Option ℕ

pub record RateLimitCounter : Type 0 where
  pub api_key_id : ℕ
  pub window_epoch : ℕ
  pub count : ℕ

pub record AuthRateLimitCounter : Type 0 where
  pub subject_digest : ℕ
  pub action : ℕ
  pub window_epoch : ℕ
  pub count : ℕ

pub record SafetyAudit : Type 0 where
  pub id : ℕ
  pub user_id : ℕ
  pub api_key_id : ℕ
  pub request_id : Option ℕ
  pub phase : SafetyPhase
  pub outcome : SafetyOutcome
  pub reason_code : List ℕ
  pub decision_id : Option (List ℕ)
  pub policy_version : Option (List ℕ)

-- `scopes` is the text that the set of scopes is joined to.
pub record OperatorAction : Type 0 where
  pub id : ℕ
  pub request_id : Option ℕ
  pub target_type : TargetType
  pub target_id : ℕ
  pub action : List ℕ
  pub reason : List ℕ
  pub actor : List ℕ
  pub scopes : List ℕ
  pub token_id : List ℕ
  pub operation_id : ℕ
  pub source_ip_digest : ℕ
  pub before_status : List ℕ
  pub after_status : List ℕ
