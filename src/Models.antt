-- ===== src/Models.antt =====
-- app/models.py: the rows that the services read and write, and the database that holds them.
-- Uuids, digests and other identifiers are only compared, so they are numbers, and 0 is the empty
-- text. A date is a number of seconds. Money columns carry a CHECK >= 0 and are natural numbers.
mod Status
mod Rows
unfoldable pub use Status.*
unfoldable pub use Rows.*
use kunlun_model_gateway.Base.{List}

-- The tables, as one database transaction sees them.
pub record Db : Type 0 where
  pub users : List User
  pub access_sessions : List AccessSession
  pub email_tokens : List IdentityToken
  pub reset_tokens : List IdentityToken
  pub api_keys : List ApiKey
  pub wallets : List Wallet
  pub ledger : List LedgerTransaction
  pub orders : List PaymentOrder
  pub events : List PaymentWebhookEvent
  pub budgets : List Budget
  pub prices : List ModelPrice
  pub requests : List ModelRequest
  pub attempts : List ProviderAttempt
  pub outbox : List OutboxEvent
  pub refunds : List PaymentRefund
  pub audits : List SafetyAudit
  pub actions : List OperatorAction
