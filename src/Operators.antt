-- ===== src/Operators.antt =====
-- The operator plane: tokens of app/services/ops_tokens.py, and the routes that they open.
pub mod Base64
pub mod Tokens
pub mod Actions
pub mod Audited
pub mod Reconcile
pub mod Accounts
pub mod LivePayments
pub mod Refunds
pub mod Sound
