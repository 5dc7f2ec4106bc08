-- ===== src/Payments.antt =====
-- app/services/payment_domain.py: orders, checkouts, webhooks and refunds, with the account freeze
-- of app/services/identity.py that a refund shortfall triggers.
mod Rows
pub mod Money
pub mod Orders
pub mod Checkout
pub mod Freeze
pub mod Refunds
pub mod Webhook
pub mod Risk
pub mod Neutral
unfoldable pub use Rows.*
