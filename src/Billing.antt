-- ===== src/Billing.antt =====
-- app/services/gateway_billing.py: pre-authorization, settlement and release of model requests.
-- Reserve, Settle and Release model the service; Holds and BudgetHolds say what open requests hold
-- on wallets and budgets, and Invariant puts that and the journal together.
pub mod Holds
pub mod BudgetHolds
pub mod Invariant
pub mod Reserve
pub mod Settle
pub mod Release
pub mod Books
pub mod Once
pub mod Unreserved
pub mod NewBudget
pub mod Covers
