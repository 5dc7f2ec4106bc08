-- ===== src/Tests.antt =====
-- Runs of the model at concrete inputs, and the theorems at inputs that meet their hypotheses.
mod Data
mod Billing
mod Closing
mod Orders
mod Payments
mod Refunds
mod Access
mod Stream
mod Gateway
mod Operators
mod Routes
mod Edge
