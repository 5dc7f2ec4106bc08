-- ===== src/Lib.antt =====
-- A model of kunlun-model-gateway, a gateway that sells access to language models: it keeps prepaid
-- wallets, reserves the price of a request before it calls a provider, settles the metered usage
-- afterwards, and takes payments and refunds from payment providers. The model is a shallow embedding
-- of the Python services: a call is a function from its arguments and the database to a result.
--
-- The parts, and the code that each is about.
--   Base        shared notation: Boolean tests, integers over the native naturals (Int), errors as
--               values and rules to reason about calls (Result), tables and their sums (Table).
--   Models      the rows of app/models.py and the database Db that holds the tables.
--   Ledger      app/services/ledger.py, post_transaction. Ledger.Sums has the balance of an account,
--               Ledger.Post the journal invariant, Ledger.Accept when a posting is accepted, and
--               Ledger.Wallets the agreement of wallets with the journal.
--   Json        the values of Python's json module and json.dumps, for the estimates.
--   Pricing     estimate_tokens, input_token_reservation_upper_bound and token_cost of
--               app/services/gateway_billing.py. The quotient that token_cost rounds up is the
--               binary64 one: ceil_true_div rounds it to 53 bits, ties to even.
--   Budgets     app/services/budget.py.
--   Billing     app/services/gateway_billing.py: Reserve, Settle and Release are reserve_model_request,
--               settle_model_request, and release_model_request with mark_pending_reconciliation,
--               record_attempt and the sweeper of app/services/reconciliation_maintenance.py.
--               Billing.Invariant says what a sound database is.
--   Payments    app/services/payment_domain.py: Orders, Checkout, Webhook, Refunds and Risk are
--               create_order, prepare_checkout, apply_webhook, prepare_refund with apply_refund, and
--               resolve_refund_risk. Freeze is apply_user_freeze of app/services/identity.py, which a
--               refund that the balance does not cover calls.
--   Identity    the token and password part of app/services/identity.py.
--   RateLimits  the two counters of app/auth.py and app/services/rate_limit_maintenance.py.
--   Streaming   SSEUsageTracker of app/streaming.py.
--   Services    the steps that all services take on one database, and what every history keeps.
--   Providers   gateway.py and app/providers.py: a client of an upstream provider over an exchange, and
--               what exchange each of its failures stands for (Explained, Caution).
--   ContentSafety  the adapter of app/services/content_safety.py.
--   Edge        app/middleware.py: the limit on request bodies.
--   Operators   app/services/ops_tokens.py: Base64 and Tokens; and the operator routes of
--               app/__init__.py with their audit rows (Actions): Accounts, LivePayments, Refunds and
--               Reconcile are update_account_status, reconcile_live_payment, refund_live_payment
--               with dispose_refund_risk, and reconcile_request.
--   Access      app/auth.py: sessions, API keys and operators, with parse_api_key of app/security.py.
--   Gateway     chat_completions of app/__init__.py: Payload what is read from the request and sent to
--               the provider, Route the handler up to its loop, Turn one round of the loop over the
--               providers, Stream the generator forward_stream. Rule is the rule by which a property
--               of all rounds is proved; History, Closed, Answered and Failover apply it.
--   Tests       runs at concrete inputs.
--
-- How they interact. Billing and Payments write the same wallets and the same journal through
-- Ledger; a budget is replaced while requests hold on it; a refund freezes the account that Billing
-- checks; the response that Billing settles is the one that Streaming builds. The services meet in
-- Services, whose steps are the committed transactions. Gateway calls Billing for the hold and the
-- settlement, Providers for the answer and Streaming for the usage, each in a session of its own:
-- World.others is what other requests commit between two of them.
-- Operators closes what the gateway handed over, through Billing, and drives refunds and payments,
-- through Payments. Access says whose request it is.
--
-- How the code is translated.
--   A call returns `ok (value, database)` when it commits, and `err e` when it raises: its session is
--   then rolled back. Where the code commits and then raises, the outcome is a value
--   (CheckoutOutcome.expired, the Boolean of Identity.issue_email_verification).
--   Ids, digests and other opaque texts are numbers, and 0 is the empty text; texts that the code
--   looks into are lists of code points or bytes. Dates are seconds. The clock, uuids and random
--   tokens are arguments, and so are the two ends of month_bounds. Money columns have a CHECK >= 0
--   and are natural numbers; the amounts of the journal are integers.
--   A table is a list of rows. A unique constraint is tested where the row is flushed. The entries
--   of a ledger transaction are nested in it, where the code joins them by transaction_id. The format
--   strings of idempotency keys are constructors (LedgerKey, RefundKey): a client's refund key that is
--   spelled like the key of a webhook, which its pattern permits, is taken to differ from it.
--   Of rows that tie in an ORDER BY, the first is taken.
--   json.loads is a parameter of Streaming, and Python's text of a list or a dict a parameter of the
--   settlement; World.renders is whether JSONResponse can render an object. HMAC-SHA256 is a parameter
--   of Operators and Access. A payload that cannot be encoded as UTF-8 is refused by the reservation.
--   Transactions are serialized, and a row that is read again behind a lock is read once here. Where
--   the code locks the row it reads (users, keys, wallets, orders, refunds), the locks make it so. The
--   requests are read by settle_model_request, release_model_request and mark_pending_reconciliation
--   with session.get and no lock: that two of these do not interleave on one request is an assumption;
--   what the code has against a second settlement or release is the unique key of its posting. The race between SELECT and INSERT of the rate limits
--   is modelled, by what the SELECT has seen.
--
-- Bounds and fuel. Json.digits_from runs on the number plus one, more rounds than it has digits.
-- Pricing.exponent searches up to 2048, beyond the exponents of a binary64. Every other function is
-- structural.
--
-- Not modelled: HTTP routes other than chat completions and the operator routes, payment adapters,
-- captcha, client addresses, configuration, migrations and scripts, which are I/O or glue around
-- these services; overflow of BIGINT columns and of floats, where the code and the database raise and
-- the model goes on with the exact number; letters outside ASCII in the test for
-- capitals.
pub mod Base
pub mod Models
pub mod Ledger
pub mod Json
pub mod Pricing
pub mod Budgets
pub mod Billing
pub mod Payments
pub mod Identity
pub mod RateLimits
pub mod Streaming
pub mod Access
pub mod Edge
pub mod Providers
pub mod ContentSafety
pub mod Operators
pub mod Services
pub mod Gateway
mod Tests
