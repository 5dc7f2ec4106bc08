-- ===== src/Billing/Once.antt =====
-- A closed request stays closed: app/services/gateway_billing.py settles or releases it at most
-- once, in whatever order the calls arrive.
use kunlun_model_gateway.Base.{ℕ, ◌≡◌, refl, true, false, Bool, some}
use kunlun_model_gateway.Base.Result.{
  ok, err, billing, Ensures, Ensures-ok, Ensures-bind, Ensures-guard, Ensures-require,
}
use kunlun_model_gateway.Base.Table.{find, find-put_self}
use kunlun_model_gateway.Models.{Db, ModelRequest, holds, is_among}
use kunlun_model_gateway.Billing.Holds.{request_key}
use kunlun_model_gateway.Billing.Invariant.{AllHold, not_among}
use kunlun_model_gateway.Billing.Settle.{SettleCall, settle_model_request, settled_request}
use kunlun_model_gateway.Billing.Settle.Outcome.{
  refused, settled_closed, usage_of, cost_of, settle_model_request-Settled,
}
use kunlun_model_gateway.Billing.Release.{
  ReleaseCall, release_found, release_model_request, release_open, released_request,
}

-- Releasing a closed request is a no-op.
release-closed :
    (q : ReleaseCall) (db : Db) (r : ModelRequest)
    → find request_key q.request_id db.requests ≡ some r
    → AllHold q.allowed_statuses
    → holds r.status ≡ false
    → release_model_request q db ≡ ok db
unfolding release_model_request release_found
release-closed q db r there allowed closed =
    rw (there, not_among r.status q.allowed_statuses allowed closed)

-- Settling a closed request is refused.
settle-closed :
    (q : SettleCall) (db : Db) (r : ModelRequest)
    → find request_key q.request_id db.requests ≡ some r
    → AllHold q.allowed_statuses
    → holds r.status ≡ false
    → settle_model_request q db ≡ err (billing 409)
settle-closed q db r there allowed closed =
    refused q db r there (not_among r.status q.allowed_statuses allowed closed)

release_open-written :
    (q : ReleaseCall) (r : ModelRequest) (db : Db)
    → find request_key q.request_id db.requests ≡ some r
    → Ensures
        (λ (db' : Db). find request_key q.request_id db'.requests ≡ some (released_request q r))
        (release_open q r db)
unfolding release_open
release_open-written q r db there = Ensures-require _ _ _ λ wallet _. Ensures-guard _ _ _ λ _.
    Ensures-bind _ _ λ budgets _. Ensures-bind _ _ λ ledger _.
      Ensures-ok _
        (find-put_self request_key (released_request q r) r q.request_id db.requests there refl)

pub release-written :
    (q : ReleaseCall) (r : ModelRequest) (db db' : Db)
    → find request_key q.request_id db.requests ≡ some r
    → is_among r.status q.allowed_statuses ≡ true
    → release_model_request q db ≡ ok db'
    → find request_key q.request_id db'.requests ≡ some (released_request q r)
unfolding release_model_request release_found
release-written q r db db' there among e =
    (release_open-written q r db there).returned db' (rw (there, among) at e)

-- After a settlement, every later release of the request does nothing and every later settlement
-- of it is refused with a 409, whatever open statuses these calls allow.
pub settle-then-closed :
    (q again : SettleCall) (undo : ReleaseCall) (db : Db) (result : ℕ × Bool) (db' : Db)
    → again.request_id ≡ q.request_id
    → undo.request_id ≡ q.request_id
    → AllHold again.allowed_statuses
    → AllHold undo.allowed_statuses
    → settle_model_request q db ≡ ok (result, db')
    → (release_model_request undo db' ≡ ok db')
      × (settle_model_request again db' ≡ err (billing 409))
settle-then-closed q again undo db result db' same same' allowed allowed' e =
    let s = settle_model_request-Settled q db result db' e in
    let r' = settled_request q s.request (usage_of q s.request) (cost_of q s.request) s.upstream in
    (
      release-closed undo db' r' (rw same' s.request_written) allowed' (settled_closed _),
      settle-closed again db' r' (rw same s.request_written) allowed (settled_closed _),
    )

-- After a release of an open request into a final status, every later release of it does nothing
-- and every later settlement of it is refused with a 409.
pub release-then-closed :
    (q undo : ReleaseCall) (again : SettleCall) (r : ModelRequest) (db db' : Db)
    → undo.request_id ≡ q.request_id
    → again.request_id ≡ q.request_id
    → AllHold undo.allowed_statuses
    → AllHold again.allowed_statuses
    → find request_key q.request_id db.requests ≡ some r
    → is_among r.status q.allowed_statuses ≡ true
    → holds q.final_status ≡ false
    → release_model_request q db ≡ ok db'
    → (release_model_request undo db' ≡ ok db')
      × (settle_model_request again db' ≡ err (billing 409))
release-then-closed q undo again r db db' same same' allowed allowed' there among final e =
    let written = release-written q r db db' there among e in
    (
      release-closed undo db' (released_request q r) (rw same written) allowed final,
      settle-closed again db' (released_request q r) (rw same' written) allowed' final,
    )
