-- ===== src/Billing/Unreserved.antt =====
-- A request that was settled, released or handed over to reconciliation is no longer `reserved`
-- (app/services/gateway_billing.py).
use kunlun_model_gateway.Base.{
  ℕ, List, ◌≡◌, refl, Bool, false, some, [], ◌∷◌, arith, inl, inr, Bool-cases, Option-cases,
}
use kunlun_model_gateway.Base.Result.{ok}
use kunlun_model_gateway.Base.Table.{find, find-put_self}
use kunlun_model_gateway.Models.{Db, ModelRequest, RequestStatus, holds, is_among, is_request}
use kunlun_model_gateway.Billing.Holds.{request_key}
use kunlun_model_gateway.Billing.Once.{release-written}
use kunlun_model_gateway.Billing.Settle.{SettleCall, settle_model_request}
use kunlun_model_gateway.Billing.Settle.Outcome.{settled_closed, settle_model_request-Settled}
use kunlun_model_gateway.Billing.Release.{
  ReleaseCall, PendingCall, mark_found, mark_pending_reconciliation, pending_request, release_found,
  release_model_request,
}

abbrev pub is_reserved : ModelRequest → Bool
is_reserved r = is_request r.status RequestStatus.reserved

-- The request is not there, or in another status.
abbrev pub IsUnreserved : ℕ → List ModelRequest → Type 0
IsUnreserved id requests =
    (r : ModelRequest) → find request_key id requests ≡ some r → is_reserved r ≡ false

IsUnreserved-of :
    (id : ℕ) (requests : List ModelRequest) (r : ModelRequest)
    → find request_key id requests ≡ some r
    → is_reserved r ≡ false
    → IsUnreserved id requests
IsUnreserved-of id requests r there other r' there' = ground (arith, there, there', other)

not_held : (s : RequestStatus) → holds s ≡ false → is_request s RequestStatus.reserved ≡ false
not_held s closed = ground arith

pub mark_pending_reconciliation-IsUnreserved :
    (q : PendingCall) (db : Db)
    → IsUnreserved q.request_id (mark_pending_reconciliation q db).requests
unfolding mark_pending_reconciliation mark_found
mark_pending_reconciliation-IsUnreserved q db =
    elim (Option-cases (find request_key q.request_id db.requests)) [
      | inl gone ↦ rw gone λ r there. absurd (cc (gone, there))
      | inr (r, there) ↦ elim (Bool-cases (is_reserved r)) [
        | inl waiting ↦
            rw (there, waiting)
              (IsUnreserved-of q.request_id _ (pending_request q r)
                (find-put_self request_key (pending_request q r) r q.request_id db.requests there
                  refl)
                refl)
        | inr other ↦ rw (there, other) (IsUnreserved-of q.request_id db.requests r there other)
      ]
    ]

pub settle_model_request-IsUnreserved :
    (q : SettleCall) (db : Db) (result : ℕ × Bool) (db' : Db)
    → settle_model_request q db ≡ ok (result, db')
    → IsUnreserved q.request_id db'.requests
settle_model_request-IsUnreserved q db result db' e =
    let s = settle_model_request-Settled q db result db' e in
    IsUnreserved-of q.request_id db'.requests _ s.request_written (not_held _ (settled_closed _))

pub release_model_request-IsUnreserved :
    (q : ReleaseCall) (db db' : Db)
    → q.allowed_statuses ≡ RequestStatus.reserved ∷ []
    → is_request q.final_status RequestStatus.reserved ≡ false
    → release_model_request q db ≡ ok db'
    → IsUnreserved q.request_id db'.requests
unfolding release_model_request release_found
release_model_request-IsUnreserved q db db' allowed final e =
    elim (Option-cases (find request_key q.request_id db.requests)) [
      | inl gone ↦ λ r there. absurd (cc (gone, there, rw gone at e))
      | inr (r, there) ↦ elim (Bool-cases (is_among r.status q.allowed_statuses)) [
        | inl among ↦
            IsUnreserved-of q.request_id db'.requests _ (release-written q r db db' there among e)
              final
        | inr other ↦ λ r' there'. ground (arith, there, there', other, allowed, e)
      ]
    ]
