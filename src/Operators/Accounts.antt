-- ===== src/Operators/Accounts.antt =====
-- `update_account_status` of app/__init__.py: an operator freezes an account, or lifts the freeze.
pub mod Lifted
use kunlun_model_gateway.Base.{
  ℕ, Bool, true, false, not, ◌&&◌, ◌||◌, Option, some, none, List, [], ◌∷◌, ◌==◌, is_some, ◌++◌,
  if◌then◌else◌,
}
use kunlun_model_gateway.Base.Result.{Result, ok, err, guard, require, ◌>>=◌, ◌>>◌, http}
use kunlun_model_gateway.Models.{
  Db, PaymentRefund, RefundStatus, User, UserStatus, OperatorAction, TargetType,
}
use kunlun_model_gateway.Operators.Actions.{Operation, action_row, add_action}
use kunlun_model_gateway.Json.{codes}
use kunlun_model_gateway.Base.Table.{find, put}
use kunlun_model_gateway.Payments.Freeze.{apply_user_freeze}
use kunlun_model_gateway.Billing.Reserve.{user_key}

pub data AccountAction : Type 0 where
  freeze unfreeze : AccountAction

pub record AccountCall : Type 0 where
  pub user_id : ℕ
  pub action : AccountAction
  pub operation : Operation

abbrev user_text : UserStatus → List ℕ
user_text UserStatus.active = codes "active"
user_text UserStatus.frozen = codes "frozen"
user_text UserStatus.pending_email = codes "pending_email"

abbrev account_text : AccountAction → List ℕ
account_text AccountAction.freeze = codes "account_freeze"
account_text AccountAction.unfreeze = codes "account_unfreeze"

abbrev pub is_frozen : UserStatus → Bool
is_frozen UserStatus.frozen = true
is_frozen _ = false

abbrev pub is_risk : RefundStatus → Bool
is_risk RefundStatus.risk = true
is_risk _ = false

-- A refund of the user whose risk is not disposed of.
unfoldable pub has_refund_risk : ℕ → List PaymentRefund → Bool
has_refund_risk user [] = false
has_refund_risk user (r ∷ rest) =
    ((r.user_id == user) && is_risk r.status) || has_refund_risk user rest

abbrev pub activated : User → Db → Db
activated u db = record db {
  users = put user_key (record u { status = UserStatus.active }) db.users;
}

-- The status that is set, the number of keys that are revoked, and the database before the audit row.
unfoldable pub change_status :
    AccountCall → User → AccountAction → Db → Result ((UserStatus × ℕ) × Db)
change_status q u AccountAction.freeze db =
    if is_frozen u.status
    then ok ((UserStatus.frozen, 0), db)
    else (let (revoked, frozen) = apply_user_freeze q.user_id q.operation.now db in
        ok ((UserStatus.frozen, revoked), frozen))
change_status q u AccountAction.unfreeze db = do
  guard (is_frozen u.status) (http 409)
  guard (is_some u.email_verified_at) (http 409)
  guard (not (has_refund_risk q.user_id db.refunds)) (http 409)
  ok ((UserStatus.active, 0), activated u db)

abbrev pub account_action : AccountCall → User → UserStatus → OperatorAction
account_action q u after =
    action_row q.operation none TargetType.user q.user_id (account_text q.action)
      (user_text u.status) (user_text after)

unfoldable pub update_account_status : AccountCall → Db → Result ((UserStatus × ℕ) × Db)
update_account_status q db = do
  u ← require (find user_key q.user_id db.users) (http 404)
  changed ← change_status q u q.action db
  staged ← add_action (account_action q u changed.0.0) changed.1
  ok (changed.0, staged)
