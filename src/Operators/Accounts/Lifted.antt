-- ===== src/Operators/Accounts/Lifted.antt =====
-- What `update_account_status` of app/__init__.py leaves an account with.
use kunlun_model_gateway.Base.{ℕ, ◌≡◌, refl, true, false, some, ◌∷◌, arith, is_some}
use kunlun_model_gateway.Operators.Accounts.{
  AccountCall, AccountAction, is_frozen, has_refund_risk, change_status, account_action,
  update_account_status,
}
use kunlun_model_gateway.Models.{User, Db, UserStatus, OperatorAction}
use kunlun_model_gateway.Base.Table.{find, find-put_self}
use kunlun_model_gateway.Payments.Freeze.Revokes.{IsFrozen, apply_user_freeze-IsFrozen}
use kunlun_model_gateway.Payments.Freeze.{apply_user_freeze, count_active_keys, freeze_found}
use kunlun_model_gateway.Billing.Reserve.{user_key}
use kunlun_model_gateway.Billing.Invariant.{IsSound}
use kunlun_model_gateway.Base.Result.{
  Ensures, Ensures-if, Ensures-ok, Ensures-guard, ok, Ensures-require, Ensures-call,
}
use kunlun_model_gateway.Payments.Refunds.Sound.{freeze-IsSound}
use kunlun_model_gateway.Payments.Money.{same_money}
use kunlun_model_gateway.Operators.Audited.{with_action, Ensures-add_action, with_action-IsSound}

-- A freeze takes every credential of the user; lifting it needs a verified e-mail and no open
-- refund risk, and gives no credential back.
pub data StatusChanged (q : AccountCall) (u : User) (db db' : Db)
    : AccountAction → UserStatus × ℕ → Type 0 where
  frozen :
      (revoked : ℕ)
      → is_frozen u.status ≡ false
      → revoked ≡ count_active_keys q.user_id db.api_keys
      → IsFrozen q.user_id db'
      → StatusChanged q u db db' AccountAction.freeze (UserStatus.frozen, revoked)
  frozen_already :
      u.status ≡ UserStatus.frozen
      → db'.users ≡ db.users
      → StatusChanged q u db db' AccountAction.freeze (UserStatus.frozen, 0)
  lifted :
      u.status ≡ UserStatus.frozen
      → is_some u.email_verified_at ≡ true
      → has_refund_risk q.user_id db.refunds ≡ false
      → db'.api_keys ≡ db.api_keys
      → db'.access_sessions ≡ db.access_sessions
      → StatusChanged q u db db' AccountAction.unfreeze (UserStatus.active, 0)

pub record Changes (q : AccountCall) (u : User) (db : Db) (answer : UserStatus × ℕ) (db' : Db)
    : Type 0 where
  pub changed : StatusChanged q u db db' q.action answer
  pub after : User
  pub after_found : find user_key q.user_id db'.users ≡ some after
  pub status_is : after.status ≡ answer.0
  pub actions_kept : db'.actions ≡ db.actions
  pub sound : IsSound db → IsSound db'

is_frozen-eq : (s : UserStatus) → is_frozen s ≡ true → s ≡ UserStatus.frozen
is_frozen-eq UserStatus.active e = absurd (cc)
is_frozen-eq UserStatus.frozen e = refl
is_frozen-eq UserStatus.pending_email e = absurd (cc)

freeze_found-count :
    (user now : ℕ) (u : User) (db : Db)
    → find user_key user db.users ≡ some u
    → ((apply_user_freeze user now db).0 ≡ count_active_keys user db.api_keys)
      × ((apply_user_freeze user now db).1.actions ≡ db.actions)
unfolding apply_user_freeze freeze_found
freeze_found-count user now u db there = rw there (refl, refl)

module _ (q : AccountCall) (u : User) (db : Db)
    (there : find user_key q.user_id db.users ≡ some u) where
  change_status-Changes :
      (a : AccountAction)
      → q.action ≡ a
      → Ensures (λ (s : (UserStatus × ℕ) × Db). Changes q u db s.0 s.1) (change_status q u a db)
  unfolding change_status
  change_status-Changes AccountAction.freeze same =
      Ensures-if (is_frozen u.status) _ _
        (λ already. Ensures-ok _ (record {
          changed = rw same (StatusChanged.frozen_already (is_frozen-eq u.status already) refl);
          after = u;
          after_found = there;
          status_is = is_frozen-eq u.status already;
          actions_kept = refl;
          sound = λ inv. inv;
        }))
        λ other.
          let (credentials, written) =
            apply_user_freeze-IsFrozen q.user_id q.operation.now db u there in
          let (revoked, kept) = freeze_found-count q.user_id q.operation.now u db there in
          Ensures-ok _ (record {
            changed = rw same (StatusChanged.frozen _ other revoked credentials);
            after = _;
            after_found = written;
            status_is = refl;
            actions_kept = kept;
            sound = λ inv. freeze-IsSound q.user_id q.operation.now db inv;
          })
  change_status-Changes AccountAction.unfreeze same = Ensures-guard _ _ _ λ was.
      Ensures-guard _ _ _ λ verified. Ensures-guard _ _ _ λ free. Ensures-ok _ (record {
        changed =
            rw same
              (StatusChanged.lifted (is_frozen-eq u.status was) verified (ground arith) refl refl);
        after = record u { status = UserStatus.active };
        after_found = find-put_self user_key _ u q.user_id db.users there refl;
        status_is = refl;
        actions_kept = refl;
        sound = λ inv. same_money db _ refl refl refl refl inv;
      })

with_action-IsFrozen :
    (a : OperatorAction) {id : ℕ} {db : Db} → IsFrozen id db → IsFrozen id (with_action a db)
with_action-IsFrozen a f = record {
  keys = f.keys;
  sessions = f.sessions;
  email = f.email;
  reset = f.reset;
}

with_action-StatusChanged :
    (row : OperatorAction) (q : AccountCall) (u : User) (db db' : Db) (a : AccountAction)
    (answer : UserStatus × ℕ)
    → StatusChanged q u db db' a answer
    → StatusChanged q u db (with_action row db') a answer
with_action-StatusChanged row q u db db' a answer
      (StatusChanged.frozen n other revoked credentials) =
    StatusChanged.frozen n other revoked (with_action-IsFrozen row credentials)
with_action-StatusChanged row q u db db' a answer (StatusChanged.frozen_already was same) =
    StatusChanged.frozen_already was same
with_action-StatusChanged row q u db db' a answer
      (StatusChanged.lifted was verified free keys sessions) =
    StatusChanged.lifted was verified free keys sessions

pub record AccountChanged (q : AccountCall) (db : Db) (answer : UserStatus × ℕ) (db' : Db)
    : Type 0 where
  pub user : User
  pub after : User
  pub user_found : find user_key q.user_id db.users ≡ some user
  pub after_found : find user_key q.user_id db'.users ≡ some after
  pub changed : StatusChanged q user db db' q.action answer
  pub status_is : after.status ≡ answer.0
  pub audited : db'.actions ≡ account_action q user answer.0 ∷ db.actions
  pub sound : IsSound db → IsSound db'

-- When the route answers, the account has the status of the answer, and one audit row tells the
-- change. A freeze has taken every key, session and token of the user. A freeze is lifted only for a
-- verified e-mail without a refund risk that is not disposed of, and brings no key or session back.
pub update_account_status-AccountChanged :
    (q : AccountCall) (db : Db) (answer : UserStatus × ℕ) (db' : Db)
    → update_account_status q db ≡ ok (answer, db')
    → AccountChanged q db answer db'
unfolding update_account_status
update_account_status-AccountChanged q db answer db' e =
    (Ensures-require {P = λ (s : (UserStatus × ℕ) × Db). AccountChanged q db s.0 s.1} _ _ _
        λ u there. Ensures-call _ _ (change_status-Changes q u db there q.action refl) λ changed c.
          let row = account_action q u changed.0.0 in
          Ensures-add_action row changed.1 _ (
            Ensures-ok _ (record {
              user = u;
              after = c.after;
              user_found = there;
              after_found = c.after_found;
              changed = with_action-StatusChanged row q u db changed.1 q.action changed.0 c.changed;
              status_is = c.status_is;
              audited = rw (← c.actions_kept) refl;
              sound = λ inv. with_action-IsSound row changed.1 (c.sound inv);
            }))).returned
      (answer, db') e
