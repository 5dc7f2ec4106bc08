-- ===== src/Identity.antt =====
-- app/services/identity.py: e-mail verification, password reset and the checks on a user. The random
-- token enters as the digest that is stored, the new password's hash is an argument, and so is
-- whether the e-mail was delivered.
pub mod Tokens
pub mod Verify
use kunlun_model_gateway.Base.{
  ℕ, suc, ◌+◌, Bool, true, false, not, ◌&&◌, ◌||◌, Option, none, some, List, [], ◌∷◌, map, ltb, leb,
  ◌==◌, is_some, if◌then◌else◌,
}
use kunlun_model_gateway.Base.Result.{Result, ok, guard, require, ◌>>=◌, ◌>>◌, identity}
use kunlun_model_gateway.Base.Table.{find, put}
use kunlun_model_gateway.Models.{AccessSession, Db, IdentityToken, User, UserStatus, is_active_user}
use kunlun_model_gateway.Payments.{user_key}
use kunlun_model_gateway.Payments.Freeze.{
  apply_user_freeze, consume_token, count_active_keys, revoke_key,
}

-- The unused token with a digest.
unfoldable pub find_token : ℕ → List IdentityToken → Option IdentityToken
find_token digest [] = none
find_token digest (t ∷ ts) = elim ((t.token_digest == digest) && not (is_some t.consumed_at)) [
  | true ↦ some t
  | false ↦ find_token digest ts
]

-- `session.get(PasswordResetToken, id)`.
abbrev pub token_key : IdentityToken → ℕ
token_key t = t.id

abbrev is_unused : ℕ → IdentityToken → Bool
is_unused id t = (t.id == id) && not (is_some t.consumed_at)

-- The UPDATE of the unused row with an id, and its row count.
unfoldable pub consume_row : ℕ → ℕ → IdentityToken → IdentityToken
consume_row id now t = if is_unused id t then record t { consumed_at = some now } else t

unfoldable pub count_unused : ℕ → List IdentityToken → ℕ
count_unused id [] = 0
count_unused id (t ∷ ts) = (if is_unused id t then 1 else 0) + count_unused id ts

-- The UPDATE of the rows with a digest.
unfoldable pub consume_digest : ℕ → ℕ → IdentityToken → IdentityToken
consume_digest digest now t =
    if t.token_digest == digest then record t { consumed_at = some now } else t

-- A token that is issued: its row's id, its digest, its lifetime, the clock, and whether its e-mail
-- was delivered.
pub record IssueCall : Type 0 where
  pub id : ℕ
  pub digest : ℕ
  pub ttl : ℕ
  pub now : ℕ
  pub delivered : Bool

abbrev pub new_token : IssueCall → ℕ → IdentityToken
new_token q user = record {
  id = q.id;
  user_id = user;
  token_digest = q.digest;
  expires_at = q.now + q.ttl;
  consumed_at = none;
}

-- The tokens after an issue: the older ones are used up, and so is the new one when its e-mail was
-- not delivered.
unfoldable pub issue_token : IssueCall → ℕ → List IdentityToken → List IdentityToken
issue_token q user tokens =
    let issued = new_token q user ∷ map (consume_token user q.now) tokens in
    if q.delivered then issued else map (consume_digest q.digest q.now) issued

-- Whether the token was delivered; when it was not, the caller gets an IdentityError after the
-- commit.
unfoldable pub issue_email_verification : IssueCall → ℕ → Db → Result (Bool × Db)
issue_email_verification q user_id db = do
  user ← require (find user_key user_id db.users) identity
  ok (q.delivered, record db { email_tokens = issue_token q user_id db.email_tokens })

abbrev pub is_pending_email : UserStatus → Bool
is_pending_email UserStatus.pending_email = true
is_pending_email _ = false

unfoldable pub verify_user : ℕ → IdentityToken → Option User → Db → Bool × Db
verify_user now t none db = (false, db)
verify_user now t (some u) db =
    if is_pending_email u.status && (count_unused t.id db.email_tokens == 1)
    then (
      true,
      record db {
        email_tokens = map (consume_row t.id now) db.email_tokens;
        users =
            put user_key (record u { status = UserStatus.active; email_verified_at = some now })
              db.users;
      },
    )
    else (false, db)

unfoldable pub verify_token : ℕ → Option IdentityToken → Db → Bool × Db
verify_token now none db = (false, db)
verify_token now (some t) db =
    if leb t.expires_at now
    then (false, db)
    else verify_user now t (find user_key t.user_id db.users) db

unfoldable pub consume_email_verification : ℕ → ℕ → Db → Bool × Db
consume_email_verification digest now db = verify_token now (find_token digest db.email_tokens) db

unfoldable pub find_email : ℕ → List User → Option User
find_email email [] = none
find_email email (u ∷ us) = elim (u.email == email) [ true ↦ some u | false ↦ find_email email us ]

unfoldable pub reset_found : IssueCall → Option User → Db → Db
reset_found q none db = db
reset_found q (some u) db =
    if is_active_user u.status
    then record db { reset_tokens = issue_token q u.id db.reset_tokens }
    else db

-- The answer is the same whether or not the account exists.
unfoldable pub request_password_reset : IssueCall → ℕ → Db → Db
request_password_reset q email db = reset_found q (find_email email db.users) db

-- The new password's length and its hash.
pub record ResetCall : Type 0 where
  pub digest : ℕ
  pub password_length : ℕ
  pub password_hash : ℕ
  pub now : ℕ

unfoldable pub revoke_any_session : ℕ → AccessSession → AccessSession
revoke_any_session user s = if s.user_id == user then record s { revoked = true } else s

-- The row that is read again, under its lock.
unfoldable pub is_valid_token : ℕ → Option IdentityToken → Bool
is_valid_token now none = false
is_valid_token now (some t) = not (is_some t.consumed_at) && ltb now t.expires_at

unfoldable pub rotate : ResetCall → IdentityToken → User → Db → Bool × Db
rotate q t u db =
    if is_valid_token q.now (find token_key t.id db.reset_tokens)
      && (count_unused t.id db.reset_tokens == 1)
    then (
      true,
      record db {
        reset_tokens = map (consume_row t.id q.now) db.reset_tokens;
        users = put user_key (record u { password_hash = q.password_hash }) db.users;
        access_sessions = map (revoke_any_session t.user_id) db.access_sessions;
        api_keys = map (revoke_key t.user_id q.now) db.api_keys;
      },
    )
    else (false, db)

-- An account that is not active loses the token. `hash_password` refuses a password that is too
-- short or too long.
unfoldable pub reset_user : ResetCall → IdentityToken → Option User → Db → Result (Bool × Db)
reset_user q t none db =
    ok (false, record db { reset_tokens = map (consume_row t.id q.now) db.reset_tokens })
reset_user q t (some u) db =
    if is_active_user u.status
    then (guard (leb 12 q.password_length && leb q.password_length 256) identity
        >> ok (rotate q t u db))
    else ok (false, record db { reset_tokens = map (consume_row t.id q.now) db.reset_tokens })

unfoldable pub reset_token : ResetCall → Option IdentityToken → Db → Result (Bool × Db)
reset_token q none db = ok (false, db)
reset_token q (some t) db =
    if leb t.expires_at q.now
    then ok (false, db)
    else reset_user q t (find user_key t.user_id db.users) db

unfoldable pub reset_password : ResetCall → Db → Result (Bool × Db)
reset_password q db = reset_token q (find_token q.digest db.reset_tokens) db

unfoldable pub enforce_verified_user : ℕ → Db → Result User
enforce_verified_user user_id db = do
  u ← require (find user_key user_id db.users) identity
  guard (is_active_user u.status && is_some u.email_verified_at) identity
  ok u

unfoldable pub enforce_key_limit : ℕ → ℕ → Db → Result (Unit {0})
enforce_key_limit user_id max_active_keys db = do
  guard (leb 1 max_active_keys) identity
  u ← require (find user_key user_id db.users) identity
  guard (is_active_user u.status && is_some u.email_verified_at) identity
  guard (ltb (count_active_keys user_id db.api_keys) max_active_keys) identity
  ok tt

unfoldable pub freeze_user : ℕ → ℕ → Db → ℕ × Db
freeze_user user_id now db = apply_user_freeze user_id now db
