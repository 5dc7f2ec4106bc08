-- ===== src/Payments/Freeze.antt =====
-- `apply_user_freeze` of app/services/identity.py.
pub mod Revokes
use kunlun_model_gateway.Base.{
  ℕ, suc, ◌+◌, Bool, true, false, not, ◌&&◌, ◌||◌, Option, none, some, List, [], ◌∷◌, map, ◌==◌,
  is_some, if◌then◌else◌,
}
use kunlun_model_gateway.Base.Table.{find, put}
use kunlun_model_gateway.Models.{
  AccessSession, ApiKey, Db, IdentityToken, KeyStatus, User, UserStatus, is_active_key,
}
use kunlun_model_gateway.Payments.Rows.{user_key}

abbrev owns_active : ℕ → ApiKey → Bool
owns_active user k = (k.user_id == user) && is_active_key k.status

unfoldable pub revoke_key : ℕ → ℕ → ApiKey → ApiKey
revoke_key user now k =
    if owns_active user k then record k { status = KeyStatus.revoked; revoked_at = some now } else k

unfoldable pub revoke_session : ℕ → AccessSession → AccessSession
revoke_session user s =
    if (s.user_id == user) && not s.revoked then record s { revoked = true } else s

unfoldable pub consume_token : ℕ → ℕ → IdentityToken → IdentityToken
consume_token user now t =
    if (t.user_id == user) && not (is_some t.consumed_at)
    then record t { consumed_at = some now }
    else t

unfoldable pub count_active_keys : ℕ → List ApiKey → ℕ
count_active_keys user [] = 0
count_active_keys user (k ∷ ks) = (if owns_active user k then 1 else 0) + count_active_keys user ks

unfoldable pub freeze_found : ℕ → ℕ → Option User → Db → ℕ × Db
freeze_found user now none db = (0, db)
freeze_found user now (some u) db = (
  count_active_keys user db.api_keys,
  record db {
    users = put user_key (record u { status = UserStatus.frozen }) db.users;
    api_keys = map (revoke_key user now) db.api_keys;
    access_sessions = map (revoke_session user) db.access_sessions;
    email_tokens = map (consume_token user now) db.email_tokens;
    reset_tokens = map (consume_token user now) db.reset_tokens;
  },
)

-- The number of keys that were revoked, and the database, not committed.
unfoldable pub apply_user_freeze : ℕ → ℕ → Db → ℕ × Db
apply_user_freeze user now db = freeze_found user now (find user_key user db.users) db
