-- ===== src/Payments/Freeze/Revokes.antt =====
-- A frozen account has nothing left to use (app/services/identity.py, `apply_user_freeze`).
use kunlun_model_gateway.Base.{
  ℕ, ◌≡◌, refl, false, not, some, List, [], ◌∷◌, map, ◌==◌, ◌&&◌, is_some, arith,
}
use kunlun_model_gateway.Base.Table.{find, find-put_self}
use kunlun_model_gateway.Models.{
  AccessSession, ApiKey, Db, IdentityToken, User, UserStatus, is_active_key,
}
use kunlun_model_gateway.Payments.Rows.{user_key}
use kunlun_model_gateway.Payments.Freeze.{
  apply_user_freeze, freeze_found, revoke_key, revoke_session, consume_token,
}

-- Every key of the user is out of use, every session revoked and every token consumed.
abbrev pub NoKeys : ℕ → List ApiKey → Type 0
NoKeys u [] = Unit
NoKeys u (k ∷ ks) = ((k.user_id == u) && is_active_key k.status ≡ false) × NoKeys u ks

abbrev pub NoSessions : ℕ → List AccessSession → Type 0
NoSessions u [] = Unit
NoSessions u (s ∷ ss) = ((s.user_id == u) && not s.revoked ≡ false) × NoSessions u ss

abbrev pub NoTokens : ℕ → List IdentityToken → Type 0
NoTokens u [] = Unit
NoTokens u (t ∷ ts) = ((t.user_id == u) && not (is_some t.consumed_at) ≡ false) × NoTokens u ts

pub record IsFrozen (u : ℕ) (db : Db) : Type 0 where
  pub keys : NoKeys u db.api_keys
  pub sessions : NoSessions u db.access_sessions
  pub email : NoTokens u db.email_tokens
  pub reset : NoTokens u db.reset_tokens

revoke_key-out :
    (u now : ℕ) (k : ApiKey)
    → ((revoke_key u now k).user_id == u) && is_active_key (revoke_key u now k).status ≡ false
unfolding revoke_key
revoke_key-out u now k = ground arith

revoke_session-out :
    (u : ℕ) (s : AccessSession)
    → ((revoke_session u s).user_id == u) && not (revoke_session u s).revoked ≡ false
unfolding revoke_session
revoke_session-out u s = ground arith

consume_token-out :
    (u now : ℕ) (t : IdentityToken)
    → ((consume_token u now t).user_id == u) && not (is_some (consume_token u now t).consumed_at)
      ≡ false
unfolding consume_token
consume_token-out u now t = ground arith

pub NoKeys-map : (u now : ℕ) (ks : List ApiKey) → NoKeys u (map (revoke_key u now) ks)
NoKeys-map u now [] = tt
NoKeys-map u now (k ∷ ks) = (revoke_key-out u now k, NoKeys-map u now ks)

NoSessions-map : (u : ℕ) (ss : List AccessSession) → NoSessions u (map (revoke_session u) ss)
NoSessions-map u [] = tt
NoSessions-map u (s ∷ ss) = (revoke_session-out u s, NoSessions-map u ss)

NoTokens-map : (u now : ℕ) (ts : List IdentityToken) → NoTokens u (map (consume_token u now) ts)
NoTokens-map u now [] = tt
NoTokens-map u now (t ∷ ts) = (consume_token-out u now t, NoTokens-map u now ts)

-- Freezing a user that exists leaves the user without an active key, without a live session and
-- without an unused e-mail or password-reset token, and sets the status of the user to `frozen`.
pub apply_user_freeze-IsFrozen :
    (u now : ℕ) (db : Db) (user : User)
    → find user_key u db.users ≡ some user
    → IsFrozen u (apply_user_freeze u now db).1
      × (find user_key u (apply_user_freeze u now db).1.users
          ≡ some (record user { status = UserStatus.frozen }))
unfolding apply_user_freeze freeze_found
apply_user_freeze-IsFrozen u now db user here = rw here (
  record {
    keys = NoKeys-map u now db.api_keys;
    sessions = NoSessions-map u db.access_sessions;
    email = NoTokens-map u now db.email_tokens;
    reset = NoTokens-map u now db.reset_tokens;
  },
  find-put_self user_key _ user u db.users here refl,
)
