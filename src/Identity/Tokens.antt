-- ===== src/Identity/Tokens.antt =====
-- A token works once, and a reset ends every credential (app/services/identity.py).
use kunlun_model_gateway.Base.{
  ℕ, ◌≤◌, ◌≡◌, refl, Bool, true, false, not, ◌&&◌, Option, none, some, List, [], ◌∷◌, map, leb,
  ◌==◌, arith, inl, inr, Bool-cases, if◌then◌else◌,
}
use kunlun_model_gateway.Base.Result.{
  ok, Ensures, Ensures-ok, Ensures-guard, Ensures-if, guard, identity, ◌>>◌,
}
use kunlun_model_gateway.Base.Table.{find, sum_by, find-put_self}
use kunlun_model_gateway.Models.{AccessSession, Db, IdentityToken, User, is_active_user}
use kunlun_model_gateway.Payments.{user_key}
use kunlun_model_gateway.Payments.Freeze.Revokes.{NoKeys, NoSessions, NoKeys-map}
use kunlun_model_gateway.Identity.{
  ResetCall, find_token, consume_row, revoke_any_session, rotate, reset_user, reset_token,
  reset_password, is_valid_token, token_key, count_unused,
}

-- How many rows carry a digest; the tables have a unique constraint on it.
unfoldable pub with_digest : ℕ → IdentityToken → ℕ
with_digest digest t = if t.token_digest == digest then 1 else 0

find_token-absent :
    (d id now : ℕ) (ts : List IdentityToken)
    → sum_by (with_digest d) ts ≡ 0
    → find_token d (map (consume_row id now) ts) ≡ none
unfolding find_token consume_row sum_by with_digest
find_token-absent d id now [] e = refl
find_token-absent d id now (t ∷ ts) e = ground (arith, find_token-absent d id now ts)

-- After the row is used, no unused row has its digest.
pub find_token-used :
    (d now : ℕ) (ts : List IdentityToken) (t : IdentityToken)
    → sum_by (with_digest d) ts ≤ 1
    → find_token d ts ≡ some t
    → find_token d (map (consume_row t.id now) ts) ≡ none
unfolding find_token consume_row sum_by with_digest
find_token-used d now [] t unique e = cc
find_token-used d now (x ∷ ts) t unique e =
    ground (arith, find_token-used d now ts t, find_token-absent d t.id now ts)

revoke_any-out :
    (u : ℕ) (s : AccessSession)
    → ((revoke_any_session u s).user_id == u) && not (revoke_any_session u s).revoked ≡ false
unfolding revoke_any_session
revoke_any-out u s = ground arith

NoSessions-any : (u : ℕ) (ss : List AccessSession) → NoSessions u (map (revoke_any_session u) ss)
NoSessions-any u [] = tt
NoSessions-any u (s ∷ ss) = (revoke_any-out u s, NoSessions-any u ss)

-- What a reset that succeeded has done.
pub record IsRotated (q : ResetCall) (db db' : Db) : Type 0 where
  pub token : IdentityToken
  pub user : User
  pub token_found : find_token q.digest db.reset_tokens ≡ some token
  pub alive : leb token.expires_at q.now ≡ false
  pub user_found : find user_key token.user_id db.users ≡ some user
  pub active : is_active_user user.status ≡ true
  pub keys : NoKeys token.user_id db'.api_keys
  pub sessions : NoSessions token.user_id db'.access_sessions
  pub user_written :
      find user_key token.user_id db'.users ≡ some (record user { password_hash = q.password_hash })
  pub used : db'.reset_tokens ≡ map (consume_row token.id q.now) db.reset_tokens

abbrev Rotates : ResetCall → Db → Bool × Db → Type 0
Rotates q db x = x.0 ≡ true → IsRotated q db x.1

module _ (q : ResetCall) (db : Db) where
  rotate-Rotates :
      (t : IdentityToken) (u : User)
      → find_token q.digest db.reset_tokens ≡ some t
      → leb t.expires_at q.now ≡ false
      → find user_key t.user_id db.users ≡ some u
      → is_active_user u.status ≡ true
      → Rotates q db (rotate q t u db)
  unfolding rotate
  rotate-Rotates t u here alive there active =
      elim (Bool-cases (
        is_valid_token q.now (find token_key t.id db.reset_tokens)
        && (count_unused t.id db.reset_tokens == 1))) [
          | inl good ↦ rw good (λ _. record {
            token = t;
            user = u;
            token_found = here;
            alive = alive;
            user_found = there;
            active = active;
            keys = NoKeys-map t.user_id q.now db.api_keys;
            sessions = NoSessions-any t.user_id db.access_sessions;
            user_written = find-put_self user_key _ u t.user_id db.users there refl;
            used = refl;
          })
          | inr bad ↦ rw bad (λ e. absurd (cc))
        ]

  reset_user-Rotates :
      (t : IdentityToken) (o : Option User)
      → find_token q.digest db.reset_tokens ≡ some t
      → leb t.expires_at q.now ≡ false
      → find user_key t.user_id db.users ≡ o
      → Ensures (Rotates q db) (reset_user q t o db)
  unfolding reset_user
  reset_user-Rotates t none here alive there = Ensures-ok _ (λ e. absurd (cc))
  reset_user-Rotates t (some u) here alive there =
      Ensures-if (is_active_user u.status)
        (guard (leb 12 q.password_length && leb q.password_length 256) identity
          >> ok (rotate q t u db))
        _
        (λ active.
          Ensures-guard _ _ _ λ _. Ensures-ok _ (rotate-Rotates t u here alive there active))
        (λ _. Ensures-ok _ (λ e. absurd (cc)))

  reset_token-Rotates :
      (o : Option IdentityToken)
      → find_token q.digest db.reset_tokens ≡ o
      → Ensures (Rotates q db) (reset_token q o db)
  unfolding reset_token
  reset_token-Rotates none here = Ensures-ok _ (λ e. absurd (cc))
  reset_token-Rotates (some t) here =
      Ensures-if _ _ _ (λ _. Ensures-ok _ (λ e. absurd (cc)))
        (λ alive. reset_user-Rotates t _ here alive refl)

-- A password reset that succeeds had a live, unused token of an active user. It stores the new
-- password's hash, and leaves the user without an active key and without a live session.
pub reset_password-IsRotated :
    (q : ResetCall) (db db' : Db) → reset_password q db ≡ ok (true, db') → IsRotated q db db'
unfolding reset_password
reset_password-IsRotated q db db' e = (reset_token-Rotates q db _ refl).returned (true, db') e refl

-- A reset token works once: after a reset that succeeded, a reset with the same token is refused and
-- changes nothing, whatever password and time it comes with, when token digests are unique.
pub reset_password-once :
    (q again : ResetCall) (db db' : Db)
    → sum_by (with_digest q.digest) db.reset_tokens ≤ 1
    → again.digest ≡ q.digest
    → reset_password q db ≡ ok (true, db')
    → reset_password again db' ≡ ok (false, db')
reset_password-once q again db db' unique same e =
    let r = reset_password-IsRotated q db db' e in
    unfold reset_password reset_token in
    rw (same, r.used, find_token-used q.digest q.now db.reset_tokens r.token unique r.token_found)
      refl
