-- ===== src/Identity/Verify.antt =====
-- E-mail verification (app/services/identity.py, `consume_email_verification`).
use kunlun_model_gateway.Base.{
  ℕ, ◌≤◌, ◌≡◌, refl, Bool, true, false, ◌&&◌, Option, none, some, map, leb, ◌==◌, arith, inl, inr,
  Bool-cases, subst, ap,
}
use kunlun_model_gateway.Base.Table.{find, sum_by, find-put_self}
use kunlun_model_gateway.Models.{Db, IdentityToken, User, UserStatus}
use kunlun_model_gateway.Payments.{user_key}
use kunlun_model_gateway.Identity.{
  find_token, consume_row, count_unused, verify_user, verify_token, consume_email_verification,
  is_pending_email,
}
use kunlun_model_gateway.Identity.Tokens.{with_digest, find_token-used}

-- What a verification that succeeded has done.
pub record IsVerified (digest now : ℕ) (db db' : Db) : Type 0 where
  pub token : IdentityToken
  pub user : User
  pub token_found : find_token digest db.email_tokens ≡ some token
  pub alive : leb token.expires_at now ≡ false
  pub user_found : find user_key token.user_id db.users ≡ some user
  pub was_pending : is_pending_email user.status ≡ true
  pub user_written :
      find user_key token.user_id db'.users
      ≡ some (record user { status = UserStatus.active; email_verified_at = some now })
  pub used : db'.email_tokens ≡ map (consume_row token.id now) db.email_tokens

abbrev Verifies : ℕ → ℕ → Db → Bool × Db → Type 0
Verifies digest now db x = x.0 ≡ true → IsVerified digest now db x.1

and_left : (a b : Bool) → a && b ≡ true → a ≡ true
and_left a b e = ground arith

module _ (digest now : ℕ) (db : Db) where
  verify_user-Verifies :
      (t : IdentityToken) (o : Option User)
      → find_token digest db.email_tokens ≡ some t
      → leb t.expires_at now ≡ false
      → find user_key t.user_id db.users ≡ o
      → Verifies digest now db (verify_user now t o db)
  unfolding verify_user
  verify_user-Verifies t none here alive there = λ e. absurd (cc)
  verify_user-Verifies t (some u) here alive there =
      elim (Bool-cases (is_pending_email u.status && (count_unused t.id db.email_tokens == 1))) [
        | inl good ↦ rw good (λ _. record {
          token = t;
          user = u;
          token_found = here;
          alive = alive;
          user_found = there;
          was_pending = and_left _ _ good;
          user_written = find-put_self user_key _ u t.user_id db.users there refl;
          used = refl;
        })
        | inr bad ↦ rw bad (λ e. absurd (cc))
      ]

  verify_token-Verifies :
      (o : Option IdentityToken)
      → find_token digest db.email_tokens ≡ o
      → Verifies digest now db (verify_token now o db)
  unfolding verify_token
  verify_token-Verifies none here = λ e. absurd (cc)
  verify_token-Verifies (some t) here = elim (Bool-cases (leb t.expires_at now)) [
    | inl old ↦ rw old (λ e. absurd (cc))
    | inr alive ↦ rw alive (verify_user-Verifies t _ here alive refl)
  ]

-- A verification that succeeds had a live, unused token of a user whose e-mail was pending, and makes
-- that user active; and the token works once: verifying with it again, at any time, is refused and
-- changes nothing, when token digests are unique.
pub consume_email_verification-once :
    (digest now later : ℕ) (db db' : Db)
    → sum_by (with_digest digest) db.email_tokens ≤ 1
    → consume_email_verification digest now db ≡ (true, db')
    → IsVerified digest now db db' × (consume_email_verification digest later db' ≡ (false, db'))
unfolding consume_email_verification
consume_email_verification-once digest now later db db' unique e =
    let v =
      verified (verify_token now (find_token digest db.email_tokens) db) e
        (verify_token-Verifies digest now db _ refl) in
    (
      v,
      unfold verify_token in
          rw (v.used, find_token-used digest now db.email_tokens v.token unique v.token_found) refl,
    )
  where
    verified :
        (x : Bool × Db) → x ≡ (true, db') → Verifies digest now db x → IsVerified digest now db db'
    verified x same f =
        subst (λ (y : Bool × Db). IsVerified digest now db y.1) same
          (f (ap (λ (y : Bool × Db). y.0) same))
