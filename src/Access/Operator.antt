-- ===== src/Access/Operator.antt =====
-- What lets an operator in (app/auth.py, `_operator_claims`).
use mathlib.Core.Bool.{and-eq-true_iff}
use kunlun_model_gateway.Base.{
  ℕ, ◌≤◌, ◌<◌, ◌≡◌, refl, true, List, [], ◌∷◌, arith, length, le_of_leb, leb,
}
use kunlun_model_gateway.Base.Result.{
  Result, ok, err, Ensures, Ensures-guard, Ensures-if, Ensures-ok,
}
use kunlun_model_gateway.Json.{codes}
use kunlun_model_gateway.Operators.Tokens.{Codec, OperatorClaims}
use kunlun_model_gateway.Operators.Tokens.Verified.{IsVerified, verify_operator_token-IsVerified}
use kunlun_model_gateway.Access.{
  AccessSettings, catch_ops_token, legacy_claims, legacy_scopes, operator_claims,
}
use kunlun_model_gateway.Providers.{contains_text}
use kunlun_model_gateway.Models.{same_text-eq}

-- A token signed under the configured secret; or the shared token of a development or test set-up
-- that has no such secret, which opens the two reconciliation scopes.
pub data Authority (a : AccessSettings) (k : Codec) (supplied required : List ℕ) (now : ℕ)
    (claims : OperatorClaims) : Type 0 where
  signed :
      32 ≤ length a.operator_signing_secret
      → IsVerified k a.operator_signing_secret supplied required now claims
      → Authority a k supplied required now claims
  shared :
      length a.operator_signing_secret < 32
      → contains_text a.environment (codes "development" ∷ codes "test" ∷ []) ≡ true
      → supplied ≡ a.operator_token
      → 32 ≤ length supplied
      → contains_text required (legacy_scopes a) ≡ true
      → claims.scopes ≡ legacy_scopes a
      → Authority a k supplied required now claims

module _ (a : AccessSettings) (k : Codec) (supplied required : List ℕ) (now : ℕ) where
  caught :
      (m : Result OperatorClaims) (claims : OperatorClaims)
      → catch_ops_token a m ≡ ok claims
      → m ≡ ok claims
  unfolding catch_ops_token
  caught (ok c) claims e = e
  caught (err x) claims e = absurd (cc)

  legacy-Authority :
      length a.operator_signing_secret < 32
      → Ensures (Authority a k supplied required now) (legacy_claims a supplied required now)
  unfolding legacy_claims
  legacy-Authority short = Ensures-guard _ _ _ λ local. Ensures-guard _ _ _ λ scope.
      Ensures-guard _ _ _ λ _. Ensures-guard _ _ _ λ _. Ensures-guard _ _ _ λ same.
        let here = (and-eq-true_iff _ _).0 local in
        let equal = same_text-eq supplied a.operator_token same in
        Ensures-ok _
          (Authority.shared short here.0 equal (rw equal (le_of_leb _ _ here.1)) scope refl)

  -- An operator is let in only with a token signed under the configured secret that grants the
  -- scope; or, in a development or test set-up without such a secret, with the shared token of at
  -- least 32 characters and for the two reconciliation scopes.
  pub operator_claims-Authority :
      (claims : OperatorClaims)
      → operator_claims a k supplied required now ≡ ok claims
      → Authority a k supplied required now claims
  unfolding operator_claims
  operator_claims-Authority claims e =
      (Ensures-guard {P = Authority a k supplied required now} _ _ _ λ _.
          Ensures-if (leb 32 (length a.operator_signing_secret)) _ _
            (λ long. record {
              returned = λ c granted. Authority.signed (le_of_leb _ _ long) (
                  verify_operator_token-IsVerified k supplied a.operator_signing_secret required now
                    c (caught _ c granted));
            })
            (λ short. legacy-Authority (ground arith))).returned
        claims e
