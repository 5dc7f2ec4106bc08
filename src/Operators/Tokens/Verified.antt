-- ===== src/Operators/Tokens/Verified.antt =====
-- What a token that app/services/ops_tokens.py accepts proves.
use kunlun_model_gateway.Base.{
  ℕ, ◌+◌, ◌≤◌, ◌≡◌, refl, true, some, List, [], ◌∷◌, arith, le_of_leb, length, not, ◌&&◌,
}
use kunlun_model_gateway.Base.Int.{ℤ, pos, ltb_ℤ, ◌≤ℤ◌, ◌-ℤ◌}
use kunlun_model_gateway.Base.Result.{
  ok, Ensures, Ensures-ok, Ensures-err, Ensures-bind, Ensures-guard, Ensures-require, Ensures-call,
  Ensures-map, Ensures-required,
}
use kunlun_model_gateway.Models.{same_text-eq}
use kunlun_model_gateway.Providers.{contains_text}
use kunlun_model_gateway.Operators.Base64.{b64decode}
use kunlun_model_gateway.Operators.Tokens.{
  Codec, OperatorClaims, all_allowed, check_claims, check_parts, check_signature, prefix,
  same_bytes, signature, split_from, verify_operator_token,
}

-- The token has three parts, and the last is the code of the second under the secret.
pub record IsSigned (k : Codec) (secret token body : List ℕ) : Type 0 where
  pub encoded : List ℕ
  pub supplied : List ℕ
  pub parts : split_from [] token ≡ prefix ∷ encoded ∷ supplied ∷ []
  pub mac : b64decode supplied ≡ some (signature k secret encoded)
  pub decoded : b64decode encoded ≡ some body

-- The claims grant the scope at the time `now`, and for at most 930 seconds more.
pub record IsGranted (claims : OperatorClaims) (required : List ℕ) (now : ℕ) : Type 0 where
  pub known : all_allowed claims.scopes ≡ true
  pub scoped : contains_text required claims.scopes ≡ true
  pub unexpired : ltb_ℤ (pos now) claims.expires_at ≡ true
  pub bounded : claims.expires_at ≤ℤ pos (now + 930)

pub record IsVerified (k : Codec) (secret token required : List ℕ) (now : ℕ)
    (claims : OperatorClaims) : Type 0 where
  pub body : List ℕ
  pub signed : IsSigned k secret token body
  pub granted : IsGranted claims required now
  pub long_secret : 32 ≤ length (k.utf8 secret)

module _ (k : Codec) (secret : List ℕ) where
  check_signature-Signed :
      (encoded supplied : List ℕ)
      → Ensures
          (λ (body : List ℕ).
            (b64decode supplied ≡ some (signature k secret encoded))
            × (b64decode encoded ≡ some body))
          (check_signature k secret encoded supplied)
  unfolding check_signature same_bytes
  check_signature-Signed encoded supplied = Ensures-guard _ _ _ λ _.
      Ensures-require _ _ _ λ mac read. Ensures-guard _ _ _ λ same.
        Ensures-required _ _
          λ body decoded. (rw (same_text-eq (signature k secret encoded) mac same) read, decoded)

  check_parts-IsSigned :
      (token : List ℕ) (parts : List (List ℕ))
      → split_from [] token ≡ parts
      → Ensures (IsSigned k secret token) (check_parts k secret parts)
  unfolding check_parts
  check_parts-IsSigned token [] e = Ensures-err _
  check_parts-IsSigned token (head ∷ []) e = Ensures-err _
  check_parts-IsSigned token (head ∷ encoded ∷ []) e = Ensures-err _
  check_parts-IsSigned token (head ∷ encoded ∷ supplied ∷ more ∷ rest) e = Ensures-err _
  check_parts-IsSigned token (head ∷ encoded ∷ supplied ∷ []) e = Ensures-guard _ _ _ λ same.
      Ensures-map _ (check_signature-Signed encoded supplied) λ body (mac, decoded). record {
        encoded = encoded;
        supplied = supplied;
        parts = rw (← same_text-eq head prefix same) e;
        mac = mac;
        decoded = decoded;
      }

within :
    (now : ℕ) (i e : ℤ)
    → not (ltb_ℤ (pos (now + 30)) i) && (ltb_ℤ i e && not (ltb_ℤ (pos 900) (e -ℤ i))) ≡ true
    → e ≤ℤ pos (now + 930)
unfolding ◌-ℤ◌
within now i e h = ground arith

check_claims-IsGranted :
    (claims : OperatorClaims) (required : List ℕ) (now : ℕ)
    → Ensures (λ (c : OperatorClaims). IsGranted c required now) (check_claims claims required now)
unfolding check_claims
check_claims-IsGranted claims required now = Ensures-guard _ _ _ λ scopes.
    Ensures-guard _ _ _ λ times. Ensures-guard _ _ _ λ live. Ensures-ok _ (record {
      known = ground arith;
      scoped = ground arith;
      unexpired = live;
      bounded = within now claims.issued_at claims.expires_at times;
    })

-- A token that is accepted carries the code of its payload under a secret of at least 32 bytes, and
-- its claims are known scopes, the required one among them, that are not expired and expire within
-- 930 seconds.
pub verify_operator_token-IsVerified :
    (k : Codec) (token secret required : List ℕ) (now : ℕ) (claims : OperatorClaims)
    → verify_operator_token k token secret required now ≡ ok claims
    → IsVerified k secret token required now claims
unfolding verify_operator_token
verify_operator_token-IsVerified k token secret required now claims e =
    (Ensures-guard {P = IsVerified k secret token required now} _ _ _ λ long.
        Ensures-guard _ _ _ λ _. Ensures-guard _ _ _ λ _.
          Ensures-call _ _ (check_parts-IsSigned k secret token _ refl) λ body signed.
            Ensures-require _ _ _ λ fields _. Ensures-bind _ _ λ read _.
              Ensures-map _ (check_claims-IsGranted read required now) λ c granted. record {
                body = body;
                signed = signed;
                granted = granted;
                long_secret = le_of_leb _ _ long;
              }).returned
      claims e
