-- ===== src/Operators/Tokens/Round.antt =====
-- A token that app/services/ops_tokens.py mints is accepted.
use mathlib.Core.Bool.{and-eq-true_iff}
use mathlib.Core.List.{append_assoc, append-nil}
use kunlun_model_gateway.Base.{
  ℕ, ◌+◌, ◌≤◌, ◌<◌, ◌≡◌, refl, true, false, some, List, [], ◌∷◌, ◌++◌, arith, length, leb, ◌&&◌,
  Bool-cases, ap, inl, inr,
}
use kunlun_model_gateway.Operators.Base64.{b64encode}
use kunlun_model_gateway.Operators.Base64.Round.{
  AreBytes, IsPlain, b64encode-IsPlain, b64decode-b64encode,
}
use kunlun_model_gateway.Operators.Tokens.{
  Codec, MintCall, OperatorClaims, mint_operator_token, verify_operator_token, split_from, join,
  prefix, is_ascii, texts_of, text_items, check_claims, is_nil, read_claims, validate_secret,
  all_allowed, audience_of, nonempty, payload_of, signature, allowed_scopes, check_parts,
  check_signature, same_bytes,
}
use kunlun_model_gateway.Json.{Json, get, dict}
use kunlun_model_gateway.Base.Result.{Ensures, ok, Ensures-guard, Ensures-ok, guard, require, ◌>>=◌}
use kunlun_model_gateway.Base.Int.{pos, ◌-ℤ◌}
use kunlun_model_gateway.Providers.{contains_text}
use kunlun_model_gateway.Models.{same_text_refl, same_text, same_text-eq}

split_from-join :
    (part s rest : List ℕ)
    → IsPlain s
    → split_from part (join s rest) ≡ (part ++ s) ∷ split_from [] rest
unfolding split_from
split_from-join part [] rest h = rw append-nil
split_from-join part (c ∷ s) rest h =
    rw (split_from, h.1, split_from-join (part ++ (c ∷ [])) s rest h.2, append_assoc) refl

split_from-last : (part s : List ℕ) → IsPlain s → split_from part s ≡ (part ++ s) ∷ []
unfolding split_from
split_from-last part [] h = rw append-nil
split_from-last part (c ∷ s) h =
    rw (split_from, h.1, split_from-last (part ++ (c ∷ [])) s h.2, append_assoc) refl

plain-is_ascii : (s : List ℕ) → IsPlain s → is_ascii s ≡ true
unfolding is_ascii
plain-is_ascii [] h = refl
plain-is_ascii (c ∷ s) h = ground (arith, plain-is_ascii s h.2)

-- What the libraries are relied on for: codes and texts are bytes, and `json` reads what it wrote.
pub record IsFaithful (k : Codec) (v : Json) : Type 0 where
  pub hmac_bytes : (key text : List ℕ) → AreBytes (k.hmac key text)
  pub text_bytes : AreBytes (k.dumps v)
  pub loads-dumps : k.loads (k.dumps v) ≡ some v

texts_of-text_items : (scopes : List (List ℕ)) → texts_of (text_items scopes) ≡ some scopes
unfolding texts_of text_items
texts_of-text_items [] = refl
texts_of-text_items (s ∷ scopes) = rw (texts_of-text_items scopes) refl

parts-join :
    (a b : List ℕ)
    → IsPlain a
    → IsPlain b
    → split_from [] (join (join prefix a) b) ≡ prefix ∷ a ∷ b ∷ []
unfolding split_from
parts-join a b p q = rw (split_from-join [] a b p, split_from-last [] b q)

-- The claims of a token that was minted with these arguments.
abbrev pub claims_of : MintCall → OperatorClaims
claims_of q = record {
  subject = q.subject;
  scopes = q.scopes;
  issued_at = pos q.issued_at;
  expires_at = pos (q.issued_at + q.ttl_seconds);
  token_id = q.token_id;
}

nonempty-text : (s : List ℕ) → is_nil s ≡ false → nonempty (some s) ≡ some s
nonempty-text [] h = absurd (cc)
nonempty-text (c ∷ s) h = refl

read_claims-payload_of :
    (q : MintCall)
    → is_nil q.subject ≡ false
    → is_nil q.token_id ≡ false
    → read_claims (payload_of q) ≡ ok (claims_of q)
unfolding read_claims get require ◌>>=◌
read_claims-payload_of q subject token =
    rw (
      nonempty-text q.subject subject,
      nonempty-text q.token_id token,
      texts_of-text_items q.scopes,
    )

audience-payload_of :
    (q : MintCall) → audience_of (some (dict (payload_of q))) ≡ some (payload_of q)
unfolding get
audience-payload_of q = refl

-- The token that a call mints, and what it has checked.
record IsMinted (k : Codec) (secret : List ℕ) (q : MintCall) (token : List ℕ) : Type 0 where
  long : validate_secret k secret ≡ true
  subject : is_nil q.subject ≡ false
  scopes : all_allowed q.scopes ≡ true
  short : q.ttl_seconds ≤ 900
  lasting : 30 ≤ q.ttl_seconds
  text :
      token
      ≡ join
          (join prefix (b64encode (k.dumps (dict (payload_of q)))))
          (b64encode (signature k secret (b64encode (k.dumps (dict (payload_of q))))))

mint-IsMinted :
    (k : Codec) (secret : List ℕ) (q : MintCall)
    → Ensures (IsMinted k secret q) (mint_operator_token k secret q)
unfolding mint_operator_token
mint-IsMinted k secret q = Ensures-guard _ _ _ λ long. Ensures-guard _ _ _ λ subject.
    Ensures-guard _ _ _ λ scopes. Ensures-guard _ _ _ λ ttl. Ensures-ok _ (record {
      long = long;
      subject = ground arith;
      scopes = ground arith;
      short = ground arith;
      lasting = ground arith;
      text = refl;
    })

check_claims-ok :
    (q : MintCall) (required : List ℕ) (now : ℕ)
    → all_allowed q.scopes ≡ true
    → contains_text required q.scopes ≡ true
    → 30 ≤ q.ttl_seconds
    → q.ttl_seconds ≤ 900
    → q.issued_at ≤ now + 30
    → now < q.issued_at + q.ttl_seconds
    → check_claims (claims_of q) required now ≡ ok (claims_of q)
unfolding check_claims guard ◌>>=◌ ◌-ℤ◌
check_claims-ok q required now known scoped lasting short early live = ground arith

allowed-contains :
    (s : List ℕ) (scopes : List (List ℕ))
    → all_allowed scopes ≡ true
    → contains_text s scopes ≡ true
    → contains_text s allowed_scopes ≡ true
unfolding all_allowed contains_text
allowed-contains s [] known here = absurd (cc)
allowed-contains s (t ∷ scopes) known here =
    let (first, rest) = (and-eq-true_iff _ _).0 known in
    elim (Bool-cases (same_text s t)) [
      | inl same ↦ rw (same_text-eq s t same) first
      | inr other ↦ allowed-contains s scopes rest (rw other at here)
    ]

check_parts-minted :
    (k : Codec) (secret : List ℕ) (v : Json) (faithful : IsFaithful k v)
    → check_parts k secret (
        prefix
        ∷ b64encode (k.dumps v)
        ∷ b64encode (signature k secret (b64encode (k.dumps v)))
        ∷ [])
      ≡ ok (k.dumps v)
unfolding check_parts check_signature same_bytes guard require ◌>>=◌
check_parts-minted k secret v faithful =
    let bytes = faithful.text_bytes in
    rw (
      plain-is_ascii _ (b64encode-IsPlain (k.dumps v) bytes),
      b64decode-b64encode _
          (faithful.hmac_bytes (k.utf8 secret) (join prefix (b64encode (k.dumps v)))),
      same_text_refl (signature k secret (b64encode (k.dumps v))),
      b64decode-b64encode (k.dumps v) bytes,
    )

-- A token that is minted is accepted, with its own claims, for each scope that it lists, from the
-- time of its issue (30 seconds of clock skew allowed) until it expires. (It has at most 4096
-- characters, and an id.)
pub verify-mint :
    (k : Codec) (secret : List ℕ) (q : MintCall) (token required : List ℕ) (now : ℕ)
    → IsFaithful k (dict (payload_of q))
    → mint_operator_token k secret q ≡ ok token
    → is_nil q.token_id ≡ false
    → length token ≤ 4_096
    → contains_text required q.scopes ≡ true
    → q.issued_at ≤ now + 30
    → now < q.issued_at + q.ttl_seconds
    → verify_operator_token k token secret required now ≡ ok (claims_of q)
unfolding verify_operator_token guard require ◌>>=◌
verify-mint k secret q token required now faithful minted id fits scoped early live =
    let m = (mint-IsMinted k secret q).returned token minted in
    let encoded = b64encode (k.dumps (dict (payload_of q))) in
    let code = b64encode (signature k secret encoded) in
    let long : leb 1 (length token) && leb (length token) 4_096 ≡ true =
      ground (arith, ap (λ (t : List ℕ). length t) m.text) in
    rw (m.long, long, allowed-contains required q.scopes m.scopes scoped, m.text)
      (rw
        (
          parts-join encoded code (b64encode-IsPlain _ (faithful.text_bytes))
              (b64encode-IsPlain _ (faithful.hmac_bytes _ _)),
          check_parts-minted k secret (dict (payload_of q)) faithful,
          faithful.loads-dumps,
          audience-payload_of q,
          read_claims-payload_of q m.subject id,
        )
        (check_claims-ok q required now m.scopes scoped m.lasting m.short early live))
