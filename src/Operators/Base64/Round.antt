-- ===== src/Operators/Base64/Round.antt =====
-- The base64 of app/services/ops_tokens.py reads back what it writes.
use kunlun_model_gateway.Base.{
  ℕ, ap, ◌+◌, ◌*◌, ◌/◌, ◌%◌, ◌<◌, ◌≡◌, refl, false, some, List, [], ◌∷◌, ◌++◌, arith, length, ◌==◌,
}
use kunlun_model_gateway.Operators.Base64.{
  b64decode, b64encode, character, decode_padded, digit, pads, padding,
}

abbrev pub AreBytes : List ℕ → Type 0
AreBytes [] = Unit
AreBytes (a ∷ s) = (a < 256) × AreBytes s

digit-character : (n : ℕ) → n < 64 → digit (character n) ≡ some n
digit-character n h = ground arith

not-pad : (n : ℕ) → n < 64 → (character n == b'=') ≡ false
not-pad n h = ground arith

one_byte : (a : ℕ) → a < 256 → a / 4 * 4 + a % 4 * 16 / 16 ≡ a
one_byte a h = omega arith

mid_byte : (a b : ℕ) → a < 256 → b < 256 → a / 4 * 4 + (a % 4 * 16 + b / 16) / 16 ≡ a
mid_byte a b h k = omega arith

last_byte : (a b : ℕ) → b < 256 → (a % 4 * 16 + b / 16) % 16 * 16 + b % 16 * 4 / 4 ≡ b
last_byte a b h = omega arith

second_byte :
    (a b c : ℕ)
    → b < 256
    → c < 256
    → (a % 4 * 16 + b / 16) % 16 * 16 + (b % 16 * 4 + c / 64) / 4 ≡ b
second_byte a b c h k = omega arith

third_byte : (b c : ℕ) → c < 256 → (b % 16 * 4 + c / 64) % 4 * 64 + c % 64 ≡ c
third_byte b c h = omega arith

padding-group : (w x y z : ℕ) (s : List ℕ) → padding (w ∷ x ∷ y ∷ z ∷ s) ≡ padding s
padding-group w x y z s =
    let same : (length s + 4) % 4 ≡ length s % 4 = omega arith in
    let grown : length (w ∷ x ∷ y ∷ z ∷ s) % 4 ≡ length s % 4 = omega (arith, same) in ap pads grown

decode-encode :
    (s : List ℕ) → AreBytes s → decode_padded (b64encode s ++ padding (b64encode s)) ≡ some s
unfolding decode_padded b64encode
decode-encode [] h = refl
decode-encode (a ∷ []) h = rw (
  digit-character (a / 4) (omega arith),
  digit-character (a % 4 * 16) (omega arith),
  one_byte a h.0,
)
decode-encode (a ∷ b ∷ []) h = rw (
  not-pad (b % 16 * 4) (omega arith),
  digit-character (a / 4) (omega arith),
  digit-character (a % 4 * 16 + b / 16) (omega arith),
  digit-character (b % 16 * 4) (omega arith),
  mid_byte a b h.0 h.1.0,
  last_byte a b h.1.0,
)
decode-encode (a ∷ b ∷ c ∷ rest) h = rw (
  not-pad (c % 64) (omega arith),
  digit-character (a / 4) (omega arith),
  digit-character (a % 4 * 16 + b / 16) (omega arith),
  digit-character (b % 16 * 4 + c / 64) (omega arith),
  digit-character (c % 64) (omega arith),
  padding-group _ _ _ _ (b64encode rest),
  decode-encode rest h.1.1.1,
  mid_byte a b h.0 h.1.0,
  second_byte a b c h.1.0 h.1.1.0,
  third_byte b c h.1.1.0,
)

-- Decoding what was encoded gives the bytes back.
pub b64decode-b64encode : (s : List ℕ) → AreBytes s → b64decode (b64encode s) ≡ some s
unfolding b64decode
b64decode-b64encode s h = decode-encode s h

-- The alphabet is ASCII and has no dot.
abbrev pub IsPlain : List ℕ → Type 0
IsPlain [] = Unit
IsPlain (c ∷ s) = (c < 128) × ((c == b'.') ≡ false) × IsPlain s

plain : (n : ℕ) → n < 64 → (character n < 128) × ((character n == b'.') ≡ false)
plain n h = (ground arith, ground arith)

pub b64encode-IsPlain : (s : List ℕ) → AreBytes s → IsPlain (b64encode s)
unfolding b64encode
b64encode-IsPlain [] h = tt
b64encode-IsPlain (a ∷ []) h =
    let p = plain (a / 4) (omega arith) in
    let q = plain (a % 4 * 16) (omega arith) in (p.0, p.1, (q.0, q.1, tt))
b64encode-IsPlain (a ∷ b ∷ []) h =
    let p = plain (a / 4) (omega arith) in
    let q = plain (a % 4 * 16 + b / 16) (omega arith) in
    let r = plain (b % 16 * 4) (omega arith) in (p.0, p.1, (q.0, q.1, (r.0, r.1, tt)))
b64encode-IsPlain (a ∷ b ∷ c ∷ rest) h =
    let p = plain (a / 4) (omega arith) in
    let q = plain (a % 4 * 16 + b / 16) (omega arith) in
    let r = plain (b % 16 * 4 + c / 64) (omega arith) in
    let s = plain (c % 64) (omega arith) in
    (p.0, p.1, (q.0, q.1, (r.0, r.1, (s.0, s.1, b64encode-IsPlain rest h.1.1.1))))
