-- ===== src/Operators/Base64.antt =====
-- `_b64encode` and `_b64decode` of app/services/ops_tokens.py, over the url-safe alphabet of Python's
-- base64 module.
pub mod Round
use kunlun_model_gateway.Base.{
  ℕ, ◌+◌, ◌-◌, ◌*◌, ◌/◌, ◌%◌, Bool, true, false, ◌&&◌, ◌||◌, Option, none, some, List, [], ◌∷◌,
  ◌++◌, ltb, leb, ◌==◌, length, if◌then◌else◌,
}

-- A digit of six bits.
abbrev pub character : ℕ → ℕ
character n =
    if ltb n 26
    then b'A' + n
    else if ltb n 52
    then b'a' + (n - 26)
    else if ltb n 62
    then b'0' + (n - 52)
    else if n == 62
    then b'-'
    else b'_'

-- `altchars` adds a second spelling of the last two digits.
abbrev pub digit : ℕ → Option ℕ
digit c =
    if leb b'A' c && leb c b'Z'
    then some (c - b'A')
    else if leb b'a' c && leb c b'z'
    then some (c - b'a' + 26)
    else if leb b'0' c && leb c b'9'
    then some (c - b'0' + 52)
    else if (c == b'-') || (c == b'+')
    then some 62
    else if (c == b'_') || (c == b'/')
    then some 63
    else none

-- `urlsafe_b64encode(value).rstrip(b"=")`: three bytes are four digits, and the padding is left off.
unfoldable pub b64encode : List ℕ → List ℕ
b64encode [] = []
b64encode (a ∷ []) = character (a / 4) ∷ character (a % 4 * 16) ∷ []
b64encode (a ∷ b ∷ []) =
    character (a / 4) ∷ character (a % 4 * 16 + b / 16) ∷ character (b % 16 * 4) ∷ []
b64encode (a ∷ b ∷ c ∷ rest) =
    character (a / 4)
    ∷ character (a % 4 * 16 + b / 16)
    ∷ character (b % 16 * 4 + c / 64)
    ∷ character (c % 64)
    ∷ b64encode rest

-- `"=" * (-len(value) % 4)`.
abbrev pub pads : ℕ → List ℕ
pads n =
    if n == 0
    then []
    else if n == 1
    then b'=' ∷ b'=' ∷ b'=' ∷ []
    else if n == 2
    then b'=' ∷ b'=' ∷ []
    else b'=' ∷ []

abbrev pub padding : List ℕ → List ℕ
padding value = pads (length value % 4)

abbrev pub two : Option ℕ → Option ℕ → Option (List ℕ)
two (some p) (some q) = some ((p * 4 + q / 16) ∷ [])
two (some p) none = none
two none q = none

abbrev pub three : Option ℕ → Option ℕ → Option ℕ → Option (List ℕ)
three (some p) (some q) (some r) = some ((p * 4 + q / 16) ∷ (q % 16 * 16 + r / 4) ∷ [])
three (some p) (some q) none = none
three (some p) none r = none
three none q r = none

abbrev pub four : Option ℕ → Option ℕ → Option ℕ → Option ℕ → Option (List ℕ) → Option (List ℕ)
four (some p) (some q) (some r) (some s) (some rest) =
    some ((p * 4 + q / 16) ∷ (q % 16 * 16 + r / 4) ∷ (r % 4 * 64 + s) ∷ rest)
four (some p) (some q) (some r) (some s) none = none
four (some p) (some q) (some r) none rest = none
four (some p) (some q) none s rest = none
four (some p) none r s rest = none
four none q r s rest = none

-- The last four characters, where the fourth is `=`.
abbrev pub final_group : ℕ → ℕ → ℕ → List ℕ → Option (List ℕ)
final_group a b c [] =
    if c == b'=' then two (digit a) (digit b) else three (digit a) (digit b) (digit c)
final_group a b c (d ∷ rest) = none

-- `base64.b64decode(padded, altchars=b"-_", validate=True)`; `none` is its ValueError.
unfoldable pub decode_padded : List ℕ → Option (List ℕ)
decode_padded [] = some []
decode_padded (a ∷ []) = none
decode_padded (a ∷ b ∷ []) = none
decode_padded (a ∷ b ∷ c ∷ []) = none
decode_padded (a ∷ b ∷ c ∷ d ∷ rest) =
    let whole = four (digit a) (digit b) (digit c) (digit d) (decode_padded rest) in
    if d == b'=' then final_group a b c rest else whole

unfoldable pub b64decode : List ℕ → Option (List ℕ)
b64decode value = decode_padded (value ++ padding value)
