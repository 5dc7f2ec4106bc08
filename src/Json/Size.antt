-- ===== src/Json/Size.antt =====
-- A text as UTF-8: whether it can be encoded, and in how many bytes.
use kunlun_model_gateway.Base.{
  ℕ, ◌+◌, Bool, true, List, [], ◌∷◌, ◌&&◌, ◌||◌, ltb, leb, if◌then◌else◌,
}

unfoldable pub utf8_width : ℕ → ℕ
utf8_width c = if ltb c 0x80 then 1 else if ltb c 0x800 then 2 else if ltb c 0x10000 then 3 else 4

-- `len(text.encode("utf-8"))`.
unfoldable pub utf8_length : List ℕ → ℕ
unfolding utf8_width
utf8_length [] = 0
utf8_length (c ∷ cs) = utf8_width c + utf8_length cs

-- `encode("utf-8")` does not raise UnicodeEncodeError: no character is a surrogate.
unfoldable pub is_encodable : List ℕ → Bool
is_encodable [] = true
is_encodable (c ∷ cs) = (ltb c 0xD800 || leb 0xE000 c) && is_encodable cs
