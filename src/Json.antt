-- ===== src/Json.antt =====
-- The JSON values that cross the program's borders, as Python's `json` module and the handlers see
-- them: `json.dumps(value, ensure_ascii=False, separators=(",", ":"))`, `dict.get` and `isinstance`.
pub mod Size
pub mod Edit
use Prim.Native.Char.{code}
use Prim.Native.String
use Prim.Native.String.{String}
use kunlun_model_gateway.Base.{
  ℕ, zero, suc, ◌+◌, ◌-◌, ◌/◌, ◌%◌, Bool, true, false, Option, none, some, List, [], ◌∷◌, ◌++◌, ltb,
  ◌==◌, if◌then◌else◌,
}
use kunlun_model_gateway.Base.Int.{ℤ, pos, negsuc}
use kunlun_model_gateway.Models.{same_text}

abbrev pub codes : String → List ℕ
codes String.[] = []
codes (String.◌∷◌ c s) = code c ∷ codes s

-- `real` is a float, by the text that Python prints for it.
mutual
  pub data Json : Type 0 where
    null : Json
    bool : Bool → Json
    int : ℤ → Json
    real : List ℕ → Json
    str : List ℕ → Json
    list : Items → Json
    dict : Fields → Json

  pub data Items : Type 0 where
    nil : Items
    cons : Json → Items → Items

  pub data Fields : Type 0 where
    end : Fields
    field : List ℕ → Json → Fields → Fields

-- Decimal digits; one more round than the value is more than enough.
unfoldable pub digits_from : ℕ → ℕ → List ℕ
digits_from zero n = []
digits_from (suc f) n =
    let more = digits_from f (n / 10) ++ (b'0' + n % 10) ∷ [] in
    if ltb n 10 then (b'0' + n) ∷ [] else more

unfoldable pub digits : ℕ → List ℕ
unfolding digits_from
digits n = digits_from (suc n) n

abbrev hex : ℕ → ℕ
hex n = if ltb n 10 then b'0' + n else b'a' + (n - 10)

-- The escapes of the encoder: the quote, the backslash, and the control characters.
unfoldable pub escape : ℕ → List ℕ
escape c =
    if c == 34
    then 92 ∷ 34 ∷ []
    else if c == 92
    then 92 ∷ 92 ∷ []
    else if c == 10
    then 92 ∷ b'n' ∷ []
    else if c == 13
    then 92 ∷ b'r' ∷ []
    else if c == 9
    then 92 ∷ b't' ∷ []
    else if c == 12
    then 92 ∷ b'f' ∷ []
    else if c == 8
    then 92 ∷ b'b' ∷ []
    else if ltb c 32
    then 92 ∷ b'u' ∷ b'0' ∷ b'0' ∷ hex (c / 16) ∷ hex (c % 16) ∷ []
    else c ∷ []

unfoldable pub escape_all : List ℕ → List ℕ
unfolding escape
escape_all [] = []
escape_all (c ∷ cs) = escape c ++ escape_all cs

unfoldable pub quote : List ℕ → List ℕ
unfolding escape_all
quote s = 34 ∷ (escape_all s ++ 34 ∷ [])

unfoldable mutual
  unfolding quote digits

  pub dumps : Json → List ℕ
  dumps null = codes "null"
  dumps (bool true) = codes "true"
  dumps (bool false) = codes "false"
  dumps (int (pos n)) = digits n
  dumps (int (negsuc n)) = b'-' ∷ digits (suc n)
  dumps (real t) = t
  dumps (str s) = quote s
  dumps (list xs) = b'[' ∷ (dumps_items xs ++ b']' ∷ [])
  dumps (dict fs) = b'{' ∷ (dumps_fields fs ++ b'}' ∷ [])

  pub dumps_items : Items → List ℕ
  dumps_items nil = []
  dumps_items (cons x nil) = dumps x
  dumps_items (cons x (cons y xs)) = dumps x ++ (b',' ∷ dumps_items (cons y xs))

  pub dumps_fields : Fields → List ℕ
  dumps_fields end = []
  dumps_fields (field k v end) = quote k ++ (b':' ∷ dumps v)
  dumps_fields (field k v (field l w fs)) =
      quote k ++ (b':' ∷ (dumps v ++ (b',' ∷ dumps_fields (field l w fs))))

-- `value.get(key)` of a dict; a dict holds a key once.
unfoldable pub get : List ℕ → Fields → Option Json
get k end = none
get k (field l v fs) = if same_text l k then some v else get k fs

-- `isinstance(value, dict)`.
abbrev pub as_dict : Option Json → Option Fields
as_dict (some (dict fs)) = some fs
as_dict _ = none

-- `isinstance(value, list)`.
abbrev pub as_list : Option Json → Option Items
as_list (some (list xs)) = some xs
as_list _ = none

-- `isinstance(value, int)`: `True` and `False` are integers in Python.
abbrev pub as_int : Option Json → Option ℤ
as_int (some (int n)) = some n
as_int (some (bool true)) = some (pos 1)
as_int (some (bool false)) = some (pos 0)
as_int _ = none

-- `isinstance(value, int) and value >= 0`.
abbrev pub as_count : Option Json → Option ℕ
as_count v = elim (as_int v) [ some (pos n) ↦ some n | _ ↦ none ]

abbrev pub as_str : Option Json → Option (List ℕ)
as_str (some (str s)) = some s
as_str _ = none

-- `len(items)`.
unfoldable pub count_items : Items → ℕ
count_items nil = 0
count_items (cons x xs) = suc (count_items xs)
