-- ===== src/Json/Edit.antt =====
-- The dict methods by which app/__init__.py edits payloads and responses: `d[key] = value`,
-- `d.pop(key, None)` and `d.setdefault(key, value)`.
use kunlun_model_gateway.Base.{ℕ, ◌≡◌, some, List, arith, is_some, if◌then◌else◌}
use kunlun_model_gateway.Json.{Json, Fields, end, field, get}
use kunlun_model_gateway.Models.{same_text, same_text_refl}

-- A key that is there keeps its place.
unfoldable pub assign : List ℕ → Json → Fields → Fields
assign k v end = field k v end
assign k v (field l w fs) = if same_text l k then field l v fs else field l w (assign k v fs)

-- A dict holds a key once.
unfoldable pub pop : List ℕ → Fields → Fields
pop k end = end
pop k (field l w fs) = if same_text l k then fs else field l w (pop k fs)

unfoldable pub set_default : List ℕ → Json → Fields → Fields
set_default k v fs = if is_some (get k fs) then fs else assign k v fs

pub get-assign : (k : List ℕ) (v : Json) (fs : Fields) → get k (assign k v fs) ≡ some v
unfolding get assign
get-assign k v end = rw (same_text_refl k)
get-assign k v (field l w fs) = ground (arith, get-assign k v fs)
