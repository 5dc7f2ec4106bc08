-- ===== src/Edge/BodyLimit.antt =====
-- RequestBodyLimitMiddleware of app/middleware.py.
pub mod Whole
use kunlun_model_gateway.Base.{
  ℕ, ◌+◌, ◌++◌, Bool, true, false, ◌||◌, Option, some, none, List, [], ◌∷◌, ltb, length,
  if◌then◌else◌,
}
use kunlun_model_gateway.Base.Int.{ℤ, pos, ltb_ℤ}
use kunlun_model_gateway.Streaming.{after_prefix}
use kunlun_model_gateway.Providers.{contains_text}
use kunlun_model_gateway.Json.{codes}

-- What `receive` returns: a part of the body, and whether more of it comes; the end of the
-- connection; or a message of another type.
pub data Message : Type 0 where
  request : List ℕ → Bool → Message
  disconnect other : Message

pub record Limits : Type 0 where
  pub default_limit : ℕ
  pub webhook_limit : ℕ
  pub auth_limit : ℕ

-- A request of type "http": its method and path, and the Content-Length header, where it is there and
-- not empty, with `none` for a text that `int` refuses.
pub record Scope : Type 0 where
  pub method : List ℕ
  pub path : List ℕ
  pub content_length : Option (Option ℤ)

abbrev starts : List ℕ → List ℕ → Bool
starts prefix text = elim (after_prefix prefix text) [ none ↦ false | some rest ↦ true ]

unfoldable pub limit_of : Limits → List ℕ → ℕ
limit_of l path =
    if contains_text path (codes "/billing/webhook" ∷ codes "/billing/live/webhook" ∷ [])
    then l.webhook_limit
    else if starts (codes "/auth/") path || starts (codes "/v1/auth/") path
    then l.auth_limit
    else l.default_limit

-- What the middleware does: it calls the app with the messages that are left to receive, it answers
-- with the status, it ends with the connection, or it still waits for a message.
pub data Passage : Type 0 where
  passed : List Message → Passage
  rejected : ℕ → Passage
  dropped waiting : Passage

-- The loop over the messages; `read` are the bytes so far. Then `replay` delivers the body at once,
-- and after it what the server still sends.
unfoldable pub gather : ℕ → List ℕ → List Message → Passage
gather limit read [] = Passage.waiting
gather limit read (disconnect ∷ rest) = Passage.dropped
gather limit read (other ∷ rest) = gather limit read rest
gather limit read (request chunk more ∷ rest) = elim (ltb limit (length read + length chunk)) [
  | true ↦ Passage.rejected 413
  | false ↦ elim more [
    | true ↦ gather limit (read ++ chunk) rest
    | false ↦ Passage.passed (request (read ++ chunk) false ∷ rest)
  ]
]

unfoldable pub check_length : ℕ → Option (Option ℤ) → List Message → Passage
check_length limit none messages = gather limit [] messages
check_length limit (some none) messages = Passage.rejected 400
check_length limit (some (some n)) messages =
    if ltb_ℤ (pos limit) n then Passage.rejected 413 else gather limit [] messages

unfoldable pub limit_body : Limits → Scope → List Message → Passage
limit_body l scope messages =
    if contains_text scope.method (codes "GET" ∷ codes "HEAD" ∷ codes "OPTIONS" ∷ [])
    then Passage.passed messages
    else check_length (limit_of l scope.path) scope.content_length messages
