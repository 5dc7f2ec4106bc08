-- ===== src/Edge/BodyLimit/Whole.antt =====
-- What app/middleware.py lets through is the whole body of the request, within the limit.
use mathlib.Core.List.{append_assoc, append-nil}
use kunlun_model_gateway.Base.Int.{pos, ℤ, ltb_ℤ}
use kunlun_model_gateway.Base.{
  ℕ, ◌+◌, ◌++◌, ◌≡◌, ◌≤◌, refl, Bool, true, false, Option, some, none, List, [], ◌∷◌, ltb, length,
  inl, inr, arith, Bool-cases, Option-cases, length-append, not,
}
use kunlun_model_gateway.Edge.BodyLimit.{
  Message, Passage, gather, request, disconnect, other, check_length, Scope, limit_body, Limits,
  limit_of,
}
use kunlun_model_gateway.Providers.{contains_text}
use kunlun_model_gateway.Json.{codes}

abbrev before_rest : List ℕ → Option (List ℕ × List Message) → Option (List ℕ × List Message)
before_rest chunk none = none
before_rest chunk (some (body, rest)) = some (chunk ++ body, rest)

-- The body that the server sends, and the messages behind it.
unfoldable pub whole_body : List Message → Option (List ℕ × List Message)
whole_body [] = none
whole_body (disconnect ∷ rest) = none
whole_body (other ∷ rest) = whole_body rest
whole_body (request chunk false ∷ rest) = some (chunk, rest)
whole_body (request chunk true ∷ rest) = before_rest chunk (whole_body rest)

-- What is passed on is the body that was read and the rest of it, at once.
pub record IsWhole (limit : ℕ) (read : List ℕ) (messages seen : List Message) : Type 0 where
  pub body : List ℕ
  pub rest : List Message
  pub sent : whole_body messages ≡ some (body, rest)
  pub delivered : seen ≡ request (read ++ body) false ∷ rest
  pub within : length (read ++ body) ≤ limit

passed_eq : (a b : List Message) → Passage.passed b ≡ Passage.passed a → a ≡ b
passed_eq a b e = cc

some_pair :
    {a c : List ℕ} {b d : List Message}
    → ◌≡◌ {A = Option (List ℕ × List Message)} (some (a, b)) (some (c, d))
    → (a ≡ c) × (b ≡ d)
some_pair e = (cc, cc)

module _ (limit : ℕ) where
  gather-IsWhole :
      (read : List ℕ) (messages seen : List Message)
      → gather limit read messages ≡ Passage.passed seen
      → IsWhole limit read messages seen
  unfolding gather whole_body
  gather-IsWhole read [] seen e = absurd (cc)
  gather-IsWhole read (disconnect ∷ rest) seen e = absurd (cc)
  gather-IsWhole read (other ∷ rest) seen e =
      let w = gather-IsWhole read rest seen e in
      record {
        body = w.body;
        rest = w.rest;
        sent = w.sent;
        delivered = w.delivered;
        within = w.within;
      }
  gather-IsWhole read (request chunk false ∷ rest) seen e =
      elim (Bool-cases (ltb limit (length read + length chunk))) [
        | inl long ↦ absurd (cc (rw (gather, long) at e))
        | inr short ↦ record {
          body = chunk;
          rest = rest;
          sent = refl;
          delivered = passed_eq seen _ (rw (gather, short) at e);
          within = ground (arith, length-append read chunk, short);
        }
      ]
  gather-IsWhole read (request chunk true ∷ rest) seen e =
      elim (Bool-cases (ltb limit (length read + length chunk))) [
        | inl long ↦ absurd (cc (rw (gather, long) at e))
        | inr short ↦
            let w = gather-IsWhole (read ++ chunk) rest seen (rw (gather, short) at e) in
            record {
              body = chunk ++ w.body;
              rest = w.rest;
              sent = rw w.sent refl;
              delivered = rw (← append_assoc) w.delivered;
              within = rw (← append_assoc) w.within;
            }
      ]

  within_left :
      (read chunk body : List ℕ)
      → length (read ++ (chunk ++ body)) ≤ limit
      → ltb limit (length read + length chunk) ≡ false
  within_left read chunk body h =
      ground (arith, length-append read (chunk ++ body), length-append chunk body, h)

  gather-passes :
      (read : List ℕ) (messages : List Message) (body : List ℕ) (rest : List Message)
      → whole_body messages ≡ some (body, rest)
      → length (read ++ body) ≤ limit
      → gather limit read messages ≡ Passage.passed (request (read ++ body) false ∷ rest)
  unfolding gather whole_body
  gather-passes read [] body rest e h = absurd (cc)
  gather-passes read (disconnect ∷ ms) body rest e h = absurd (cc)
  gather-passes read (other ∷ ms) body rest e h = gather-passes read ms body rest e h
  gather-passes read (request chunk false ∷ ms) body rest e h =
      let (same, same') = some_pair e in
      rw (gather, within_left read chunk [] (rw (append-nil, same) h), same, same') refl
  gather-passes read (request chunk true ∷ ms) body rest e h = elim (Option-cases (whole_body ms)) [
    | inl gone ↦ absurd (cc (rw gone at e))
    | inr ((more, after), there) ↦
        let (same, same') = some_pair (rw there at e) in
        let fits : length (read ++ (chunk ++ more)) ≤ limit = rw same h in
        rw
          (
            gather,
            within_left read chunk more fits,
            gather-passes (read ++ chunk) ms more after there (rw append_assoc fits),
            append_assoc,
            same,
            same',
          )
          refl
  ]

not-true : (b : Bool) → not b ≡ true → b ≡ false
not-true b e = ground arith

abbrev pub reads_body : Scope → Bool
reads_body scope =
    not (contains_text scope.method (codes "GET" ∷ codes "HEAD" ∷ codes "OPTIONS" ∷ []))

-- The header is missing, or not above the limit.
abbrev pub LengthFits : ℕ → Option (Option ℤ) → Type 0
LengthFits limit none = Unit
LengthFits limit (some none) = ⊥
LengthFits limit (some (some n)) = ltb_ℤ (pos limit) n ≡ false

check_length-IsWhole :
    (limit : ℕ) (header : Option (Option ℤ)) (messages seen : List Message)
    → check_length limit header messages ≡ Passage.passed seen
    → IsWhole limit [] messages seen
unfolding check_length
check_length-IsWhole limit none messages seen e = gather-IsWhole limit [] messages seen e
check_length-IsWhole limit (some none) messages seen e = absurd (cc)
check_length-IsWhole limit (some (some n)) messages seen e =
    elim (Bool-cases (ltb_ℤ (pos limit) n)) [
      | inl long ↦ absurd (cc (rw long at e))
      | inr short ↦ gather-IsWhole limit [] messages seen (rw short at e)
    ]

check_length-passes :
    (limit : ℕ) (header : Option (Option ℤ)) (messages : List Message)
    → LengthFits limit header
    → check_length limit header messages ≡ gather limit [] messages
unfolding check_length
check_length-passes limit none messages fits = refl
check_length-passes limit (some none) messages fits = absurd fits
check_length-passes limit (some (some n)) messages fits = rw fits refl

-- What the app receives of a request with a body is the whole body that the server has sent, as one
-- message, and the messages behind it; and the body is within the limit of the path, whatever the
-- Content-Length header says.
pub limit_body-IsWhole :
    (l : Limits) (scope : Scope) (messages seen : List Message)
    → reads_body scope ≡ true
    → limit_body l scope messages ≡ Passage.passed seen
    → IsWhole (limit_of l scope.path) [] messages seen
unfolding limit_body
limit_body-IsWhole l scope messages seen reads e =
    check_length-IsWhole (limit_of l scope.path) scope.content_length messages seen
      (rw (not-true _ reads) at e)

-- A request whose body is within the limit of its path, and whose Content-Length is missing or
-- within it too, reaches the app with the whole body, in however many messages it was sent.
pub limit_body-passes :
    (l : Limits) (scope : Scope) (messages : List Message) (body : List ℕ) (rest : List Message)
    → reads_body scope ≡ true
    → LengthFits (limit_of l scope.path) scope.content_length
    → whole_body messages ≡ some (body, rest)
    → length body ≤ limit_of l scope.path
    → limit_body l scope messages ≡ Passage.passed (request body false ∷ rest)
unfolding limit_body
limit_body-passes l scope messages body rest reads fits sent within =
    rw
      (
        not-true _ reads,
        check_length-passes (limit_of l scope.path) scope.content_length messages fits,
      )
      (gather-passes (limit_of l scope.path) [] messages body rest sent within)
