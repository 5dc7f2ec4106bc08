-- ===== src/ContentSafety/Closed.antt =====
-- The adapter of app/services/content_safety.py fails closed.
use mathlib.Core.List.{append_assoc, append-nil}
use kunlun_model_gateway.Base.{
  ◌++◌, length-append, ℕ, ◌≡◌, ◌≤◌, refl, Bool, true, Option, some, none, List, [], ◌∷◌, arith, inl,
  inr, length, Bool-cases, ltb, ◌+◌, ◌==◌, ==_iff, ◌&&◌, leb, if◌then◌else◌, false, joined,
}
use kunlun_model_gateway.Json.{Json, Fields, get, codes, bool, int, real, str, list, dict, null}
use kunlun_model_gateway.Providers.{Exchange, Interrupt, lost, response}
use kunlun_model_gateway.ContentSafety.{
  SafetyDecision, SafetyAnswer, collect, decide_with, lost_answer, read_decision, read_fields, dict,
  bool, check, is_reason, receive_decision, decision_of,
}

abbrev pub IdFits : Option (List ℕ) → Type 0
IdFits none = Unit
IdFits (some text) = length text ≤ 128

abbrev AllFit : Option (Option (List ℕ)) → Type 0
AllFit none = Unit
AllFit (some id) = IdFits id

if_fits :
    (text : List ℕ) (b : Bool)
    → leb (length text) 128 ≡ b
    → AllFit (if b then some (some text) else none)
if_fits text true e = ground arith
if_fits text false e = tt

decision_of-AllFit : (v : Option Json) → AllFit (decision_of v)
unfolding decision_of
decision_of-AllFit none = tt
decision_of-AllFit (some null) = tt
decision_of-AllFit (some (str text)) = if_fits text _ refl
decision_of-AllFit (some (bool b)) = tt
decision_of-AllFit (some (int n)) = tt
decision_of-AllFit (some (real t)) = tt
decision_of-AllFit (some (list xs)) = tt
decision_of-AllFit (some (dict fields)) = tt

-- What a decision rests on: a response with status 200, complete and at most 65536 bytes long, whose
-- JSON is an object with that `allowed`, a reason code that fits, and an id of at most 128 characters.
pub record IsDecided (loads : List ℕ → Option Json) (exchange : Exchange) (d : SafetyDecision)
    : Type 0 where
  pub chunks : List (List ℕ)
  pub fields : Fields
  pub answered : exchange ≡ response 200 chunks none
  pub bounded : length (joined chunks) ≤ 65_536
  pub decoded : loads (joined chunks) ≡ some (dict fields)
  pub decision : get (codes "allowed") fields ≡ some (bool d.allowed)
  pub reason_fits : is_reason d.reason_code ≡ true
  pub id_fits : IdFits d.decision_id

abbrev pub IsAnswered : (loads : List ℕ → Option Json) → Exchange → SafetyAnswer → Type 0
IsAnswered loads exchange (SafetyAnswer.decided d) = IsDecided loads exchange d
IsAnswered loads exchange SafetyAnswer.unavailable = Unit
IsAnswered loads exchange SafetyAnswer.cancelled = Unit
IsAnswered loads exchange SafetyAnswer.failed = Unit

lost_answer-IsAnswered :
    (loads : List ℕ → Option Json) (exchange : Exchange) (i : Interrupt)
    → IsAnswered loads exchange (lost_answer i)
lost_answer-IsAnswered loads exchange Interrupt.connect_error = tt
lost_answer-IsAnswered loads exchange Interrupt.connect_timeout = tt
lost_answer-IsAnswered loads exchange Interrupt.read_timeout = tt
lost_answer-IsAnswered loads exchange Interrupt.write_timeout = tt
lost_answer-IsAnswered loads exchange Interrupt.pool_timeout = tt
lost_answer-IsAnswered loads exchange Interrupt.cancelled = tt
lost_answer-IsAnswered loads exchange Interrupt.other = tt

module _ (loads : List ℕ → Option Json) (chunks : List (List ℕ))
    (bounded : length (joined chunks) ≤ 65_536) where
  decide_with-IsAnswered :
      (fields : Fields) (allowed : Bool) (reason : Option (List ℕ)) (id : Option (Option (List ℕ)))
      → loads (joined chunks) ≡ some (dict fields)
      → get (codes "allowed") fields ≡ some (bool allowed)
      → AllFit id
      → IsAnswered loads (response 200 chunks none) (decide_with allowed reason id)
  unfolding decide_with
  decide_with-IsAnswered fields allowed none id read e fit = tt
  decide_with-IsAnswered fields allowed (some reason) none read e fit = tt
  decide_with-IsAnswered fields allowed (some reason) (some id) read e fit =
      elim (Bool-cases (is_reason reason)) [
        | inl fits ↦ rw fits (record {
          chunks = chunks;
          fields = fields;
          answered = refl;
          bounded = bounded;
          decoded = read;
          decision = e;
          reason_fits = fits;
          id_fits = fit;
        })
        | inr other ↦ rw other tt
      ]

  read_fields-IsAnswered :
      (fields : Fields) (v : Option Json)
      → loads (joined chunks) ≡ some (dict fields)
      → get (codes "allowed") fields ≡ v
      → IsAnswered loads (response 200 chunks none) (read_fields fields v)
  unfolding read_fields
  read_fields-IsAnswered fields none read e = tt
  read_fields-IsAnswered fields (some (bool allowed)) read e =
      decide_with-IsAnswered fields allowed _ _ read e (decision_of-AllFit _)
  read_fields-IsAnswered fields (some null) read e = tt
  read_fields-IsAnswered fields (some (int n)) read e = tt
  read_fields-IsAnswered fields (some (real t)) read e = tt
  read_fields-IsAnswered fields (some (str t)) read e = tt
  read_fields-IsAnswered fields (some (list xs)) read e = tt
  read_fields-IsAnswered fields (some (dict fs)) read e = tt

  read_decision-IsAnswered :
      (v : Option Json)
      → loads (joined chunks) ≡ v
      → IsAnswered loads (response 200 chunks none) (read_decision v)
  unfolding read_decision
  read_decision-IsAnswered none e = tt
  read_decision-IsAnswered (some (dict fields)) e = read_fields-IsAnswered fields _ e refl
  read_decision-IsAnswered (some null) e = tt
  read_decision-IsAnswered (some (bool b)) e = tt
  read_decision-IsAnswered (some (int n)) e = tt
  read_decision-IsAnswered (some (real t)) e = tt
  read_decision-IsAnswered (some (str t)) e = tt
  read_decision-IsAnswered (some (list xs)) e = tt

module _ (loads : List ℕ → Option Json) (all : List (List ℕ)) where
  collect-IsAnswered :
      (content : List ℕ) (chunks : List (List ℕ)) (i : Option Interrupt)
      → content ++ joined chunks ≡ joined all
      → length content ≤ 65_536
      → IsAnswered loads (response 200 all i) (collect loads content chunks i)
  unfolding collect joined
  collect-IsAnswered content [] none same bounded =
      let whole : content ≡ joined all = rw append-nil at same in
      read_decision-IsAnswered loads all (rw (← whole) bounded) _ (rw (← whole) refl)
  collect-IsAnswered content [] (some i) same bounded = lost_answer-IsAnswered loads _ i
  collect-IsAnswered content (chunk ∷ chunks) i same bounded =
      elim (Bool-cases (ltb 65_536 (length content + length chunk))) [
        | inl long ↦ rw (collect, long) tt
        | inr short ↦
            rw (collect, short)
              (collect-IsAnswered (content ++ chunk) chunks i (rw append_assoc same)
                (ground (arith, length-append content chunk, short)))
      ]

receive_decision-IsAnswered :
    (loads : List ℕ → Option Json) (exchange : Exchange)
    → IsAnswered loads exchange (receive_decision loads exchange)
unfolding receive_decision
receive_decision-IsAnswered loads (lost i) = lost_answer-IsAnswered loads (lost i) i
receive_decision-IsAnswered loads (response status chunks i) = elim (Bool-cases (status == 200)) [
  | inl fine ↦
      let same : status ≡ 200 = (==_iff _ _).0 fine in
      rw (fine, same) (collect-IsAnswered loads chunks [] chunks i refl (omega arith))
  | inr other ↦ rw other tt
]

-- The adapter decides only on a complete answer of the service that is a JSON object with a Boolean
-- `allowed` and a fitting reason code, and the decision is that Boolean; whatever else happens, the
-- call fails, and so no content is allowed.
pub check-IsAnswered :
    (loads : List ℕ → Option Json) (max_content_bytes : ℕ) (model : List ℕ)
    (content : Option (List ℕ)) (exchange : Exchange)
    → IsAnswered loads exchange (check loads max_content_bytes model content exchange)
unfolding check
check-IsAnswered loads max_content_bytes model none exchange = tt
check-IsAnswered loads max_content_bytes model (some bytes) exchange =
    elim (Bool-cases
      ((leb 1 (length model) && leb (length model) 120) && leb (length bytes) max_content_bytes)) [
        | inl fits ↦ rw fits (receive_decision-IsAnswered loads exchange)
        | inr other ↦ rw other tt
      ]
