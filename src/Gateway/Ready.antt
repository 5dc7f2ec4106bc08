-- ===== src/Gateway/Ready.antt =====
-- What `chat_completions` of app/__init__.py needs of the database to close its request.
use kunlun_model_gateway.Base.{
  ℕ, ◌+◌, ◌<◌, ◌≡◌, refl, true, false, Option, some, List, [], ◌∷◌, arith, none,
}
use kunlun_model_gateway.Base.Result.{
  Error, Result, err, Ensures, Ensures-ok, Ensures-guard, Returns, Returns-guard, Returns-ok,
}
use kunlun_model_gateway.Models.{Db, ProviderAttempt, RequestStatus, SafetyAudit, is_among}
use kunlun_model_gateway.Billing.Invariant.{IsSound}
use kunlun_model_gateway.Billing.Release.{
  has_attempt, record_attempt, release_call, release_model_request,
}
use kunlun_model_gateway.Billing.Release.Total.{release_model_request-total}
use kunlun_model_gateway.Billing.Reserve.Opened.{IsOpened}
use kunlun_model_gateway.Payments.Money.{same_money}
use kunlun_model_gateway.Gateway.{Phase, World, add_audit, link_audit}

-- The books are sound, the request is open, and its attempts are those of the rounds before `k`.
pub record IsReady (id k : ℕ) (db : Db) : Type 0 where
  pub sound : IsSound db
  pub opened : IsOpened id db
  pub fresh : (n : ℕ) → k < n → has_attempt id n db.attempts ≡ false

-- What other requests commit leaves this one alone.
abbrev pub Spares : World → ℕ → Type 0
Spares w id = (i k : ℕ) (p : Phase) (db : Db) → IsReady id k db → IsReady id k (w.others i p db)

same_opened :
    (id : ℕ) (db db' : Db)
    → db'.wallets ≡ db.wallets
    → db'.ledger ≡ db.ledger
    → db'.requests ≡ db.requests
    → db'.budgets ≡ db.budgets
    → IsOpened id db
    → IsOpened id db'
same_opened id db db' w l r b o = record {
  request = o.request;
  owner = o.owner;
  request_found = rw r o.request_found;
  reserved = o.reserved;
  positive = o.positive;
  owner_found = rw w o.owner_found;
  budget_found = rw b o.budget_found;
  unreleased = rw l o.unreleased;
}

-- Recording the attempt of a round makes the request ready for the next.
pub attempted-IsReady :
    (id k : ℕ) (a : ProviderAttempt) (db : Db)
    → a.ordinal ≡ k + 1
    → IsReady id k db
    → Ensures (IsReady id (k + 1)) (record_attempt a db)
unfolding record_attempt has_attempt
attempted-IsReady id k a db ordinal ready = Ensures-guard _ _ _ λ _. Ensures-ok _ (record {
  sound = same_money db _ refl refl refl refl ready.sound;
  opened = same_opened id db _ refl refl refl refl ready.opened;
  fresh = λ n later. ground (arith, ready.fresh n);
})

pub audited-IsReady :
    (id k : ℕ) (a : SafetyAudit) (db : Db)
    → IsReady id k db
    → Ensures (IsReady id k) (add_audit a db)
unfolding add_audit
audited-IsReady id k a db ready = Ensures-guard _ _ _ λ _. Ensures-ok _ (record {
  sound = same_money db _ refl refl refl refl ready.sound;
  opened = same_opened id db _ refl refl refl refl ready.opened;
  fresh = ready.fresh;
})

pub record_attempt-Returns :
    (id k : ℕ) (a : ProviderAttempt) (db : Db)
    → a.request_id ≡ id
    → a.ordinal ≡ k + 1
    → IsReady id k db
    → Returns (record_attempt a db)
unfolding record_attempt
record_attempt-Returns id k a db own ordinal ready =
    let unused = ready.fresh (k + 1) (omega arith) in
    Returns-guard _ _ _ (rw (own, ordinal, unused) refl) (Returns-ok _)

among_self :
    (s : RequestStatus)
    → s ≡ RequestStatus.reserved
    → is_among s (RequestStatus.reserved ∷ []) ≡ true
among_self s e = rw e refl

pub release-Returns :
    (id k : ℕ) (category : List ℕ) (now : ℕ) (db : Db)
    → IsReady id k db
    → Returns (release_model_request (release_call id category now) db)
release-Returns id k category now db ready =
    let o = ready.opened in
    release_model_request-total (release_call id category now) db o.request o.request_found o.owner
      ready.sound (refl, tt) (among_self _ o.reserved) o.owner_found o.budget_found o.positive
      o.unreleased

pub not_err {ℓ} : {A : Type ℓ} (m : Result A) (x : Error) → Returns m → m ≡ err x → ⊥
not_err m x r e = let back = r.returned in cc

pub linked-IsReady :
    (id : ℕ) (audit : Option ℕ) (request : ℕ) (db : Db)
    → IsReady id 0 db
    → IsReady id 0 (link_audit audit request db)
unfolding link_audit
linked-IsReady id none request db ready = ready
linked-IsReady id (some audit) request db ready = record {
  sound = same_money db _ refl refl refl refl ready.sound;
  opened = same_opened id db _ refl refl refl refl ready.opened;
  fresh = ready.fresh;
}
