-- ===== src/Operators/Audited.antt =====
-- What staging an audit row does, for the operator routes of app/__init__.py.
use kunlun_model_gateway.Base.{◌≡◌, refl, ◌∷◌, Bool-cases, inl, inr, false}
use kunlun_model_gateway.Models.{OperatorAction, Db}
use kunlun_model_gateway.Operators.Actions.{add_action, as_http, has_action}
use kunlun_model_gateway.Base.Result.{
  Result, guard, Ensures, ◌>>=◌, ok, err, Ensures-err, Returns, Returns-ok,
}
use kunlun_model_gateway.Billing.Invariant.{IsSound}
use kunlun_model_gateway.Payments.Money.{same_money}

-- The database with one audit row more.
abbrev pub with_action : OperatorAction → Db → Db
with_action a db = record db { actions = a ∷ db.actions }

pub with_action-IsSound : (a : OperatorAction) (db : Db) → IsSound db → IsSound (with_action a db)
with_action-IsSound a db inv = same_money db (with_action a db) refl refl refl refl inv

module _ {ℓ κ} {B : Type ℓ} {P : B → Type κ} where
  pub Ensures-add_action :
      (a : OperatorAction) (db : Db) (f : Db → Result B)
      → Ensures P (f (with_action a db))
      → Ensures P (add_action a db >>= f)
  unfolding add_action guard ◌>>=◌
  Ensures-add_action a db f h = elim (Bool-cases (has_action a db.actions)) [
    | inl taken ↦ rw taken (Ensures-err _)
    | inr free ↦ rw free h
  ]

  pub Ensures-as_http : (m : Result B) → Ensures P m → Ensures P (as_http m)
  unfolding as_http
  Ensures-as_http (ok b) h = h
  Ensures-as_http (err e) h = Ensures-err _

module _ {ℓ} {B : Type ℓ} where
  pub Returns-add_action :
      (a : OperatorAction) (db : Db) (f : Db → Result B)
      → has_action a db.actions ≡ false
      → Returns (f (with_action a db))
      → Returns (add_action a db >>= f)
  unfolding add_action guard ◌>>=◌
  Returns-add_action a db f fresh r = rw fresh r

  pub Returns-as_http : (m : Result B) → Returns m → Returns (as_http m)
  unfolding as_http
  Returns-as_http (ok b) r = Returns-ok b
  Returns-as_http (err e) r = absurd (cc (r.returned))

pub as_http-ok {ℓ} : {A : Type ℓ} (m : Result A) (a : A) → as_http m ≡ ok a → m ≡ ok a
unfolding as_http
as_http-ok (ok b) a e = e
as_http-ok (err x) a e = absurd (cc)
