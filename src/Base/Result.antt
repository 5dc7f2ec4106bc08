-- ===== src/Base/Result.antt =====
-- Errors as values. An operation on the database returns `ok (value, database after its commit)`,
-- or `err e` when it raised: its session is then rolled back, and nothing that it wrote stays.
use Prim.Native.Nat.{ℕ}
use mathlib.Core.Path.{◌≡◌, refl, subst}
use mathlib.Core.Logic.{◌⊎◌, inl, inr}
use mathlib.Core.Bool.{Bool, true, false}
use kunlun_model_gateway.Base.Tests.{if◌then◌else◌}
use mathlib.Core.Option.{Option, none, some}

-- The exceptions of the services; the number is the HTTP status that they carry.
pub data Error : Type 0 where
  billing budget payment_domain payment http : ℕ → Error
  unbalanced integrity identity ops_token value_error runtime_error : Error
  stream_too_large stream_line_too_large stream_invalid_json stream_invalid_event : Error

pub data Result {ℓ} (A : Type ℓ) : Type ℓ where
  err : Error → Result A
  ok : A → Result A

infixl 5 ◌>>=◌ ◌>>◌
-- The code after a call, which runs when the call has returned.
unfoldable pub ◌>>=◌ {ℓ μ} : {A : Type ℓ} {C : Type μ} → Result A → (A → Result C) → Result C
err raised >>= next = err raised
ok value >>= next = next value

abbrev pub ◌>>◌ {μ} : {C : Type μ} → Result (Unit {0}) → Result C → Result C
check >> next = check >>= (λ done. next)

-- `if not test: raise e`.
unfoldable pub guard : Bool → Error → Result (Unit {0})
guard false e = err e
guard true e = ok tt

-- `if row is None: raise e`.
unfoldable pub require {ℓ} : {A : Type ℓ} → Option A → Error → Result A
require none e = err e
require (some a) e = ok a

-- `except IntegrityError: rollback; raise e`.
unfoldable pub catch_integrity {ℓ} : {A : Type ℓ} → Error → Result A → Result A
catch_integrity e (ok a) = ok a
catch_integrity e (err integrity) = err e
catch_integrity e (err other) = err other

pub Result-cases {ℓ} :
    {A : Type ℓ} (m : Result A) → ((e : Error) × (m ≡ err e)) ⊎ ((a : A) × (m ≡ ok a))
Result-cases (err e) = inl (e, refl)
Result-cases (ok a) = inr (a, refl)

-- What holds of the value of a call that returns.
pub record Ensures {ℓ κ} {A : Type ℓ} (P : A → Type κ) (m : Result A) : Type (ℓ ⊔ κ) where
  pub returned : (a : A) → m ≡ ok a → P a

ok-injective {ℓ} : {A : Type ℓ} {a b : A} → ok a ≡ ok b → a ≡ b
ok-injective e = cc

module _ {ℓ κ} {B : Type ℓ} {P : B → Type κ} where
  pub Ensures-ok : (b : B) → P b → Ensures P (ok b)
  Ensures-ok b h = record { returned = λ a e. subst P (ok-injective e) h }

  pub Ensures-err : (e : Error) → Ensures P (err e)
  Ensures-err e = record { returned = λ a x. absurd (cc) }

  pub Ensures-bind {μ} :
      {A : Type μ} (m : Result A) (f : A → Result B)
      → ((a : A) → m ≡ ok a → Ensures P (f a))
      → Ensures P (m >>= f)
  unfolding ◌>>=◌
  Ensures-bind (ok a) f h = h a refl
  Ensures-bind (err e) f h = Ensures-err e

  pub Ensures-guard :
      (b : Bool) (e : Error) (f : Unit {0} → Result B)
      → (b ≡ true → Ensures P (f tt))
      → Ensures P (guard b e >>= f)
  unfolding ◌>>=◌ guard
  Ensures-guard true e f h = h refl
  Ensures-guard false e f h = Ensures-err e

  pub Ensures-require {μ} :
      {A : Type μ} (o : Option A) (e : Error) (f : A → Result B)
      → ((a : A) → o ≡ some a → Ensures P (f a))
      → Ensures P (require o e >>= f)
  unfolding ◌>>=◌ require
  Ensures-require (some a) e f h = h a refl
  Ensures-require none e f h = Ensures-err e

  pub Ensures-required :
      (o : Option B) (e : Error) → ((b : B) → o ≡ some b → P b) → Ensures P (require o e)
  unfolding require
  Ensures-required (some b) e h = Ensures-ok b (h b refl)
  Ensures-required none e h = Ensures-err e

  pub Ensures-catch : (e : Error) (m : Result B) → Ensures P m → Ensures P (catch_integrity e m)
  unfolding catch_integrity
  Ensures-catch e (ok a) h = h
  Ensures-catch e (err integrity) h = Ensures-err e
  Ensures-catch e (err other) h = Ensures-err other

  -- A call whose value is known to satisfy `Q` may be followed by code that relies on it.
  pub Ensures-call {μ ν} :
      {A : Type μ} {Q : A → Type ν} (m : Result A) (f : A → Result B)
      → Ensures Q m
      → ((a : A) → Q a → Ensures P (f a))
      → Ensures P (m >>= f)
  Ensures-call m f q h = Ensures-bind m f (λ a e. h a (q.returned a e))

  pub Ensures-map {μ} :
      {Q : B → Type μ} (m : Result B) → Ensures Q m → ((b : B) → Q b → P b) → Ensures P m
  Ensures-map m q h = record { returned = λ b e. h b (q.returned b e) }

  pub Ensures-if :
      (b : Bool) (m n : Result B)
      → (b ≡ true → Ensures P m)
      → (b ≡ false → Ensures P n)
      → Ensures P (if b then m else n)
  Ensures-if true m n h k = h refl
  Ensures-if false m n h k = k refl

-- The call returns: it does not raise.
pub record Returns {ℓ} {A : Type ℓ} (m : Result A) : Type ℓ where
  pub value : A
  pub returned : m ≡ ok value

module _ {ℓ} {B : Type ℓ} where
  pub Returns-ok : (b : B) → Returns (ok b)
  Returns-ok b = record { value = b; returned = refl }

  pub Returns-bind {μ} :
      {A : Type μ} (m : Result A) (f : A → Result B) (a : A)
      → m ≡ ok a
      → Returns (f a)
      → Returns (m >>= f)
  unfolding ◌>>=◌
  Returns-bind m f a e r = record { value = r.value; returned = rw (e, ◌>>=◌) r.returned }

  pub Returns-call {μ} :
      {A : Type μ} (m : Result A) (f : A → Result B)
      → Returns m
      → ((a : A) → Returns (f a))
      → Returns (m >>= f)
  Returns-call m f r k = Returns-bind m f r.value r.returned (k r.value)

  pub Returns-guard :
      (b : Bool) (e : Error) (f : Unit {0} → Result B)
      → b ≡ true
      → Returns (f tt)
      → Returns (guard b e >>= f)
  Returns-guard b e f h r = Returns-bind (guard b e) f tt (unfold guard in rw h refl) r

  pub Returns-require {μ} :
      {A : Type μ} (o : Option A) (e : Error) (f : A → Result B) (a : A)
      → o ≡ some a
      → Returns (f a)
      → Returns (require o e >>= f)
  Returns-require o e f a h r = Returns-bind (require o e) f a (unfold require in rw h refl) r
