-- ===== src/Base/Table.antt =====
-- A table of rows, read and written through a key column, and sums over its rows.
use Prim.Native.Nat.{ℕ, ◌+◌, ◌≤◌}
use mathlib.Core.Path.{◌≡◌, sym, subst, ◌∙◌}
use mathlib.Core.Logic.{◌⊎◌}
use mathlib.Core.Bool.{Bool, true, false}
use mathlib.Core.Option.{Option, none, some}
use mathlib.Core.List.{List, [], ◌∷◌}
use native.Mathlib.Omega.{arith}
use kunlun_model_gateway.Base.Tests.{leb, ◌==◌, if◌then◌else◌, is_some}

module _ {ℓ} {A : Type ℓ} (key : A → ℕ) where
  -- `session.get(Model, k)`, `select(Model).where(Model.key == k)`.
  unfoldable pub find : ℕ → List A → Option A
  find k [] = none
  find k (x ∷ xs) = if key x == k then some x else find k xs

  -- Writes the row back under its own key.
  unfoldable pub put : A → List A → List A
  put r [] = []
  put r (x ∷ xs) = if key x == key r then r ∷ xs else x ∷ put r xs

  pub key-find : (k : ℕ) (xs : List A) (w : A) → find k xs ≡ some w → key w ≡ k
  unfolding find
  key-find k [] w e = cc
  key-find k (x ∷ xs) w e = ground (arith, key-find k xs w)

  -- A row that was found is found under its own key.
  pub find_self : (k : ℕ) (xs : List A) (w : A) → find k xs ≡ some w → find (key w) xs ≡ some w
  find_self k xs w e = subst (λ j. find j xs ≡ some w) (sym (key-find k xs w e)) e

  pub find-put :
      (r : A) (j : ℕ) (xs : List A)
      → is_some (find (key r) xs) ≡ true
      → find j (put r xs) ≡ (if key r == j then some r else find j xs)
  unfolding find put
  find-put r j [] e = cc
  find-put r j (x ∷ xs) e = ground (arith, find-put r j xs)

  -- What was written under the key of a row is found there.
  pub find-put_self :
      (r old : A) (k : ℕ) (xs : List A)
      → find k xs ≡ some old
      → key r ≡ key old
      → find k (put r xs) ≡ some r
  find-put_self r old k xs here same =
      let own = same ∙ key-find k xs old here in ground (arith, own, here, find-put r k xs)

  -- A row of the written table is the row that was written, or one of another key.
  pub find-put_cases :
      (r old v : A) (j : ℕ) (xs : List A)
      → find (key r) xs ≡ some old
      → find j (put r xs) ≡ some v
      → ((key r ≡ j) × (v ≡ r)) ⊎ (((key r == j) ≡ false) × (find j xs ≡ some v))
  find-put_cases r old v j xs here e = ground (arith, find-put r j xs)

  pub find-put-none :
      (r old : A) (j : ℕ) (xs : List A)
      → find (key r) xs ≡ some old
      → find j (put r xs) ≡ none
      → find j xs ≡ none
  find-put-none r old j xs here e = ground (arith, find-put r j xs)

  -- The keys of a row that is there and of one that is not differ.
  pub find-ne :
      (k j : ℕ) (old : A) (xs : List A) → find k xs ≡ some old → find j xs ≡ none → (k == j) ≡ false
  find-ne k j old xs here gone = ground arith

module _ {ℓ} {A : Type ℓ} where
  unfoldable pub sum_by : (A → ℕ) → List A → ℕ
  sum_by g [] = 0
  sum_by g (x ∷ xs) = g x + sum_by g xs

  pub sum_by-put :
      (key g : A → ℕ) (r old : A) (xs : List A)
      → find key (key r) xs ≡ some old
      → sum_by g (put key r xs) + g old ≡ sum_by g xs + g r
  unfolding find put sum_by
  sum_by-put key g r old [] e = cc
  sum_by-put key g r old (x ∷ xs) e = ground (arith, sum_by-put key g r old xs)

  -- A row weighs no more than the table.
  pub le-sum_by :
      (key g : A → ℕ) (k : ℕ) (xs : List A) (w : A) → find key k xs ≡ some w → g w ≤ sum_by g xs
  unfolding find sum_by
  le-sum_by key g k [] w e = cc
  le-sum_by key g k (x ∷ xs) w e = ground (arith, le-sum_by key g k xs w)

  -- `.where(test).order_by(stamp.desc())`, first row; of equal stamps, the first in the table.
  unfoldable pub newest : (A → ℕ) → (A → Bool) → List A → Option A
  newest stamp test [] = none
  newest stamp test (x ∷ xs) =
      let rest = newest stamp test xs in
      if test x
      then elim rest [ none ↦ some x | some y ↦ if leb (stamp y) (stamp x) then some x else some y ]
      else rest

  pub newest-test :
      (stamp : A → ℕ) (test : A → Bool) (xs : List A) (w : A)
      → newest stamp test xs ≡ some w
      → test w ≡ true
  unfolding newest
  newest-test stamp test [] w e = cc
  newest-test stamp test (x ∷ xs) w e = ground (arith, newest-test stamp test xs w)
