-- ===== src/Ledger/Wallets.antt =====
-- A wallet is a cached view of the journal: its two columns are the sums of the user's entries in
-- `customer_available` and `customer_reserved` (app/models.py, app/services/ledger.py).
use kunlun_model_gateway.Base.{ℕ, ◌≡◌, sym, subst, ◌∙◌, inl, inr, false, some, List, ◌==◌, arith}
use kunlun_model_gateway.Base.Int.{ℤ, pos, ◌+ℤ◌, int_laws}
use kunlun_model_gateway.Base.Table.{find, put, find-put_cases, key-find, find_self}
use kunlun_model_gateway.Models.{Account, LedgerKey, LedgerTransaction, Wallet}
use kunlun_model_gateway.Ledger.{Entry}
use kunlun_model_gateway.Ledger.Sums.{amount_in, balance_of}
use kunlun_model_gateway.Ledger.Post.{Posted}

abbrev pub wallet_key : Wallet → ℕ
wallet_key w = w.user_id

-- The wallet shows what the journal records of its user.
pub record Shows (ledger : List LedgerTransaction) (w : Wallet) : Type 0 where
  pub available : pos w.balance_microusd ≡ balance_of w.user_id Account.customer_available ledger
  pub held : pos w.reserved_microusd ≡ balance_of w.user_id Account.customer_reserved ledger

pub record IsReconciled (wallets : List Wallet) (ledger : List LedgerTransaction) : Type 0 where
  pub shown : (u : ℕ) (w : Wallet) → find wallet_key u wallets ≡ some w → Shows ledger w

-- The new columns differ from the old by what the entries add.
pub record Moves (entries : List Entry) (w w' : Wallet) : Type 0 where
  pub same_user : w'.user_id ≡ w.user_id
  pub available :
      pos w'.balance_microusd
      ≡ amount_in Account.customer_available entries +ℤ pos w.balance_microusd
  pub held :
      pos w'.reserved_microusd
      ≡ amount_in Account.customer_reserved entries +ℤ pos w.reserved_microusd

zero_left : (x : ℤ) → pos 0 +ℤ x ≡ x
zero_left x = omega int_laws

module _ {key : LedgerKey} {entries : List Entry} {ledger ledger' : List LedgerTransaction}
    {w w' : Wallet} (posted : Posted w.user_id key entries ledger ledger')
    (moves : Moves entries w w') where
  own_sum :
      (a : Account)
      → balance_of w.user_id a ledger' ≡ amount_in a entries +ℤ balance_of w.user_id a ledger
  own_sum a = ground (arith, posted.sums w.user_id a)

  other_sum :
      (u : ℕ) (a : Account)
      → (w.user_id == u) ≡ false
      → balance_of u a ledger' ≡ balance_of u a ledger
  other_sum u a ne = ground (arith, posted.sums u a, zero_left (balance_of u a ledger))

  Shows-own : Shows ledger w → Shows ledger' w'
  Shows-own s = record {
    available = rw (moves.available, s.available, moves.same_user, own_sum);
    held = rw (moves.held, s.held, moves.same_user, own_sum);
  }

  Shows-other :
      (v : Wallet) (u : ℕ)
      → v.user_id ≡ u
      → (w.user_id == u) ≡ false
      → Shows ledger v
      → Shows ledger' v
  Shows-other v u e ne s = record {
    available = s.available ∙ sym (other_sum v.user_id _ (rw e ne));
    held = s.held ∙ sym (other_sum v.user_id _ (rw e ne));
  }

  -- Writing the wallet and posting the entries in one transaction keeps every wallet reconciled.
  pub put-IsReconciled :
      (wallets : List Wallet)
      → find wallet_key w.user_id wallets ≡ some w
      → IsReconciled wallets ledger
      → IsReconciled (put wallet_key w' wallets) ledger'
  put-IsReconciled wallets here r = record {
    shown = λ u v e. elim (find-put_cases wallet_key w' w v u wallets (rw moves.same_user here) e) [
      | inl (at, new) ↦ rw new (Shows-own (r.shown w.user_id w here))
      | inr (ne, old) ↦
          Shows-other v u (key-find wallet_key u wallets v old) (rw moves.same_user at ne)
            (r.shown u v old)
    ];
  }

-- The same, for a wallet that was read by its user.
pub write-IsReconciled :
    {user : ℕ} {key : LedgerKey} {entries : List Entry} {ledger ledger' : List LedgerTransaction}
    {w w' : Wallet} (wallets : List Wallet)
    → Posted user key entries ledger ledger'
    → Moves entries w w'
    → find wallet_key user wallets ≡ some w
    → IsReconciled wallets ledger
    → IsReconciled (put wallet_key w' wallets) ledger'
write-IsReconciled {user} {key} {entries} {ledger} {ledger'} {w} wallets posted moves here =
    put-IsReconciled
      (subst (λ u. Posted u key entries ledger ledger')
        (sym (key-find wallet_key user wallets w here)) posted)
      moves wallets (find_self wallet_key user wallets w here)
