-- ===== src/Billing/Holds.antt =====
-- The reservations that open requests hold on a wallet and on a budget.
use kunlun_model_gateway.Base.{
  ℕ, ◌+◌, ◌≡◌, sym, ◌∙◌, true, false, ◌&&◌, some, List, ◌∷◌, ◌==◌, inl, inr, arith, eq_option,
  if◌then◌else◌,
}
use kunlun_model_gateway.Base.Table.{find, put, sum_by, find-put_cases, key-find, sum_by-put}
use kunlun_model_gateway.Models.{Wallet, ModelRequest, holds}
use kunlun_model_gateway.Ledger.Wallets.{wallet_key}

abbrev pub request_key : ModelRequest → ℕ
request_key r = r.id

unfoldable pub hold_of : ℕ → ModelRequest → ℕ
hold_of u r = if (r.user_id == u) && holds r.status then r.reserved_microusd else 0

unfoldable pub hold_on : ℕ → ModelRequest → ℕ
hold_on b r = if eq_option r.budget_id (some b) && holds r.status then r.reserved_microusd else 0

-- A wallet's reserved amount is what the open requests of its user hold.
pub record IsHeld (wallets : List Wallet) (requests : List ModelRequest) : Type 0 where
  pub held :
      (u : ℕ) (w : Wallet)
      → find wallet_key u wallets ≡ some w
      → w.reserved_microusd ≡ sum_by (hold_of u) requests

module _ {wallets : List Wallet} {requests : List ModelRequest}
    (inv : IsHeld wallets requests) where
  -- A new request takes its hold from the wallet.
  pub IsHeld-open :
      (r : ModelRequest) (w w' : Wallet)
      → find wallet_key r.user_id wallets ≡ some w
      → w'.user_id ≡ w.user_id
      → w'.reserved_microusd ≡ w.reserved_microusd + r.reserved_microusd
      → holds r.status ≡ true
      → IsHeld (put wallet_key w' wallets) (r ∷ requests)
  IsHeld-open r w w' here same more opened =
      let owner = same ∙ key-find wallet_key r.user_id wallets w here in
      record {
        held = λ u v e. elim (find-put_cases wallet_key w' w v u wallets (rw owner here) e) [
          | inl (at, new) ↦
              unfold sum_by hold_of in ground (arith, inv.held u w (rw (sym at, owner) here))
          | inr (ne, old) ↦ unfold sum_by hold_of in ground (arith, inv.held u v old)
        ];
      }

  -- A request that is closed gives its hold back.
  pub IsHeld-close :
      (r r' : ModelRequest) (w w' : Wallet)
      → find request_key r'.id requests ≡ some r
      → find wallet_key r.user_id wallets ≡ some w
      → w'.user_id ≡ w.user_id
      → w'.reserved_microusd + r.reserved_microusd ≡ w.reserved_microusd
      → r'.user_id ≡ r.user_id
      → holds r.status ≡ true
      → holds r'.status ≡ false
      → IsHeld (put wallet_key w' wallets) (put request_key r' requests)
  IsHeld-close r r' w w' there here same less user opened shut =
      let owner = same ∙ key-find wallet_key r.user_id wallets w here in
      record {
        held = λ u v e. elim (find-put_cases wallet_key w' w v u wallets (rw owner here) e) [
          | inl (at, new) ↦
              unfold hold_of in
              ground (
                arith,
                inv.held u w (rw (sym at, owner) here),
                sum_by-put request_key (hold_of u) r' r requests there,
              )
          | inr (ne, old) ↦
              unfold hold_of in
              ground
                (arith, inv.held u v old, sum_by-put request_key (hold_of u) r' r requests there)
        ];
      }

  -- What neither opens nor closes a hold.
  pub IsHeld-keep :
      (r r' : ModelRequest)
      → find request_key r'.id requests ≡ some r
      → r'.user_id ≡ r.user_id
      → r'.reserved_microusd ≡ r.reserved_microusd
      → holds r'.status ≡ holds r.status
      → IsHeld wallets (put request_key r' requests)
  IsHeld-keep r r' there user amount same = record {
    held = λ u v e.
        unfold hold_of in
        ground (arith, inv.held u v e, sum_by-put request_key (hold_of u) r' r requests there);
  }

  pub IsHeld-wallet :
      (w w' : Wallet)
      → find wallet_key w.user_id wallets ≡ some w
      → w'.user_id ≡ w.user_id
      → w'.reserved_microusd ≡ w.reserved_microusd
      → IsHeld (put wallet_key w' wallets) requests
  IsHeld-wallet w w' here user same = record {
    held = λ u v e. elim (find-put_cases wallet_key w' w v u wallets (rw user here) e) [
      | inl (at, new) ↦ ground (arith, inv.held u w (rw (sym at, user) here))
      | inr (ne, old) ↦ inv.held u v old
    ];
  }
