-- ===== src/Billing/Books/Wallets.antt =====
-- The wallets table under its statements.
use bablo.Prelude.{◌≡◌, ℤ, pos, none, some, List, [], ◌∷◌, Text, ◌==◌, if◌then◌else◌, arith}
use mathlib.Core.Option
use bablo.Billing.Model.{Uuid, Wallet}
use bablo.Billing.Store.Tables.{find_wallet, find_wallet_of, update_wallet}

-- The balances of the wallet with an id; no wallet, no money.
unfoldable pub available_of : Uuid → List Wallet → ℤ
available_of k ws = elim (find_wallet k ws) [ none ↦ pos 0 | some w ↦ w.available_balance_minor ]

unfoldable pub reserved_of : Uuid → List Wallet → ℤ
reserved_of k ws = elim (find_wallet k ws) [ none ↦ pos 0 | some w ↦ w.reserved_balance_minor ]

-- No id stands twice.
abbrev pub IsUnique : List Wallet → Type 0
IsUnique [] = Unit
IsUnique (w ∷ ws) = (find_wallet w.id ws ≡ none) × IsUnique ws

pub find_wallet_id :
    (k : Uuid) (ws : List Wallet) {w : Wallet} → find_wallet k ws ≡ some w → w.id ≡ k
unfolding find_wallet
find_wallet_id k [] h = cc
find_wallet_id k (v ∷ ws) {w} h = ground (arith, find_wallet_id k ws {w = w})

-- With unique ids, the row that an owner's query finds is the row of its id.
pub find_wallet_of_id :
    (user : Uuid) (currency : Text) (ws : List Wallet) {w : Wallet}
    → IsUnique ws
    → find_wallet_of user currency ws ≡ some w
    → find_wallet w.id ws ≡ some w
unfolding find_wallet find_wallet_of
find_wallet_of_id user currency [] u h = cc
find_wallet_of_id user currency (v ∷ ws) {w} u h =
    ground (arith, find_wallet_of_id user currency ws {w = w} u.1)

module _ (k : Uuid) (f : Wallet → Wallet) (keeps : (w : Wallet) → (f w).id ≡ w.id) where
  pub find_wallet-update :
      (j : Uuid) (ws : List Wallet)
      → find_wallet j (update_wallet k f ws)
        ≡ (if k == j then Option.map f (find_wallet j ws) else find_wallet j ws)
  unfolding find_wallet update_wallet
  find_wallet-update j [] = ground arith
  find_wallet-update j (w ∷ ws) = ground (arith, keeps w, find_wallet-update j ws)

  pub IsUnique-update : (ws : List Wallet) → IsUnique ws → IsUnique (update_wallet k f ws)
  unfolding find_wallet update_wallet
  IsUnique-update [] u = tt
  IsUnique-update (w ∷ ws) u =
      ground (arith, keeps w, IsUnique-update ws u.1, find_wallet-update w.id ws)

  -- What an update makes of the balances at every id.
  pub balances-update :
      (j : Uuid) (ws : List Wallet) {w : Wallet}
      → find_wallet k ws ≡ some w
      → (available_of j (update_wallet k f ws)
          ≡ (if k == j then (f w).available_balance_minor else available_of j ws))
        × (reserved_of j (update_wallet k f ws)
            ≡ (if k == j then (f w).reserved_balance_minor else reserved_of j ws))
  unfolding available_of reserved_of
  balances-update j ws {w} h = ground (arith, find_wallet-update j ws)
