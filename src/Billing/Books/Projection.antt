-- ===== src/Billing/Books/Projection.antt =====
-- Repository.RebuildBalance (internal/billing/repository.go) against the wallet rows.
use bablo.Prelude.{◌≡◌, subst, IsInt64, ℤ, pos, ◌≤ℤ◌, some, arith}
use bablo.Billing.Model.{Uuid, ok, Wallet}
use bablo.Billing.Store.Tables.{Db, find_wallet}
use bablo.Billing.Credit.{rebuild_balance, int64_total}
use bablo.Billing.Books.Wallets.{available_of, reserved_of}
use bablo.Billing.Books.Holds.{held_of-nonneg}
use bablo.Billing.Books.Sound.{IsSound}

int64_total-ok : (a : ℤ) → IsInt64 a → int64_total a ≡ ok a
unfolding int64_total
int64_total-ok a h = ground arith

rebuild_balance_at :
    (k : Uuid) (db : Db)
    → IsSound db
    → rebuild_balance k db ≡ ok (available_of k db.wallets, reserved_of k db.wallets)
unfolding rebuild_balance
rebuild_balance_at k db s =
    let at = s.at k in
    let nonneg : pos 0 ≤ℤ reserved_of k db.wallets =
      rw at.held (held_of-nonneg k db.reservations s.amounts) in
    let available =
      int64_total-ok (available_of k db.wallets) (omega (arith, at.nonneg), at.available_cap) in
    let reserved =
      int64_total-ok (reserved_of k db.wallets) (omega (arith, nonneg), at.reserved_cap) in
    rw (
      subst (λ z. int64_total z ≡ ok (available_of k db.wallets)) at.available available,
      subst (λ z. int64_total z ≡ ok (reserved_of k db.wallets)) at.reserved reserved,
      rebuild_balance,
    )

-- In sound books the ledger of a wallet rebuilds the balances of its row, without overflow.
pub rebuild_balance-wallet :
    (w : Wallet) (db : Db)
    → IsSound db
    → find_wallet w.id db.wallets ≡ some w
    → rebuild_balance w.id db ≡ ok (w.available_balance_minor, w.reserved_balance_minor)
unfolding available_of reserved_of
rebuild_balance-wallet w db s found = ground (arith, rebuild_balance_at w.id db s)
