-- ===== src/Billing/Release.antt =====
-- Repository.Release of internal/billing/repository.go: the whole hold goes back.
pub mod Soundness
use bablo.Prelude.{
  ℕ, ℤ, sub64, ltb_ℤ, Bool, true, false, ◌++◌, Text, codes, if◌then◌else◌, not, ◌==◌,
}
use bablo.Billing.Model.{
  nil_uuid, reservation_not_found, reservation_conflict, balance_overflow, repository, Wallet,
  Reservation, ReservationStatus, ReleaseInput,
}
use bablo.Billing.Store.Tables.{
  Db, find_wallet, find_reservation, update_wallet, update_reservation,
}
use bablo.Billing.Store.Tx.{Tx, ◌>>=◌, ◌>>◌, pure, reads, or_throw, throw_if, modify, with_tx}
use bablo.Billing.Store.Statements.{Env, insert_ledger, insert_billing_outbox}
use bablo.Billing.Reserve.{safe_add, set_balances}
use bablo.Billing.Settle.{release_entry, reservation_is_released}

abbrev pub is_reserved : ReservationStatus → Bool
is_reserved ReservationStatus.reserved = true
is_reserved _ = false

abbrev pub release_reservation : Text → ℕ → Reservation → Reservation
release_reservation reason now r = record r {
  status = ReservationStatus.released;
  reason = reason;
  updated_at = now;
}

-- The writes of Release, once the balances after it are known.
unfoldable pub write_release : Env → ReleaseInput → Reservation → Wallet → ℤ → ℤ → Tx (Unit {0})
write_release env input reservation wallet available_after reserved_after = do
  modify λ db. record db {
    wallets =
        update_wallet wallet.id (set_balances available_after reserved_after env.now) db.wallets;
  }
  insert_ledger (
      release_entry env wallet reservation (codes "release:v1:" ++ env.uuid_text reservation.id)
        reservation.amount_minor available_after reserved_after)
  modify λ db. record db {
    reservations =
        update_reservation reservation.id (release_reservation input.reason env.now)
          db.reservations;
  }
  insert_billing_outbox (codes "wallet_reservation") reservation.id
      (codes "billing.reservation.released") (codes "release:v1:" ++ env.uuid_text reservation.id)

unfoldable pub release_open : Env → ReleaseInput → Reservation → Tx (Unit {0})
release_open env input reservation = do
  throw_if (not (is_reserved reservation.status)) reservation_conflict
  found ← reads (λ db. find_wallet reservation.wallet_id db.wallets)
  wallet ← or_throw found repository
  throw_if (ltb_ℤ wallet.reserved_balance_minor reservation.amount_minor) reservation_conflict
  available_after ←
      or_throw (safe_add wallet.available_balance_minor reservation.amount_minor) balance_overflow
  write_release env input reservation wallet available_after
      (sub64 wallet.reserved_balance_minor reservation.amount_minor)

-- A hold that was released is left alone.
unfoldable pub release_found : Env → ReleaseInput → Reservation → Tx (Unit {0})
release_found env input reservation =
    if reservation_is_released reservation.status
    then pure tt
    else release_open env input reservation

unfoldable pub release_in_tx : Env → ReleaseInput → Tx (Unit {0})
release_in_tx env input = do
  found ← reads (λ db. find_reservation input.reservation_id db.reservations)
  reservation ← or_throw found reservation_not_found
  release_found env input reservation

-- Repository.Release.
unfoldable pub release : Env → ReleaseInput → Tx (Unit {0})
release env input = with_tx (release_in_tx env input)
