-- ===== src/Billing/Settle.antt =====
-- Repository.Settle of internal/billing/repository.go: the end of a hold, by a usage event.
pub mod Split
pub mod Soundness
use bablo.Prelude.{
  ℕ, suc, ℤ, pos, neg64, sub64, ltb_ℤ, eqb_ℤ, Bool, true, false, not, ◌&&◌, ◌||◌, Option, none,
  some, List, [], ◌∷◌, ◌++◌, Text, codes, text_eq, to_upper, trim_space, byte_len, ◌==◌,
  if◌then◌else◌,
}
use bablo.Billing.Model.{
  Uuid, nil_uuid, Error, Result, ok, err, invalid_input, reservation_not_found,
  reservation_conflict, settlement_conflict, settlement_pending, currency_mismatch,
  balance_overflow, repository, Wallet, Reservation, ReservationStatus, LedgerEntry, EntryType,
  Settlement, SettlementStatus, SettleInput, Event,
}
use bablo.Billing.Store.Tables.{
  Db, find_wallet, find_reservation, find_settlement_of, update_wallet, update_reservation,
  has_open_liability, has_pending_settlement,
}
use bablo.Billing.Store.Tx.{
  Tx, ◌>>=◌, ◌>>◌, pure, throw, reads, or_throw, throw_if, modify, with_tx,
}
use bablo.Billing.Store.Statements.{
  Env, insert_ledger, insert_billing_outbox, persist_settlement, option_eq,
}
use bablo.Billing.Reserve.{safe_add, set_balances}

-- A pointer that is there and differs from the value.
abbrev pub differs : Option Uuid → Uuid → Bool
differs none k = false
differs (some j) k = not (j == k)

abbrev pub both_differ : Option Uuid → Option Uuid → Bool
both_differ (some j) (some k) = not (j == k)
both_differ _ _ = false

-- The tests of the event against the reservation.
unfoldable pub mismatches : Reservation → Event → Bool
mismatches r event =
    not (text_eq r.request_id event.request_id)
    || not (text_eq r.currency event.currency)
    || not (option_eq event.price_version_id (some r.price_version_id))
    || not (option_eq event.wallet_id (some r.wallet_id))
    || differs event.user_id r.user_id
    || both_differ r.api_key_id event.api_key_id

abbrev pub amount_differs : Option ℤ → ℤ → Bool
amount_differs none a = true
amount_differs (some b) a = not (eqb_ℤ b a)

abbrev pub bool_eq : Bool → Bool → Bool
bool_eq true b = b
bool_eq false b = not b

-- A settlement of the reservation that is not the one asked for.
unfoldable pub settlement_differs : Settlement → Reservation → Event → ℤ → Bool
settlement_differs existing r event actual =
    not (existing.usage_event_id == event.id)
    || not (eqb_ℤ existing.reserved_amount_minor r.amount_minor)
    || amount_differs existing.actual_amount_minor actual
    || not (bool_eq existing.estimated event.estimated)

abbrev pub is_settled : SettlementStatus → Bool
is_settled SettlementStatus.settled = true
is_settled _ = false

abbrev pub reservation_is_settled : ReservationStatus → Bool
reservation_is_settled ReservationStatus.settled = true
reservation_is_settled _ = false

abbrev pub reservation_is_released : ReservationStatus → Bool
reservation_is_released ReservationStatus.released = true
reservation_is_released _ = false

-- UPDATE wallet_reservations SET status, settled_amount_minor, usage_event_id, reason.
abbrev pub close_reservation : ReservationStatus → ℤ → Uuid → Text → ℕ → Reservation → Reservation
close_reservation status actual event reason now r = record r {
  status = status;
  settled_amount_minor = some actual;
  usage_event_id = some event;
  reason = reason;
  updated_at = now;
}

abbrev pub set_hold : Bool → ℕ → Wallet → Wallet
set_hold held now w = record w { financial_hold = held; version = suc w.version; updated_at = now }

-- The charge exceeds the hold by more than the wallet has: the settlement waits, and the wallet is
-- held.
unfoldable pub defer_settlement :
    Env → Option Settlement → Reservation → Event → ℤ → Wallet → Tx Settlement
defer_settlement env existing reservation event actual wallet = do
  modify (λ db. record db { wallets = update_wallet wallet.id (set_hold true env.now) db.wallets })
  stored ←
      persist_settlement env existing reservation event.id actual event.estimated
        SettlementStatus.pending (codes "insufficient_funds")
  modify λ db. record db {
    reservations =
        update_reservation reservation.id
          (close_reservation ReservationStatus.settlement_pending actual event.id
            (codes "insufficient_funds") env.now)
          db.reservations;
  }
  insert_billing_outbox (codes "billing_settlement") stored.id (codes "billing.settlement.pending")
      stored.idempotency_key
  pure stored

abbrev pub empty_entry : Env → Wallet → LedgerEntry
empty_entry env wallet = record {
  id = nil_uuid;
  wallet_id = wallet.id;
  entry_type = EntryType.release;
  amount_minor = pos 0;
  available_delta_minor = pos 0;
  reserved_delta_minor = pos 0;
  available_balance_after_minor = wallet.available_balance_minor;
  reserved_balance_after_minor = wallet.reserved_balance_minor;
  currency = wallet.currency;
  reference_type = [];
  reference_id = [];
  idempotency_key = [];
  usage_event_id = none;
  operator_user_id = none;
  source = codes "billing";
  created_at = env.now;
}

abbrev pub charge_entry : Env → Wallet → Event → ℤ → ℤ → ℤ → ℤ → ℤ → LedgerEntry
charge_entry env wallet event actual extra consumed available_after reserved_after =
    record (empty_entry env wallet) {
      entry_type = EntryType.usage_charge;
      amount_minor = neg64 actual;
      available_delta_minor = neg64 extra;
      reserved_delta_minor = neg64 consumed;
      available_balance_after_minor = available_after;
      reserved_balance_after_minor = reserved_after;
      reference_type = codes "usage_event";
      reference_id = env.uuid_text event.id;
      idempotency_key = codes "usage-charge:v1:" ++ env.uuid_text event.id;
      usage_event_id = some event.id;
    }

abbrev pub release_entry : Env → Wallet → Reservation → Text → ℤ → ℤ → ℤ → LedgerEntry
release_entry env wallet reservation key released available_after reserved_after =
    record (empty_entry env wallet) {
      amount_minor = neg64 released;
      available_delta_minor = released;
      reserved_delta_minor = neg64 released;
      available_balance_after_minor = available_after;
      reserved_balance_after_minor = reserved_after;
      reference_type = codes "reservation";
      reference_id = env.uuid_text reservation.id;
      idempotency_key = key;
    }

-- UPDATE wallets of a settlement: the balances, and a hold while another settlement of the wallet
-- is pending or a liability is open.
abbrev pub settle_wallet : Db → Reservation → ℤ → ℤ → ℕ → Wallet → Wallet
settle_wallet db reservation available reserved now w =
    record (set_balances available reserved now w) {
      financial_hold =
          has_pending_settlement (λ k. not (k == reservation.id)) w.id db.reservations
            db.settlements
          || has_open_liability w.id db.liabilities;
    }

-- The ledger entries of a settlement: the charge, and the rest of the hold that is released.
unfoldable pub insert_settlement_entries :
    Env → Wallet → Reservation → Event → ℤ → ℤ → ℤ → ℤ → ℤ → ℤ → Tx (Unit {0})
insert_settlement_entries env wallet reservation event actual extra consumed released available
      reserved =
    do
      let charge_available = sub64 wallet.available_balance_minor extra
      let charge_reserved = sub64 wallet.reserved_balance_minor consumed
      (if ltb_ℤ (pos 0) actual
          then (insert_ledger (
                charge_entry env wallet event actual extra consumed charge_available
                  charge_reserved)
              >> pure tt)
          else pure tt)
      (if ltb_ℤ (pos 0) released
          then (insert_ledger (
                release_entry env wallet reservation
                  (codes "settlement-release:v1:" ++ env.uuid_text event.id) released available
                  reserved)
              >> pure tt)
          else pure tt)
      throw_if (eqb_ℤ actual (pos 0) && eqb_ℤ released (pos 0)) settlement_conflict

-- finalAvailable: what is left of the hold goes back.
abbrev pub final_available : ℤ → ℤ → Tx ℤ
final_available charge_available released =
    if ltb_ℤ (pos 0) released
    then or_throw (safe_add charge_available released) balance_overflow
    else pure charge_available

abbrev pub final_reserved : ℤ → ℤ → ℤ
final_reserved charge_reserved released =
    if ltb_ℤ (pos 0) released then sub64 charge_reserved released else charge_reserved

-- The charge is covered by the hold and the wallet.
unfoldable pub charge :
    Env → Option Settlement → Reservation → Event → ℤ → ℤ → Wallet → Tx Settlement
charge env existing reservation event actual extra wallet = do
  let consumed = if ltb_ℤ reservation.amount_minor actual then reservation.amount_minor else actual
  let released = sub64 reservation.amount_minor consumed
  let reserved = final_reserved (sub64 wallet.reserved_balance_minor consumed) released
  available ← final_available (sub64 wallet.available_balance_minor extra) released
  throw_if (ltb_ℤ available (pos 0) || ltb_ℤ reserved (pos 0)) settlement_conflict
  modify λ db. record db {
    wallets =
        update_wallet wallet.id (settle_wallet db reservation available reserved env.now)
          db.wallets;
  }
  insert_settlement_entries env wallet reservation event actual extra consumed released available
      reserved
  stored ←
      persist_settlement env existing reservation event.id actual event.estimated
        SettlementStatus.settled []
  modify λ db. record db {
    reservations =
        update_reservation reservation.id
          (close_reservation ReservationStatus.settled actual event.id [] env.now) db.reservations;
  }
  insert_billing_outbox (codes "billing_settlement") stored.id (codes "billing.settlement.settled")
      stored.idempotency_key
  pure stored

-- The result of the callback: the settlement, and whether it is pending.
unfoldable pub settle_open :
    Env → Option Settlement → Reservation → Event → ℤ → Tx (Settlement × Bool)
settle_open env existing reservation event actual = do
  throw_if (reservation_is_settled reservation.status) settlement_conflict
  throw_if (reservation_is_released reservation.status) reservation_conflict
  found ← reads (λ db. find_wallet reservation.wallet_id db.wallets)
  wallet ← or_throw found repository
  throw_if (not (text_eq wallet.currency reservation.currency)) currency_mismatch
  throw_if (ltb_ℤ wallet.reserved_balance_minor reservation.amount_minor) settlement_conflict
  let extra =
      if ltb_ℤ reservation.amount_minor actual then sub64 actual reservation.amount_minor else pos 0
  if ltb_ℤ wallet.available_balance_minor extra
      then (do
        stored ← defer_settlement env existing reservation event actual wallet
        pure (stored, true))
      else (do
        stored ← charge env existing reservation event actual extra wallet
        pure (stored, false))

unfoldable pub settle_existing :
    Env → Option Settlement → Reservation → Event → ℤ → Tx (Settlement × Bool)
settle_existing env none reservation event actual = settle_open env none reservation event actual
settle_existing env (some existing) reservation event actual = do
  throw_if (settlement_differs existing reservation event actual) settlement_conflict
  if is_settled existing.status
      then pure (existing, false)
      else settle_open env (some existing) reservation event actual

-- The callback of Repository.Settle.
unfoldable pub settle_in_tx : Env → SettleInput → ℤ → Tx (Settlement × Bool)
settle_in_tx env input actual = do
  found ← reads (λ db. find_reservation input.reservation_id db.reservations)
  reservation ← or_throw found reservation_not_found
  throw_if (mismatches reservation input.event) settlement_conflict
  existing ← reads (λ db. find_settlement_of reservation.id db.settlements)
  settle_existing env existing reservation input.event actual

-- Repository.Settle: a pending settlement is committed, and reported as an error.
unfoldable pub settle_rows : Env → SettleInput → ℤ → Tx Settlement
settle_rows env input actual = do
  (stored, pending) ← with_tx (settle_in_tx env input actual)
  if pending then throw settlement_pending else pure stored

-- The checks of Service.Settle (service.go) on an event with an amount.
unfoldable pub is_invalid_settle : SettleInput → ℤ → Bool
is_invalid_settle input actual =
    input.reservation_id == nil_uuid
    || input.event.id == nil_uuid
    || text_eq input.event.request_id []
    || ltb_ℤ actual (pos 0)
    || option_eq input.event.price_version_id none
    || option_eq input.event.price_version_id (some nil_uuid)
    || not (text_eq input.event.currency (to_upper (trim_space input.event.currency)))
    || not (byte_len input.event.currency == 3)

unfoldable pub settle_amount : Env → SettleInput → Option ℤ → Tx Settlement
settle_amount env input none = throw invalid_input
settle_amount env input (some actual) = do
  throw_if (is_invalid_settle input actual) invalid_input
  settle_rows env input actual

-- Service.Settle.
unfoldable pub settle : Env → SettleInput → Tx Settlement
settle env input = settle_amount env input input.event.amount_minor
