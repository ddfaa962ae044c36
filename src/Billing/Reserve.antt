-- ===== src/Billing/Reserve.antt =====
-- Repository.Reserve of internal/billing/repository.go: a hold before the upstream request.
pub mod Soundness
use bablo.Prelude.{
  ℕ, suc, ◌+◌, ℤ, pos, ◌+ℤ◌, neg64, sub64, add64, wrap64, min_int64, max_int64, ltb_ℤ, eqb_ℤ, ◌-ℤ◌,
  Bool, true, false, not, ◌&&◌, ◌||◌, Option, none, some, List, [], ◌∷◌, ◌++◌, Text, codes, text_eq,
  ◌==◌, if◌then◌else◌, any,
}
use bablo.Billing.Model.{
  Uuid, nil_uuid, Error, wallet_frozen, currency_mismatch, insufficient_funds, balance_overflow,
  reservation_conflict, settlement_conflict, Wallet, WalletStatus, Reservation, ReservationStatus,
  LedgerEntry, EntryType, ReserveInput, Quote, TokenUsage,
}
use bablo.Billing.Store.Tables.{Db, find_reservation, find_reservation_of_request, update_wallet}
use bablo.Billing.Store.Tx.{
  Tx, ◌>>=◌, ◌>>◌, pure, throw, reads, or_throw, throw_if, modify, new_id, with_tx,
}
use bablo.Billing.Store.Statements.{
  Env, get_or_create_wallet, validate_published_price, check_budgets, insert_ledger,
  insert_billing_outbox, option_eq,
}

-- safeAdd: the sum, unless it leaves int64.
unfoldable pub safe_add : ℤ → ℤ → Option ℤ
safe_add left right =
    if ltb_ℤ (pos 0) right && ltb_ℤ (sub64 max_int64 right) left
    then none
    else if ltb_ℤ right (pos 0) && ltb_ℤ left (sub64 min_int64 right)
    then none
    else some (add64 left right)

-- uuidPointer (service.go) and cloneUUID: nil for uuid.Nil.
abbrev pub uuid_pointer : Uuid → Option Uuid
uuid_pointer k = if k == nil_uuid then none else some k

abbrev pub clone_uuid : Option Uuid → Option Uuid
clone_uuid none = none
clone_uuid (some k) = uuid_pointer k

abbrev pub reservation_key : Text → Text
reservation_key request_id = codes "billing:v1:" ++ request_id

abbrev pub usage_eq : TokenUsage → TokenUsage → Bool
usage_eq u v =
    eqb_ℤ u.input_tokens v.input_tokens
    && eqb_ℤ u.output_tokens v.output_tokens
    && eqb_ℤ u.cache_read_tokens v.cache_read_tokens
    && eqb_ℤ u.cache_write_tokens v.cache_write_tokens
    && eqb_ℤ u.reasoning_tokens v.reasoning_tokens

-- sameReservationInput.
unfoldable pub same_reservation_input : Reservation → ReserveInput → Quote → Bool
same_reservation_input existing input quote =
    existing.user_id == input.user_id
    && option_eq existing.api_key_id (uuid_pointer input.api_key_id)
    && text_eq existing.request_id input.request_id
    && option_eq existing.request_record_id input.request_record_id
    && option_eq existing.model_id input.model_id
    && option_eq existing.provider_model_id input.provider_model_id
    && option_eq existing.route_version_id input.route_version_id
    && option_eq existing.provider_id input.provider_id
    && option_eq existing.credential_id input.credential_id
    && existing.price_version_id == quote.price_version_id
    && usage_eq existing.estimated_usage input.estimated_usage
    && text_eq existing.reservation_key (reservation_key input.request_id)
    && eqb_ℤ existing.amount_minor quote.amount_minor
    && text_eq existing.currency quote.currency

abbrev pub is_active : WalletStatus → Bool
is_active WalletStatus.active = true
is_active _ = false

-- The row that Reserve inserts.
abbrev pub new_reservation : Env → Uuid → Uuid → ReserveInput → Quote → Reservation
new_reservation env reservation_id wallet_id input quote = record {
  id = reservation_id;
  wallet_id = wallet_id;
  user_id = input.user_id;
  api_key_id = uuid_pointer input.api_key_id;
  request_id = input.request_id;
  request_record_id = clone_uuid input.request_record_id;
  model_id = clone_uuid input.model_id;
  provider_model_id = clone_uuid input.provider_model_id;
  route_version_id = clone_uuid input.route_version_id;
  provider_id = clone_uuid input.provider_id;
  credential_id = clone_uuid input.credential_id;
  price_version_id = quote.price_version_id;
  estimated_usage = input.estimated_usage;
  reservation_key = reservation_key input.request_id;
  amount_minor = quote.amount_minor;
  currency = quote.currency;
  status = ReservationStatus.reserved;
  settled_amount_minor = none;
  usage_event_id = none;
  reason = input.reason;
  expires_at = input.expires_at;
  created_at = env.now;
  updated_at = env.now;
}

-- UPDATE wallets SET available_balance_minor = $2, reserved_balance_minor = $3, version = version + 1.
abbrev pub set_balances : ℤ → ℤ → ℕ → Wallet → Wallet
set_balances available reserved now w = record w {
  available_balance_minor = available;
  reserved_balance_minor = reserved;
  version = suc w.version;
  updated_at = now;
}

-- INSERT INTO wallet_reservations, under its unique id and request.
unfoldable pub insert_reservation : Reservation → Tx (Unit {0})
insert_reservation r = do
  taken ← reads (λ db. any (λ s. s.id == r.id || text_eq s.request_id r.request_id) db.reservations)
  throw_if taken settlement_conflict
  modify (λ db. record db { reservations = r ∷ db.reservations })

-- The ledger entry of a hold.
abbrev pub hold_entry : Env → ReserveInput → Quote → Wallet → ℤ → ℤ → LedgerEntry
hold_entry env input quote wallet available_after reserved_after = record {
  id = nil_uuid;
  wallet_id = wallet.id;
  entry_type = EntryType.reservation;
  amount_minor = quote.amount_minor;
  available_delta_minor = neg64 quote.amount_minor;
  reserved_delta_minor = quote.amount_minor;
  available_balance_after_minor = available_after;
  reserved_balance_after_minor = reserved_after;
  currency = quote.currency;
  reference_type = codes "request";
  reference_id = input.request_id;
  idempotency_key = codes "reservation:v1:" ++ input.request_id;
  usage_event_id = none;
  operator_user_id = none;
  source = codes "billing";
  created_at = env.now;
}

-- The writes of Reserve, once the balances after it are known.
unfoldable pub write_hold : Env → Uuid → ReserveInput → Quote → Wallet → ℤ → ℤ → Tx Reservation
write_hold env reservation_id input quote wallet available_after reserved_after = do
  modify λ db. record db {
    wallets =
        update_wallet wallet.id (set_balances available_after reserved_after env.now) db.wallets;
  }
  insert_reservation (new_reservation env reservation_id wallet.id input quote)
  insert_ledger (hold_entry env input quote wallet available_after reserved_after)
  insert_billing_outbox (codes "wallet_reservation") reservation_id
      (codes "billing.reservation.created") (reservation_key input.request_id)
  pure (new_reservation env reservation_id wallet.id input quote)

-- The part after the wallet is locked.
unfoldable pub hold : Env → Uuid → ReserveInput → Quote → Wallet → Tx Reservation
hold env reservation_id input quote wallet = do
  throw_if (not (is_active wallet.status) || wallet.financial_hold) wallet_frozen
  throw_if (not (text_eq wallet.currency quote.currency)) currency_mismatch
  check_budgets env input quote.amount_minor
  throw_if (ltb_ℤ wallet.available_balance_minor quote.amount_minor) insufficient_funds
  reserved_after ←
      or_throw (safe_add wallet.reserved_balance_minor quote.amount_minor) balance_overflow
  write_hold env reservation_id input quote wallet
      (sub64 wallet.available_balance_minor quote.amount_minor) reserved_after

unfoldable pub reserve_new : Env → Uuid → ReserveInput → Quote → Tx Reservation
reserve_new env reservation_id input quote = do
  validate_published_price env quote.price_version_id quote.currency
  wallet ← get_or_create_wallet env input.user_id quote.currency
  hold env reservation_id input quote wallet

-- A request that has a reservation gets it back, if it is the same request.
unfoldable pub reserve_found :
    Env → Uuid → ReserveInput → Quote → Option Reservation → Tx Reservation
reserve_found env reservation_id input quote none = reserve_new env reservation_id input quote
reserve_found env reservation_id input quote (some existing) =
    if same_reservation_input existing input quote
    then pure existing
    else throw reservation_conflict

-- The callback of Repository.Reserve.
unfoldable pub reserve_in_tx : Env → Uuid → ReserveInput → Quote → Tx Reservation
reserve_in_tx env reservation_id input quote = do
  found ← reads (λ db. find_reservation_of_request input.request_id db.reservations)
  reserve_found env reservation_id input quote found

-- Repository.Reserve.
unfoldable pub reserve : Env → ReserveInput → Quote → Tx Reservation
reserve env input quote = do
  reservation_id ← new_id
  with_tx (reserve_in_tx env reservation_id input quote)
