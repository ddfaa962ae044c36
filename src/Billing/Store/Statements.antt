-- ===== src/Billing/Store/Statements.antt =====
-- The helpers of internal/billing/repository.go that run SQL inside a transaction.
use bablo.Prelude.{
  ℕ, ◌+◌, ◌-◌, ◌*◌, ◌/◌, ◌%◌, ℤ, pos, ◌+ℤ◌, neg, ltb_ℤ, Bool, true, false, not, ◌&&◌, ◌||◌, Option,
  none, some, List, [], ◌∷◌, ◌++◌, Text, codes, text_eq, is_empty, ◌==◌, leb, ltb, if◌then◌else◌,
  any,
}
use bablo.Billing.Model.{
  Uuid, nil_uuid, price_missing, settlement_conflict, budget_exceeded, balance_overflow, repository,
  Wallet, WalletStatus, Reservation, LedgerEntry, EntryType, Settlement, SettlementStatus,
  ReserveInput,
}
use bablo.Billing.Store.Tables.{
  PriceVersion, OutboxEvent, AuditLog, find_wallet, find_wallet_of, is_held, update_settlement,
}
use bablo.Billing.Store.Tx.{Tx, ◌>>=◌, ◌>>◌, pure, throw, reads, throw_if, modify, new_id}

-- The time of the call, and the text form of a UUID, which is google/uuid's.
pub record Env : Type 0 where
  pub now : ℕ
  pub uuid_text : Uuid → Text

abbrev pub new_wallet : Env → Uuid → Text → Uuid → Wallet
new_wallet env user currency wallet_id = record {
  id = wallet_id;
  user_id = user;
  currency = currency;
  available_balance_minor = pos 0;
  reserved_balance_minor = pos 0;
  status = WalletStatus.active;
  financial_hold = false;
  version = 0;
  created_at = env.now;
  updated_at = env.now;
}

-- INSERT INTO wallets, under its primary key.
unfoldable pub insert_wallet : Wallet → Tx Wallet
insert_wallet w = do
  taken ← reads (λ db. find_wallet w.id db.wallets)
  elim taken [
    | some other ↦ throw settlement_conflict
    | none ↦ do modify (λ db. record db { wallets = w ∷ db.wallets }); pure w
  ]

-- INSERT ... ON CONFLICT (user_id, currency) DO NOTHING, then SELECT ... FOR UPDATE.
unfoldable pub insert_and_load_wallet : Env → Uuid → Text → Uuid → Tx Wallet
insert_and_load_wallet env user currency wallet_id = do
  found ← reads (λ db. find_wallet_of user currency db.wallets)
  elim found [
    | some wallet ↦ pure wallet
    | none ↦ insert_wallet (new_wallet env user currency wallet_id)
  ]

-- getOrCreateWallet.
unfoldable pub get_or_create_wallet : Env → Uuid → Text → Tx Wallet
get_or_create_wallet env user currency =
    new_id >>= λ wallet_id. insert_and_load_wallet env user currency wallet_id

abbrev pub is_effective : ℕ → Option ℕ → Bool
is_effective at none = true
is_effective at (some to) = ltb at to

-- validatePublishedPrice.
unfoldable pub validate_published_price : Env → Uuid → Text → Tx (Unit {0})
validate_published_price env price_version currency = do
  throw_if (price_version == nil_uuid) price_missing
  published ← reads (λ db. any is_match db.price_versions)
  throw_if (not published) price_missing
  where
    is_match : PriceVersion → Bool
    is_match v =
        v.id == price_version
        && text_eq v.currency currency
        && v.published
        && leb v.effective_from env.now
        && is_effective env.now v.effective_to

abbrev pub option_eq : Option Uuid → Option Uuid → Bool
option_eq none none = true
option_eq (some a) (some b) = a == b
option_eq none (some b) = false
option_eq (some a) none = false

-- SUM(amount_minor) of the key's reservations that are still held.
unfoldable pub held_of_key : Uuid → List Reservation → ℤ
held_of_key key [] = pos 0
held_of_key key (r ∷ rs) =
    (if option_eq r.api_key_id (some key) && is_held r.status then r.amount_minor else pos 0)
    +ℤ held_of_key key rs

abbrev pub is_usage_charge : EntryType → Bool
is_usage_charge EntryType.usage_charge = true
is_usage_charge _ = false

-- The API key of the usage event that an entry names.
abbrev pub event_of_key : Uuid → List (Uuid × Option Uuid) → Option Uuid → Bool
event_of_key key events none = false
event_of_key key events (some event) = any (λ e. e.0 == event && option_eq e.1 (some key)) events

-- SUM(-amount_minor) of the key's usage charges since a time.
unfoldable pub spent_of_key : Uuid → ℕ → List (Uuid × Option Uuid) → List LedgerEntry → ℤ
spent_of_key key since events [] = pos 0
spent_of_key key since events (e ∷ es) =
    (if event_of_key key events e.usage_event_id
        && is_usage_charge e.entry_type
        && ltb_ℤ e.amount_minor (pos 0)
        && leb since e.created_at
      then neg e.amount_minor
      else pos 0)
    +ℤ spent_of_key key since events es

-- The start of the UTC day and of the UTC month of a Unix time, as time.Date gives them.
abbrev pub day_start : ℕ → ℕ
day_start t = t - t % 86400

unfoldable pub day_of_month : ℕ → ℕ
day_of_month days =
    let doe = (days + 719468) % 146097 in
    let yoe = (doe - doe / 1460 + doe / 36524 - doe / 146096) / 365 in
    let doy = doe - (365 * yoe + yoe / 4 - yoe / 100) in
    let mp = (5 * doy + 2) / 153 in doy - (153 * mp + 2) / 5 + 1

unfoldable pub month_start : ℕ → ℕ
month_start t = day_start t - (day_of_month (t / 86400) - 1) * 86400

-- One round of the loop of checkBudgets, over unbounded integers; parseBigTotal refuses a negative
-- sum.
unfoldable pub check_budget : Uuid → ℤ → ℤ → Option ℤ → ℕ → Tx (Unit {0})
check_budget key held amount none since = pure tt
check_budget key held amount (some limit) since = do
  spent ← reads (λ db. spent_of_key key since db.usage_event_keys db.ledger)
  throw_if (ltb_ℤ spent (pos 0)) balance_overflow
  throw_if (ltb_ℤ limit (spent +ℤ held +ℤ amount)) budget_exceeded

abbrev pub has_budget : Option ℤ → Option ℤ → Bool
has_budget none none = false
has_budget _ _ = true

-- checkBudgets.
unfoldable pub check_budgets : Env → ReserveInput → ℤ → Tx (Unit {0})
check_budgets env input amount =
    if has_budget input.daily_budget_minor input.monthly_budget_minor
    then (do
      held ← reads (λ db. held_of_key input.api_key_id db.reservations)
      throw_if (ltb_ℤ held (pos 0)) balance_overflow
      check_budget input.api_key_id held amount input.daily_budget_minor (day_start env.now)
      check_budget input.api_key_id held amount input.monthly_budget_minor (month_start env.now))
    else pure tt

-- insertLedger: the row that it returns, under the constraints on its id, key and usage event.
unfoldable pub insert_ledger : LedgerEntry → Tx LedgerEntry
insert_ledger input = do
  entry_id ← new_id
  let entry = record input { id = entry_id }
  taken ← reads (λ db. any clashes (db.ledger))
  throw_if taken settlement_conflict
  duplicate ← reads (λ db. any (λ e. e.id == entry_id) db.ledger)
  throw_if duplicate settlement_conflict
  modify (λ db. record db { ledger = entry ∷ db.ledger })
  pure entry
  where
    same_event : Option Uuid → Option Uuid → Bool
    same_event none other = false
    same_event (some k) other = option_eq (some k) other

    clashes : LedgerEntry → Bool
    clashes e =
        (e.wallet_id == input.wallet_id && text_eq e.idempotency_key input.idempotency_key)
        || same_event e.usage_event_id input.usage_event_id

-- insertBillingOutbox: ON CONFLICT ... DO NOTHING.
unfoldable pub insert_billing_outbox : Text → Uuid → Text → Text → Tx (Unit {0})
insert_billing_outbox aggregate_type aggregate_id event_type key = do
  outbox_id ← new_id
  taken ← reads (λ db. any same db.outbox)
  if taken then pure tt else modify (λ db. record db { outbox = event outbox_id ∷ db.outbox })
  where
    same : OutboxEvent → Bool
    same e =
        text_eq e.aggregate_type aggregate_type
        && e.aggregate_id == aggregate_id
        && text_eq e.event_type event_type
        && text_eq e.idempotency_key key

    event : Uuid → OutboxEvent
    event k = record {
      id = k;
      aggregate_type = aggregate_type;
      aggregate_id = aggregate_id;
      event_type = event_type;
      idempotency_key = key;
    }

-- audit.Insert, of an event with an action, a target type and a result.
unfoldable pub insert_audit : AuditLog → Tx (Unit {0})
insert_audit event = do
  audit_id ← new_id
  let target = if is_empty event.target_id then codes "unknown" else event.target_id
  modify λ db. record db {
    audit_logs = record event { id = audit_id; target_id = target } ∷ db.audit_logs;
  }

-- settlementKey.
unfoldable pub settlement_key : Env → Uuid → Text
settlement_key env event = codes "billing-settle:v1:" ++ env.uuid_text event

-- persistSettlement, less the recovery lease: a new row, or the state of the row that is there. Its
-- errors are passed on as they are.
unfoldable pub persist_settlement :
    Env
    → Option Settlement
    → Reservation
    → Uuid
    → ℤ
    → Bool
    → SettlementStatus
    → Text
    → Tx Settlement
persist_settlement env (some existing) reservation event actual estimated status error_class = do
  let stored = record existing { status = status; error_class = error_class; updated_at = env.now }
  modify
      λ db. record db { settlements = update_settlement existing.id (λ _. stored) db.settlements }
  pure stored
persist_settlement env none reservation event actual estimated status error_class = do
  settlement_id ← new_id
  let stored : Settlement = record {
    id = settlement_id;
    reservation_id = reservation.id;
    usage_event_id = event;
    idempotency_key = settlement_key env event;
    reserved_amount_minor = reservation.amount_minor;
    actual_amount_minor = some actual;
    status = status;
    estimated = estimated;
    error_class = error_class;
    created_at = env.now;
    updated_at = env.now;
  }
  taken ← reads (λ db. any (clashes settlement_id) db.settlements)
  throw_if taken repository
  modify (λ db. record db { settlements = stored ∷ db.settlements })
  pure stored
  where
    clashes : Uuid → Settlement → Bool
    clashes k s =
        s.id == k
        || s.reservation_id == reservation.id
        || s.usage_event_id == event
        || text_eq s.idempotency_key (settlement_key env event)
