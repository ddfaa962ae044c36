-- ===== src/Billing/Tests/Books.antt =====
-- Concrete books of internal/billing: one wallet of 10 USD, with an open hold of 3 and a liability.
use bablo.Prelude.{
  inr, ◌+◌, ◌≡◌, refl, ℤ, pos, negsuc, ◌+ℤ◌, ◌≤ℤ◌, ◌==◌, ◌&&◌, if◌then◌else◌, max_int64, Bool, true,
  false, none, some, [], ◌∷◌, Text, codes, arith,
}
use bablo.Billing.Model.{
  Liability, LiabilityType, LiabilityStatus, Uuid, input_token, output_token, Snapshot, TokenUsage,
  Quote, Wallet, WalletStatus, Reservation, ReservationStatus, LedgerEntry, EntryType, ReserveInput,
  SettleInput, ReleaseInput, CreditInput,
}
use bablo.Billing.Store.Tables.{Db, PriceVersion, find_wallet}
use bablo.Billing.Store.Statements.{Env}
use bablo.Billing.Credit.{ledger_available, ledger_reserved}
use bablo.Billing.Books.Wallets.{available_of, reserved_of}
use bablo.Billing.Books.Holds.{held_of}
use bablo.Billing.Books.Sound.{At, IsDebt, IsSound}

abbrev pub env : Env
env = record { now = 1700000000; uuid_text = λ k. (b'a' + k) ∷ [] }

abbrev pub usd : Text
usd = codes "USD"

abbrev pub wallet : Wallet
wallet = record {
  id = 1;
  user_id = 7;
  currency = usd;
  available_balance_minor = pos 700;
  reserved_balance_minor = pos 300;
  status = WalletStatus.active;
  financial_hold = false;
  version = 2;
  created_at = 1600000000;
  updated_at = 1600000001;
}

abbrev pub usage : TokenUsage
usage = record {
  input_tokens = pos 10;
  output_tokens = pos 20;
  cache_read_tokens = pos 4;
  cache_write_tokens = pos 0;
  reasoning_tokens = pos 30;
}

abbrev pub reservation : Reservation
reservation = record {
  id = 5;
  wallet_id = 1;
  user_id = 7;
  api_key_id = some 8;
  request_id = codes "r1";
  request_record_id = none;
  model_id = none;
  provider_model_id = none;
  route_version_id = none;
  provider_id = none;
  credential_id = none;
  price_version_id = 3;
  estimated_usage = usage;
  reservation_key = codes "billing:v1:r1";
  amount_minor = pos 300;
  currency = usd;
  status = ReservationStatus.reserved;
  settled_amount_minor = none;
  usage_event_id = none;
  reason = codes "inference_budget_hold";
  expires_at = none;
  created_at = 1600000001;
  updated_at = 1600000001;
}

abbrev pub recharge : LedgerEntry
recharge = record {
  id = 21;
  wallet_id = 1;
  entry_type = EntryType.recharge;
  amount_minor = pos 1000;
  available_delta_minor = pos 1000;
  reserved_delta_minor = pos 0;
  available_balance_after_minor = pos 1000;
  reserved_balance_after_minor = pos 0;
  currency = usd;
  reference_type = codes "order";
  reference_id = codes "o1";
  idempotency_key = codes "o1";
  usage_event_id = none;
  operator_user_id = none;
  source = codes "payment";
  created_at = 1600000000;
}

abbrev pub held : LedgerEntry
held = record recharge {
  id = 22;
  entry_type = EntryType.reservation;
  amount_minor = pos 300;
  available_delta_minor = negsuc 299;
  reserved_delta_minor = pos 300;
  available_balance_after_minor = pos 700;
  reserved_balance_after_minor = pos 300;
  idempotency_key = codes "reservation:v1:r1";
}

abbrev pub price : PriceVersion
price = record { id = 3; currency = usd; published = true; effective_from = 1; effective_to = none }

abbrev pub liability : Liability
liability = record {
  id = 41;
  wallet_id = 1;
  liability_type = LiabilityType.payment_refund;
  reference_type = codes "refund";
  reference_id = codes "f1";
  principal_amount_minor = pos 200;
  recovered_amount_minor = pos 50;
  currency = usd;
  status = LiabilityStatus.opened;
  recovery_ledger_id = none;
  created_at = 1600000002;
  updated_at = 1600000002;
}

abbrev pub books : Db
books = record {
  wallets = wallet ∷ [];
  reservations = reservation ∷ [];
  ledger = held ∷ recharge ∷ [];
  settlements = [];
  liabilities = liability ∷ [];
  outbox = [];
  audit_logs = [];
  price_versions = price ∷ [];
  usage_event_keys = [];
  ids = 31 ∷ 32 ∷ 33 ∷ 34 ∷ 35 ∷ 36 ∷ 37 ∷ 38 ∷ [];
  fates = [];
}

-- The books at the wallet's id, and at any other.
abbrev balance : (Wallet → ℤ) → Bool → ℤ
balance field b = elim (if b then some wallet else none) [ none ↦ pos 0 | some w ↦ field w ]

abbrev posted : (LedgerEntry → ℤ) → Bool → ℤ
posted field b =
    (if b then field held else pos 0) +ℤ ((if b then field recharge else pos 0) +ℤ pos 0)

abbrev available : Bool → ℤ
available = balance (λ w. w.available_balance_minor)

abbrev reserved : Bool → ℤ
reserved = balance (λ w. w.reserved_balance_minor)

sums :
    (b : Bool)
    → (available b ≡ posted (λ e. e.available_delta_minor) b)
      × (reserved b ≡ posted (λ e. e.reserved_delta_minor) b)
      × (reserved b ≡ (if b && true then pos 300 else pos 0) +ℤ pos 0)
unfolding ◌+ℤ◌
sums true = (refl, refl, refl)
sums false = (refl, refl, refl)

ranges :
    (b : Bool) → (pos 0 ≤ℤ available b) × (available b ≤ℤ max_int64) × (reserved b ≤ℤ max_int64)
ranges true = (omega arith, omega arith, omega arith)
ranges false = (omega arith, omega arith, omega arith)

books-At : (k : Uuid) → At k books.wallets books.reservations books.ledger
unfolding available_of reserved_of find_wallet held_of ledger_available ledger_reserved
books-At k = record {
  available = (sums (1 == k)).0;
  reserved = (sums (1 == k)).1;
  held = (sums (1 == k)).2;
  nonneg = (ranges (1 == k)).0;
  available_cap = (ranges (1 == k)).1;
  reserved_cap = (ranges (1 == k)).2;
}

liability-IsDebt : IsDebt liability
unfolding ◌+ℤ◌
liability-IsDebt = record {
  nonneg = omega arith;
  within = omega arith;
  cap = omega arith;
  opened = inr (omega arith);
}

pub books-IsSound : IsSound books
unfolding find_wallet
books-IsSound = record {
  unique = (refl, tt);
  amounts = (((omega arith, omega arith), refl), tt);
  debts = ((liability-IsDebt, tt), (tt, tt));
  at = books-At;
}

abbrev pub snapshot : Snapshot
snapshot = record {
  version_id = 3;
  currency = usd;
  prices = (input_token, codes "0.5") ∷ (output_token, codes "0.5") ∷ [];
  free = false;
}

abbrev pub quote : Quote
quote = record { price_version_id = 3; currency = usd; amount_minor = pos 200; estimated = false }

abbrev pub hold_input : ReserveInput
hold_input = record {
  user_id = 7;
  api_key_id = 8;
  request_id = codes "r2";
  request_record_id = none;
  model_id = none;
  provider_model_id = none;
  route_version_id = none;
  provider_id = none;
  credential_id = none;
  price = snapshot;
  estimated_usage = usage;
  daily_budget_minor = some (pos 900);
  monthly_budget_minor = none;
  reason = [];
  expires_at = none;
}

abbrev pub settle_input : SettleInput
settle_input = record {
  reservation_id = 5;
  event = record {
    id = 9;
    request_id = codes "r1";
    user_id = some 7;
    api_key_id = some 8;
    price_version_id = some 3;
    wallet_id = some 1;
    amount_minor = some (pos 350);
    currency = usd;
    estimated = false;
  };
}

abbrev pub release_input : ReleaseInput
release_input = record { reservation_id = 5; reason = codes "request_not_charged" }

abbrev pub credit_input : CreditInput
credit_input = record {
  user_id = 7;
  currency = usd;
  entry_type = EntryType.recharge;
  amount_minor = pos 500;
  reference_type = codes "order";
  reference_id = codes "o2";
  idempotency_key = codes "o2";
  request_id = [];
  operator_user_id = none;
  source = codes "payment";
}
