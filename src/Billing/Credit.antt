-- ===== src/Billing/Credit.antt =====
-- Repository.CreditInTx and RebuildBalance of internal/billing/repository.go.
pub mod Soundness
use bablo.Prelude.{
  ℕ, Option, suc, ℤ, pos, ◌+ℤ◌, ltb_ℤ, eqb_ℤ, min_int64, max_int64, Bool, true, false, not, ◌||◌,
  none, some, List, [], ◌∷◌, ◌++◌, Text, codes, text_eq, is_empty, ◌==◌, if◌then◌else◌,
}
use bablo.Billing.Model.{
  Uuid, nil_uuid, Result, ok, err, wallet_frozen, settlement_conflict, balance_overflow,
  insufficient_funds, Wallet, WalletStatus, LedgerEntry, EntryType, CreditInput,
}
use bablo.Billing.Store.Tables.{Db, find_ledger, update_wallet}
use bablo.Billing.Store.Tx.{Tx, ◌>>=◌, ◌>>◌, pure, reads, or_throw, throw_if, modify, with_tx}
use bablo.Billing.Store.Statements.{
  Env, get_or_create_wallet, insert_ledger, insert_billing_outbox, insert_audit, option_eq,
}
use bablo.Billing.Reserve.{safe_add, clone_uuid}
use bablo.Billing.Liability.{recover_wallet_liabilities}

-- The text of an entry type.
abbrev pub entry_type_text : EntryType → Text
entry_type_text EntryType.reservation = codes "reservation"
entry_type_text EntryType.usage_charge = codes "usage_charge"
entry_type_text EntryType.release = codes "release"
entry_type_text EntryType.recharge = codes "recharge"
entry_type_text EntryType.refund = codes "refund"
entry_type_text EntryType.adjustment = codes "adjustment"
entry_type_text EntryType.admin_adjustment = codes "admin_adjustment"
entry_type_text EntryType.grant = codes "grant"
entry_type_text EntryType.bonus = codes "bonus"
entry_type_text EntryType.expiration = codes "expiration"
entry_type_text EntryType.payment_refund_hold = codes "payment_refund_hold"
entry_type_text EntryType.payment_reversal = codes "payment_reversal"
entry_type_text EntryType.payment_refund_release = codes "payment_refund_release"
entry_type_text EntryType.payment_liability = codes "payment_liability"

-- An entry under the key of the call that is not the one asked for.
unfoldable pub credit_differs : LedgerEntry → CreditInput → Bool
credit_differs existing input =
    not (text_eq (entry_type_text existing.entry_type) (entry_type_text input.entry_type))
    || not (eqb_ℤ existing.amount_minor input.amount_minor)
    || not (text_eq existing.reference_type input.reference_type)
    || not (text_eq existing.reference_id input.reference_id)
    || not (text_eq existing.source input.source)
    || not (option_eq existing.operator_user_id input.operator_user_id)

-- A closed wallet takes nothing, a frozen one no debit.
abbrev pub refuses : WalletStatus → ℤ → Bool
refuses WalletStatus.closed amount = true
refuses WalletStatus.frozen amount = ltb_ℤ amount (pos 0)
refuses WalletStatus.active amount = false

abbrev pub credit_entry : Env → CreditInput → Wallet → ℤ → LedgerEntry
credit_entry env input wallet available_after = record {
  id = nil_uuid;
  wallet_id = wallet.id;
  entry_type = input.entry_type;
  amount_minor = input.amount_minor;
  available_delta_minor = input.amount_minor;
  reserved_delta_minor = pos 0;
  available_balance_after_minor = available_after;
  reserved_balance_after_minor = wallet.reserved_balance_minor;
  currency = wallet.currency;
  reference_type = input.reference_type;
  reference_id = input.reference_id;
  idempotency_key = input.idempotency_key;
  usage_event_id = none;
  operator_user_id = clone_uuid input.operator_user_id;
  source = input.source;
  created_at = env.now;
}

-- The audit record of a credit that an operator made.
unfoldable pub audit_operator : Env → CreditInput → Wallet → Option Uuid → Tx (Unit {0})
audit_operator env input wallet none = pure tt
audit_operator env input wallet (some operator) = insert_audit (record {
  id = nil_uuid;
  actor_user_id = some operator;
  action = codes "wallet." ++ entry_type_text input.entry_type;
  target_type = codes "wallet";
  target_id = env.uuid_text wallet.id;
  request_id = if is_empty input.request_id then input.reference_id else input.request_id;
  result = codes "success";
})

unfoldable pub audit_credit : Env → CreditInput → Wallet → Tx (Unit {0})
audit_credit env input wallet = audit_operator env input wallet input.operator_user_id

-- The row of a wallet after a credit.
abbrev pub set_credit : ℤ → ℕ → Wallet → Wallet
set_credit available_after now w = record w {
  available_balance_minor = available_after;
  version = suc w.version;
  updated_at = now;
}

unfoldable pub credit_new : Env → CreditInput → Wallet → Tx LedgerEntry
credit_new env input wallet = do
  throw_if (refuses wallet.status input.amount_minor) wallet_frozen
  available_after ←
      or_throw (safe_add wallet.available_balance_minor input.amount_minor) balance_overflow
  throw_if (ltb_ℤ available_after (pos 0)) insufficient_funds
  modify λ db. record db {
    wallets = update_wallet wallet.id (set_credit available_after env.now) db.wallets;
  }
  entry ← insert_ledger (credit_entry env input wallet available_after)
  audit_credit env input wallet
  insert_billing_outbox (codes "wallet_ledger") entry.id (codes "billing.wallet.credited")
      input.idempotency_key
  recover_wallet_liabilities env wallet available_after entry.id
  pure entry

-- A call that repeats an earlier one gets its entry back.
unfoldable pub credit_found : Env → CreditInput → Wallet → Option LedgerEntry → Tx LedgerEntry
credit_found env input wallet none = credit_new env input wallet
credit_found env input wallet (some existing) = do
  throw_if (credit_differs existing input) settlement_conflict
  pure existing

-- Repository.CreditInTx.
unfoldable pub credit_in_tx : Env → CreditInput → Tx LedgerEntry
credit_in_tx env input = do
  wallet ← get_or_create_wallet env input.user_id input.currency
  found ← reads (λ db. find_ledger wallet.id input.idempotency_key db.ledger)
  credit_found env input wallet found

-- Repository.Credit.
unfoldable pub credit : Env → CreditInput → Tx LedgerEntry
credit env input = with_tx (credit_in_tx env input)

-- SUM(available_delta_minor) and SUM(reserved_delta_minor) of a wallet's ledger.
unfoldable pub ledger_available : Uuid → List LedgerEntry → ℤ
ledger_available k [] = pos 0
ledger_available k (e ∷ es) =
    (if e.wallet_id == k then e.available_delta_minor else pos 0) +ℤ ledger_available k es

unfoldable pub ledger_reserved : Uuid → List LedgerEntry → ℤ
ledger_reserved k [] = pos 0
ledger_reserved k (e ∷ es) =
    (if e.wallet_id == k then e.reserved_delta_minor else pos 0) +ℤ ledger_reserved k es

-- parseInt64Total.
unfoldable pub int64_total : ℤ → Result ℤ
int64_total total =
    if ltb_ℤ total min_int64 || ltb_ℤ max_int64 total then err balance_overflow else ok total

-- Repository.RebuildBalance.
unfoldable pub rebuild_balance : Uuid → Db → Result (ℤ × ℤ)
rebuild_balance wallet db = elim (int64_total (ledger_available wallet db.ledger)) [
  | err e ↦ err e
  | ok available ↦ elim (int64_total (ledger_reserved wallet db.ledger)) [
    | err e ↦ err e
    | ok reserved ↦ ok (available, reserved)
  ]
]
