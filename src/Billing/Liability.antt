-- ===== src/Billing/Liability.antt =====
-- internal/billing/liability.go: debts of a wallet to payments, and their recovery from its credit.
pub mod Recovery
pub mod Opening
pub mod Reversal
use bablo.Prelude.{
  any, ℕ, suc, ℤ, pos, neg64, sub64, add64, ltb_ℤ, eqb_ℤ, Bool, true, false, not, ◌&&◌, ◌||◌,
  Option, none, some, List, [], ◌∷◌, ◌++◌, Text, codes, text_eq, ◌==◌, leb, ltb, if◌then◌else◌,
}
use bablo.Billing.Model.{
  Uuid, settlement_conflict, balance_overflow, repository, Wallet, LedgerEntry, EntryType,
  Liability, LiabilityInput, LiabilityStatus, LiabilityType,
}
use bablo.Billing.Store.Tables.{
  Db, find_wallet, find_liability, update_wallet, update_liability, is_opened, has_open_liability,
  has_pending_settlement,
}
use bablo.Billing.Store.Tx.{Tx, ◌>>=◌, ◌>>◌, pure, throw, reads, or_throw, throw_if, modify, new_id}
use bablo.Billing.Store.Statements.{Env, get_or_create_wallet, insert_ledger, insert_billing_outbox}
use bablo.Billing.Reserve.{safe_add}
use bablo.Billing.Settle.{empty_entry}

-- ORDER BY created_at, id.
abbrev pub is_before : Liability → Liability → Bool
is_before a b = ltb a.created_at b.created_at || a.created_at == b.created_at && leb a.id b.id

unfoldable pub insert_in_order : Liability → List Liability → List Liability
insert_in_order a [] = a ∷ []
insert_in_order a (b ∷ ls) = if is_before a b then a ∷ b ∷ ls else b ∷ insert_in_order a ls

-- SELECT ... FROM wallet_liabilities WHERE wallet_id = $1 AND status = 'open' ORDER BY created_at, id.
unfoldable pub open_liabilities : Uuid → List Liability → List Liability
open_liabilities wallet [] = []
open_liabilities wallet (l ∷ ls) =
    let rest = open_liabilities wallet ls in
    if l.wallet_id == wallet && is_opened l.status then insert_in_order l rest else rest

abbrev pub liability_entry : Env → Wallet → Uuid → Text → ℤ → ℤ → LedgerEntry
liability_entry env wallet liability key amount available_after = record (empty_entry env wallet) {
  entry_type = EntryType.payment_liability;
  amount_minor = amount;
  available_delta_minor = amount;
  available_balance_after_minor = available_after;
  reference_type = codes "wallet_liability";
  reference_id = env.uuid_text liability;
  idempotency_key = key;
  source = codes "payment";
}

-- What one liability takes of the credit that is there.
abbrev pub recovered_of : Liability → ℤ → ℤ
recovered_of l available =
    let outstanding = sub64 l.principal_amount_minor l.recovered_amount_minor in
    if ltb_ℤ available outstanding then available else outstanding

abbrev pub recover_row : Liability → ℤ → ℕ → Liability → Liability
recover_row l total now row = record row {
  recovered_amount_minor = total;
  status =
      if eqb_ℤ total l.principal_amount_minor
      then LiabilityStatus.settled
      else LiabilityStatus.opened;
  updated_at = now;
}

-- The loop of recoverWalletLiabilities; the result is the credit that is left.
unfoldable pub recover_each : Env → Wallet → Uuid → List Liability → ℤ → Tx ℤ
recover_each env wallet source [] available = pure available
recover_each env wallet source (l ∷ ls) available =
    let recovered = recovered_of l available in
    let left = sub64 available recovered in
    let rest = recover_each env wallet source ls left in
    let total = add64 l.recovered_amount_minor recovered in
    let key =
      codes "liability-recovery:v1:"
      ++ (env.uuid_text l.id ++ (codes ":" ++ env.uuid_text source)) in
    if eqb_ℤ available (pos 0) then pure available else (do
      modify λ db. record db {
        liabilities = update_liability l.id (recover_row l total env.now) db.liabilities;
      }
      insert_ledger (liability_entry env wallet l.id key (neg64 recovered) left)
      rest)

-- financial_hold after a change of the liabilities.
abbrev pub must_hold : Db → Uuid → Bool
must_hold db wallet =
    has_open_liability wallet db.liabilities
    || has_pending_settlement (λ k. true) wallet db.reservations db.settlements

abbrev pub set_available : ℤ → Bool → ℕ → Wallet → Wallet
set_available available held now w = record w {
  available_balance_minor = available;
  financial_hold = held;
  version = suc w.version;
  updated_at = now;
}

-- The part after the rows are read.
unfoldable pub recover_from : Env → Wallet → ℤ → Uuid → List Liability → Tx (Unit {0})
recover_from env wallet available source [] = pure tt
recover_from env wallet available source (l ∷ ls) = do
  left ← recover_each env wallet source (l ∷ ls) available
  modify λ db. record db {
    wallets =
        update_wallet wallet.id (set_available left (must_hold db wallet.id) env.now) db.wallets;
  }

-- recoverWalletLiabilities.
unfoldable pub recover_wallet_liabilities : Env → Wallet → ℤ → Uuid → Tx (Unit {0})
recover_wallet_liabilities env wallet available source = do
  liabilities ← reads (λ db. open_liabilities wallet.id db.liabilities)
  recover_from env wallet available source liabilities

-- loadLiabilityByReference.
unfoldable pub find_liability_of : Text → Text → List Liability → Option Liability
find_liability_of type_ reference [] = none
find_liability_of type_ reference (l ∷ ls) =
    if text_eq l.reference_type type_ && text_eq l.reference_id reference
    then some l
    else find_liability_of type_ reference ls

abbrev pub liability_type_eq : LiabilityType → LiabilityType → Bool
liability_type_eq LiabilityType.payment_refund LiabilityType.payment_refund = true
liability_type_eq LiabilityType.payment_dispute LiabilityType.payment_dispute = true
liability_type_eq _ _ = false

-- sameLiabilityInput.
unfoldable pub same_liability_input : Liability → LiabilityInput → Bool
same_liability_input value input =
    liability_type_eq value.liability_type input.liability_type
    && text_eq value.reference_type input.reference_type
    && text_eq value.reference_id input.reference_id
    && eqb_ℤ value.principal_amount_minor input.amount_minor
    && text_eq value.currency input.currency

-- INSERT INTO wallet_liabilities, under its primary key.
unfoldable pub insert_liability : Liability → Tx (Unit {0})
insert_liability l = do
  taken ← reads (λ db. any (λ m. m.id == l.id) db.liabilities)
  throw_if taken settlement_conflict
  modify (λ db. record db { liabilities = l ∷ db.liabilities })

-- What the wallet's credit pays of a new liability at once.
abbrev pub paid_of : LiabilityInput → Wallet → ℤ
paid_of input wallet =
    if ltb_ℤ wallet.available_balance_minor input.amount_minor
    then wallet.available_balance_minor
    else input.amount_minor

abbrev pub new_liability : Env → LiabilityInput → Wallet → ℤ → Uuid → Liability
new_liability env input wallet recovered liability_id = record {
  id = liability_id;
  wallet_id = wallet.id;
  liability_type = input.liability_type;
  reference_type = input.reference_type;
  reference_id = input.reference_id;
  principal_amount_minor = input.amount_minor;
  recovered_amount_minor = recovered;
  currency = input.currency;
  status =
      if ltb_ℤ recovered input.amount_minor
      then LiabilityStatus.opened
      else LiabilityStatus.settled;
  recovery_ledger_id = none;
  created_at = env.now;
  updated_at = env.now;
}

-- UPDATE wallets of a new liability: an open one holds the wallet.
abbrev pub set_owing : ℤ → Bool → ℕ → Wallet → Wallet
set_owing available is_open now w = set_available available (w.financial_hold || is_open) now w

-- The ledger entry of what was paid; the result names it.
unfoldable pub pay_liability : Env → Wallet → Liability → Text → ℤ → Tx Liability
pay_liability env wallet value key available_after =
    if ltb_ℤ (pos 0) value.recovered_amount_minor
    then (do
      entry ← insert_ledger (
          liability_entry env wallet value.id key (neg64 value.recovered_amount_minor)
            available_after)
      pure (record value { recovery_ledger_id = some entry.id }))
    else pure value

-- The writes of OpenLiabilityInTx.
unfoldable pub write_liability : Env → Wallet → Liability → ℤ → Tx Liability
write_liability env wallet value available_after = do
  insert_liability value
  modify λ db. record db {
    wallets =
        update_wallet wallet.id
          (set_owing available_after
            (ltb_ℤ value.recovered_amount_minor value.principal_amount_minor) env.now)
          db.wallets;
  }
  returned ←
      pay_liability env wallet value (codes "liability-open:v1:" ++ env.uuid_text value.id)
        available_after
  insert_billing_outbox (codes "wallet_liability") value.id (codes "billing.liability.opened")
      (codes "liability-open:v1:" ++ env.uuid_text value.id)
  pure returned

-- The part of OpenLiabilityInTx for a reference that is new: the wallet's credit pays at once what
-- it can, and the wallet is held for the rest.
unfoldable pub open_new_liability : Env → LiabilityInput → Wallet → Tx Liability
open_new_liability env input wallet = do
  liability_id ← new_id
  write_liability env wallet (new_liability env input wallet (paid_of input wallet) liability_id)
      (sub64 wallet.available_balance_minor (paid_of input wallet))

-- A reference that has a liability gets it back, if it is the same liability.
unfoldable pub open_found : Env → LiabilityInput → Option Liability → Tx Liability
open_found env input none = do
  wallet ← get_or_create_wallet env input.user_id input.currency
  open_new_liability env input wallet
open_found env input (some existing) = do
  owner ← reads (λ db. find_wallet existing.wallet_id db.wallets)
  wallet ← or_throw owner repository
  throw_if
      (not (wallet.user_id == input.user_id)
        || not (text_eq wallet.currency input.currency)
        || not (same_liability_input existing input))
      settlement_conflict
  pure existing

-- Repository.OpenLiabilityInTx.
unfoldable pub open_liability_in_tx : Env → LiabilityInput → Tx Liability
open_liability_in_tx env input = do
  found ← reads (λ db. find_liability_of input.reference_type input.reference_id db.liabilities)
  open_found env input found

abbrev pub is_reversed : LiabilityStatus → Bool
is_reversed LiabilityStatus.reversed = true
is_reversed _ = false

abbrev pub reverse_liability : ℕ → Liability → Liability
reverse_liability now l = record l { status = LiabilityStatus.reversed; updated_at = now }

-- The ledger entry of a reversal, and the id that later recoveries name as their source.
unfoldable pub reversal_entry : Env → Wallet → Liability → ℤ → Tx (Option Uuid × Uuid)
reversal_entry env wallet liability available_after =
    if ltb_ℤ (pos 0) liability.recovered_amount_minor
    then (do
      entry ← insert_ledger (
          liability_entry env wallet liability.id
            (codes "liability-reversal:v1:" ++ env.uuid_text liability.id)
            liability.recovered_amount_minor available_after)
      pure (some entry.id, entry.id))
    else pure (none, liability.id)

-- The writes of ReverseLiabilityInTx.
unfoldable pub write_reversal : Env → Wallet → Liability → ℤ → Tx Liability
write_reversal env wallet liability available_after = do
  modify λ db. record db {
    liabilities = update_liability liability.id (reverse_liability env.now) db.liabilities;
  }
  (recovery_id, source) ← reversal_entry env wallet liability available_after
  modify λ db. record db {
    wallets =
        update_wallet wallet.id (set_available available_after (must_hold db wallet.id) env.now)
          db.wallets;
  }
  (if ltb_ℤ (pos 0) liability.recovered_amount_minor
      then recover_wallet_liabilities env
          (record wallet { available_balance_minor = available_after }) available_after source
      else pure tt)
  insert_billing_outbox (codes "wallet_liability") liability.id (codes "billing.liability.reversed")
      (codes "liability-reversal:v1:" ++ env.uuid_text liability.id)
  pure (record (reverse_liability env.now liability) { recovery_ledger_id = recovery_id })

unfoldable pub reverse_open_liability : Env → Liability → Tx Liability
reverse_open_liability env liability = do
  found ← reads (λ db. find_wallet liability.wallet_id db.wallets)
  wallet ← or_throw found repository
  available_after ←
      or_throw (safe_add wallet.available_balance_minor liability.recovered_amount_minor)
        balance_overflow
  write_reversal env wallet liability available_after

-- Repository.ReverseLiabilityInTx.
unfoldable pub reverse_liability_in_tx : Env → Uuid → Tx Liability
reverse_liability_in_tx env liability_id = do
  found ← reads (λ db. find_liability liability_id db.liabilities)
  liability ← or_throw found settlement_conflict
  if is_reversed liability.status then pure liability else reverse_open_liability env liability
