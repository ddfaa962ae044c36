-- ===== src/Billing/Tests/Runs.antt =====
-- Runs of Release, Settle and Credit (internal/billing/repository.go) on the books of the tests.
use bablo.Prelude.{
  add64, sub64, neg64, wrap64, ◌-ℤ◌, neg, text_eq, ◌≡◌, refl, pos, some, [], ◌∷◌, false, arith,
  ◌+ℤ◌, byte_len, to_upper, trim_space,
}
use bablo.Billing.Model.{ok, ReserveInput, Wallet, WalletStatus}
use bablo.Billing.Service.{service_credit, service_reserve}
use bablo.Billing.Service.History.{
  opening, Reached, starts, follows, credits, reserves, others, rebuild_balance-Reached,
}
use bablo.Billing.Store.Tables.{
  Db, find_wallet, find_reservation, find_settlement_of, find_wallet_of, find_ledger,
  update_liability, update_wallet, update_reservation,
}
use bablo.Billing.Store.Statements.{
  insert_ledger, insert_billing_outbox, persist_settlement, get_or_create_wallet,
  insert_and_load_wallet, insert_wallet,
}
use bablo.Billing.Reserve.{safe_add}
use bablo.Billing.Settle.{
  settle, settle_amount, is_invalid_settle, settle_rows, settle_in_tx, settle_existing, settle_open,
  mismatches, charge, insert_settlement_entries,
}
use bablo.Billing.Release.{release, release_in_tx, release_found, release_open, write_release}
use bablo.Billing.Credit.{
  credit_in_tx, credit_found, credit_new, audit_credit, audit_operator, credit, ledger_available,
  ledger_reserved, rebuild_balance, int64_total,
}
use bablo.Billing.Liability.{
  recover_wallet_liabilities, recover_from, recover_each, open_liabilities, insert_in_order,
}
use bablo.Billing.Store.Tx.{with_tx, steps, new_id}
use bablo.Billing.Service.{
  normalize_text, normalize_currency, normalize_reserve_input, with_result, reserve_quote,
  reserve_normalized, service_reserve, service_release, normalize_credit_input, service_credit,
}
use bablo.Billing.Quote.{
  add_included, add_cache_write, total_of_tokens, scaled_total, priced_quote, calculate_quote,
}
use bablo.Billing.Money.{
  split, set_string, scaled_of_parts, scaled_of_split, parse_scaled_price, add_priced_units,
  scaled_to_minor, default_currency_minor_units,
}
use bablo.Billing.Reserve.{
  same_reservation_input, insert_reservation, write_hold, hold, reserve_new, reserve_found,
  reserve_in_tx, reserve,
}
use bablo.Billing.Credit.{credit_differs}
use bablo.Billing.Liability.{
  find_liability_of, same_liability_input, insert_liability, pay_liability, write_liability,
  open_new_liability, open_found, reversal_entry, write_reversal, reverse_open_liability,
}
use bablo.Billing.Store.Tables.{
  find_reservation_of_request, update_settlement, find_liability, has_open_liability,
  reservation_of_wallet, has_pending_settlement,
}
use bablo.Billing.Store.Tx.{pure, throw, reads, or_throw, ◌>>=◌, ◌>>◌, throw_if, modify}
use bablo.Billing.Store.Statements.{
  validate_published_price, held_of_key, spent_of_key, day_of_month, month_start, check_budget,
  check_budgets, insert_audit, settlement_key,
}
use bablo.Prelude.Strings.{is_space, trim_left, contains_any}
use bablo.Prelude.Int.{◌*ℤ◌, mul64}
use bablo.Billing.Tests.Books.{
  env, usd, usage, price, books, hold_input, settle_input, release_input, credit_input,
}

-- The hold of 300 goes back.
release_run :
    ((release env release_input books).0 ≡ ok tt)
    × (rebuild_balance 1 (release env release_input books).1 ≡ ok (pos 1000, pos 0))
unfolding ◌+ℤ◌ release release_in_tx release_found release_open write_release steps with_tx new_id
    find_reservation find_wallet update_wallet update_reservation insert_ledger
    insert_billing_outbox safe_add add64 sub64 neg64 wrap64 ◌-ℤ◌ neg text_eq rebuild_balance
    int64_total ledger_available ledger_reserved
release_run = (refl, refl)

-- A charge of 350 takes the hold of 300 and 50 more.
settle_run : rebuild_balance 1 (settle env settle_input books).1 ≡ ok (pos 650, pos 0)
unfolding ◌+ℤ◌ settle settle_amount is_invalid_settle settle_rows settle_in_tx settle_existing
    settle_open mismatches charge insert_settlement_entries persist_settlement steps with_tx new_id
    find_reservation find_wallet find_settlement_of update_wallet update_reservation insert_ledger
    insert_billing_outbox safe_add add64 sub64 neg64 wrap64 ◌-ℤ◌ neg text_eq trim_space to_upper
    byte_len rebuild_balance int64_total ledger_available ledger_reserved
settle_run = refl

-- A recharge of 500 pays the 150 that the liability still owes.
credit_run : rebuild_balance 1 (credit env credit_input books).1 ≡ ok (pos 1050, pos 300)
unfolding ◌+ℤ◌ credit credit_in_tx credit_found credit_new get_or_create_wallet
    insert_and_load_wallet insert_wallet audit_credit audit_operator recover_wallet_liabilities
    recover_from recover_each open_liabilities insert_in_order update_liability find_wallet_of
    find_ledger steps with_tx new_id find_wallet update_wallet insert_ledger insert_billing_outbox
    safe_add add64 sub64 neg64 wrap64 ◌-ℤ◌ neg text_eq rebuild_balance int64_total ledger_available
    ledger_reserved
credit_run = refl

-- A wallet is opened by a recharge of 500, of which a hold then takes a part.
abbrev recharged : Db
recharged = (service_credit env credit_input (opening (price ∷ []) [] (1 ∷ 2 ∷ 3 ∷ 4 ∷ []) [])).1

abbrev small_hold : ReserveInput
small_hold = record hold_input {
  estimated_usage = record usage {
    input_tokens = pos 1;
    output_tokens = pos 3;
    cache_read_tokens = pos 0;
    reasoning_tokens = pos 0;
  };
}

abbrev after_hold : Db
after_hold =
    (service_reserve env (pos 4096) small_hold (record recharged {
      price_versions = price ∷ [];
      usage_event_keys = [];
      ids = 11 ∷ 12 ∷ 13 ∷ 14 ∷ 15 ∷ 16 ∷ [];
      fates = [];
    })).1

abbrev held_wallet : Wallet
held_wallet = record {
  id = 1;
  user_id = 7;
  currency = usd;
  available_balance_minor = pos 300;
  reserved_balance_minor = pos 200;
  status = WalletStatus.active;
  financial_hold = false;
  version = 2;
  created_at = 1700000000;
  updated_at = 1700000000;
}

after_hold-Reached : Reached after_hold
after_hold-Reached =
    follows _ _
      (follows _ _
        (follows _ _ (starts (price ∷ []) [] (1 ∷ 2 ∷ 3 ∷ 4 ∷ []) [])
          (credits env credit_input _ (omega arith, omega arith)))
        (others recharged (price ∷ []) [] (11 ∷ 12 ∷ 13 ∷ 14 ∷ 15 ∷ 16 ∷ []) []))
      (reserves env (pos 4096) small_hold _)

found_wallet : find_wallet 1 after_hold.wallets ≡ some held_wallet
unfolding normalize_text normalize_currency normalize_reserve_input with_result reserve_quote
    reserve_normalized service_reserve service_release normalize_credit_input service_credit
    add_included add_cache_write total_of_tokens scaled_total priced_quote calculate_quote split
    set_string scaled_of_parts scaled_of_split parse_scaled_price add_priced_units scaled_to_minor
    default_currency_minor_units safe_add same_reservation_input insert_reservation write_hold hold
    reserve_new reserve_found reserve_in_tx reserve credit_differs audit_operator audit_credit
    credit_new credit_found credit_in_tx credit ledger_available ledger_reserved int64_total
    insert_in_order open_liabilities recover_each recover_from recover_wallet_liabilities
    find_liability_of same_liability_input insert_liability pay_liability write_liability
    open_new_liability open_found reversal_entry write_reversal reverse_open_liability find_wallet
    find_wallet_of update_wallet find_reservation find_reservation_of_request update_reservation
    find_settlement_of update_settlement find_ledger find_liability update_liability
    has_open_liability reservation_of_wallet has_pending_settlement pure throw reads or_throw ◌>>=◌
    ◌>>◌ throw_if modify new_id with_tx steps insert_wallet insert_and_load_wallet
    get_or_create_wallet validate_published_price held_of_key spent_of_key day_of_month month_start
    check_budget check_budgets insert_ledger insert_billing_outbox insert_audit settlement_key
    persist_settlement text_eq is_space trim_left trim_space byte_len to_upper contains_any ◌+ℤ◌
    ◌-ℤ◌ ◌*ℤ◌ neg wrap64 add64 sub64 mul64 neg64
found_wallet = refl

rebuild_balance-Reached_example : rebuild_balance 1 after_hold ≡ ok (pos 300, pos 200)
rebuild_balance-Reached_example =
    rebuild_balance-Reached held_wallet after_hold after_hold-Reached found_wallet
