-- ===== src/Billing/Tests.antt =====
-- The theorems on internal/billing at the books of the tests.
mod Books
mod Runs
use bablo.Prelude.{
  ℕ, ◌+◌, ◌*◌, ◌^◌, pos_part, ltb, ◌≡◌, refl, ℤ, pos, ◌+ℤ◌, ◌≤ℤ◌, ◌↔◌, ◌==◌, if◌then◌else◌,
  byte_len, to_upper, trim_space, IsInt64, max_int64, true, false, some, ◌∷◌, codes, arith, ◌-◌,
  ◌++◌, length,
}
use bablo.Billing.Model.{LiabilityInput, LiabilityType, ok, err, balance_overflow}
use bablo.Billing.Money.{
  parse_scaled_price, scaled_of_split, split, scaled_of_parts, set_string, add_priced_units,
  default_currency_minor_units, scaled_to_minor,
}
use bablo.Billing.Money.Decimal.{parse_scaled_price-decimal, decimal_value}
use bablo.Billing.Money.Rounding.{IsCeiling, scaled_to_minor_lem}
use bablo.Billing.Quote.{
  scaled_total, total_of_tokens, add_included, add_cache_write, calculate_quote,
}
use bablo.Billing.Quote.Bounds.{calculate_quote-IsCeiling}
use bablo.Billing.Quote.Conservation.{scaled_total-uniform, tokens, IsUsage}
use bablo.Billing.Store.Tables.{find_wallet}
use bablo.Billing.Reserve.{reserve, safe_add}
use bablo.Billing.Reserve.Soundness.{reserve-IsSound}
use bablo.Billing.Settle.{settle}
use bablo.Billing.Settle.Soundness.{settle-IsSound}
use bablo.Billing.Release.{release}
use bablo.Billing.Release.Soundness.{release-IsSound}
use bablo.Billing.Credit.{credit, rebuild_balance}
use bablo.Billing.Credit.Soundness.{credit-IsSound}
use bablo.Billing.Liability.{open_liability_in_tx, reverse_liability_in_tx}
use bablo.Billing.Liability.Reversal.{reverse_liability-IsSound}
use bablo.Billing.Liability.Opening.{open_liability-IsSound}
use bablo.Billing.Store.Tx.{with_tx}
use bablo.Billing.Service.{service_reserve, service_release, service_credit}
use bablo.Billing.Service.Soundness.{service_reserve-IsSound}
use bablo.Billing.Books.Sound.{IsSound}
use bablo.Billing.Books.Moves.{safe_add_lem}
use bablo.Billing.Tests.Books.{
  env, usd, wallet, usage, price, books, snapshot, quote, hold_input, settle_input, release_input,
  credit_input, books-IsSound,
}

service_reserve-IsSound_example : IsSound (service_reserve env (pos 4096) hold_input books).1
service_reserve-IsSound_example =
    service_reserve-IsSound env (pos 4096) hold_input books books-IsSound

reserve-IsSound_example : IsSound (reserve env hold_input quote books).1
reserve-IsSound_example =
    reserve-IsSound env hold_input quote books (omega arith, omega arith) books-IsSound

settle_input_amount :
    (actual : ℤ) → settle_input.event.amount_minor ≡ some actual → actual ≤ℤ max_int64
settle_input_amount actual h = ground arith

settle-IsSound_example : IsSound (settle env settle_input books).1
settle-IsSound_example = settle-IsSound env settle_input books settle_input_amount books-IsSound

release-IsSound_example : IsSound (release env release_input books).1
release-IsSound_example = release-IsSound env release_input books books-IsSound

price_read : parse_scaled_price (codes "0.5") ≡ some 500000000000
unfolding parse_scaled_price trim_space scaled_of_split split scaled_of_parts byte_len set_string
price_read = refl

usage_counts : IsUsage usage
usage_counts = record {
  input = (omega arith, omega arith);
  output = (omega arith, omega arith);
  cache_read = (omega arith, omega arith);
  cache_write = (omega arith, omega arith);
  reasoning = (omega arith, omega arith);
}

currency_length : (byte_len (to_upper (trim_space snapshot.currency)) == 3) ≡ true
unfolding byte_len to_upper trim_space
currency_length = refl

scaled_total-uniform_example : scaled_total snapshot.prices usage ≡ ok (500000000000 * tokens usage)
scaled_total-uniform_example =
    scaled_total-uniform 500000000000 snapshot.prices usage (price_read, (price_read, tt)) refl refl
      refl usage_counts

-- 60 tokens at 0.5 USD each come to 30 USD.
quote_total : scaled_total snapshot.prices usage ≡ ok 30000000000000
unfolding scaled_total total_of_tokens add_included add_cache_write add_priced_units
    parse_scaled_price trim_space scaled_of_split split scaled_of_parts byte_len set_string
quote_total = refl

calculate_quote-IsCeiling_example :
    (q : ℕ) × IsCeiling
      (30000000000000 * 10 ^ pos_part (default_currency_minor_units (to_upper (trim_space usd))))
      q
    × (calculate_quote snapshot usage ≡ (
        if ltb 9223372036854775807 q
        then err balance_overflow
        else ok (record {
          price_version_id = 3;
          currency = to_upper (trim_space usd);
          amount_minor = pos q;
          estimated = false;
        })))
calculate_quote-IsCeiling_example =
    calculate_quote-IsCeiling snapshot usage refl refl refl currency_length refl quote_total

safe_add_lem_example :
    (safe_add (pos 700) (pos 300) ≡ some (pos 1000))
    ↔ ((pos 1000 ≡ pos 700 +ℤ pos 300) × IsInt64 (pos 1000))
safe_add_lem_example =
    safe_add_lem (pos 700) (pos 300) (pos 1000) (omega arith, omega arith)
      (omega arith, omega arith)

scaled_to_minor_lem_example :
    (q : ℕ) × IsCeiling (1234567890123 * 10 ^ 2) q
    × (scaled_to_minor 1234567890123 (pos 2)
        ≡ (if ltb 9223372036854775807 q then err balance_overflow else ok (pos q)))
scaled_to_minor_lem_example = scaled_to_minor_lem 1234567890123 2 (omega arith)

-- The price 12.34, and 12.
parse_scaled_price-decimal_example :
    (parse_scaled_price (codes "12" ++ b'.' ∷ codes "34")
      ≡ some (
          decimal_value (codes "12") * 10 ^ 12
          + decimal_value (codes "34") * 10 ^ (12 - length (codes "34"))))
    × (parse_scaled_price (codes "12") ≡ some (decimal_value (codes "12") * 10 ^ 12))
parse_scaled_price-decimal_example =
    parse_scaled_price-decimal (codes "12") (codes "34")
      ((omega arith, omega arith), ((omega arith, omega arith), tt))
      ((omega arith, omega arith), ((omega arith, omega arith), tt)) (omega arith) (omega arith)
      (omega arith)

credit-IsSound_example : IsSound (credit env credit_input books).1
credit-IsSound_example =
    credit-IsSound env credit_input books (omega arith, omega arith) books-IsSound

abbrev liability_input : LiabilityInput
liability_input = record {
  user_id = 7;
  currency = usd;
  liability_type = LiabilityType.payment_dispute;
  reference_type = codes "dispute";
  reference_id = codes "d1";
  amount_minor = pos 900;
}

open_liability-IsSound_example :
    IsSound (with_tx (open_liability_in_tx env liability_input) books).1
open_liability-IsSound_example =
    open_liability-IsSound env liability_input books (omega arith, omega arith) books-IsSound

reverse_liability-IsSound_example : IsSound (with_tx (reverse_liability_in_tx env 41) books).1
reverse_liability-IsSound_example = reverse_liability-IsSound env 41 books books-IsSound
