-- ===== src/Billing/Quote/Bounds.antt =====
-- calculateQuote (internal/billing/money.go): the amount is the total rounded up once, within int64.
use bablo.Prelude.{
  ℕ, ◌*◌, ◌^◌, ◌≤◌, ◌≡◌, refl, ℤ, pos, pos_part, ◌≤ℤ◌, max_int64, Bool, true, false, Text,
  trim_space, to_upper, byte_len, ◌==◌, ltb, if◌then◌else◌, arith,
}
use bablo.Billing.Model.{
  nil_uuid, Result, ok, err, ◌>>=◌, balance_overflow, Snapshot, TokenUsage, Quote,
}
use bablo.Billing.Money.{scaled_to_minor, default_currency_minor_units}
use bablo.Billing.Money.Rounding.{IsCeiling, scaled_to_minor_lem}
use bablo.Billing.Quote.{calculate_quote, priced_quote, scaled_total, has_negative, has_no_prices}

default_currency_minor_units-le :
    (currency : Text)
    → (units : ℕ) × (default_currency_minor_units currency ≡ pos units) × (units ≤ 9)
unfolding default_currency_minor_units
default_currency_minor_units-le currency = by_decimals _ _
  where
    by_decimals :
        (a b : Bool)
        → (units : ℕ) × ((if a then pos 3 else if b then pos 0 else pos 2) ≡ pos units)
          × (units ≤ 9)
    by_decimals true b = (3, refl, omega arith)
    by_decimals false true = (0, refl, omega arith)
    by_decimals false false = (2, refl, omega arith)

-- An amount that is a nonnegative word.
abbrev pub IsQuoted : Quote → Type 0
IsQuoted q = (pos 0 ≤ℤ q.amount_minor) × (q.amount_minor ≤ℤ max_int64)

pub calculate_quote-IsQuoted :
    (s : Snapshot) (u : TokenUsage) {q : Quote} → calculate_quote s u ≡ ok q → IsQuoted q
unfolding calculate_quote priced_quote scaled_to_minor
calculate_quote-IsQuoted s u {q} h = ground arith

-- For a snapshot with a version, prices and a currency of three bytes, that is not free, and usage
-- without negative counters whose total in units of 10 ^ -12 is known, the amount is the least
-- number of minor units of the currency that covers the total; the call fails with an overflow
-- exactly where that number is above MaxInt64.
pub calculate_quote-IsCeiling :
    (s : Snapshot) (u : TokenUsage) {total : ℕ}
    → s.free ≡ false
    → (s.version_id == nil_uuid) ≡ false
    → has_no_prices s.prices ≡ false
    → (byte_len (to_upper (trim_space s.currency)) == 3) ≡ true
    → has_negative u ≡ false
    → scaled_total s.prices u ≡ ok total
    → (q : ℕ) × IsCeiling
        (total * 10 ^ pos_part (default_currency_minor_units (to_upper (trim_space s.currency))))
        q
      × (calculate_quote s u ≡ (
          if ltb 9223372036854775807 q
          then err balance_overflow
          else ok (record {
            price_version_id = s.version_id;
            currency = to_upper (trim_space s.currency);
            amount_minor = pos q;
            estimated = false;
          })))
unfolding calculate_quote priced_quote
calculate_quote-IsCeiling s u {total} free version prices currency counts sum =
    let (units, e, small) = default_currency_minor_units-le (to_upper (trim_space s.currency)) in
    let (q, ceiling, amount) = scaled_to_minor_lem total units small in
    (
      q,
      rw e ceiling,
      rw (free, calculate_quote)
          (rw (version, prices, currency, counts, priced_quote)
            (rw (sum, e, amount) (last (ltb 9223372036854775807 q) (pos q)))),
    )
  where
    quote : ℤ → Result Quote
    quote amount = ok (record {
      price_version_id = s.version_id;
      currency = to_upper (trim_space s.currency);
      amount_minor = amount;
      estimated = false;
    })

    last :
        (above : Bool) (amount : ℤ)
        → ((if above then err balance_overflow else ok amount) >>= quote)
          ≡ (if above then err balance_overflow else quote amount)
    last true amount = refl
    last false amount = refl
