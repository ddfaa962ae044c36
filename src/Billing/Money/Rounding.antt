-- ===== src/Billing/Money/Rounding.antt =====
-- scaledToMinor (internal/billing/money.go) rounds up once, within int64.
use bablo.Prelude.{ℕ, ◌+◌, ◌*◌, ◌^◌, ◌≤◌, ◌<◌, ◌≡◌, pos, arith, ltb, if◌then◌else◌}
use bablo.Billing.Model.{ok, err, balance_overflow}
use bablo.Billing.Money.{price_scale_base, round_up, scaled_to_minor}

-- q is the least number of minor units that covers n units of 10 ^ -12.
abbrev pub IsCeiling : ℕ → ℕ → Type 0
IsCeiling n q = (n ≤ q * price_scale_base) × (q * price_scale_base < n + price_scale_base)

pub round_up-IsCeiling : (n : ℕ) → IsCeiling n (round_up n)
round_up-IsCeiling n = ground arith

-- With 0 to 9 decimals the amount is the ceiling of the total, and the call fails with an overflow
-- exactly when that ceiling is above MaxInt64.
pub scaled_to_minor_lem :
    (total units : ℕ)
    → units ≤ 9
    → (q : ℕ) × IsCeiling (total * 10 ^ units) q
      × (scaled_to_minor total (pos units)
          ≡ (if ltb 9223372036854775807 q then err balance_overflow else ok (pos q)))
unfolding scaled_to_minor
scaled_to_minor_lem total units h =
    let n = total * 10 ^ units in (round_up n, round_up-IsCeiling n, ground arith)
