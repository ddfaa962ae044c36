-- ===== src/Billing/Money.antt =====
-- internal/billing/money.go: exact decimal prices, and the quote of a request in minor units.
pub mod Rounding
pub mod Decimal
use bablo.Prelude.{
  ℕ, zero, ◌+◌, ◌-◌, ◌*◌, ◌/◌, ◌%◌, ◌^◌, ℤ, pos, pos_part, ◌-ℤ◌, ltb_ℤ, leb_ℤ, sub64, max_int64,
  Bool, true, false, ◌&&◌, ◌||◌, Option, none, some, List, [], ◌∷◌, ◌++◌, Text, codes, is_empty,
  text_eq, trim_space, to_upper, trim_left, byte_len, length, replicate, any, all, ltb, leb, ◌==◌,
  if◌then◌else◌,
}
use bablo.Billing.Model.{
  Error, Result, ok, err, invalid_input, price_missing, balance_overflow, nil_uuid, Dimension,
  input_token, output_token, cache_read_token, cache_write_token, reasoning_token, request,
  Snapshot, TokenUsage, Quote,
}

abbrev pub price_scale : ℕ
price_scale = 12

abbrev pub price_scale_base : ℕ
price_scale_base = 10 ^ 12

abbrev pub is_digit : ℕ → Bool
is_digit c = leb b'0' c && leb c b'9'

-- strings.Split at one code point: always at least one part.
unfoldable pub split : ℕ → Text → Text × List Text
split sep [] = ([], [])
split sep (c ∷ s) =
    let (part, parts) = split sep s in if c == sep then ([], part ∷ parts) else (c ∷ part, parts)

-- big.Int.SetString in base 10, of a text of digits, after `acc`.
unfoldable pub set_string : ℕ → Text → ℕ
set_string acc [] = acc
set_string acc (c ∷ s) = set_string (acc * 10 + (c - b'0')) s

abbrev pub not_digits : Text → Bool
not_digits s = any (λ c. ltb c b'0' || ltb b'9' c) s

-- The digits of the fraction, filled up to the scale.
abbrev pub pad_fraction : Text → Text
pad_fraction fraction = fraction ++ replicate (price_scale - byte_len fraction) b'0'

-- The two parts once they are known; none is ErrPriceMissing.
unfoldable pub scaled_of_parts : Text → Text → Option ℕ
scaled_of_parts whole fraction =
    if is_empty whole || ltb 18 (byte_len whole) || not_digits whole
    then none
    else if ltb price_scale (byte_len fraction) || not_digits fraction
    then none
    else some (set_string 0 (trim_left (λ c. c == b'0') (whole ++ pad_fraction fraction)))

unfoldable pub scaled_of_split : Text × List Text → Option ℕ
scaled_of_split (whole, []) = scaled_of_parts whole []
scaled_of_split (whole, fraction ∷ []) = scaled_of_parts whole fraction
scaled_of_split (whole, fraction ∷ _ ∷ _) = none

abbrev pub starts_with_sign : Text → Bool
starts_with_sign [] = false
starts_with_sign (c ∷ s) = c == b'-' || c == b'+'

-- parseScaledPrice: a decimal price in units of 10 ^ -12.
unfoldable pub parse_scaled_price : Text → Option ℕ
parse_scaled_price value =
    let trimmed = trim_space value in
    if is_empty trimmed || starts_with_sign trimmed
    then none
    else scaled_of_split (split b'.' trimmed)

-- addPricedUnits: the running total grows by price times count.
unfoldable pub add_priced_units : ℕ → Text → ℤ → Result ℕ
add_priced_units total price count =
    if ltb_ℤ count (pos 0) then err invalid_input else elim (parse_scaled_price price) [
      | none ↦ err price_missing
      | some scaled ↦ ok (total + scaled * pos_part count)
    ]

-- quotient, remainder := numerator / 10 ^ 12, with one added for a remainder.
abbrev pub round_up : ℕ → ℕ
round_up numerator =
    if ltb 0 (numerator % price_scale_base)
    then numerator / price_scale_base + 1
    else numerator / price_scale_base

-- scaledToMinor: the total in minor units, rounded up once.
unfoldable pub scaled_to_minor : ℕ → ℤ → Result ℤ
scaled_to_minor total minor_units =
    let quotient = round_up (total * 10 ^ pos_part minor_units) in
    if ltb_ℤ minor_units (pos 0) || ltb_ℤ (pos 9) minor_units
    then err invalid_input
    else if ltb_ℤ max_int64 (pos quotient)
    then err balance_overflow
    else ok (pos quotient)

abbrev pub three_decimals : List Text
three_decimals =
    codes "BHD" ∷ codes "IQD" ∷ codes "JOD" ∷ codes "KWD" ∷ codes "OMR" ∷ codes "TND" ∷ []

abbrev pub no_decimals : List Text
no_decimals =
    codes "CLP"
    ∷ codes "ISK"
    ∷ codes "JPY"
    ∷ codes "KRW"
    ∷ codes "PYG"
    ∷ codes "UGX"
    ∷ codes "VND"
    ∷ codes "VUV"
    ∷ codes "XAF"
    ∷ codes "XOF"
    ∷ codes "XPF"
    ∷ []

-- DefaultCurrencyMinorUnits.
unfoldable pub default_currency_minor_units : Text → ℤ
default_currency_minor_units currency =
    let name = to_upper (trim_space currency) in
    if any (text_eq name) three_decimals
    then pos 3
    else if any (text_eq name) no_decimals
    then pos 0
    else pos 2
