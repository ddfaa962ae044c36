-- ===== src/Billing/Quote.antt =====
-- calculateQuote of internal/billing/money.go: what a request costs under a price snapshot.
pub mod Conservation
pub mod Bounds
use bablo.Prelude.{
  ℕ, ℤ, pos, ltb_ℤ, leb_ℤ, sub64, Bool, true, false, not, ◌&&◌, ◌||◌, Option, none, some, List, [],
  ◌∷◌, Text, trim_space, to_upper, byte_len, ◌==◌, if◌then◌else◌, ◌≡◌,
}
use bablo.Billing.Model.{
  Error, Result, ok, err, ◌>>=◌, ◌>>◌, fail_if, or_fail, invalid_input, price_missing, nil_uuid,
  Dimension, input_token, output_token, cache_read_token, cache_write_token, reasoning_token,
  request, Snapshot, TokenUsage, Quote,
}
use bablo.Billing.Money.{add_priced_units, scaled_to_minor, default_currency_minor_units}

-- == on dimensions, which are strings in Go.
abbrev pub dimension_eq : Dimension → Dimension → Bool
dimension_eq input_token input_token = true
dimension_eq output_token output_token = true
dimension_eq cache_read_token cache_read_token = true
dimension_eq cache_write_token cache_write_token = true
dimension_eq reasoning_token reasoning_token = true
dimension_eq request request = true
dimension_eq _ _ = false

-- snapshot.Prices[dimension].
abbrev pub price_of : Dimension → List (Dimension × Text) → Option Text
price_of d [] = none
price_of d ((e, price) ∷ prices) = if dimension_eq d e then some price else price_of d prices

-- A counter that its dimension's own price covers is taken out of the total that includes it; a
-- larger counter is disjoint, and costs the ordinary price if it has none of its own.
unfoldable pub add_included : ℕ → Option Text → Text → ℤ → ℤ → Result (ℕ × ℤ)
add_included total own ordinary count including =
    if ltb_ℤ (pos 0) count
    then elim own [
      | some price ↦ do
        total' ← add_priced_units total price count
        ok (total', if leb_ℤ count including then sub64 including count else including)
      | none ↦
          if ltb_ℤ including count
          then (add_priced_units total ordinary count >>= λ total'. ok (total', including))
          else ok (total, including)
    ]
    else ok (total, including)

-- Tokens written to the cache cost the input price if they have none of their own.
unfoldable pub add_cache_write : ℕ → Option Text → Text → ℤ → Result ℕ
add_cache_write total own input_price count =
    if ltb_ℤ (pos 0) count
    then add_priced_units total (elim own [ some price ↦ price | none ↦ input_price ]) count
    else ok total

-- The branch without a price for the whole request.
unfoldable pub total_of_tokens : List (Dimension × Text) → TokenUsage → Result ℕ
total_of_tokens prices observed = do
  input_price ← or_fail (price_of input_token prices) price_missing
  output_price ← or_fail (price_of output_token prices) price_missing
  (total₁, input_tokens) ←
      add_included 0 (price_of cache_read_token prices) input_price observed.cache_read_tokens
        observed.input_tokens
  total₂ ←
      add_cache_write total₁ (price_of cache_write_token prices) input_price
        observed.cache_write_tokens
  (total₃, output_tokens) ←
      add_included total₂ (price_of reasoning_token prices) output_price observed.reasoning_tokens
        observed.output_tokens
  total₄ ← add_priced_units total₃ input_price input_tokens
  add_priced_units total₄ output_price output_tokens

unfoldable pub scaled_total : List (Dimension × Text) → TokenUsage → Result ℕ
scaled_total prices observed = elim (price_of request prices) [
  | some price ↦ add_priced_units 0 price (pos 1)
  | none ↦ total_of_tokens prices observed
]

abbrev pub has_negative : TokenUsage → Bool
has_negative u =
    ltb_ℤ u.input_tokens (pos 0)
    || ltb_ℤ u.output_tokens (pos 0)
    || ltb_ℤ u.cache_read_tokens (pos 0)
    || ltb_ℤ u.cache_write_tokens (pos 0)
    || ltb_ℤ u.reasoning_tokens (pos 0)

abbrev pub has_no_prices : List (Dimension × Text) → Bool
has_no_prices [] = true
has_no_prices (p ∷ prices) = false

unfoldable pub priced_quote : Snapshot → Text → TokenUsage → Result Quote
priced_quote snapshot name observed = do
  fail_if
      (snapshot.version_id == nil_uuid || has_no_prices snapshot.prices || not (byte_len name == 3))
      price_missing
  fail_if (has_negative observed) invalid_input
  total ← scaled_total snapshot.prices observed
  amount ← scaled_to_minor total (default_currency_minor_units name)
  ok (record {
    price_version_id = snapshot.version_id;
    currency = name;
    amount_minor = amount;
    estimated = false;
  })

-- calculateQuote.
unfoldable pub calculate_quote : Snapshot → TokenUsage → Result Quote
calculate_quote snapshot observed =
    let name = to_upper (trim_space snapshot.currency) in
    if snapshot.free
    then ok (record {
      price_version_id = snapshot.version_id;
      currency = name;
      amount_minor = pos 0;
      estimated = false;
    })
    else priced_quote snapshot name observed
