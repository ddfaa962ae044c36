-- ===== src/Billing/Quote/Conservation.antt =====
-- calculateQuote (internal/billing/money.go) charges each token once.
use bablo.Prelude.{
  ℕ, ◌+◌, ◌*◌, ◌≡◌, refl, inl, inr, ℤ, pos, pos_part, ◌≤ℤ◌, leb_ℤ, max_int64, sub64, sub64-nonneg,
  ap, Bool-cases, ◌-ℤ◌, -ℤ_parts, true, Option, none, some, List, [], ◌∷◌, Text, All, arith,
  if◌then◌else◌,
}
use bablo.Billing.Model.{
  Result, ok, err, Succeeds, Dimension, input_token, output_token, cache_read_token,
  cache_write_token, reasoning_token, request, TokenUsage,
}
use bablo.Billing.Money.{parse_scaled_price, add_priced_units}
use bablo.Billing.Quote.{price_of, add_included, add_cache_write, total_of_tokens, scaled_total}

-- Every configured price is p.
abbrev pub IsUniform : ℕ → List (Dimension × Text) → Type 0
IsUniform p prices = All (λ e. parse_scaled_price e.1 ≡ some p) prices

-- A count that lies within its total is part of it; a larger one is counted apart.
abbrev pub disjoint : ℤ → ℤ → ℕ
disjoint count including = if leb_ℤ count including then 0 else pos_part count

-- All counters are words and none is negative.
abbrev pub IsCount : ℤ → Type 0
IsCount n = (pos 0 ≤ℤ n) × (n ≤ℤ max_int64)

pub record IsUsage (u : TokenUsage) : Type 0 where
  pub input : IsCount u.input_tokens
  pub output : IsCount u.output_tokens
  pub cache_read : IsCount u.cache_read_tokens
  pub cache_write : IsCount u.cache_write_tokens
  pub reasoning : IsCount u.reasoning_tokens

price_of-uniform :
    (d : Dimension) (p : ℕ) (prices : List (Dimension × Text)) {t : Text}
    → IsUniform p prices
    → price_of d prices ≡ some t
    → parse_scaled_price t ≡ some p
price_of-uniform d p [] u h = cc
price_of-uniform d p (e ∷ prices) {t} u h = ground (arith, price_of-uniform d p prices {t = t} u.1)

add_priced_units_at :
    (total p : ℕ) (t : Text) (count : ℤ)
    → parse_scaled_price t ≡ some p
    → pos 0 ≤ℤ count
    → add_priced_units total t count ≡ ok (total + p * pos_part count)
unfolding add_priced_units
add_priced_units_at total p t count e h = ground arith

-- A part and the rest of a count cost what the whole costs.
split_cost :
    (p : ℕ) (a b : ℤ)
    → IsCount a
    → IsCount b
    → leb_ℤ b a ≡ true
    → (p * pos_part b + p * pos_part (sub64 a b) ≡ p * pos_part a) × IsCount (sub64 a b)
split_cost p a b i c h =
    let e = sub64-nonneg a b i.0 i.1 c.0 c.1 in
    let t : pos_part b + pos_part (a -ℤ b) ≡ pos_part a = ground (arith, -ℤ_parts a b, i.0, c.0) in
    rw e (omega (arith, ap (λ (n : ℕ). p * n) t), ground (arith, -ℤ_parts a b))

-- With one price, what is charged at once and what is left to charge add up.
add_included-Succeeds :
    (total p : ℕ) (own : Option Text) (ordinary : Text) (count including : ℤ)
    → ((t : Text) → own ≡ some t → parse_scaled_price t ≡ some p)
    → parse_scaled_price ordinary ≡ some p
    → IsCount count
    → IsCount including
    → Succeeds
        (λ r.
          IsCount r.1
          × (r.0 + p * pos_part r.1 ≡ total + p * (pos_part including + disjoint count including)))
        (add_included total own ordinary count including)
unfolding add_included
add_included-Succeeds total p none ordinary count including o e c i =
    ground (arith, add_priced_units_at total p ordinary count e c.0)
add_included-Succeeds total p (some t) ordinary count including o e c i =
    elim (Bool-cases (leb_ℤ count including)) [
      | inl part ↦ ground (
        arith,
        add_priced_units_at total p t count (o t refl) c.0,
        split_cost p including count i c part,
      )
      | inr apart ↦ ground (arith, add_priced_units_at total p t count (o t refl) c.0)
    ]

add_cache_write_at :
    (total p : ℕ) (own : Option Text) (ordinary : Text) (count : ℤ)
    → ((t : Text) → own ≡ some t → parse_scaled_price t ≡ some p)
    → parse_scaled_price ordinary ≡ some p
    → IsCount count
    → add_cache_write total own ordinary count ≡ ok (total + p * pos_part count)
unfolding add_cache_write
add_cache_write_at total p none ordinary count o e c =
    ground (arith, add_priced_units_at total p ordinary count e c.0)
add_cache_write_at total p (some t) ordinary count o e c =
    ground (arith, add_priced_units_at total p t count (o t refl) c.0)

-- The tokens of a request, each counted once.
abbrev pub tokens : TokenUsage → ℕ
tokens u =
    pos_part u.input_tokens
    + disjoint u.cache_read_tokens u.input_tokens
    + pos_part u.cache_write_tokens
    + (pos_part u.output_tokens + disjoint u.reasoning_tokens u.output_tokens)

witness {ℓ} :
    {A : Type ℓ} {P : A → Type 0} (m : Result A) → Succeeds P m → (a : A) × (m ≡ ok a) × P a
witness (ok a) h = (a, refl, h)
witness (err e) h = absurd h

add_included_ok :
    (total p : ℕ) (own : Option Text) (ordinary : Text) (count including : ℤ)
    → ((t : Text) → own ≡ some t → parse_scaled_price t ≡ some p)
    → parse_scaled_price ordinary ≡ some p
    → IsCount count
    → IsCount including
    → (r : ℕ × ℤ) × (add_included total own ordinary count including ≡ ok r)
      × (IsCount r.1
          × (r.0 + p * pos_part r.1 ≡ total + p * (pos_part including + disjoint count including)))
add_included_ok total p own ordinary count including o e c i =
    witness (add_included total own ordinary count including)
      (add_included-Succeeds total p own ordinary count including o e c i)

-- Where every configured price is p, and there is one for input and one for output tokens but none
-- for the whole request, nonnegative usage costs p for each token: a cache or reasoning count that
-- lies within its total is not charged twice, a larger one is charged in addition and is not free,
-- and cache writes are always charged. Which optional prices are configured makes no difference.
pub scaled_total-uniform :
    (p : ℕ) (prices : List (Dimension × Text)) (u : TokenUsage) {input_price output_price : Text}
    → IsUniform p prices
    → price_of request prices ≡ none
    → price_of input_token prices ≡ some input_price
    → price_of output_token prices ≡ some output_price
    → IsUsage u
    → scaled_total prices u ≡ ok (p * tokens u)
unfolding scaled_total total_of_tokens
scaled_total-uniform p prices u {input_price = i} {output_price = o} uniform no_request ie oe v =
    let (r₁, e₁, h₁) =
      add_included_ok 0 p (price_of cache_read_token prices) i u.cache_read_tokens u.input_tokens
        (at cache_read_token) (at input_token i ie) v.cache_read v.input in
    let w =
      add_cache_write_at r₁.0 p (price_of cache_write_token prices) i u.cache_write_tokens
        (at cache_write_token) (at input_token i ie) v.cache_write in
    let (r₂, e₂, h₂) =
      add_included_ok (r₁.0 + p * pos_part u.cache_write_tokens) p (price_of reasoning_token prices)
        o u.reasoning_tokens u.output_tokens (at reasoning_token) (at output_token o oe) v.reasoning
        v.output in
    let s₁ = add_priced_units_at r₂.0 p i r₁.1 (at input_token i ie) h₁.0.0 in
    let s₂ =
      add_priced_units_at (r₂.0 + p * pos_part r₁.1) p o r₂.1 (at output_token o oe) h₂.0.0 in
    rw (no_request, ie, oe, scaled_total, total_of_tokens)
      (rw (e₁, w, e₂, s₁, s₂) (ap ok (omega (arith, h₁.1, h₂.1))))
  where
    at : (d : Dimension) (t : Text) → price_of d prices ≡ some t → parse_scaled_price t ≡ some p
    at d t e = price_of-uniform d p prices uniform e
