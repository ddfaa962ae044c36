-- ===== src/Billing/Money/Decimal.antt =====
-- parseScaledPrice (internal/billing/money.go) reads a decimal exactly.
use bablo.Prelude.{
  ℕ, zero, suc, ◌+◌, ◌-◌, ◌*◌, ◌^◌, ◌≤◌, ◌<◌, ◌≡◌, inl, inr, refl, ap, ◌∙◌, false, some, List, [],
  ◌∷◌, ◌++◌, reverse, Text, is_empty, is_space, trim_left, trim_space, byte_len, length,
  length-append, replicate, length-replicate, All, ltb, ◌==◌, arith, Bool-cases, ==_iff,
}
use native.Mathlib.Nat.{pow-suc, suc-add, zero-add}
use mathlib.Core.List.{reverse-reverse, reverse-cons, append-nil}
use bablo.Billing.Money.{
  split, set_string, not_digits, scaled_of_parts, scaled_of_split, starts_with_sign,
  parse_scaled_price,
}

abbrev pub IsDigits : Text → Type 0
IsDigits = All (λ c. (b'0' ≤ c) × (c ≤ b'9'))

-- The number that digits stand for, by the place of each.
pub decimal_value : Text → ℕ
decimal_value [] = 0
decimal_value (c ∷ s) = (c - b'0') * 10 ^ length s + decimal_value s

set_string-eq-decimal_value :
    (acc : ℕ) (s : Text) → set_string acc s ≡ acc * 10 ^ length s + decimal_value s
unfolding set_string decimal_value
set_string-eq-decimal_value acc [] = omega arith
set_string-eq-decimal_value acc (c ∷ s) =
    rw (set_string-eq-decimal_value (acc * 10 + (c - b'0')) s, pow-suc) (omega arith)

-- Leading zeros do not count.
set_string-trim_left : (s : Text) → set_string 0 (trim_left (λ c. c == b'0') s) ≡ set_string 0 s
unfolding set_string trim_left
set_string-trim_left [] = refl
set_string-trim_left (c ∷ s) = elim (Bool-cases (c == b'0')) [
  | inl e ↦
      rw (e, trim_left, set_string)
        (set_string-trim_left s ∙ ap (λ n. set_string n s) (omega (arith, (==_iff c b'0').0 e)))
  | inr e ↦ rw (e, trim_left)
]

pow_ten-add : (m n : ℕ) → 10 ^ (m + n) ≡ 10 ^ m * 10 ^ n
pow_ten-add zero n = rw zero-add (omega arith)
pow_ten-add (suc m) n = rw (suc-add, pow-suc, pow_ten-add m n, pow-suc) (omega arith)

decimal_value-append :
    (s t : Text) → decimal_value (s ++ t) ≡ decimal_value s * 10 ^ length t + decimal_value t
unfolding decimal_value
decimal_value-append [] t = omega arith
decimal_value-append (c ∷ s) t =
    rw (decimal_value-append s t, length-append s t, pow_ten-add (length s) (length t))
      (omega arith)

decimal_value-zeros : (n : ℕ) → decimal_value (replicate n b'0') ≡ 0
unfolding decimal_value
decimal_value-zeros zero = refl
decimal_value-zeros (suc n) = omega (arith, decimal_value-zeros n)

byte_len-digits : (s : Text) → IsDigits s → byte_len s ≡ length s
unfolding byte_len
byte_len-digits [] h = refl
byte_len-digits (c ∷ s) h = ground (arith, byte_len-digits s h.1)

not_digits-digits : (s : Text) → IsDigits s → not_digits s ≡ false
not_digits-digits [] h = refl
not_digits-digits (c ∷ s) h = ground (arith, not_digits-digits s h.1)

split-digits : (s : Text) → IsDigits s → split b'.' s ≡ (s, [])
unfolding split
split-digits [] h = refl
split-digits (c ∷ s) h = rw (split-digits s h.1) (ground arith)

split_at_point : (s t : Text) → IsDigits s → IsDigits t → split b'.' (s ++ b'.' ∷ t) ≡ (s, t ∷ [])
unfolding split
split_at_point [] t h k = rw (split-digits t k)
split_at_point (c ∷ s) t h k = rw (split_at_point s t h.1 k) (ground arith)

trim_left-solid : (s : Text) → All (λ c. is_space c ≡ false) s → trim_left is_space s ≡ s
unfolding trim_left
trim_left-solid [] h = refl
trim_left-solid (c ∷ s) h = rw (h.0, trim_left)

digits_solid : (s : Text) → IsDigits s → All (λ c. is_space c ≡ false) s
unfolding is_space
digits_solid [] h = tt
digits_solid (c ∷ s) h = (ground (arith, h.0), digits_solid s h.1)

All-append {ℓ κ} :
    {A : Type ℓ} (P : A → Type κ) (xs ys : List A) → All P xs → All P ys → All P (xs ++ ys)
All-append P [] ys h k = k
All-append P (x ∷ xs) ys h k = (h.0, All-append P xs ys h.1 k)

All-reverse {ℓ κ} : {A : Type ℓ} (P : A → Type κ) (xs : List A) → All P xs → All P (reverse xs)
All-reverse P [] h = tt
All-reverse P (x ∷ xs) h =
    rw (reverse-cons x xs) (All-append P (reverse xs) (x ∷ []) (All-reverse P xs h.1) (h.0, tt))

trim_space-solid : (s : Text) → All (λ c. is_space c ≡ false) s → trim_space s ≡ s
unfolding trim_space
trim_space-solid s h =
    rw (trim_left-solid s h)
      (rw (trim_left-solid (reverse s) (All-reverse _ s h)) (reverse-reverse s))

padded_value :
    (s t : Text) (n : ℕ)
    → length t + n ≡ 12
    → set_string 0 (trim_left (λ c. c == b'0') (s ++ (t ++ replicate n b'0')))
      ≡ decimal_value s * 10 ^ 12 + decimal_value t * 10 ^ n
padded_value s t n h =
    let zeros = replicate n b'0' in
    let whole : length (t ++ zeros) ≡ 12 =
      length-append t zeros ∙ (ap (λ k. length t + k) (length-replicate {A = ℕ} n b'0') ∙ h) in
    rw (set_string-trim_left (s ++ (t ++ zeros))) (
      rw
        (
          set_string-eq-decimal_value 0 (s ++ (t ++ zeros)),
          decimal_value-append s (t ++ zeros),
          whole,
          decimal_value-append t zeros,
          length-replicate {A = ℕ} n b'0',
          decimal_value-zeros n,
        )
        (omega arith))

is_empty-pos : (s : Text) → 0 < length s → is_empty s ≡ false
is_empty-pos [] h = absurd (omega arith)
is_empty-pos (c ∷ s) h = refl

ltb-false : (a b : ℕ) → b ≤ a → ltb a b ≡ false
ltb-false a b h = ground arith

scaled_of_parts-digits :
    (s t : Text)
    → IsDigits s
    → IsDigits t
    → 0 < length s
    → length s ≤ 18
    → length t ≤ 12
    → scaled_of_parts s t
      ≡ some (decimal_value s * 10 ^ 12 + decimal_value t * 10 ^ (12 - length t))
unfolding scaled_of_parts
scaled_of_parts-digits s t hs ht pos_s le_s le_t =
    let n = 12 - length t in
    rw (is_empty-pos s pos_s, scaled_of_parts)
      (rw
        (
          byte_len-digits s hs,
          byte_len-digits t ht,
          not_digits-digits s hs,
          not_digits-digits t ht,
          ltb-false 18 (length s) le_s,
          ltb-false 12 (length t) le_t,
        )
        (ap some (padded_value s t n (omega arith))))

starts_with_sign-digits :
    (s t : Text) → IsDigits s → 0 < length s → starts_with_sign (s ++ t) ≡ false
starts_with_sign-digits [] t h p = absurd (omega arith)
starts_with_sign-digits (c ∷ s) t h p = ground (arith, h.0)

is_empty-digits : (s t : Text) → 0 < length s → is_empty (s ++ t) ≡ false
is_empty-digits [] t p = absurd (omega arith)
is_empty-digits (c ∷ s) t p = refl

point_solid : is_space b'.' ≡ false
unfolding is_space
point_solid = refl

parse_solid :
    (s t : Text)
    → IsDigits s
    → 0 < length s
    → All (λ c. is_space c ≡ false) (s ++ t)
    → parse_scaled_price (s ++ t) ≡ scaled_of_split (split b'.' (s ++ t))
unfolding parse_scaled_price
parse_solid s t hs p solid =
    rw (trim_space-solid (s ++ t) solid, parse_scaled_price)
      (rw (is_empty-digits s t p, starts_with_sign-digits s t hs p))

-- A decimal of 1 to 18 digits, a point and up to 12 digits is read exactly, in units of 10 ^ -12;
-- an absent fraction counts as an empty one.
pub parse_scaled_price-decimal :
    (s t : Text)
    → IsDigits s
    → IsDigits t
    → 0 < length s
    → length s ≤ 18
    → length t ≤ 12
    → (parse_scaled_price (s ++ b'.' ∷ t)
        ≡ some (decimal_value s * 10 ^ 12 + decimal_value t * 10 ^ (12 - length t)))
      × (parse_scaled_price s ≡ some (decimal_value s * 10 ^ 12))
unfolding scaled_of_split decimal_value
parse_scaled_price-decimal s t hs ht pos_s le_s le_t =
    let space = λ (c : ℕ). is_space c ≡ false in
    let solid : All space (s ++ b'.' ∷ t) =
      All-append space s (b'.' ∷ t) (digits_solid s hs) (point_solid, digits_solid t ht) in
    let whole : All space (s ++ []) = All-append space s [] (digits_solid s hs) tt in
    (
      rw (parse_solid s (b'.' ∷ t) hs pos_s solid, split_at_point s t hs ht)
          (scaled_of_parts-digits s t hs ht pos_s le_s le_t),
      rw (← append-nil s) (
          rw (parse_solid s [] hs pos_s whole) (
            rw (append-nil s, split-digits s hs)
              (scaled_of_parts-digits s [] hs tt pos_s le_s (omega arith)
                ∙ ap some (omega arith)))),
    )
