-- ===== src/Prelude/Strings.antt =====
-- Go strings as lists of code points, with the functions of package strings that the source calls.
use bablo.Prelude.Tests.{leb, ltb, ◌==◌, if◌then◌else◌, Bool-cases}
use bablo.Prelude.Lists.{any}
use Prim.Native.Nat.{ℕ, zero, suc, ◌+◌, ◌-◌, ◌*◌, ◌/◌, ◌%◌, ◌<◌}
use Prim.Native.Char.{code}
use Prim.Native.String.{String}
use mathlib.Core.Path.{◌≡◌, refl, sym, ap, ◌∙◌}
use mathlib.Core.Logic.{◌⊎◌, inl, inr}
use mathlib.Core.Bool.{Bool, true, false, ◌&&◌, ◌||◌}
use mathlib.Core.List.{List, [], ◌∷◌, ◌++◌, reverse, reverse-cons, reverse-append, reverse-reverse}
use native.Mathlib.Omega.{arith}

abbrev pub Text : Type 0
Text = List ℕ

-- The code points of a literal.
abbrev pub codes : String → Text
codes String.[] = []
codes (String.◌∷◌ c s) = code c ∷ codes s

unfoldable pub text_eq : Text → Text → Bool
text_eq [] [] = true
text_eq [] (c ∷ t) = false
text_eq (c ∷ s) [] = false
text_eq (c ∷ s) (d ∷ t) = (c == d) && text_eq s t

pub text_eq_refl : (s : Text) → text_eq s s ≡ true
unfolding text_eq
text_eq_refl [] = refl
text_eq_refl (c ∷ s) = ground (arith, text_eq_refl s)

pub text_eq→eq : (s t : Text) → text_eq s t ≡ true → s ≡ t
unfolding text_eq
text_eq→eq [] [] h = refl
text_eq→eq [] (d ∷ t) h = cc
text_eq→eq (c ∷ s) [] h = cc
text_eq→eq (c ∷ s) (d ∷ t) h = ground (arith, text_eq→eq s t)

abbrev pub is_empty : Text → Bool
is_empty [] = true
is_empty (c ∷ s) = false

-- unicode.IsSpace.
unfoldable pub is_space : ℕ → Bool
is_space c =
    leb 9 c && leb c 13
    || c == 0x20
    || c == 0x85
    || c == 0xa0
    || c == 0x1680
    || leb 0x2000 c && leb c 0x200a
    || c == 0x2028
    || c == 0x2029
    || c == 0x202f
    || c == 0x205f
    || c == 0x3000

unfoldable pub trim_left : (ℕ → Bool) → Text → Text
trim_left p [] = []
trim_left p (c ∷ s) = let rest = trim_left p s in elim (p c) [ true ↦ rest | false ↦ c ∷ s ]

-- strings.TrimSpace.
unfoldable pub trim_space : Text → Text
unfolding trim_left is_space
trim_space s = reverse (trim_left is_space (reverse (trim_left is_space s)))

-- len: the bytes of the UTF-8 form.
abbrev pub rune_len : ℕ → ℕ
rune_len c = if ltb c 0x80 then 1 else if ltb c 0x800 then 2 else if ltb c 0x10000 then 3 else 4

unfoldable pub byte_len : Text → ℕ
byte_len [] = 0
byte_len (c ∷ s) = rune_len c + byte_len s

-- strings.ToUpper of the code points that become ASCII letters, the dotless i and the long s among
-- them; all others are left alone here, and stay outside ASCII in Go.
abbrev pub upper : ℕ → ℕ
upper c =
    if leb b'a' c && leb c b'z'
    then c - 32
    else if c == 0x131
    then b'I'
    else if c == 0x17f
    then b'S'
    else c

unfoldable pub to_upper : Text → Text
to_upper [] = []
to_upper (c ∷ s) = upper c ∷ to_upper s

-- strings.ContainsAny.
unfoldable pub contains_any : Text → Text → Bool
contains_any [] chars = false
contains_any (c ∷ s) chars = any (λ d. c == d) chars || contains_any s chars

-- strconv.Itoa of a number that is not negative; a number has at most as many digits as its
-- successor counts.
unfoldable pub digits : ℕ → ℕ → Text
digits zero n = []
digits (suc fuel) n = elim (ltb n 10) [
  | true ↦ (b'0' + n) ∷ []
  | false ↦ digits fuel (n / 10) ++ (b'0' + n % 10) ∷ []
]

unfoldable pub itoa : ℕ → Text
unfolding digits
itoa n = digits (suc n) n

-- The number that decimal digits stand for, after those read so far.
pub read_digits : ℕ → Text → ℕ
read_digits n [] = n
read_digits n (c ∷ s) = read_digits (10 * n + (c - b'0')) s

read_digits-append : (n : ℕ) (s t : Text) → read_digits n (s ++ t) ≡ read_digits (read_digits n s) t
unfolding read_digits
read_digits-append n [] t = refl
read_digits-append n (c ∷ s) t = read_digits-append (10 * n + (c - b'0')) s t

read-digits : (fuel n : ℕ) → n < fuel → read_digits 0 (digits fuel n) ≡ n
unfolding digits read_digits
read-digits zero n h = absurd (omega arith)
read-digits (suc fuel) n h = elim (Bool-cases (ltb n 10)) [
  | inl e ↦ ground arith
  | inr e ↦
      rw (e, digits, read_digits-append 0 (digits fuel (n / 10)) ((b'0' + n % 10) ∷ []))
        (ground (arith, read-digits fuel (n / 10)))
]

-- Different numbers have different texts.
pub itoa-injective : (m n : ℕ) → itoa m ≡ itoa n → m ≡ n
unfolding itoa
itoa-injective m n h =
    sym (read-digits (suc m) m (omega arith))
    ∙ (ap (read_digits 0) h ∙ read-digits (suc n) n (omega arith))

-- trim_left leaves a text that begins with another character, or none.
trim_left-head : (p : ℕ → Bool) (s : Text) → trim_left p (trim_left p s) ≡ trim_left p s
unfolding trim_left
trim_left-head p [] = refl
trim_left-head p (c ∷ s) = elim (Bool-cases (p c)) [
  | inl e ↦ rw (e, trim_left) (trim_left-head p s)
  | inr e ↦ ground arith
]

-- A last character that stays in place.
trim_left-last :
    (p : ℕ → Bool) (s : Text) (c : ℕ)
    → p c ≡ false
    → (t : Text) × (trim_left p (s ++ c ∷ []) ≡ t ++ c ∷ [])
unfolding trim_left
trim_left-last p [] c e = ([], rw e)
trim_left-last p (d ∷ s) c e = elim (Bool-cases (p d)) [
  | inl f ↦ rw f (trim_left-last p s c e)
  | inr f ↦ rw f (d ∷ s, refl)
]

-- A text that begins with no space is left alone.
trim_left-first : (p : ℕ → Bool) (c : ℕ) (s : Text) → p c ≡ false → trim_left p (c ∷ s) ≡ c ∷ s
unfolding trim_left
trim_left-first p c s e = rw (e, trim_left)

-- The two ends, trimmed one after the other: what begins with no space keeps its first character.
trim_right_first :
    (p : ℕ → Bool) (c : ℕ) (s : Text)
    → p c ≡ false
    → (t : Text) × (reverse (trim_left p (reverse (c ∷ s))) ≡ c ∷ t)
trim_right_first p c s e =
    let (t, h) = trim_left-last p (reverse s) c e in
    (
      reverse t,
      ap (λ u. reverse (trim_left p u)) (reverse-cons c s)
          ∙ (ap reverse h ∙ reverse-append t (c ∷ [])),
    )

-- What trim_left leaves, by its first character.
trim_left-cases :
    (p : ℕ → Bool) (s : Text)
    → (trim_left p s ≡ []) ⊎ ((c : ℕ) × (t : Text) × (trim_left p s ≡ c ∷ t) × (p c ≡ false))
unfolding trim_left
trim_left-cases p [] = inl refl
trim_left-cases p (c ∷ s) = elim (Bool-cases (p c)) [
  | inl e ↦ rw (e, trim_left) (trim_left-cases p s)
  | inr e ↦ inr (c, s, trim_left-first p c s e, e)
]

-- Once more, of what has been trimmed.
trim_trimmed :
    (c : ℕ) (t u : Text)
    → is_space c ≡ false
    → reverse (trim_left is_space (reverse (c ∷ t))) ≡ c ∷ u
    → trim_space (c ∷ u) ≡ c ∷ u
unfolding trim_space
trim_trimmed c t u n h =
    let w = trim_left is_space (reverse (c ∷ t)) in
    ap (λ x. reverse (trim_left is_space (reverse x))) (trim_left-first is_space c u n)
    ∙ (ap (λ x. reverse (trim_left is_space x)) (ap reverse (sym h) ∙ reverse-reverse w)
        ∙ (ap reverse (trim_left-head is_space (reverse (c ∷ t))) ∙ h))

-- strings.TrimSpace of what it returns changes nothing.
pub trim_space_idem : (s : Text) → trim_space (trim_space s) ≡ trim_space s
unfolding trim_space
trim_space_idem s = elim (trim_left-cases is_space s) [
  | inl e ↦ rw e refl
  | inr (c, t, e, n) ↦
      let (u, h) = trim_right_first is_space c t n in
      let whole : trim_space s ≡ c ∷ u = ap (λ x. reverse (trim_left is_space (reverse x))) e ∙ h in
      ap trim_space whole ∙ (trim_trimmed c t u n h ∙ sym whole)
]
