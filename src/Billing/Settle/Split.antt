-- ===== src/Billing/Settle/Split.antt =====
-- The arithmetic of Repository.Settle (internal/billing/repository.go): how a charge divides into
-- the part that the hold covers, the part beyond it, and the rest of the hold.
use bablo.Prelude.{
  ◌≡◌, subst, ℤ, pos, ◌+ℤ◌, ◌-ℤ◌, ◌≤ℤ◌, neg, max_int64, int_laws, sub64, sub64-nonneg, neg64,
  neg64-nonneg, some, ltb_ℤ, if◌then◌else◌, Bool-cases, inl, inr, parts_of_eq,
}
use bablo.Billing.Reserve.{safe_add}
use bablo.Billing.Settle.{final_reserved}
use bablo.Billing.Books.Holds.{IsAmount}
use bablo.Billing.Books.Moves.{safe_add_lem}

abbrev pub IsWord : ℤ → Type 0
IsWord a = (pos 0 ≤ℤ a) × (a ≤ℤ max_int64)

abbrev pub extra_of : ℤ → ℤ → ℤ
extra_of a x = if ltb_ℤ a x then sub64 x a else pos 0

abbrev pub consumed_of : ℤ → ℤ → ℤ
consumed_of a x = if ltb_ℤ a x then a else x

abbrev pub released_of : ℤ → ℤ → ℤ
released_of a x = sub64 a (consumed_of a x)

-- A charge x against a hold a: e beyond the hold, c from it, and r that is left of it.
pub record Split (a x e c r : ℤ) : Type 0 where
  pub charge : e +ℤ c ≡ x
  pub hold : c +ℤ r ≡ a
  pub extra : IsWord e
  pub consumed : IsWord c
  pub released : IsWord r

pub split_lem :
    (a x : ℤ) → IsAmount a → IsWord x → Split a x (extra_of a x) (consumed_of a x) (released_of a x)
split_lem a x amount word = elim (Bool-cases (ltb_ℤ a x)) [
  | inl above ↦
      let e = sub64-nonneg x a word.0 word.1 (omega (int_laws, amount.0)) amount.1 in
      let r =
        sub64-nonneg a a (omega (int_laws, amount.0)) amount.1 (omega (int_laws, amount.0))
          amount.1 in
      rw above (
        rw (e, r)
          (record {
            charge = omega int_laws;
            hold = omega int_laws;
            extra = (grind int_laws, grind int_laws);
            consumed = (omega (int_laws, amount.0), amount.1);
            released = (omega int_laws, omega int_laws);
          }))
  | inr within ↦
      let r = sub64-nonneg a x (omega (int_laws, amount.0)) amount.1 word.0 word.1 in
      rw within (
        rw r (record {
          charge = omega int_laws;
          hold = omega int_laws;
          extra = (omega int_laws, omega int_laws);
          consumed = word;
          released = (grind int_laws, grind int_laws);
        }))
]

module _ {a x e c r : ℤ} (s : Split a x e c r) where
  pub available_delta :
      (if ltb_ℤ (pos 0) r then r else pos 0) +ℤ (if ltb_ℤ (pos 0) x then neg64 e else pos 0)
      ≡ r +ℤ neg e
  available_delta =
      grind
        (int_laws, neg64-nonneg e s.extra.0 s.extra.1, s.charge, s.extra, s.consumed, s.released)

  pub reserved_delta :
      (if ltb_ℤ (pos 0) r then neg64 r else pos 0) +ℤ (if ltb_ℤ (pos 0) x then neg64 c else pos 0)
      ≡ neg a
  reserved_delta = grind (
    int_laws,
    neg64-nonneg c s.consumed.0 s.consumed.1,
    neg64-nonneg r s.released.0 s.released.1,
    s.charge,
    s.hold,
    s.extra,
    s.consumed,
    s.released,
  )

  pub reserved_after :
      (held : ℤ) → a ≤ℤ held → held ≤ℤ max_int64 → final_reserved (sub64 held c) r ≡ neg a +ℤ held
  reserved_after held covers word =
      let c-le : pos 0 ≤ℤ held -ℤ c =
        omega (int_laws, parts_of_eq _ _ s.hold, s.released, covers) in
      let cap_c : held -ℤ c ≤ℤ max_int64 = omega (int_laws, s.consumed, word) in
      let first =
        sub64-nonneg held c
          (omega (int_laws, parts_of_eq _ _ s.hold, s.released, s.consumed, covers)) word
          s.consumed.0 s.consumed.1 in
      let second = sub64-nonneg (held -ℤ c) r c-le cap_c s.released.0 s.released.1 in
      rw first (rw second (grind (int_laws, s.hold, s.released)))

  pub available_after :
      (v after : ℤ)
      → IsWord v
      → e ≤ℤ v
      → (if ltb_ℤ (pos 0) r then safe_add (sub64 v e) r else some (sub64 v e)) ≡ some after
      → (after ≡ r +ℤ neg e +ℤ v) × (after ≤ℤ max_int64)
  available_after v after word covers h =
      let first = sub64-nonneg v e word.0 word.1 s.extra.0 s.extra.1 in
      let exact =
        safe_add_lem (v -ℤ e) r after (omega (int_laws, covers), omega (int_laws, s.extra, word))
          (omega (int_laws, s.released), s.released.1) in
      let found =
        subst (λ q. (if ltb_ℤ (pos 0) r then safe_add q r else some q) ≡ some after) first h in
      grind (int_laws, exact.0, found, s.extra, s.released, word)
