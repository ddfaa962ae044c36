-- ===== src/Billing/Books/Holds.antt =====
-- The reservations table under its statements.
use bablo.Prelude.{
  ◌≡◌, ℤ, pos, ◌+ℤ◌, ◌≤ℤ◌, max_int64, int_laws, Bool, true, false, ◌&&◌, some, List, [], ◌∷◌, ◌==◌,
  if◌then◌else◌, arith, All, Bool-cases, inl, inr, +ℤ_assoc, ◌∙◌, ap, sym,
}
use bablo.Billing.Model.{Uuid, Reservation, ReservationStatus}
use bablo.Billing.Store.Tables.{find_reservation, update_reservation, is_held}

-- What a reservation adds to the hold of a wallet.
abbrev pub part_of : Uuid → Reservation → ℤ
part_of k r = if r.wallet_id == k && is_held r.status then r.amount_minor else pos 0

-- The open holds of a wallet.
unfoldable pub held_of : Uuid → List Reservation → ℤ
held_of k [] = pos 0
held_of k (r ∷ rs) = part_of k r +ℤ held_of k rs

abbrev pub IsAmount : ℤ → Type 0
IsAmount a = (pos 1 ≤ℤ a) × (a ≤ℤ max_int64)

-- A status that a row can have: the column does not take ReservationNone.
abbrev pub is_stored : ReservationStatus → Bool
is_stored ReservationStatus.none = false
is_stored _ = true

abbrev pub IsRow : Reservation → Type 0
IsRow r = IsAmount r.amount_minor × (is_stored r.status ≡ true)

abbrev pub AreRows : List Reservation → Type 0
AreRows = All IsRow

pub find_reservation_id :
    (k : Uuid) (rs : List Reservation) {r : Reservation} → find_reservation k rs ≡ some r → r.id ≡ k
unfolding find_reservation
find_reservation_id k [] h = cc
find_reservation_id k (s ∷ rs) {r} h = ground (arith, find_reservation_id k rs {r = r})

pub find_reservation-IsRow :
    (k : Uuid) (rs : List Reservation) {r : Reservation}
    → AreRows rs
    → find_reservation k rs ≡ some r
    → IsRow r
unfolding find_reservation
find_reservation-IsRow k [] a h = cc
find_reservation-IsRow k (s ∷ rs) {r} a h = ground (arith, find_reservation-IsRow k rs {r = r} a.1)

pub held_of-nonneg : (k : Uuid) (rs : List Reservation) → AreRows rs → pos 0 ≤ℤ held_of k rs
unfolding held_of
held_of-nonneg k [] a = omega arith
held_of-nonneg k (r ∷ rs) a = grind (int_laws, held_of-nonneg k rs a.1)

-- An open hold is part of its wallet's.
pub part-le-held_of :
    (j k : Uuid) (rs : List Reservation) {r : Reservation}
    → AreRows rs
    → find_reservation j rs ≡ some r
    → part_of k r ≤ℤ held_of k rs
unfolding held_of find_reservation
part-le-held_of j k [] a h = cc
part-le-held_of j k (s ∷ rs) {r} a h =
    grind (int_laws, part-le-held_of j k rs {r = r} a.1, held_of-nonneg k rs a.1)

module _ (f : Reservation → Reservation) where
  -- An update moves the hold of each wallet by what the row's part moves.
  pub held_of-update :
      (j k : Uuid) (rs : List Reservation) {r : Reservation}
      → find_reservation j rs ≡ some r
      → held_of k (update_reservation j f rs) +ℤ part_of k r ≡ held_of k rs +ℤ part_of k (f r)
  unfolding held_of find_reservation update_reservation
  held_of-update j k [] h = cc
  held_of-update j k (s ∷ rs) {r} h = elim (Bool-cases (s.id == j)) [
    | inl e ↦
        let same : s ≡ r = ground (arith, e) in
        rw (e, update_reservation, held_of) (rw (← same) (omega int_laws))
    | inr e ↦
        let found : find_reservation j rs ≡ some r = ground (arith, e) in
        rw (e, update_reservation)
          (+ℤ_assoc (part_of k s) (held_of k (update_reservation j f rs)) (part_of k r)
            ∙ (ap (λ z. part_of k s +ℤ z) (held_of-update j k rs found)
                ∙ sym (+ℤ_assoc (part_of k s) (held_of k rs) (part_of k (f r)))))
  ]

  pub AreRows-update :
      ((r : Reservation) → IsRow r → IsRow (f r))
      → (j : Uuid) (rs : List Reservation) → AreRows rs
      → AreRows (update_reservation j f rs)
  unfolding update_reservation
  AreRows-update same j [] a = tt
  AreRows-update same j (s ∷ rs) a = ground (arith, same s a.0, AreRows-update same j rs a.1)
