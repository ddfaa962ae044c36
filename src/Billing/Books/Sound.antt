-- ===== src/Billing/Books/Sound.antt =====
-- What holds of the books between two of the transactions modelled here. It does not hold while the
-- hold of a payment refund is outstanding: HoldPaymentRefundInTx (internal/billing/payment.go), which
-- is not modelled, moves an amount to the reserved balance without a reservation.
use bablo.Prelude.{
  ◌⊎◌, ◌==◌, false, ◌≡◌, refl, pos, ◌+ℤ◌, ◌≤ℤ◌, max_int64, List, [], ◌∷◌, All, arith,
}
use bablo.Billing.Model.{Uuid, Result, ok, err, Wallet, Reservation, LedgerEntry, Liability}
use bablo.Billing.Store.Tables.{Db, Fate, runs, unbegun, undone, unheard, is_opened}
use bablo.Billing.Store.Tx.{Tx, Ensures, Holds, ended, with_tx, new_id, steps, ◌>>=◌}
use bablo.Billing.Credit.{ledger_available, ledger_reserved}
use bablo.Billing.Books.Wallets.{IsUnique, available_of, reserved_of}
use bablo.Billing.Books.Holds.{held_of, AreRows}

-- The projection of one wallet agrees with its ledger and with its open holds, and is in range.
pub record At (k : Uuid) (ws : List Wallet) (rs : List Reservation) (es : List LedgerEntry)
    : Type 0 where
  pub available : available_of k ws ≡ ledger_available k es
  pub reserved : reserved_of k ws ≡ ledger_reserved k es
  pub held : reserved_of k ws ≡ held_of k rs
  pub nonneg : pos 0 ≤ℤ available_of k ws
  pub available_cap : available_of k ws ≤ℤ max_int64
  pub reserved_cap : reserved_of k ws ≤ℤ max_int64

-- An amount recovered that lies within the principal, and below it while the debt is open.
pub record IsDebt (l : Liability) : Type 0 where
  pub nonneg : pos 0 ≤ℤ l.recovered_amount_minor
  pub within : l.recovered_amount_minor ≤ℤ l.principal_amount_minor
  pub cap : l.principal_amount_minor ≤ℤ max_int64
  pub opened :
      (is_opened l.status ≡ false) ⊎ (l.recovered_amount_minor +ℤ pos 1 ≤ℤ l.principal_amount_minor)

-- No id stands twice.
abbrev pub AreDistinct : List Liability → Type 0
AreDistinct [] = Unit
AreDistinct (l ∷ ls) = All (λ m. (m.id == l.id) ≡ false) ls × AreDistinct ls

abbrev pub AreDebts : List Liability → Type 0
AreDebts ls = All IsDebt ls × AreDistinct ls

pub record Sound (ws : List Wallet) (rs : List Reservation) (es : List LedgerEntry)
    (ls : List Liability) : Type 0 where
  pub unique : IsUnique ws
  pub amounts : AreRows rs
  pub debts : AreDebts ls
  pub at : (k : Uuid) → At k ws rs es

abbrev pub IsSound : Db → Type 0
IsSound db = Sound db.wallets db.reservations db.ledger db.liabilities

-- The tables that make up the books are the same.
abbrev pub SameBooks : Db → Db → Type 0
SameBooks db db' =
    (db'.wallets ≡ db.wallets)
    × (db'.reservations ≡ db.reservations)
    × (db'.ledger ≡ db.ledger)
    × (db'.liabilities ≡ db.liabilities)

pub SameBooks-IsSound : (db db' : Db) → SameBooks db db' → IsSound db → IsSound db'
SameBooks-IsSound db db' (w, r, e, l) s = rw (w, r, e, l) s

pub SameBooks-trans : (a b c : Db) → SameBooks a b → SameBooks b c → SameBooks a c
SameBooks-trans a b c (w, r, e, l) (w', r', e', l') = (cc, cc, cc, cc)

ended-IsSound :
    {A : Type 0} (fate : Fate) (db : Db) (r : Result A × Db)
    → IsSound db
    → Holds (λ _ db'. IsSound db') r
    → IsSound (ended {A = A} fate db r).1
ended-IsSound fate db (err e, db') s h = s
ended-IsSound runs db (ok a, db') s h = h
ended-IsSound unheard db (ok a, db') s h = h
ended-IsSound undone db (ok a, db') s h = s
ended-IsSound unbegun db (ok a, db') s h = s

-- A transaction that keeps the books sound when it succeeds keeps them sound, whatever its fate.
pub with_tx-IsSound :
    {A : Type 0} (m : Tx A) (db : Db)
    → IsSound db
    → Ensures (λ _ db'. IsSound db') m db
    → IsSound (with_tx m db).1
unfolding with_tx Ensures
with_tx-IsSound m db s h = by_fate db.fates refl
  where
    by_fate : (fates : List Fate) → db.fates ≡ fates → IsSound (with_tx m db).1
    by_fate [] e = rw (e, with_tx) (ended-IsSound runs db (m db) s h)
    by_fate (unbegun ∷ left) e = rw (e, with_tx) s
    by_fate (runs ∷ left) e = rw (e, with_tx) (ended-IsSound runs db (m db) s h)
    by_fate (undone ∷ left) e = rw (e, with_tx) (ended-IsSound undone db (m db) s h)
    by_fate (unheard ∷ left) e = rw (e, with_tx) (ended-IsSound unheard db (m db) s h)

-- A transaction after the draw of an identifier.
pub new_id-IsSound :
    {A : Type 0} (f : Uuid → Tx A) (db : Db) (ids : List Uuid)
    → db.ids ≡ ids
    → IsSound db
    → ((k : Uuid) (ks : List Uuid) → IsSound (f k (record db { ids = ks })).1)
    → IsSound ((new_id >>= f) db).1
unfolding new_id steps
new_id-IsSound f db [] e s h = ground arith
new_id-IsSound f db (k ∷ ks) e s h = ground (arith, h k ks)
