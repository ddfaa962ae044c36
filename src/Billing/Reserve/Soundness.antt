-- ===== src/Billing/Reserve/Soundness.antt =====
-- Repository.Reserve (internal/billing/repository.go) keeps the books sound.
use bablo.Prelude.{
  ◌≡◌, refl, subst, ℤ, pos, ◌+ℤ◌, ◌≤ℤ◌, max_int64, int_laws, sub64, sub64-nonneg, neg64,
  neg64-nonneg, false, Option, none, some, ◌∷◌, arith, ltb_ℤ,
}
use bablo.Billing.Model.{Uuid, Wallet, Reservation, LedgerEntry, ReserveInput, Quote}
use bablo.Billing.Store.Tables.{Db, find_wallet, update_wallet}
use bablo.Billing.Store.Tx.{
  Ensures, Ensures->>=, Ensures->>, Ensures-modify, Ensures-throw_if, Ensures-or_throw,
  Ensures-reads, steps,
}
use bablo.Billing.Store.Statements.{Env}
use bablo.Billing.Reserve.{
  safe_add, set_balances, new_reservation, insert_reservation, hold_entry, write_hold, hold,
  reserve_new, reserve_found, reserve_in_tx, reserve,
}
use bablo.Billing.Books.Wallets.{available_of, reserved_of}
use bablo.Billing.Books.Holds.{held_of, held_of-nonneg, IsAmount}
use bablo.Billing.Books.Sound.{IsSound, SameBooks-IsSound, with_tx-IsSound, new_id-IsSound}
use bablo.Billing.Books.Effects.{
  Posted, Posted-available, Posted-reserved, finish, insert_ledger-Posted,
  insert_billing_outbox-KeepsBooks, check_budgets-KeepsBooks, validate_published_price-KeepsBooks,
}
use bablo.Billing.Books.Opening.{Opened, get_or_create_wallet-Opened}
use bablo.Billing.Books.Moves.{Sound-move, safe_add_lem}

insert_reservation_effect :
    (r : Reservation) (db : Db)
    → Ensures
        (λ _ db'. db' ≡ record db { reservations = r ∷ db.reservations })
        (insert_reservation r)
        db
unfolding insert_reservation steps Ensures
insert_reservation_effect r db = ground arith

-- A wallet row of sound books is in range.
pub wallet_range :
    (w : Wallet) (db : Db)
    → IsSound db
    → find_wallet w.id db.wallets ≡ some w
    → (pos 0 ≤ℤ w.available_balance_minor)
      × (w.available_balance_minor ≤ℤ max_int64)
      × (w.reserved_balance_minor ≡ held_of w.id db.reservations)
      × (w.reserved_balance_minor ≤ℤ max_int64)
unfolding available_of reserved_of
wallet_range w db s found = ground (arith, s.at w.id)

module _ (env : Env) (k : Uuid) (input : ReserveInput) (quote : Quote) (w : Wallet) (db : Db)
    (s : IsSound db) (found : find_wallet w.id db.wallets ≡ some w)
    (amount : IsAmount quote.amount_minor) where
  abbrev available_after : ℤ
  available_after = sub64 w.available_balance_minor quote.amount_minor

  abbrev held_db : ℤ → Db
  held_db after = record db {
    wallets = update_wallet w.id (set_balances available_after after env.now) db.wallets;
    reservations = new_reservation env k w.id input quote ∷ db.reservations;
  }

  abbrev entry : ℤ → LedgerEntry
  entry after = hold_entry env input quote w available_after after

  -- The tables after the hold: the row of the wallet, the reservation and one ledger entry.
  after_hold :
      (after : ℤ) (row : LedgerEntry) (db₂ db₃ : Db)
      → quote.amount_minor ≤ℤ w.available_balance_minor
      → after ≡ w.reserved_balance_minor +ℤ quote.amount_minor
      → after ≤ℤ max_int64
      → db₂ ≡ held_db after
      → Posted (entry after) row db₂ db₃
      → IsSound db₃
  unfolding held_of
  after_hold after row db₂ db₃ covered sum cap e p =
      let range = wallet_range w db s found in
      let minus = neg64-nonneg quote.amount_minor (omega (int_laws, amount.0)) amount.1 in
      let left =
        sub64-nonneg w.available_balance_minor quote.amount_minor range.0 range.1
          (omega (int_laws, amount.0)) amount.1 in
      let q = subst (λ d. Posted (entry after) row d db₃) e p in
      rw (q.wallets, q.reservations, q.liabilities)
        (Sound-move {es' = db₃.ledger} s w found (set_balances available_after after env.now)
          (λ v. refl) (neg64 quote.amount_minor) quote.amount_minor (λ j. Posted-available j q)
          (λ j. Posted-reserved j q) (λ j. ground arith) (rw (left, minus) (omega int_laws))
          (rw sum (omega int_laws)) (rw left (omega int_laws)) (rw left (omega int_laws)) cap
          db.liabilities ((amount, refl), s.amounts) s.debts)

  write_hold-IsSound :
      (after : ℤ)
      → quote.amount_minor ≤ℤ w.available_balance_minor
      → after ≡ w.reserved_balance_minor +ℤ quote.amount_minor
      → after ≤ℤ max_int64
      → Ensures (λ _ db'. IsSound db') (write_hold env k input quote w available_after after) db
  unfolding write_hold
  write_hold-IsSound after covered sum cap = Ensures-modify _ _ _ _ (
      Ensures->> _ _ _ _ _ (insert_reservation_effect _ _) (λ _ db₂ e.
        Ensures->> _ _ _ _ _ (insert_ledger-Posted (entry after) db₂) (λ row db₃ p.
          finish _ _ db₃ (insert_billing_outbox-KeepsBooks _ _ _ _)
            (after_hold after row db₂ db₃ covered sum cap e p))))

module _ (env : Env) (k : Uuid) (input : ReserveInput) (quote : Quote)
    (amount : IsAmount quote.amount_minor) where
  -- The tests before the writes give what the writes need.
  hold-IsSound :
      (w : Wallet) (db : Db)
      → Opened w db
      → Ensures (λ _ db'. IsSound db') (hold env k input quote w) db
  unfolding hold
  hold-IsSound w db (s, found) = Ensures-throw_if _ _ _ _ _ (λ active.
      Ensures-throw_if _ _ _ _ _ (λ same_currency.
        Ensures->> _ _ _ _ _ (check_budgets-KeepsBooks env input quote.amount_minor db)
          (λ _ db₁ same. Ensures-throw_if _ _ _ _ _ (λ covered.
            Ensures-or_throw _ _ _ _ _ (λ after sum.
              covered_hold w db₁ after (SameBooks-IsSound db db₁ same s) (rw same.0 found) covered
                sum)))))
    where
      covered_hold :
          (w : Wallet) (db : Db) (after : ℤ)
          → IsSound db
          → find_wallet w.id db.wallets ≡ some w
          → ltb_ℤ w.available_balance_minor quote.amount_minor ≡ false
          → safe_add w.reserved_balance_minor quote.amount_minor ≡ some after
          → Ensures
              (λ _ db'. IsSound db')
              (write_hold env k input quote w
                (sub64 w.available_balance_minor quote.amount_minor)
                after)
              db
      covered_hold w db after s found covered sum =
          let range = wallet_range w db s found in
          let nonneg = held_of-nonneg w.id db.reservations s.amounts in
          let reserved : pos 0 ≤ℤ w.reserved_balance_minor = rw range.2 nonneg in
          let exact =
            (safe_add_lem w.reserved_balance_minor quote.amount_minor after
                (omega (arith, reserved), range.3) (omega arith, amount.1)).0
              sum in
          write_hold-IsSound env k input quote w db s found amount after (ground arith) exact.0
            exact.1.1

  reserve_new-IsSound :
      (db : Db) → IsSound db → Ensures (λ _ db'. IsSound db') (reserve_new env k input quote) db
  unfolding reserve_new
  reserve_new-IsSound db s =
      Ensures->> _ _ _ _ _
        (validate_published_price-KeepsBooks env quote.price_version_id quote.currency db)
        (λ _ db₁ same.
          Ensures->>= _ _ _ _ _
            (get_or_create_wallet-Opened env input.user_id quote.currency db₁
              (SameBooks-IsSound db db₁ same s))
            (λ w db₂ opened. hold-IsSound w db₂ opened))

  reserve_found-IsSound :
      (found : Option Reservation) (db : Db)
      → IsSound db
      → Ensures (λ _ db'. IsSound db') (reserve_found env k input quote found) db
  unfolding reserve_found steps Ensures
  reserve_found-IsSound none db s = reserve_new-IsSound db s
  reserve_found-IsSound (some existing) db s = ground arith

  reserve_in_tx-IsSound :
      (db : Db) → IsSound db → Ensures (λ _ db'. IsSound db') (reserve_in_tx env k input quote) db
  unfolding reserve_in_tx
  reserve_in_tx-IsSound db s = Ensures-reads _ _ _ _ (reserve_found-IsSound _ db s)

-- A hold of a positive int64 amount keeps the books sound, whether the call succeeds or fails: each
-- wallet's balances stay those of its ledger and of its open reservations, not negative and within
-- int64.
pub reserve-IsSound :
    (env : Env) (input : ReserveInput) (quote : Quote) (db : Db)
    → IsAmount quote.amount_minor
    → IsSound db
    → IsSound (reserve env input quote db).1
unfolding reserve
reserve-IsSound env input quote db amount s = new_id-IsSound _ db db.ids refl s (λ k ks.
    with_tx-IsSound _ (record db { ids = ks }) s
      (reserve_in_tx-IsSound env k input quote amount (record db { ids = ks }) s))
