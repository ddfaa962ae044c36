-- ===== src/Billing/Release/Soundness.antt =====
-- Repository.Release (internal/billing/repository.go) keeps the books sound.
use bablo.Prelude.{
  ◌≡◌, refl, sym, subst, ℤ, pos, ◌+ℤ◌, ◌≤ℤ◌, max_int64, int_laws, sub64, sub64-nonneg, neg64,
  neg64-nonneg, true, false, some, ltb_ℤ, ◌==◌, if◌then◌else◌, arith,
}
use bablo.Billing.Model.{Uuid, Wallet, Reservation, ReleaseInput}
use bablo.Billing.Store.Tables.{Db, find_wallet, find_reservation, update_reservation}
use bablo.Billing.Store.Tx.{
  Ensures, Ensures->>, Ensures-weaken, Ensures-modify, Ensures-throw_if, Ensures-or_throw,
  Ensures-reads, Ensures-pure, Ensures-if,
}
use bablo.Billing.Store.Statements.{Env}
use bablo.Billing.Reserve.{set_balances}
use bablo.Billing.Reserve.Soundness.{wallet_range}
use bablo.Billing.Release.{
  is_reserved, release_reservation, write_release, release_open, release_found, release_in_tx,
  release,
}
use bablo.Billing.Books.Wallets.{find_wallet_id}
use bablo.Billing.Books.Holds.{
  held_of, held_of-nonneg, held_of-update, IsRow, AreRows-update, find_reservation_id,
  find_reservation-IsRow,
}
use bablo.Billing.Books.Sound.{IsSound, SameBooks-IsSound, with_tx-IsSound}
use bablo.Billing.Books.Effects.{insert_ledger-Shifted, insert_billing_outbox-KeepsBooks}
use bablo.Billing.Books.Moves.{Sound-move, safe_add_lem}

-- The reservation that an operation works on, with the row of its wallet.
pub record Ready (r : Reservation) (w : Wallet) (db : Db) : Type 0 where
  pub sound : IsSound db
  pub reservation : find_reservation r.id db.reservations ≡ some r
  pub wallet : find_wallet w.id db.wallets ≡ some w
  pub owner : w.id ≡ r.wallet_id
  pub row : IsRow r

pub Ready-of :
    (id : Uuid) (r : Reservation) (w : Wallet) (db : Db)
    → IsSound db
    → find_reservation id db.reservations ≡ some r
    → find_wallet r.wallet_id db.wallets ≡ some w
    → Ready r w db
Ready-of id r w db s e f =
    let same = find_reservation_id id db.reservations e in
    let owner = find_wallet_id r.wallet_id db.wallets f in
    record {
      sound = s;
      reservation = subst (λ j. find_reservation j db.reservations ≡ some r) (sym same) e;
      wallet = subst (λ j. find_wallet j db.wallets ≡ some w) (sym owner) f;
      owner = owner;
      row = find_reservation-IsRow id db.reservations s.amounts e;
    }

module _ (env : Env) (input : ReleaseInput) (r : Reservation) (w : Wallet) (db : Db)
    (ready : Ready r w db) (reserved : is_reserved r.status ≡ true) where
  -- The hold of the reservation's wallet falls by its amount.
  released_hold :
      (k : Uuid)
      → held_of k
          (update_reservation r.id (release_reservation input.reason env.now) db.reservations)
        ≡ (if w.id == k then neg64 r.amount_minor else pos 0) +ℤ held_of k db.reservations
  released_hold k =
      let minus = neg64-nonneg r.amount_minor (omega (int_laws, ready.row.0.0)) ready.row.0.1 in
      grind (
        int_laws,
        minus,
        ready.owner,
        held_of-update (release_reservation input.reason env.now) r.id k db.reservations
            ready.reservation,
      )

  write_release-IsSound :
      (available_after : ℤ)
      → available_after ≡ w.available_balance_minor +ℤ r.amount_minor
      → available_after ≤ℤ max_int64
      → ltb_ℤ w.reserved_balance_minor r.amount_minor ≡ false
      → Ensures
          (λ _ db'. IsSound db')
          (write_release env input r w available_after
            (sub64 w.reserved_balance_minor r.amount_minor))
          db
  unfolding write_release
  write_release-IsSound after sum bounded covered =
      let s = ready.sound in
      let range = wallet_range w db s ready.wallet in
      let amount = ready.row.0 in
      let minus = neg64-nonneg r.amount_minor (omega (int_laws, amount.0)) amount.1 in
      let held : pos 0 ≤ℤ w.reserved_balance_minor =
        rw range.2 (held_of-nonneg w.id db.reservations s.amounts) in
      let left =
        sub64-nonneg w.reserved_balance_minor r.amount_minor held range.3
          (omega (int_laws, amount.0)) amount.1 in
      Ensures-modify _ _ _ _ (
        Ensures->> _ _ _ _ _ (insert_ledger-Shifted _ _) (λ _ db₂ p. Ensures-modify _ _ _ _ (
          Ensures-weaken _ _ _ _ (insert_billing_outbox-KeepsBooks _ _ _ _ _) (λ _ db₃ same.
            SameBooks-IsSound (closed db₂) db₃ same (
              rw (p.wallets, p.reservations, p.liabilities)
                (Sound-move {es' = db₂.ledger} s w ready.wallet
                  (set_balances after (sub64 w.reserved_balance_minor r.amount_minor) env.now)
                  (λ v. refl) r.amount_minor (neg64 r.amount_minor) p.available p.reserved
                  released_hold (rw sum (omega int_laws)) (rw (left, minus) (omega int_laws))
                  (rw sum (omega (int_laws, range.0, amount.0))) bounded
                  (rw left (omega (int_laws, range.3, amount.0))) db.liabilities
                  (AreRows-update _ (λ q h. (h.0, refl)) r.id db.reservations s.amounts)
                  s.debts))))))
    where
      closed : Db → Db
      closed d = record d {
        reservations =
            update_reservation r.id (release_reservation input.reason env.now) d.reservations;
      }

module _ (env : Env) (input : ReleaseInput) where
  release_open-IsSound :
      (r : Reservation) (db : Db)
      → IsSound db
      → find_reservation input.reservation_id db.reservations ≡ some r
      → Ensures (λ _ db'. IsSound db') (release_open env input r) db
  unfolding release_open
  release_open-IsSound r db s e = Ensures-throw_if _ _ _ _ _ (λ reserved. Ensures-reads _ _ _ _ (
      Ensures-or_throw _ _ _ _ _ (λ w f.
        let ready = Ready-of input.reservation_id r w db s e f in
        let range = wallet_range w db s ready.wallet in
        let nonneg = held_of-nonneg w.id db.reservations s.amounts in
        Ensures-throw_if _ _ _ _ _ (λ covered. Ensures-or_throw _ _ _ _ _ (λ after sum.
          let exact =
            (safe_add_lem w.available_balance_minor r.amount_minor after
                (omega (arith, range.0), range.1) (omega (arith, ready.row.0.0), ready.row.0.1)).0
              sum in
          write_release-IsSound env input r w db ready (ground arith) after exact.0 exact.1.1
            covered)))))

  release_found-IsSound :
      (r : Reservation) (db : Db)
      → IsSound db
      → find_reservation input.reservation_id db.reservations ≡ some r
      → Ensures (λ _ db'. IsSound db') (release_found env input r) db
  unfolding release_found
  release_found-IsSound r db s e =
      Ensures-if _ _ _ _ _ (λ _. Ensures-pure _ _ _ s) (λ _. release_open-IsSound r db s e)

  release_in_tx-IsSound :
      (db : Db) → IsSound db → Ensures (λ _ db'. IsSound db') (release_in_tx env input) db
  unfolding release_in_tx
  release_in_tx-IsSound db s =
      Ensures-reads _ _ _ _ (Ensures-or_throw _ _ _ _ _ (λ r e. release_found-IsSound r db s e))

-- Releasing a hold keeps the books sound, whether the call succeeds or fails: each wallet's
-- balances stay those of its ledger and of its open reservations, not negative and within int64.
pub release-IsSound :
    (env : Env) (input : ReleaseInput) (db : Db) → IsSound db → IsSound (release env input db).1
unfolding release
release-IsSound env input db s = with_tx-IsSound _ db s (release_in_tx-IsSound env input db s)
