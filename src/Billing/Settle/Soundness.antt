-- ===== src/Billing/Settle/Soundness.antt =====
-- Repository.Settle (internal/billing/repository.go) keeps the books sound.
use bablo.Prelude.{
  ◌≡◌, refl, ℤ, pos, ◌+ℤ◌, neg, ◌≤ℤ◌, max_int64, int_laws, neg64, Bool, true, false, Option, none,
  some, [], ltb_ℤ, ◌==◌, if◌then◌else◌, arith, Text,
}
use bablo.Billing.Model.{
  Uuid, Wallet, Reservation, ReservationStatus, LedgerEntry, Settlement, SettleInput, Event, Error,
}
use bablo.Billing.Store.Tables.{Db, update_wallet, find_reservation, update_reservation, is_held}
use bablo.Billing.Store.Tx.{
  Tx, ◌>>=◌, ◌>>◌, throw, pure, or_throw, Ensures, Ensures->>=, Ensures->>, Ensures-modify,
  Ensures-throw_if, Ensures-or_throw, Ensures-reads, Ensures-pure, Ensures-if, steps, throw_if,
}
use bablo.Billing.Store.Statements.{Env, insert_ledger}
use bablo.Billing.Reserve.Soundness.{wallet_range}
use bablo.Billing.Release.Soundness.{Ready, Ready-of}
use bablo.Billing.Settle.{
  close_reservation, set_hold, settle_wallet, defer_settlement, charge, insert_settlement_entries,
  settle_open, settle_existing, settle_in_tx, settle_rows, settle_amount, settle, is_invalid_settle,
  is_settled, reservation_is_settled, reservation_is_released,
}
use bablo.Billing.Settle.Split.{
  IsWord, Split, extra_of, split_lem, available_delta, reserved_delta, reserved_after,
  available_after,
}
use bablo.Billing.Books.Holds.{held_of, held_of-update, AreRows-update, is_stored}
use bablo.Billing.Books.Sound.{Sound, SameBooks, IsSound, with_tx-IsSound}
use bablo.Billing.Books.Effects.{
  Shifted, Shifted-trans, SameBooks-Shifted, insert_ledger-Shifted,
  insert_billing_outbox-KeepsBooks, persist_settlement-KeepsBooks, finish,
}
use bablo.Billing.Books.Moves.{Sound-move}

-- An entry that is made only if a test holds.
entry_if-Shifted :
    (c : Bool) (e : LedgerEntry) (db : Db)
    → Ensures
        (λ _ db'.
          Shifted e.wallet_id
            (if c then e.available_delta_minor else pos 0)
            (if c then e.reserved_delta_minor else pos 0)
            db
            db')
        (if c then (insert_ledger e >> pure tt) else pure tt)
        db
entry_if-Shifted true e db =
    Ensures->> _ _ _ _ _ (insert_ledger-Shifted e db) (λ _ db' s. Ensures-pure _ _ _ s)
entry_if-Shifted false e db =
    Ensures-pure _ _ _ (SameBooks-Shifted e.wallet_id db db (refl, refl, refl, refl))

-- A last test.
Ensures-check :
    (P : Unit {0} → Db → Type 0) (c : Bool) (e : Error) (db : Db)
    → P tt db
    → Ensures P (throw_if c e) db
unfolding Ensures throw_if
Ensures-check P true e db h = tt
Ensures-check P false e db h = h

-- finalAvailable.
Ensures-final_available :
    {A : Type 0} (Q : A → Db → Type 0) (b : Bool) (o : Option ℤ) (c : ℤ) (e : Error) (f : ℤ → Tx A)
    (db : Db)
    → ((v : ℤ) → (if b then o else some c) ≡ some v → Ensures Q (f v) db)
    → Ensures Q ((if b then or_throw o e else pure c) >>= f) db
unfolding Ensures steps
Ensures-final_available Q true o c e f db h = Ensures-or_throw Q o e f db h
Ensures-final_available Q false o c e f db h = h c refl

-- What the entries of a settlement add to the ledger.
insert_settlement_entries-Shifted :
    (env : Env) (w : Wallet) (r : Reservation) (event : Event)
    (actual extra consumed released available reserved : ℤ) (db : Db)
    → Ensures
        (λ _ db'.
          Shifted w.id
            ((if ltb_ℤ (pos 0) released then released else pos 0)
              +ℤ (if ltb_ℤ (pos 0) actual then neg64 extra else pos 0))
            ((if ltb_ℤ (pos 0) released then neg64 released else pos 0)
              +ℤ (if ltb_ℤ (pos 0) actual then neg64 consumed else pos 0))
            db
            db')
        (insert_settlement_entries env w r event actual extra consumed released available reserved)
        db
unfolding insert_settlement_entries
insert_settlement_entries-Shifted env w r event actual extra consumed released available reserved
      db =
    Ensures->> _ _ _ _ _ (entry_if-Shifted (ltb_ℤ (pos 0) actual) _ db) (λ _ db₁ s.
      Ensures->> _ _ _ _ _ (entry_if-Shifted (ltb_ℤ (pos 0) released) _ db₁)
        (λ _ db₂ t. Ensures-check _ _ _ _ (Shifted-trans w.id _ _ _ _ db db₁ db₂ s t)))

-- A wallet row whose balances an update leaves alone, and a hold that stays open.
module _ (env : Env) (existing : Option Settlement) (r : Reservation) (event : Event) (actual : ℤ)
    (w : Wallet) (db : Db) (ready : Ready r w db) (held : is_held r.status ≡ true) where
  same_hold :
      (reason : Text) (k : Uuid)
      → held_of k (
          update_reservation r.id
            (close_reservation ReservationStatus.settlement_pending actual event.id reason env.now)
            db.reservations)
        ≡ (if w.id == k then pos 0 else pos 0) +ℤ held_of k db.reservations
  same_hold reason k = grind (
    int_laws,
    held,
    held_of-update
        (close_reservation ReservationStatus.settlement_pending actual event.id reason env.now) r.id
        k db.reservations ready.reservation,
  )

  closed_hold :
      (k : Uuid)
      → held_of k (
          update_reservation r.id
            (close_reservation ReservationStatus.settled actual event.id [] env.now)
            db.reservations)
        ≡ (if w.id == k then neg r.amount_minor else pos 0) +ℤ held_of k db.reservations
  closed_hold k = grind (
    int_laws,
    held,
    ready.owner,
    held_of-update (close_reservation ReservationStatus.settled actual event.id [] env.now) r.id k
        db.reservations ready.reservation,
  )

  defer_settlement-IsSound :
      Ensures (λ _ db'. IsSound db') (defer_settlement env existing r event actual w) db
  unfolding defer_settlement
  defer_settlement-IsSound =
      let s = ready.sound in
      let range = wallet_range w db s ready.wallet in
      Ensures-modify _ _ _ _ (
        Ensures->>= _ _ _ _ _ (persist_settlement-KeepsBooks _ _ _ _ _ _ _ _ _) (λ stored db₂ same.
          Ensures-modify _ _ _ _ (
            finish _ _ _ (insert_billing_outbox-KeepsBooks _ _ _ _) (
              rw (same.0, same.1, same.2, same.3)
                (Sound-move {es' = db.ledger} s w ready.wallet (set_hold true env.now) (λ v. refl)
                  (pos 0) (pos 0) (λ k. grind int_laws) (λ k. grind int_laws) (same_hold _)
                  (omega int_laws) (omega int_laws) range.0 range.1 range.3 db.liabilities
                  (AreRows-update _ (λ q h. (h.0, refl)) r.id db.reservations s.amounts)
                  s.debts)))))

  -- The tables after the charge of a hold.
  module _ (e c l : ℤ) (split : Split r.amount_minor actual e c l) where
    charged :
        (after reserved da dr : ℤ) (db₁ db₂ db₃ : Db)
        → (after ≡ l +ℤ neg e +ℤ w.available_balance_minor) × (after ≤ℤ max_int64)
        → pos 0 ≤ℤ after
        → reserved ≡ neg r.amount_minor +ℤ w.reserved_balance_minor
        → da ≡ l +ℤ neg e
        → dr ≡ neg r.amount_minor
        → Shifted w.id da dr db₁ db₂
        → SameBooks db₂ db₃
        → db₁.ledger ≡ db.ledger
        → db₁.liabilities ≡ db.liabilities
        → Sound
            (update_wallet w.id (settle_wallet db r after reserved env.now) db.wallets)
            (update_reservation r.id
              (close_reservation ReservationStatus.settled actual event.id [] env.now)
              db.reservations)
            db₃.ledger
            db₃.liabilities
    charged after reserved da dr db₁ db₂ db₃ sum nonneg eq ea er moved same ledger debts =
        let s = ready.sound in
        let range = wallet_range w db s ready.wallet in
        rw (same.2, same.3, moved.liabilities, debts)
          (Sound-move {es' = db₂.ledger} s w ready.wallet
            (settle_wallet db r after reserved env.now) (λ v. refl) (l +ℤ neg e)
            (neg r.amount_minor) (λ k. rw (moved.available k, ledger, ea))
            (λ k. rw (moved.reserved k, ledger, er)) closed_hold sum.0 eq nonneg sum.1
            (grind (int_laws, eq, range.3, ready.row.0)) db.liabilities
            (AreRows-update _ (λ q h. (h.0, refl)) r.id db.reservations s.amounts) s.debts)

  charge-IsSound :
      IsWord actual
      → r.amount_minor ≤ℤ w.reserved_balance_minor
      → extra_of r.amount_minor actual ≤ℤ w.available_balance_minor
      → Ensures
          (λ _ db'. IsSound db')
          (charge env existing r event actual (extra_of r.amount_minor actual) w)
          db
  unfolding charge
  charge-IsSound word covers affords =
      let s = ready.sound in
      let range = wallet_range w db s ready.wallet in
      let split = split_lem r.amount_minor actual ready.row.0 word in
      let reserved = reserved_after split w.reserved_balance_minor covers range.3 in
      Ensures-final_available _ _ _ _ _ _ _ (λ after eq. Ensures-throw_if _ _ _ _ _ (λ nonneg.
        Ensures-modify _ _ _ _ (
          Ensures->> _ _ _ _ _ (insert_settlement_entries-Shifted _ _ _ _ _ _ _ _ _ _ _)
            (λ _ db₂ moved.
              Ensures->>= _ _ _ _ _ (persist_settlement-KeepsBooks _ _ _ _ _ _ _ _ _)
                (λ stored db₃ same. Ensures-modify _ _ _ _ (
                  finish _ _ _ (insert_billing_outbox-KeepsBooks _ _ _ _) (
                    let w_after =
                      available_after split w.available_balance_minor after (range.0, range.1)
                        affords eq in
                    rw (same.0, same.1, moved.wallets, moved.reservations)
                      (charged _ _ _ split after _ _ _ _ db₂ db₃ w_after (ground arith) reserved
                        (available_delta split) (reserved_delta split) moved same refl refl))))))))

not_below : (a b : ℤ) → ltb_ℤ a b ≡ false → b ≤ℤ a
not_below a b h = ground arith

-- A stored reservation that is neither settled nor released is held.
is_held_lem :
    (status : ReservationStatus)
    → is_stored status ≡ true
    → reservation_is_settled status ≡ false
    → reservation_is_released status ≡ false
    → is_held status ≡ true
is_held_lem ReservationStatus.none stored a b = cc
is_held_lem ReservationStatus.reserved stored a b = refl
is_held_lem ReservationStatus.settlement_pending stored a b = refl
is_held_lem ReservationStatus.settled stored a b = cc
is_held_lem ReservationStatus.released stored a b = cc

-- A step after which the run only returns a value.
then_return :
    {A B : Type 0} (m : Tx A) (g : A → B) (db : Db)
    → Ensures (λ _ db'. IsSound db') m db
    → Ensures (λ _ db'. IsSound db') (m >>= λ a. pure (g a)) db
then_return m g db h = Ensures->>= _ _ _ _ _ h (λ a db' s. Ensures-pure _ _ _ s)

module _ (env : Env) (input : SettleInput) (actual : ℤ) (word : IsWord actual) where
  settle_open-IsSound :
      (existing : Option Settlement) (r : Reservation) (event : Event) (db : Db)
      → IsSound db
      → find_reservation input.reservation_id db.reservations ≡ some r
      → Ensures (λ _ db'. IsSound db') (settle_open env existing r event actual) db
  unfolding settle_open
  settle_open-IsSound existing r event db s e = Ensures-throw_if _ _ _ _ _ (λ not_settled.
      Ensures-throw_if _ _ _ _ _ (λ not_released. Ensures-reads _ _ _ _ (
        Ensures-or_throw _ _ _ _ _ (λ w f.
          let ready = Ready-of input.reservation_id r w db s e f in
          let held = is_held_lem r.status ready.row.1 not_settled not_released in
          Ensures-throw_if _ _ _ _ _ (λ same_currency. Ensures-throw_if _ _ _ _ _ (λ covered.
            Ensures-if _ (ltb_ℤ w.available_balance_minor (extra_of r.amount_minor actual)) _ _ _
              (λ exceeds.
                then_return _ _ _
                  (defer_settlement-IsSound env existing r event actual w db ready held))
              (λ affords. then_return _ _ _ (
                charge-IsSound env existing r event actual w db ready held word
                  (not_below w.reserved_balance_minor r.amount_minor covered)
                  (not_below w.available_balance_minor (extra_of r.amount_minor actual)
                    affords)))))))))

  settle_existing-IsSound :
      (existing : Option Settlement) (r : Reservation) (event : Event) (db : Db)
      → IsSound db
      → find_reservation input.reservation_id db.reservations ≡ some r
      → Ensures (λ _ db'. IsSound db') (settle_existing env existing r event actual) db
  unfolding settle_existing
  settle_existing-IsSound none r event db s e = settle_open-IsSound none r event db s e
  settle_existing-IsSound (some existing) r event db s e = Ensures-throw_if _ _ _ _ _ (λ same.
      Ensures-if _ (is_settled existing.status) _ _ _ (λ _. Ensures-pure _ (existing, false) _ s)
        (λ _. settle_open-IsSound (some existing) r event db s e))

  settle_in_tx-IsSound :
      (db : Db) → IsSound db → Ensures (λ _ db'. IsSound db') (settle_in_tx env input actual) db
  unfolding settle_in_tx
  settle_in_tx-IsSound db s = Ensures-reads _ _ _ _ (
      Ensures-or_throw _ _ _ _ _ (λ r e.
        Ensures-throw_if _ _ _ _ _
          (λ matches. Ensures-reads _ _ _ _ (settle_existing-IsSound _ r input.event db s e))))

  settle_rows-IsSound : (db : Db) → IsSound db → IsSound (settle_rows env input actual db).1
  unfolding settle_rows steps
  settle_rows-IsSound db s =
      ground
        (arith, with_tx-IsSound (settle_in_tx env input actual) db s (settle_in_tx-IsSound db s))

refused :
    {A : Type 0} (c : Bool) (e : Error) (m : Tx A) (db : Db)
    → IsSound db
    → (c ≡ false → IsSound (m db).1)
    → IsSound ((throw_if c e >> m) db).1
unfolding steps
refused true e m db s h = s
refused false e m db s h = h refl

valid_amount :
    (input : SettleInput) (actual : ℤ) → is_invalid_settle input actual ≡ false → pos 0 ≤ℤ actual
unfolding is_invalid_settle
valid_amount input actual h = ground arith

settle_amount-IsSound :
    (env : Env) (input : SettleInput) (amount : Option ℤ) (db : Db)
    → ((actual : ℤ) → amount ≡ some actual → actual ≤ℤ max_int64)
    → IsSound db
    → IsSound (settle_amount env input amount db).1
unfolding settle_amount throw
settle_amount-IsSound env input none db int64 s = s
settle_amount-IsSound env input (some actual) db int64 s = refused _ _ _ _ s (λ valid.
    settle_rows-IsSound env input actual (valid_amount input actual valid, int64 actual refl) db s)

-- Settling a hold by a usage event with an int64 amount keeps the books sound, whether the call
-- succeeds, leaves the settlement pending or fails: each wallet's balances stay those of its ledger
-- and of its open reservations, not negative and within int64.
pub settle-IsSound :
    (env : Env) (input : SettleInput) (db : Db)
    → ((actual : ℤ) → input.event.amount_minor ≡ some actual → actual ≤ℤ max_int64)
    → IsSound db
    → IsSound (settle env input db).1
unfolding settle
settle-IsSound env input db int64 s =
    settle_amount-IsSound env input input.event.amount_minor db int64 s
