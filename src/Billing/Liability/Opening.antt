-- ===== src/Billing/Liability/Opening.antt =====
-- OpenLiabilityInTx (internal/billing/liability.go) keeps the books sound.
use bablo.Prelude.{
  ◌≡◌, inl, inr, refl, subst, ℤ, pos, ◌-ℤ◌, neg, ◌≤ℤ◌, max_int64, int_laws, sub64-nonneg, neg64,
  neg64-nonneg, ltb_ℤ, false, Option, none, some, List, [], ◌∷◌, All, any, ◌==◌, if◌then◌else◌,
  arith, Bool-cases, Text,
}
use bablo.Billing.Model.{Uuid, Wallet, Liability, LiabilityInput}
use bablo.Billing.Store.Tables.{Db, update_wallet}
use bablo.Billing.Store.Tx.{
  Ensures, Ensures->>=, Ensures->>, Ensures-modify, Ensures-modified, Ensures-pure, Ensures-if,
  Ensures-throw_if, Ensures-reads, Ensures-or_throw, with_tx,
}
use bablo.Billing.Store.Statements.{Env}
use bablo.Billing.Reserve.Soundness.{wallet_range}
use bablo.Billing.Liability.{
  insert_liability, paid_of, new_liability, set_owing, pay_liability, write_liability,
  open_new_liability, open_found, open_liability_in_tx,
}
use bablo.Billing.Settle.Split.{IsWord}
use bablo.Billing.Books.Holds.{IsAmount}
use bablo.Billing.Books.Sound.{IsDebt, IsSound, SameBooks-IsSound, with_tx-IsSound}
use bablo.Billing.Books.Effects.{
  Shifted, SameBooks-Shifted, insert_ledger-Shifted, insert_billing_outbox-KeepsBooks, finish,
  new_id-KeepsBooks,
}
use bablo.Billing.Books.Opening.{Opened, get_or_create_wallet-Opened}
use bablo.Billing.Books.Moves.{Sound-move}

any-false :
    (k : Uuid) (ls : List Liability)
    → any (λ m. m.id == k) ls ≡ false
    → All (λ m. (m.id == k) ≡ false) ls
any-false k [] h = tt
any-false k (l ∷ ls) h = (ground (arith, h), any-false k ls (ground (arith, h)))

paid_of-le :
    (input : LiabilityInput) (w : Wallet)
    → IsAmount input.amount_minor
    → IsWord w.available_balance_minor
    → (pos 0 ≤ℤ paid_of input w)
      × (paid_of input w ≤ℤ input.amount_minor)
      × (paid_of input w ≤ℤ w.available_balance_minor)
paid_of-le input w amount word =
    (ground (arith, amount, word), ground (arith, amount, word), ground (arith, amount, word))

new_liability-IsDebt :
    (env : Env) (input : LiabilityInput) (w : Wallet) (k : Uuid)
    → IsAmount input.amount_minor
    → IsWord w.available_balance_minor
    → IsDebt (new_liability env input w (paid_of input w) k)
new_liability-IsDebt env input w k amount word =
    let le = paid_of-le input w amount word in
    record {
      nonneg = le.0;
      within = le.1;
      cap = amount.1;
      opened = elim (Bool-cases (ltb_ℤ (paid_of input w) input.amount_minor)) [
        | inl e ↦ inr (grind (int_laws, e))
        | inr e ↦ inl (rw e refl)
      ];
    }

pay_liability-Shifted :
    (env : Env) (w : Wallet) (value : Liability) (key : Text) (after : ℤ) (db : Db)
    → Ensures
        (λ _ db'.
          Shifted w.id
            (if ltb_ℤ (pos 0) value.recovered_amount_minor
              then neg64 value.recovered_amount_minor
              else pos 0)
            (pos 0)
            db
            db')
        (pay_liability env w value key after)
        db
unfolding pay_liability
pay_liability-Shifted env w value key after db =
    Ensures-if _ (ltb_ℤ (pos 0) value.recovered_amount_minor) _ _ _
      (λ paid.
        Ensures->>= _ _ _ _ _ (insert_ledger-Shifted _ db)
          (λ entry db₂ p. Ensures-pure _ _ _ (rw paid p)))
      (λ unpaid.
        Ensures-pure _ _ _ (rw unpaid (SameBooks-Shifted w.id db db (refl, refl, refl, refl))))

insert_liability_effect :
    (l : Liability) (db : Db)
    → Ensures
        (λ _ db'.
          (db' ≡ record db { liabilities = l ∷ db.liabilities })
          × (any (λ m. m.id == l.id) db.liabilities ≡ false))
        (insert_liability l)
        db
unfolding insert_liability
insert_liability_effect l db =
    Ensures-reads _ _ _ _
      (Ensures-throw_if _ _ _ _ _ (λ fresh. Ensures-modified _ _ _ (refl, fresh)))

paid_delta :
    (r : ℤ) → pos 0 ≤ℤ r → r ≤ℤ max_int64 → (if ltb_ℤ (pos 0) r then neg64 r else pos 0) ≡ neg r
paid_delta r nonneg bounded = grind (int_laws, neg64-nonneg r nonneg bounded)

module _ (env : Env) (w : Wallet) (value : Liability) (after : ℤ) (db : Db) (opened : Opened w db)
    (debt : IsDebt value) (covered : value.recovered_amount_minor ≤ℤ w.available_balance_minor)
    (sum : after ≡ w.available_balance_minor -ℤ value.recovered_amount_minor) where
  abbrev paid : ℤ
  paid =
      if ltb_ℤ (pos 0) value.recovered_amount_minor
      then neg64 value.recovered_amount_minor
      else pos 0

  abbrev owing : Wallet → Wallet
  owing = set_owing after (ltb_ℤ value.recovered_amount_minor value.principal_amount_minor) env.now

  abbrev owed_db : Db → Db
  owed_db d = record d { wallets = update_wallet w.id owing d.wallets }

  owed :
      (db₁ db₂ : Db)
      → db₁ ≡ record db { liabilities = value ∷ db.liabilities }
      → any (λ m. m.id == value.id) db.liabilities ≡ false
      → Shifted w.id paid (pos 0) (owed_db db₁) db₂
      → IsSound db₂
  owed db₁ db₂ e fresh p =
      let s = opened.0 in
      let range = wallet_range w db s opened.1 in
      let q = subst (λ d. Shifted w.id paid (pos 0) (owed_db d) db₂) e p in
      let delta =
        paid_delta value.recovered_amount_minor debt.nonneg
          (omega (int_laws, debt.within, debt.cap)) in
      rw (q.wallets, q.reservations, q.liabilities)
        (Sound-move {es' = db₂.ledger} s w opened.1 owing (λ _. refl) paid (pos 0) q.available
          q.reserved (λ k. grind int_laws) (rw (sum, delta) (omega int_laws)) (omega int_laws)
          (rw sum (omega (int_laws, covered))) (rw sum (omega (int_laws, range.1, debt.nonneg)))
          range.3 (value ∷ db.liabilities) s.amounts
          ((debt, s.debts.0), (any-false value.id db.liabilities fresh, s.debts.1)))

  write_liability-IsSound : Ensures (λ _ db'. IsSound db') (write_liability env w value after) db
  unfolding write_liability
  write_liability-IsSound =
      Ensures->> _ _ _ _ _ (insert_liability_effect value db) (λ _ db₁ inserted.
        Ensures-modify _ _ _ _ (
          Ensures->>= _ _ _ _ _ (pay_liability-Shifted env w value _ after _) (λ returned db₂ p.
            finish _ _ db₂ (insert_billing_outbox-KeepsBooks _ _ _ _)
              (owed db₁ db₂ inserted.0 inserted.1 p))))

module _ (env : Env) (input : LiabilityInput) (amount : IsAmount input.amount_minor) where
  open_new_liability-IsSound :
      (w : Wallet) (db : Db)
      → Opened w db
      → Ensures (λ _ db'. IsSound db') (open_new_liability env input w) db
  unfolding open_new_liability
  open_new_liability-IsSound w db opened =
      let range = wallet_range w db opened.0 opened.1 in
      let le = paid_of-le input w amount (range.0, range.1) in
      let sum =
        sub64-nonneg w.available_balance_minor (paid_of input w) range.0 range.1 le.0
          (omega (int_laws, le, amount.1)) in
      Ensures->>= _ _ _ _ _ (new_id-KeepsBooks db) (λ k db₁ same.
        write_liability-IsSound env w (new_liability env input w (paid_of input w) k) _ db₁
          (SameBooks-IsSound db db₁ same opened.0, rw same.0 opened.1)
          (new_liability-IsDebt env input w k amount (range.0, range.1)) le.2 sum)

  open_found-IsSound :
      (found : Option Liability) (db : Db)
      → IsSound db
      → Ensures (λ _ db'. IsSound db') (open_found env input found) db
  unfolding open_found
  open_found-IsSound none db s =
      Ensures->>= _ _ _ _ _ (get_or_create_wallet-Opened env input.user_id input.currency db s)
        (λ w db₂ opened. open_new_liability-IsSound w db₂ opened)
  open_found-IsSound (some existing) db s = Ensures-reads _ _ _ _ (
      Ensures-or_throw _ _ _ _ _
        (λ w owner. Ensures-throw_if _ _ _ _ _ (λ _. Ensures-pure _ _ _ s)))

  open_liability_in_tx-IsSound :
      (db : Db) → IsSound db → Ensures (λ _ db'. IsSound db') (open_liability_in_tx env input) db
  unfolding open_liability_in_tx
  open_liability_in_tx-IsSound db s = Ensures-reads _ _ _ _ (open_found-IsSound _ db s)

-- Opening a liability of a positive int64 amount in a transaction keeps the books sound, whether it
-- succeeds or fails: what the wallet's credit pays at once leaves its balance and its ledger by the
-- same amount, not negative, and the liability is not recovered beyond its principal.
pub open_liability-IsSound :
    (env : Env) (input : LiabilityInput) (db : Db)
    → IsAmount input.amount_minor
    → IsSound db
    → IsSound (with_tx (open_liability_in_tx env input) db).1
open_liability-IsSound env input db amount s =
    with_tx-IsSound _ db s (open_liability_in_tx-IsSound env input amount db s)
