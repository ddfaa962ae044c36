-- ===== src/Billing/Credit/Soundness.antt =====
-- Repository.CreditInTx (internal/billing/repository.go), with the recovery of liabilities
-- (internal/billing/liability.go), keeps the books sound.
use bablo.Prelude.{
  ◌≡◌, refl, sym, subst, ◌∙◌, ℤ, pos, ◌+ℤ◌, neg, ◌≤ℤ◌, IsInt64, max_int64, int_laws, Bool, Option,
  none, some, List, [], ◌∷◌, All, arith,
}
use bablo.Billing.Model.{Uuid, Wallet, LedgerEntry, Liability, CreditInput}
use bablo.Billing.Store.Tables.{Db, find_wallet, update_wallet}
use bablo.Billing.Store.Tx.{
  Ensures, Ensures->>=, Ensures->>, Ensures-modify, Ensures-modified, Ensures-throw_if,
  Ensures-or_throw, Ensures-reads, Ensures-pure,
}
use bablo.Billing.Store.Statements.{Env}
use bablo.Billing.Reserve.Soundness.{wallet_range}
use bablo.Billing.Liability.{
  recover_from, recover_wallet_liabilities, open_liabilities, set_available, must_hold,
}
use bablo.Billing.Liability.Recovery.{Recovered, recover_each-Recovered}
use bablo.Billing.Credit.{
  audit_operator, audit_credit, set_credit, credit_new, credit_found, credit_in_tx, credit,
}
use bablo.Billing.Books.Wallets.{find_wallet-update}
use bablo.Billing.Books.Sound.{
  IsDebt, AreDistinct, Sound, IsSound, SameBooks-IsSound, with_tx-IsSound,
}
use bablo.Billing.Books.Debts.{
  AreRowsOf, All-open_liabilities, AreDistinct-open_liabilities, open_liabilities-AreRowsOf,
}
use bablo.Billing.Books.Effects.{
  KeepsBooks, Shifted, insert_ledger-Shifted, insert_audit-KeepsBooks,
  insert_billing_outbox-KeepsBooks,
}
use bablo.Billing.Books.Opening.{Opened, get_or_create_wallet-Opened}
use bablo.Billing.Books.Moves.{Sound-move, safe_add_lem}

-- The row v of the wallet w, with the credit that is to be divided.
module _ (env : Env) (w v : Wallet) (source : Uuid) (db : Db) (s : IsSound db) (same : v.id ≡ w.id)
    (found : find_wallet v.id db.wallets ≡ some v) where
  left_over :
      (left : ℤ) (held : Bool) (db₂ : Db)
      → Recovered w.id v.available_balance_minor left db db₂
      → Sound
          (update_wallet w.id (set_available left held env.now) db₂.wallets)
          db₂.reservations
          db₂.ledger
          db₂.liabilities
  left_over left held db₂ p =
      let range = wallet_range v db s found in
      let q = subst (λ j. Recovered j v.available_balance_minor left db db₂) (sym same) p in
      subst
        (λ j.
          Sound (update_wallet j (set_available left held env.now) db₂.wallets) db₂.reservations
            db₂.ledger db₂.liabilities)
        same
        (rw (p.wallets, p.reservations)
          (Sound-move {es' = db₂.ledger} s v found (set_available left held env.now) (λ _. refl)
            (left +ℤ neg v.available_balance_minor) (pos 0) q.available
            (λ k. rw (q.reserved k) (grind int_laws)) (λ k. grind int_laws) (omega int_laws)
            (omega int_laws) p.nonneg (omega (int_laws, p.within, range)) range.3 db₂.liabilities
            s.amounts p.debts))

  recover_from-IsSound :
      (ls : List Liability)
      → All IsDebt ls
      → AreDistinct ls
      → AreRowsOf db.liabilities ls
      → Ensures (λ _ db'. IsSound db') (recover_from env w v.available_balance_minor source ls) db
  unfolding recover_from
  recover_from-IsSound [] debts distinct rows = Ensures-pure _ _ _ s
  recover_from-IsSound (l ∷ ls) debts distinct rows =
      let range = wallet_range v db s found in
      Ensures->>= _ _ _ _ _
        (recover_each-Recovered env w source (l ∷ ls) v.available_balance_minor db
          (range.0, range.1) debts distinct rows s.debts)
        (λ left db₂ p. Ensures-modified _ _ _ (left_over left (must_hold db₂ w.id) db₂ p))

  pub recover_wallet_liabilities-IsSound :
      Ensures
        (λ _ db'. IsSound db')
        (recover_wallet_liabilities env w v.available_balance_minor source)
        db
  unfolding recover_wallet_liabilities
  recover_wallet_liabilities-IsSound = Ensures-reads _ _ _ _ (
      recover_from-IsSound (open_liabilities w.id db.liabilities)
        (All-open_liabilities IsDebt w.id db.liabilities s.debts.0)
        (AreDistinct-open_liabilities w.id db.liabilities s.debts.1)
        (open_liabilities-AreRowsOf w.id db.liabilities s.debts.1))

audit_operator-KeepsBooks :
    (env : Env) (input : CreditInput) (w : Wallet) (operator : Option Uuid)
    → KeepsBooks (audit_operator env input w operator)
unfolding audit_operator
audit_operator-KeepsBooks env input w none db = Ensures-pure _ _ _ (refl, refl, refl, refl)
audit_operator-KeepsBooks env input w (some operator) db = insert_audit-KeepsBooks _ db

module _ (env : Env) (input : CreditInput) (int64 : IsInt64 input.amount_minor) where
  -- The tables after the credit itself.
  credited :
      (w : Wallet) (after : ℤ) (db db₂ : Db)
      → Opened w db
      → after ≡ w.available_balance_minor +ℤ input.amount_minor
      → after ≤ℤ max_int64
      → pos 0 ≤ℤ after
      → Shifted w.id input.amount_minor
          (pos 0)
          (record db { wallets = update_wallet w.id (set_credit after env.now) db.wallets })
          db₂
      → Opened (set_credit after env.now w) db₂
  credited w after db db₂ (s, found) sum bounded nonneg p =
      let range = wallet_range w db s found in
      (
        rw (p.wallets, p.reservations, p.liabilities)
            (Sound-move {es' = db₂.ledger} s w found (set_credit after env.now) (λ _. refl)
              input.amount_minor (pos 0) p.available p.reserved (λ k. grind int_laws)
              (rw sum (omega int_laws)) (omega int_laws) nonneg bounded range.3 db.liabilities
              s.amounts s.debts),
        rw p.wallets (
            find_wallet-update w.id (set_credit after env.now) (λ _. refl) w.id db.wallets
            ∙ ground (arith, found)),
      )

  credit_new-IsSound :
      (w : Wallet) (db : Db)
      → Opened w db
      → Ensures (λ _ db'. IsSound db') (credit_new env input w) db
  unfolding credit_new audit_credit
  credit_new-IsSound w db opened =
      let range = wallet_range w db opened.0 opened.1 in
      Ensures-throw_if _ _ _ _ _ (λ allowed. Ensures-or_throw _ _ _ _ _ (λ after sum.
        let exact =
          (safe_add_lem w.available_balance_minor input.amount_minor after
              (omega (arith, range.0), range.1) int64).0
            sum in
        Ensures-throw_if _ _ _ _ _ (λ nonneg. Ensures-modify _ _ _ _ (
          Ensures->>= _ _ _ _ _ (insert_ledger-Shifted _ _) (λ entry db₂ p.
            let v = set_credit after env.now w in
            let now_opened = credited w after db db₂ opened exact.0 exact.1.1 (ground arith) p in
            Ensures->> _ _ _ _ _ (audit_operator-KeepsBooks env input w _ db₂) (λ _ db₃ same.
              Ensures->> _ _ _ _ _ (insert_billing_outbox-KeepsBooks _ _ _ _ db₃) (λ _ db₄ again.
                Ensures->> _ _ _ _ _
                  (recover_wallet_liabilities-IsSound env w v entry.id db₄
                    (SameBooks-IsSound db₃ db₄ again (SameBooks-IsSound db₂ db₃ same now_opened.0))
                    refl (rw (again.0, same.0) now_opened.1))
                  (λ _ db₅ sound. Ensures-pure _ _ _ sound))))))))

  credit_found-IsSound :
      (w : Wallet) (found : Option LedgerEntry) (db : Db)
      → Opened w db
      → Ensures (λ _ db'. IsSound db') (credit_found env input w found) db
  unfolding credit_found
  credit_found-IsSound w none db opened = credit_new-IsSound w db opened
  credit_found-IsSound w (some existing) db opened =
      Ensures-throw_if _ _ _ _ _ (λ _. Ensures-pure _ _ _ opened.0)

  credit_in_tx-IsSound :
      (db : Db) → IsSound db → Ensures (λ _ db'. IsSound db') (credit_in_tx env input) db
  unfolding credit_in_tx
  credit_in_tx-IsSound db s =
      Ensures->>= _ _ _ _ _ (get_or_create_wallet-Opened env input.user_id input.currency db s)
        (λ w db₂ opened. Ensures-reads _ _ _ _ (credit_found-IsSound w _ db₂ opened))

-- A credit or debit of an int64 amount, with the recovery of open liabilities that it pays, keeps
-- the books sound, whether the call succeeds or fails: each wallet's balances stay those of its
-- ledger and of its open reservations, not negative and within int64, and no liability is recovered
-- beyond its principal.
pub credit-IsSound :
    (env : Env) (input : CreditInput) (db : Db)
    → IsInt64 input.amount_minor
    → IsSound db
    → IsSound (credit env input db).1
unfolding credit
credit-IsSound env input db int64 s =
    with_tx-IsSound _ db s (credit_in_tx-IsSound env input int64 db s)
