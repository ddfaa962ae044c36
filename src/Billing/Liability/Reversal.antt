-- ===== src/Billing/Liability/Reversal.antt =====
-- ReverseLiabilityInTx (internal/billing/liability.go) keeps the books sound.
use bablo.Prelude.{
  ◌≡◌, inl, inr, refl, sym, subst, ◌∙◌, ℤ, pos, ◌+ℤ◌, ◌≤ℤ◌, max_int64, int_laws, ltb_ℤ, Bool, some,
  List, [], ◌∷◌, All, ◌==◌, if◌then◌else◌, arith, Bool-cases,
}
use bablo.Billing.Model.{Uuid, Wallet, Liability}
use bablo.Billing.Store.Tables.{Db, find_wallet, update_wallet, find_liability, update_liability}
use bablo.Billing.Store.Tx.{
  Ensures, Ensures->>=, Ensures->>, Ensures-modify, Ensures-pure, Ensures-if, Ensures-reads,
  Ensures-or_throw, with_tx,
}
use bablo.Billing.Store.Statements.{Env}
use bablo.Billing.Reserve.Soundness.{wallet_range}
use bablo.Billing.Liability.{
  reversal_entry, set_available, must_hold, reverse_liability, write_reversal,
  reverse_open_liability, is_reversed, reverse_liability_in_tx,
}
use bablo.Billing.Credit.Soundness.{recover_wallet_liabilities-IsSound}
use bablo.Billing.Books.Wallets.{find_wallet_id, find_wallet-update}
use bablo.Billing.Books.Sound.{IsDebt, IsSound, with_tx-IsSound}
use bablo.Billing.Books.Debts.{AreDebts-update}
use bablo.Billing.Books.Effects.{
  Shifted, SameBooks-Shifted, insert_ledger-Shifted, insert_billing_outbox-KeepsBooks, finish,
}
use bablo.Billing.Books.Opening.{Opened}
use bablo.Billing.Books.Moves.{Sound-move, safe_add_lem}

find_liability_id :
    (k : Uuid) (ls : List Liability) {l : Liability} → find_liability k ls ≡ some l → l.id ≡ k
unfolding find_liability
find_liability_id k [] h = cc
find_liability_id k (m ∷ ls) {l} h = ground (arith, find_liability_id k ls {l = l})

find_liability-IsDebt :
    (k : Uuid) (ls : List Liability) {l : Liability}
    → All IsDebt ls
    → find_liability k ls ≡ some l
    → IsDebt l
unfolding find_liability
find_liability-IsDebt k [] debts h = cc
find_liability-IsDebt k (m ∷ ls) {l} debts h = elim (Bool-cases (m.id == k)) [
  | inl e ↦ let same : m ≡ l = ground (arith, e, h) in subst IsDebt same debts.0
  | inr e ↦
      let later : find_liability k ls ≡ some l = ground (arith, e, h) in
      find_liability-IsDebt k ls debts.1 later
]

reversal_entry-Shifted :
    (env : Env) (w : Wallet) (l : Liability) (after : ℤ) (db : Db)
    → Ensures
        (λ _ db'.
          Shifted w.id
            (if ltb_ℤ (pos 0) l.recovered_amount_minor then l.recovered_amount_minor else pos 0)
            (pos 0)
            db
            db')
        (reversal_entry env w l after)
        db
unfolding reversal_entry
reversal_entry-Shifted env w l after db =
    Ensures-if _ (ltb_ℤ (pos 0) l.recovered_amount_minor) _ _ _
      (λ paid.
        Ensures->>= _ _ _ _ _ (insert_ledger-Shifted _ db)
          (λ entry db₂ p. Ensures-pure _ _ _ (rw paid p)))
      (λ unpaid.
        Ensures-pure _ _ _ (rw unpaid (SameBooks-Shifted w.id db db (refl, refl, refl, refl))))

module _ (env : Env) (w : Wallet) (l : Liability) (after : ℤ) (db : Db) (opened : Opened w db)
    (debt : IsDebt l) (row : find_liability l.id db.liabilities ≡ some l)
    (sum : after ≡ w.available_balance_minor +ℤ l.recovered_amount_minor)
    (bounded : after ≤ℤ max_int64) where
  abbrev reversed_db : Db
  reversed_db = record db {
    liabilities = update_liability l.id (reverse_liability env.now) db.liabilities;
  }

  paid_back :
      (held : Bool) (db₂ : Db)
      → Shifted w.id
          (if ltb_ℤ (pos 0) l.recovered_amount_minor then l.recovered_amount_minor else pos 0)
          (pos 0)
          reversed_db
          db₂
      → Opened (set_available after held env.now w) (record db₂ {
        wallets = update_wallet w.id (set_available after held env.now) db₂.wallets;
      })
  paid_back held db₂ p =
      let s = opened.0 in
      let range = wallet_range w db s opened.1 in
      let delta : (if ltb_ℤ (pos 0) l.recovered_amount_minor
            then l.recovered_amount_minor
            else pos 0)
          ≡ l.recovered_amount_minor =
        grind (int_laws, debt.nonneg) in
      let reversed : IsDebt (reverse_liability env.now l) = record {
        nonneg = debt.nonneg;
        within = debt.within;
        cap = debt.cap;
        opened = inl refl;
      } in
      (
        rw (p.wallets, p.reservations, p.liabilities)
            (Sound-move {es' = db₂.ledger} s w opened.1 (set_available after held env.now)
              (λ _. refl) _ (pos 0) p.available p.reserved (λ k. grind int_laws)
              (rw (sum, delta) (omega int_laws)) (omega int_laws)
              (rw sum (omega (int_laws, range.0, debt.nonneg))) bounded range.3
              (update_liability l.id (reverse_liability env.now) db.liabilities) s.amounts
              (AreDebts-update (reverse_liability env.now) (λ _. refl) l.id db.liabilities row
                reversed s.debts)),
        rw p.wallets (
            find_wallet-update w.id (set_available after held env.now) (λ _. refl) w.id db.wallets
            ∙ ground (arith, opened.1)),
      )

  write_reversal-IsSound : Ensures (λ _ db'. IsSound db') (write_reversal env w l after) db
  unfolding write_reversal
  write_reversal-IsSound = Ensures-modify _ _ _ _ (
      Ensures->>= _ _ _ _ _ (reversal_entry-Shifted env w l after reversed_db)
        (λ (recovery_id, source) db₂ p.
          let held = must_hold db₂ w.id in
          let now = paid_back held db₂ p in
          Ensures-modify _ _ _ _ (
            Ensures->> _ _ _ _ _
              (Ensures-if (λ _ db'. IsSound db') (ltb_ℤ (pos 0) l.recovered_amount_minor) _ _ _
                (λ _.
                  recover_wallet_liabilities-IsSound env
                    (record w { available_balance_minor = after })
                    (set_available after held env.now w) source _ now.0 refl now.1)
                (λ _. Ensures-pure _ _ _ now.0))
              (λ _ db₄ sound. finish _ _ db₄ (insert_billing_outbox-KeepsBooks _ _ _ _) sound))))

module _ (env : Env) where
  reverse_open_liability-IsSound :
      (k : Uuid) (l : Liability) (db : Db)
      → IsSound db
      → find_liability k db.liabilities ≡ some l
      → Ensures (λ _ db'. IsSound db') (reverse_open_liability env l) db
  unfolding reverse_open_liability
  reverse_open_liability-IsSound k l db s e =
      let debt = find_liability-IsDebt k db.liabilities s.debts.0 e in
      let row =
        subst (λ j. find_liability j db.liabilities ≡ some l)
          (sym (find_liability_id k db.liabilities e)) e in
      Ensures-reads _ _ _ _ (
        Ensures-or_throw _ _ _ _ _ (λ w f.
          let found =
            subst (λ j. find_wallet j db.wallets ≡ some w)
              (sym (find_wallet_id l.wallet_id db.wallets f)) f in
          let range = wallet_range w db s found in
          Ensures-or_throw _ _ _ _ _ (λ after sum.
            let exact =
              (safe_add_lem w.available_balance_minor l.recovered_amount_minor after
                  (omega (arith, range.0), range.1)
                  (omega (arith, debt.nonneg), omega (arith, debt.within, debt.cap))).0
                sum in
            write_reversal-IsSound env w l after db (s, found) debt row exact.0 exact.1.1)))

  reverse_liability_in_tx-IsSound :
      (k : Uuid) (db : Db)
      → IsSound db
      → Ensures (λ _ db'. IsSound db') (reverse_liability_in_tx env k) db
  unfolding reverse_liability_in_tx
  reverse_liability_in_tx-IsSound k db s = Ensures-reads _ _ _ _ (
      Ensures-or_throw _ _ _ _ _ (λ l e.
        Ensures-if _ (is_reversed l.status) _ _ _ (λ _. Ensures-pure _ _ _ s)
          (λ _. reverse_open_liability-IsSound k l db s e)))

-- Reversing a liability in a transaction keeps the books sound, whether it succeeds or fails: what
-- was recovered returns to the wallet and to its ledger alike, and then pays the wallet's other open
-- liabilities.
pub reverse_liability-IsSound :
    (env : Env) (k : Uuid) (db : Db)
    → IsSound db
    → IsSound (with_tx (reverse_liability_in_tx env k) db).1
reverse_liability-IsSound env k db s =
    with_tx-IsSound _ db s (reverse_liability_in_tx-IsSound env k db s)
