-- ===== src/Billing/Liability/Recovery.antt =====
-- recoverWalletLiabilities (internal/billing/liability.go): what the loop takes of a credit.
use bablo.Prelude.{
  ℕ, ◌≡◌, inl, inr, refl, ◌∙◌, ℤ, pos, ◌+ℤ◌, ◌-ℤ◌, neg, ◌≤ℤ◌, max_int64, int_laws, sub64,
  sub64-nonneg, add64, add64_lem, neg64, neg64-nonneg, eqb_ℤ, Bool, true, false, List, [], ◌∷◌, All,
  ◌==◌, if◌then◌else◌, Bool-cases,
}
use bablo.Billing.Model.{Uuid, Wallet, Liability}
use bablo.Billing.Store.Tables.{Db}
use bablo.Billing.Store.Tx.{
  Ensures, Ensures->>, Ensures-weaken, Ensures-modify, Ensures-pure, Ensures-if,
}
use bablo.Billing.Store.Statements.{Env}
use bablo.Billing.Liability.{recover_each, recovered_of, recover_row}
use bablo.Billing.Credit.{ledger_available, ledger_reserved}
use bablo.Billing.Settle.Split.{IsWord}
use bablo.Billing.Books.Sound.{IsDebt, AreDistinct, AreDebts}
use bablo.Billing.Books.Debts.{AreRowsOf, AreRowsOf-update, AreDebts-update}
use bablo.Billing.Books.Effects.{Shifted, insert_ledger-Shifted}

-- What a debt takes of a credit: no more than the credit, and no more than is owed.
recovered_of-le :
    (l : Liability) (a : ℤ)
    → IsDebt l
    → IsWord a
    → (pos 0 ≤ℤ recovered_of l a)
      × (recovered_of l a ≤ℤ a)
      × (l.recovered_amount_minor +ℤ recovered_of l a ≤ℤ l.principal_amount_minor)
recovered_of-le l a debt word =
    let owed =
      sub64-nonneg l.principal_amount_minor l.recovered_amount_minor
        (omega (int_laws, debt.nonneg, debt.within)) debt.cap debt.nonneg
        (omega (int_laws, debt.within, debt.cap)) in
    rw owed
      (grind (int_laws, debt.nonneg, debt.within), grind (int_laws), grind (int_laws, debt.within))

-- The state of the books when a part of the credit is left.
pub record Recovered (wallet : Uuid) (before left : ℤ) (db db' : Db) : Type 0 where
  pub wallets : db'.wallets ≡ db.wallets
  pub reservations : db'.reservations ≡ db.reservations
  pub available :
      (k : Uuid)
      → ledger_available k db'.ledger
        ≡ (if wallet == k then left +ℤ neg before else pos 0) +ℤ ledger_available k db.ledger
  pub reserved : (k : Uuid) → ledger_reserved k db'.ledger ≡ ledger_reserved k db.ledger
  pub debts : AreDebts db'.liabilities
  pub nonneg : pos 0 ≤ℤ left
  pub within : left ≤ℤ before

recover_row-IsDebt :
    (l : Liability) (total : ℤ) (now : ℕ)
    → IsDebt l
    → pos 0 ≤ℤ total
    → total ≤ℤ l.principal_amount_minor
    → IsDebt (recover_row l total now l)
recover_row-IsDebt l total now debt nonneg within = record {
  nonneg = nonneg;
  within = within;
  cap = debt.cap;
  opened = elim (Bool-cases (eqb_ℤ total l.principal_amount_minor)) [
    | inl e ↦ inl (rw e refl)
    | inr e ↦ inr (grind (int_laws, e, within))
  ];
}

nothing_taken :
    (wallet : Uuid) (a : ℤ) (db : Db)
    → IsWord a
    → AreDebts db.liabilities
    → Recovered wallet a a db db
nothing_taken wallet a db word debts = record {
  wallets = refl;
  reservations = refl;
  available = λ k. grind int_laws;
  reserved = λ k. refl;
  debts = debts;
  nonneg = word.0;
  within = omega int_laws;
}

parts_sum :
    (c : Bool) (a r left s : ℤ)
    → (if c then left +ℤ neg (a -ℤ r) else pos 0) +ℤ ((if c then neg r else pos 0) +ℤ s)
      ≡ (if c then left +ℤ neg a else pos 0) +ℤ s
parts_sum true a r left s = omega int_laws
parts_sum false a r left s = omega int_laws

-- One entry that takes a part of the credit, and then the rest of the loop.
taken_first :
    (wallet : Uuid) (a r left left' : ℤ) (db db₁ db₂ db₃ : Db)
    → IsWord r
    → left ≡ a -ℤ r
    → db₁.wallets ≡ db.wallets
    → db₁.reservations ≡ db.reservations
    → db₁.ledger ≡ db.ledger
    → Shifted wallet (neg64 r) (pos 0) db₁ db₂
    → Recovered wallet left left' db₂ db₃
    → Recovered wallet a left' db db₃
taken_first wallet a r left left' db db₁ db₂ db₃ word e ws rs es p q =
    let minus = neg64-nonneg r word.0 word.1 in
    record {
      wallets = q.wallets ∙ (p.wallets ∙ ws);
      reservations = q.reservations ∙ (p.reservations ∙ rs);
      available = λ k.
          rw (q.available k, p.available k, es)
            (rw (minus, e) (parts_sum (wallet == k) a r left' (ledger_available k db.ledger)));
      reserved = λ k. rw (q.reserved k, p.reserved k, es) (grind int_laws);
      debts = q.debts;
      nonneg = q.nonneg;
      within = grind (int_laws, q.within, e, word);
    }

module _ (env : Env) (wallet : Wallet) (source : Uuid) where
  pub recover_each-Recovered :
      (ls : List Liability) (a : ℤ) (db : Db)
      → IsWord a
      → All IsDebt ls
      → AreDistinct ls
      → AreRowsOf db.liabilities ls
      → AreDebts db.liabilities
      → Ensures
          (λ left db'. Recovered wallet.id a left db db')
          (recover_each env wallet source ls a)
          db
  unfolding recover_each
  recover_each-Recovered [] a db word debts distinct rows all =
      Ensures-pure _ _ _ (nothing_taken wallet.id a db word all)
  recover_each-Recovered (l ∷ ls) a db word debts distinct rows all =
      let r = recovered_of l a in
      let le = recovered_of-le l a debts.0 word in
      let cap : r ≤ℤ max_int64 = omega (int_laws, le, word) in
      let e = sub64-nonneg a r word.0 word.1 le.0 cap in
      let left : IsWord (sub64 a r) = rw e (omega (int_laws, le), omega (int_laws, le, word)) in
      let sum =
        add64_lem l.recovered_amount_minor r
          (omega (int_laws, le, debts.0.nonneg), omega (int_laws, le, debts.0.cap)) in
      let total = add64 l.recovered_amount_minor r in
      let row =
        recover_row-IsDebt l total env.now debts.0 (rw sum (omega (int_laws, le, debts.0.nonneg)))
          (rw sum le.2) in
      Ensures-if _ (eqb_ℤ a (pos 0)) _ _ _
        (λ _. Ensures-pure _ _ _ (nothing_taken wallet.id a db word all))
        (λ _. Ensures-modify _ _ _ _ (
          Ensures->> _ _ _ _ _ (insert_ledger-Shifted _ _) (λ _ db₂ p.
            Ensures-weaken _ _ _ _
              (recover_each-Recovered ls (sub64 a r) db₂ left debts.1 distinct.1
                (rw p.liabilities (
                  AreRowsOf-update (recover_row l total env.now) (λ m. refl) l.id db.liabilities ls
                    distinct.0 rows.1))
                (rw p.liabilities (
                  AreDebts-update (recover_row l total env.now) (λ m. refl) l.id db.liabilities
                    rows.0 row all)))
              (λ left' db₃ q.
                taken_first wallet.id a r (sub64 a r) left' db _ db₂ db₃ (le.0, cap) e refl refl
                  refl p q))))
