-- ===== src/Billing/Books/Effects.antt =====
-- What the statements of a transaction do to the books.
use bablo.Prelude.{
  ℕ, ◌≡◌, refl, ◌∙◌, ℤ, pos, ◌+ℤ◌, int_laws, Bool, Option, none, some, ◌∷◌, Text, ◌==◌,
  if◌then◌else◌, arith,
}
use bablo.Billing.Model.{Uuid, Reservation, LedgerEntry, Settlement, SettlementStatus, ReserveInput}
use bablo.Billing.Store.Tables.{Db, AuditLog}
use bablo.Billing.Store.Tx.{Tx, Ensures, Ensures->>, Ensures-weaken, ◌>>◌, pure, new_id, steps}
use bablo.Billing.Store.Statements.{
  Env, validate_published_price, check_budget, check_budgets, insert_ledger, insert_billing_outbox,
  insert_audit, persist_settlement,
}
use bablo.Billing.Credit.{ledger_available, ledger_reserved}
use bablo.Billing.Books.Sound.{SameBooks, SameBooks-IsSound, IsSound}

abbrev pub KeepsBooks : {A : Type 0} → Tx A → Type 0
KeepsBooks m = (db : Db) → Ensures (λ _ db'. SameBooks db db') m db

pub new_id-KeepsBooks : KeepsBooks new_id
unfolding new_id steps Ensures
new_id-KeepsBooks db = ground arith

pub validate_published_price-KeepsBooks :
    (env : Env) (k : Uuid) (c : Text) → KeepsBooks (validate_published_price env k c)
unfolding validate_published_price steps Ensures
validate_published_price-KeepsBooks env k c db = ground arith

pub check_budget-KeepsBooks :
    (key : Uuid) (held amount : ℤ) (limit : Option ℤ) (since : ℕ)
    → KeepsBooks (check_budget key held amount limit since)
unfolding check_budget steps Ensures
check_budget-KeepsBooks key held amount none since db = ground arith
check_budget-KeepsBooks key held amount (some limit) since db = ground arith

pub check_budgets-KeepsBooks :
    (env : Env) (input : ReserveInput) (amount : ℤ) → KeepsBooks (check_budgets env input amount)
unfolding check_budgets check_budget steps Ensures
check_budgets-KeepsBooks env input amount db = ground arith

pub insert_billing_outbox-KeepsBooks :
    (a : Text) (k : Uuid) (e i : Text) → KeepsBooks (insert_billing_outbox a k e i)
unfolding insert_billing_outbox new_id steps Ensures
insert_billing_outbox-KeepsBooks a k e i db = ground arith

pub insert_audit-KeepsBooks : (event : AuditLog) → KeepsBooks (insert_audit event)
unfolding insert_audit new_id steps Ensures
insert_audit-KeepsBooks event db = ground arith

pub persist_settlement-KeepsBooks :
    (env : Env) (existing : Option Settlement) (r : Reservation) (event : Uuid) (actual : ℤ)
    (estimated : Bool) (status : SettlementStatus) (error_class : Text)
    → KeepsBooks (persist_settlement env existing r event actual estimated status error_class)
unfolding persist_settlement new_id steps Ensures
persist_settlement-KeepsBooks env none r event actual estimated status error_class db = ground arith
persist_settlement-KeepsBooks env (some s) r event actual estimated status error_class db =
    (refl, refl, refl, refl)

-- A last step that keeps the books, and a result.
pub finish :
    {A B : Type 0} (m : Tx B) (a : A) (db : Db)
    → KeepsBooks m
    → IsSound db
    → Ensures (λ _ db'. IsSound db') (m >> pure a) db
unfolding Ensures pure
finish m a db keeps s =
    Ensures->> _ _ _ _ _ (keeps db) (λ b db' same. SameBooks-IsSound db db' same s)

-- One row more in the ledger, with the wallet and the deltas asked for, and nothing else in the books.
pub record Posted (e row : LedgerEntry) (db db' : Db) : Type 0 where
  pub wallets : db'.wallets ≡ db.wallets
  pub reservations : db'.reservations ≡ db.reservations
  pub liabilities : db'.liabilities ≡ db.liabilities
  pub ledger : db'.ledger ≡ row ∷ db.ledger
  pub wallet : row.wallet_id ≡ e.wallet_id
  pub available : row.available_delta_minor ≡ e.available_delta_minor
  pub reserved : row.reserved_delta_minor ≡ e.reserved_delta_minor

pub insert_ledger-Posted :
    (e : LedgerEntry) (db : Db) → Ensures (λ row db'. Posted e row db db') (insert_ledger e) db
unfolding insert_ledger new_id steps Ensures
insert_ledger-Posted e db = ground arith

module _ (k : Uuid) {e row : LedgerEntry} {db db' : Db} (posted : Posted e row db db') where
  pub Posted-available :
      ledger_available k db'.ledger
      ≡ (if e.wallet_id == k then e.available_delta_minor else pos 0)
        +ℤ ledger_available k db.ledger
  unfolding ledger_available
  Posted-available = rw (posted.ledger, ledger_available) (rw (posted.wallet, posted.available))

  pub Posted-reserved :
      ledger_reserved k db'.ledger
      ≡ (if e.wallet_id == k then e.reserved_delta_minor else pos 0) +ℤ ledger_reserved k db.ledger
  unfolding ledger_reserved
  Posted-reserved = rw (posted.ledger, ledger_reserved) (rw (posted.wallet, posted.reserved))

-- The sums of a wallet's ledger have moved by two amounts, and nothing else in the books has.
pub record Shifted (wallet : Uuid) (da dr : ℤ) (db db' : Db) : Type 0 where
  pub wallets : db'.wallets ≡ db.wallets
  pub reservations : db'.reservations ≡ db.reservations
  pub liabilities : db'.liabilities ≡ db.liabilities
  pub available :
      (k : Uuid)
      → ledger_available k db'.ledger
        ≡ (if wallet == k then da else pos 0) +ℤ ledger_available k db.ledger
  pub reserved :
      (k : Uuid)
      → ledger_reserved k db'.ledger
        ≡ (if wallet == k then dr else pos 0) +ℤ ledger_reserved k db.ledger

pub insert_ledger-Shifted :
    (e : LedgerEntry) (db : Db)
    → Ensures
        (λ _ db'. Shifted e.wallet_id e.available_delta_minor e.reserved_delta_minor db db')
        (insert_ledger e)
        db
insert_ledger-Shifted e db = Ensures-weaken _ _ _ _ (insert_ledger-Posted e db) (λ row db' p.
    record {
      wallets = p.wallets;
      reservations = p.reservations;
      liabilities = p.liabilities;
      available = λ k. Posted-available k p;
      reserved = λ k. Posted-reserved k p;
    })

pub SameBooks-Shifted :
    (wallet : Uuid) (db db' : Db) → SameBooks db db' → Shifted wallet (pos 0) (pos 0) db db'
SameBooks-Shifted wallet db db' (w, r, e, l) = record {
  wallets = w;
  reservations = r;
  liabilities = l;
  available = λ k. rw e (grind int_laws);
  reserved = λ k. rw e (grind int_laws);
}

pub Shifted-trans :
    (wallet : Uuid) (a b a' b' : ℤ) (db₁ db₂ db₃ : Db)
    → Shifted wallet a b db₁ db₂
    → Shifted wallet a' b' db₂ db₃
    → Shifted wallet (a' +ℤ a) (b' +ℤ b) db₁ db₃
Shifted-trans wallet a b a' b' db₁ db₂ db₃ s t = record {
  wallets = t.wallets ∙ s.wallets;
  reservations = t.reservations ∙ s.reservations;
  liabilities = t.liabilities ∙ s.liabilities;
  available = λ k. rw (t.available k, s.available k) (grind int_laws);
  reserved = λ k. rw (t.reserved k, s.reserved k) (grind int_laws);
}
