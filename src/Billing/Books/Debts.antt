-- ===== src/Billing/Books/Debts.antt =====
-- The wallet_liabilities table under the statements of internal/billing/liability.go.
use bablo.Prelude.{
  ◌≡◌, inl, inr, refl, sym, subst, Bool, true, false, ◌&&◌, some, List, [], ◌∷◌, All, ◌==◌,
  if◌then◌else◌, arith, Bool-cases,
}
use bablo.Billing.Model.{Uuid, Liability}
use bablo.Billing.Store.Tables.{find_liability, update_liability, is_opened}
use bablo.Billing.Liability.{insert_in_order, open_liabilities, is_before}
use bablo.Billing.Books.Sound.{IsDebt, AreDistinct, AreDebts}

by_if :
    (P : List Liability → Type 0) (c : Bool) {xs ys : List Liability}
    → P xs
    → P ys
    → P (if c then xs else ys)
by_if P true p q = p
by_if P false p q = q

module _ (P : Liability → Type 0) where
  All-insert_in_order :
      (a : Liability) (ls : List Liability) → P a → All P ls → All P (insert_in_order a ls)
  unfolding insert_in_order
  All-insert_in_order a [] p ps = (p, tt)
  All-insert_in_order a (b ∷ ls) p ps =
      by_if (All P) (is_before a b) (p, ps) (ps.0, All-insert_in_order a ls p ps.1)

  pub All-open_liabilities :
      (wallet : Uuid) (ls : List Liability) → All P ls → All P (open_liabilities wallet ls)
  unfolding open_liabilities
  All-open_liabilities wallet [] ps = tt
  All-open_liabilities wallet (l ∷ ls) ps =
      let rest = All-open_liabilities wallet ls ps.1 in
      by_if (All P) (l.wallet_id == wallet && is_opened l.status)
        (All-insert_in_order l (open_liabilities wallet ls) ps.0 rest) rest

AreDistinct-insert_in_order :
    (a : Liability) (ls : List Liability)
    → All (λ m. (m.id == a.id) ≡ false) ls
    → AreDistinct ls
    → AreDistinct (insert_in_order a ls)
unfolding insert_in_order
AreDistinct-insert_in_order a [] fresh distinct = (tt, tt)
AreDistinct-insert_in_order a (b ∷ ls) fresh distinct =
    by_if AreDistinct (is_before a b) (fresh, distinct)
      (
        All-insert_in_order (λ m. (m.id == b.id) ≡ false) a ls (ground (arith, fresh.0)) distinct.0,
        AreDistinct-insert_in_order a ls fresh.1 distinct.1,
      )

pub AreDistinct-open_liabilities :
    (wallet : Uuid) (ls : List Liability)
    → AreDistinct ls
    → AreDistinct (open_liabilities wallet ls)
unfolding open_liabilities
AreDistinct-open_liabilities wallet [] d = tt
AreDistinct-open_liabilities wallet (l ∷ ls) d =
    let rest = AreDistinct-open_liabilities wallet ls d.1 in
    by_if AreDistinct (l.wallet_id == wallet && is_opened l.status)
      (AreDistinct-insert_in_order l (open_liabilities wallet ls)
        (All-open_liabilities (λ m. (m.id == l.id) ≡ false) wallet ls d.0) rest)
      rest

-- The rows are those of their ids.
abbrev pub AreRowsOf : List Liability → List Liability → Type 0
AreRowsOf table ls = All (λ m. find_liability m.id table ≡ some m) ls

All-with :
    {P Q R : Liability → Type 0} (ls : List Liability)
    → All P ls
    → All Q ls
    → ((l : Liability) → P l → Q l → R l)
    → All R ls
All-with [] p q f = tt
All-with (l ∷ ls) p q f = (f l p.0 q.0, All-with ls p.1 q.1 f)

AreRowsOf-self : (ls : List Liability) → AreDistinct ls → AreRowsOf ls ls
unfolding find_liability
AreRowsOf-self [] d = tt
AreRowsOf-self (l ∷ ls) d = (
  ground arith,
  All-with ls d.0 (AreRowsOf-self ls d.1) (λ m fresh found. ground (arith, fresh, found)),
)

pub open_liabilities-AreRowsOf :
    (wallet : Uuid) (ls : List Liability)
    → AreDistinct ls
    → AreRowsOf ls (open_liabilities wallet ls)
open_liabilities-AreRowsOf wallet ls d =
    All-open_liabilities (λ m. find_liability m.id ls ≡ some m) wallet ls (AreRowsOf-self ls d)

module _ (f : Liability → Liability) (keeps : (l : Liability) → (f l).id ≡ l.id) where
  find_liability-update :
      (j k : Uuid) (ls : List Liability)
      → (j == k) ≡ false
      → find_liability j (update_liability k f ls) ≡ find_liability j ls
  unfolding find_liability update_liability
  find_liability-update j k [] other = refl
  find_liability-update j k (l ∷ ls) other =
      ground (arith, keeps l, find_liability-update j k ls other)

  pub AreRowsOf-update :
      (k : Uuid) (table ls : List Liability)
      → All (λ m. (m.id == k) ≡ false) ls
      → AreRowsOf table ls
      → AreRowsOf (update_liability k f table) ls
  AreRowsOf-update k table ls others rows =
      All-with ls others rows (λ m other found. rw (find_liability-update m.id k table other) found)

  All-update-fresh :
      (j k : Uuid) (ls : List Liability)
      → All (λ m. (m.id == j) ≡ false) ls
      → All (λ m. (m.id == j) ≡ false) (update_liability k f ls)
  unfolding update_liability
  All-update-fresh j k [] fresh = tt
  All-update-fresh j k (l ∷ ls) fresh =
      ground (arith, keeps l, All-update-fresh j k ls fresh.1, fresh)

  AreDistinct-update :
      (k : Uuid) (ls : List Liability) → AreDistinct ls → AreDistinct (update_liability k f ls)
  unfolding update_liability
  AreDistinct-update k [] d = tt
  AreDistinct-update k (l ∷ ls) d =
      by_if AreDistinct (l.id == k)
        (subst (λ j. All (λ m. (m.id == j) ≡ false) ls) (sym (keeps l)) d.0, d.1)
        (All-update-fresh l.id k ls d.0, AreDistinct-update k ls d.1)

  IsDebt-update :
      (k : Uuid) (ls : List Liability) {l : Liability}
      → find_liability k ls ≡ some l
      → IsDebt (f l)
      → All IsDebt ls
      → All IsDebt (update_liability k f ls)
  unfolding find_liability update_liability
  IsDebt-update k [] found debt debts = tt
  IsDebt-update k (m ∷ ls) {l} found debt debts = elim (Bool-cases (m.id == k)) [
    | inl e ↦
        let same : m ≡ l = ground (arith, e, found) in
        rw (e, update_liability) (subst (λ z. IsDebt (f z)) (sym same) debt, debts.1)
    | inr e ↦
        let later : find_liability k ls ≡ some l = ground (arith, e, found) in
        rw (e, update_liability) (debts.0, IsDebt-update k ls later debt debts.1)
  ]

  pub AreDebts-update :
      (k : Uuid) (ls : List Liability) {l : Liability}
      → find_liability k ls ≡ some l
      → IsDebt (f l)
      → AreDebts ls
      → AreDebts (update_liability k f ls)
  AreDebts-update k ls found debt debts =
      (IsDebt-update k ls found debt debts.0, AreDistinct-update k ls debts.1)
