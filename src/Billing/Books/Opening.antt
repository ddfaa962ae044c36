-- ===== src/Billing/Books/Opening.antt =====
-- getOrCreateWallet keeps the books, and its result stands in them.
use bablo.Prelude.{◌≡◌, refl, pos, none, some, List, ◌∷◌, Text, arith, Option-cases, inl, inr}
use bablo.Billing.Model.{
  ok, err, settlement_conflict, Uuid, Wallet, Reservation, LedgerEntry, Liability,
}
use bablo.Billing.Store.Tables.{Db, find_wallet, find_wallet_of}
use bablo.Billing.Store.Tx.{Ensures, Ensures->>=, Holds-by, steps}
use bablo.Billing.Store.Statements.{
  Env, get_or_create_wallet, insert_wallet, insert_and_load_wallet, new_wallet,
}
use bablo.Billing.Books.Wallets.{available_of, reserved_of, find_wallet_of_id}
use bablo.Billing.Books.Effects.{new_id-KeepsBooks}
use bablo.Billing.Books.Sound.{At, Sound, IsSound, SameBooks-IsSound}

-- A new wallet without money changes no balance.
module _ (w : Wallet) (ws : List Wallet) (new : find_wallet w.id ws ≡ none)
    (zero_available : w.available_balance_minor ≡ pos 0)
    (zero_reserved : w.reserved_balance_minor ≡ pos 0) where
  balances-new :
      (k : Uuid)
      → (available_of k (w ∷ ws) ≡ available_of k ws) × (reserved_of k (w ∷ ws) ≡ reserved_of k ws)
  unfolding available_of reserved_of find_wallet
  balances-new k = ground arith

  Sound-new :
      (rs : List Reservation) (es : List LedgerEntry) (ls : List Liability)
      → Sound ws rs es ls
      → Sound (w ∷ ws) rs es ls
  Sound-new rs es ls s = record {
    unique = (new, s.unique);
    amounts = s.amounts;
    debts = s.debts;
    at = λ k. at_new k (s.at k);
  }
    where
      at_new : (k : Uuid) → At k ws rs es → At k (w ∷ ws) rs es
      at_new k a = ground (arith, balances-new k)

-- The wallet is the row of its id.
abbrev pub Opened : Wallet → Db → Type 0
Opened w db = IsSound db × (find_wallet w.id db.wallets ≡ some w)

insert_wallet-Opened :
    (w : Wallet) (db : Db)
    → w.available_balance_minor ≡ pos 0
    → w.reserved_balance_minor ≡ pos 0
    → IsSound db
    → Ensures Opened (insert_wallet w) db
unfolding insert_wallet find_wallet steps Ensures
insert_wallet-Opened w db a r s = elim (Option-cases (find_wallet w.id db.wallets)) [
  | inl new ↦
      Holds-by Opened (insert_wallet w db) (ok w, record db { wallets = w ∷ db.wallets })
        (ground arith)
        (Sound-new w db.wallets new a r db.reservations db.ledger db.liabilities s, ground arith)
  | inr (other, e) ↦
      Holds-by Opened (insert_wallet w db) (err settlement_conflict, db) (ground arith) tt
]

insert_and_load_wallet-Opened :
    (env : Env) (user : Uuid) (currency : Text) (k : Uuid) (db : Db)
    → IsSound db
    → Ensures Opened (insert_and_load_wallet env user currency k) db
unfolding insert_and_load_wallet steps Ensures
insert_and_load_wallet-Opened env user currency k db s =
    let outcome = insert_and_load_wallet env user currency k db in
    elim (Option-cases (find_wallet_of user currency db.wallets)) [
      | inl e ↦
          Holds-by Opened outcome (insert_wallet (new_wallet env user currency k) db) (ground arith)
            (insert_wallet-Opened (new_wallet env user currency k) db refl refl s)
      | inr (w, e) ↦
          Holds-by Opened outcome (ok w, db) (ground arith)
            (s, find_wallet_of_id user currency db.wallets s.unique e)
    ]

pub get_or_create_wallet-Opened :
    (env : Env) (user : Uuid) (currency : Text) (db : Db)
    → IsSound db
    → Ensures Opened (get_or_create_wallet env user currency) db
unfolding get_or_create_wallet
get_or_create_wallet-Opened env user currency db s =
    Ensures->>= _ _ _ _ _ (new_id-KeepsBooks db) (λ k db' same.
      insert_and_load_wallet-Opened env user currency k db' (SameBooks-IsSound db db' same s))
