-- ===== src/Billing/Service/History.antt =====
-- The databases that the operations of internal/billing lead to, from one without wallets. Refund
-- holds (payment.go), which are not modelled, are no step.
use bablo.Prelude.{ℤ, ◌≤ℤ◌, max_int64, IsInt64, some, List, [], Option, ◌≡◌, refl, arith}
use bablo.Billing.Model.{
  Uuid, ok, Wallet, ReserveInput, SettleInput, ReleaseInput, CreditInput, LiabilityInput,
}
use bablo.Billing.Store.Tables.{Db, Fate, PriceVersion, find_wallet}
use bablo.Billing.Store.Tx.{with_tx}
use bablo.Billing.Store.Statements.{Env}
use bablo.Billing.Settle.{settle}
use bablo.Billing.Settle.Soundness.{settle-IsSound}
use bablo.Billing.Liability.{open_liability_in_tx, reverse_liability_in_tx}
use bablo.Billing.Liability.Opening.{open_liability-IsSound}
use bablo.Billing.Liability.Reversal.{reverse_liability-IsSound}
use bablo.Billing.Credit.{rebuild_balance, ledger_available, ledger_reserved}
use bablo.Billing.Books.Wallets.{available_of, reserved_of}
use bablo.Billing.Books.Holds.{held_of, IsAmount}
use bablo.Billing.Books.Sound.{IsSound}
use bablo.Billing.Books.Projection.{rebuild_balance-wallet}
use bablo.Billing.Service.{service_reserve, service_release, service_credit}
use bablo.Billing.Service.Soundness.{
  service_reserve-IsSound, service_release-IsSound, service_credit-IsSound,
}

-- A database before the first wallet.
abbrev pub opening : List PriceVersion → List (Uuid × Option Uuid) → List Uuid → List Fate → Db
opening prices usage ids fates = record {
  wallets = [];
  reservations = [];
  ledger = [];
  settlements = [];
  liabilities = [];
  outbox = [];
  audit_logs = [];
  price_versions = prices;
  usage_event_keys = usage;
  ids = ids;
  fates = fates;
}

-- One call of billing; or others publish prices, record usage or draw identifiers. An int64 is
-- within its range, and the amount of a liability is positive.
pub data Step : Db → Db → Type 0 where
  reserves :
      (env : Env) (default_output : ℤ) (input : ReserveInput) (db : Db)
      → Step db (service_reserve env default_output input db).1
  settles :
      (env : Env) (input : SettleInput) (db : Db)
      → ((actual : ℤ) → input.event.amount_minor ≡ some actual → actual ≤ℤ max_int64)
      → Step db (settle env input db).1
  releases : (env : Env) (input : ReleaseInput) (db : Db) → Step db (service_release env input db).1
  credits :
      (env : Env) (input : CreditInput) (db : Db)
      → IsInt64 input.amount_minor
      → Step db (service_credit env input db).1
  opens :
      (env : Env) (input : LiabilityInput) (db : Db)
      → IsAmount input.amount_minor
      → Step db (with_tx (open_liability_in_tx env input) db).1
  reverses :
      (env : Env) (k : Uuid) (db : Db) → Step db (with_tx (reverse_liability_in_tx env k) db).1
  others :
      (db : Db) (prices : List PriceVersion) (usage : List (Uuid × Option Uuid)) (ids : List Uuid)
      (fates : List Fate)
      → Step db (record db {
        price_versions = prices;
        usage_event_keys = usage;
        ids = ids;
        fates = fates;
      })

pub data Reached : Db → Type 0 where
  starts :
      (prices : List PriceVersion) (usage : List (Uuid × Option Uuid)) (ids : List Uuid)
      (fates : List Fate)
      → Reached (opening prices usage ids fates)
  follows : (db db' : Db) → Reached db → Step db db' → Reached db'

opening-IsSound :
    (prices : List PriceVersion) (usage : List (Uuid × Option Uuid)) (ids : List Uuid)
    (fates : List Fate)
    → IsSound (opening prices usage ids fates)
unfolding available_of reserved_of held_of ledger_available ledger_reserved find_wallet
opening-IsSound prices usage ids fates = record {
  unique = tt;
  amounts = tt;
  debts = (tt, tt);
  at = λ k. record {
    available = refl;
    reserved = refl;
    held = refl;
    nonneg = ground arith;
    available_cap = ground arith;
    reserved_cap = ground arith;
  };
}

Step-IsSound : (db db' : Db) → Step db db' → IsSound db → IsSound db'
Step-IsSound db db' (reserves env n input _) s = service_reserve-IsSound env n input db s
Step-IsSound db db' (settles env input _ int64) s = settle-IsSound env input db int64 s
Step-IsSound db db' (releases env input _) s = service_release-IsSound env input db s
Step-IsSound db db' (credits env input _ int64) s = service_credit-IsSound env input db int64 s
Step-IsSound db db' (opens env input _ amount) s = open_liability-IsSound env input db amount s
Step-IsSound db db' (reverses env k _) s = reverse_liability-IsSound env k db s
Step-IsSound db db' (others _ prices usage ids fates) s = s

pub Reached-IsSound : (db : Db) → Reached db → IsSound db
Reached-IsSound db (starts prices usage ids fates) = opening-IsSound prices usage ids fates
Reached-IsSound db' (follows db _ reached step) =
    Step-IsSound db db' step (Reached-IsSound db reached)

-- After any sequence of holds, settlements, releases, credits, openings and reversals of
-- liabilities, from a database without wallets on and whether each call succeeds or fails,
-- RebuildBalance sums the ledger of a wallet to the balances of its row, without overflow.
pub rebuild_balance-Reached :
    (w : Wallet) (db : Db)
    → Reached db
    → find_wallet w.id db.wallets ≡ some w
    → rebuild_balance w.id db ≡ ok (w.available_balance_minor, w.reserved_balance_minor)
rebuild_balance-Reached w db reached found =
    rebuild_balance-wallet w db (Reached-IsSound db reached) found
