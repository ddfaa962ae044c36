-- ===== src/Billing/Store/Tables.antt =====
-- The tables that internal/billing reads and writes, as lists, and its SQL statements on them.
-- A primary key names at most one row: inserts refuse a key that is taken, so an update by key
-- changes the first row that has it. The ledger and the liabilities stand newest first.
use bablo.Prelude.{
  ℕ, Bool, true, false, ◌&&◌, ◌||◌, Option, none, some, List, [], ◌∷◌, Text, text_eq, ◌==◌,
  if◌then◌else◌,
}
use bablo.Billing.Model.{
  Uuid, Wallet, Reservation, LedgerEntry, Settlement, Liability, ReservationStatus,
  SettlementStatus, LiabilityStatus,
}

-- A row of price_versions, as validatePublishedPrice reads it.
pub record PriceVersion : Type 0 where
  pub id : Uuid
  pub currency : Text
  pub published : Bool
  pub effective_from : ℕ
  pub effective_to : Option ℕ

-- A row of outbox_events, less its payload.
pub record OutboxEvent : Type 0 where
  pub id : Uuid
  pub aggregate_type : Text
  pub aggregate_id : Uuid
  pub event_type : Text
  pub idempotency_key : Text

-- A row of audit_logs.
pub record AuditLog : Type 0 where
  pub id : Uuid
  pub actor_user_id : Option Uuid
  pub action : Text
  pub target_type : Text
  pub target_id : Text
  pub request_id : Text
  pub result : Text

-- What becomes of a transaction: it runs; it does not begin; its commit fails and it is undone; or it
-- is committed, and the answer is lost.
pub data Fate : Type 0 where
  runs unbegun undone unheard : Fate

-- The database, with the identifiers that uuid.NewV7 will return and the fates of the transactions to
-- come, in order; after these, transactions run.
pub record Db : Type 0 where
  pub wallets : List Wallet
  pub reservations : List Reservation
  pub ledger : List LedgerEntry
  pub settlements : List Settlement
  pub liabilities : List Liability
  pub outbox : List OutboxEvent
  pub audit_logs : List AuditLog
  pub price_versions : List PriceVersion
  pub usage_event_keys : List (Uuid × Option Uuid)
  pub ids : List Uuid
  pub fates : List Fate

-- loadWalletByID: SELECT ... FROM wallets WHERE id = $1.
unfoldable pub find_wallet : Uuid → List Wallet → Option Wallet
find_wallet k [] = none
find_wallet k (w ∷ ws) = if w.id == k then some w else find_wallet k ws

-- SELECT ... FROM wallets WHERE user_id = $1 AND currency = $2.
unfoldable pub find_wallet_of : Uuid → Text → List Wallet → Option Wallet
find_wallet_of user currency [] = none
find_wallet_of user currency (w ∷ ws) =
    if w.user_id == user && text_eq w.currency currency
    then some w
    else find_wallet_of user currency ws

-- UPDATE wallets SET ... WHERE id = $1.
unfoldable pub update_wallet : Uuid → (Wallet → Wallet) → List Wallet → List Wallet
update_wallet k f [] = []
update_wallet k f (w ∷ ws) = if w.id == k then f w ∷ ws else w ∷ update_wallet k f ws

-- loadReservationByID.
unfoldable pub find_reservation : Uuid → List Reservation → Option Reservation
find_reservation k [] = none
find_reservation k (r ∷ rs) = if r.id == k then some r else find_reservation k rs

-- loadReservationByRequestID.
unfoldable pub find_reservation_of_request : Text → List Reservation → Option Reservation
find_reservation_of_request request [] = none
find_reservation_of_request request (r ∷ rs) =
    if text_eq r.request_id request then some r else find_reservation_of_request request rs

unfoldable pub update_reservation :
    Uuid → (Reservation → Reservation) → List Reservation → List Reservation
update_reservation k f [] = []
update_reservation k f (r ∷ rs) = if r.id == k then f r ∷ rs else r ∷ update_reservation k f rs

-- loadSettlementByReservation.
unfoldable pub find_settlement_of : Uuid → List Settlement → Option Settlement
find_settlement_of reservation [] = none
find_settlement_of reservation (s ∷ ss) =
    if s.reservation_id == reservation then some s else find_settlement_of reservation ss

unfoldable pub update_settlement :
    Uuid → (Settlement → Settlement) → List Settlement → List Settlement
update_settlement k f [] = []
update_settlement k f (s ∷ ss) = if s.id == k then f s ∷ ss else s ∷ update_settlement k f ss

-- loadLedgerByIdempotency.
unfoldable pub find_ledger : Uuid → Text → List LedgerEntry → Option LedgerEntry
find_ledger wallet key [] = none
find_ledger wallet key (e ∷ es) =
    if e.wallet_id == wallet && text_eq e.idempotency_key key
    then some e
    else find_ledger wallet key es

-- loadLiabilityByID.
unfoldable pub find_liability : Uuid → List Liability → Option Liability
find_liability k [] = none
find_liability k (l ∷ ls) = if l.id == k then some l else find_liability k ls

unfoldable pub update_liability : Uuid → (Liability → Liability) → List Liability → List Liability
update_liability k f [] = []
update_liability k f (l ∷ ls) = if l.id == k then f l ∷ ls else l ∷ update_liability k f ls

-- status IN ('reserved', 'settlement_pending').
abbrev pub is_held : ReservationStatus → Bool
is_held ReservationStatus.reserved = true
is_held ReservationStatus.settlement_pending = true
is_held _ = false

abbrev pub is_pending : SettlementStatus → Bool
is_pending SettlementStatus.pending = true
is_pending _ = false

abbrev pub is_opened : LiabilityStatus → Bool
is_opened LiabilityStatus.opened = true
is_opened _ = false

-- EXISTS (SELECT 1 FROM wallet_liabilities WHERE wallet_id = $1 AND status = 'open').
unfoldable pub has_open_liability : Uuid → List Liability → Bool
has_open_liability wallet [] = false
has_open_liability wallet (l ∷ ls) =
    (l.wallet_id == wallet && is_opened l.status) || has_open_liability wallet ls

-- Whether the reservation belongs to the wallet, for the join of a settlement with it.
unfoldable pub reservation_of_wallet : Uuid → Uuid → List Reservation → Bool
reservation_of_wallet wallet reservation rs = elim (find_reservation reservation rs) [
  | none ↦ false
  | some r ↦ r.wallet_id == wallet
]

-- EXISTS of a pending settlement of the wallet, of a reservation that passes the test.
unfoldable pub has_pending_settlement :
    (Uuid → Bool) → Uuid → List Reservation → List Settlement → Bool
has_pending_settlement other wallet rs [] = false
has_pending_settlement other wallet rs (s ∷ ss) =
    (is_pending s.status
      && other s.reservation_id
      && reservation_of_wallet wallet s.reservation_id rs)
    || has_pending_settlement other wallet rs ss
