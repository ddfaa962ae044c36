-- ===== src/Billing/Model.antt =====
-- internal/billing/model.go, and the types of internal/pricing and internal/usage that it names.
-- Amounts are int64 values, held as integers; a UUID is a number, and 0 is uuid.Nil; a time is a
-- number of seconds; a pointer is an Option.
use bablo.Prelude.{ℕ, ℤ, Bool, true, false, Option, List, Text}

abbrev pub Uuid : Type 0
Uuid = ℕ

abbrev pub nil_uuid : Uuid
nil_uuid = 0

-- The errors of the package; `repository` is any other error of the store.
pub data Error : Type 0 where
  invalid_input wallet_not_found wallet_frozen insufficient_funds budget_exceeded : Error
  reservation_not_found reservation_conflict settlement_pending settlement_conflict : Error
  currency_mismatch balance_overflow price_missing repository : Error

-- What a Go function with an error as its last result returns.
pub data Result {ℓ} (A : Type ℓ) : Type ℓ where
  err : Error → Result A
  ok : A → Result A

infixl 5 ◌>>◌
module _ {ℓ κ} {A : Type ℓ} {B : Type κ} where
  infixl 5 ◌>>=◌
  -- `if err != nil { return err }`, and then the rest.
  abbrev pub ◌>>=◌ : Result A → (A → Result B) → Result B
  err failure >>= next = err failure
  ok value >>= next = next value

-- The same, of a call that returns nothing but an error.
abbrev pub ◌>>◌ {κ} : {B : Type κ} → Result (Unit {0}) → Result B → Result B
first >> rest = first >>= λ _. rest

-- `if test { return error }`.
abbrev pub fail_if : Bool → Error → Result (Unit {0})
fail_if true e = err e
fail_if false e = ok tt

abbrev pub or_fail {ℓ} : {A : Type ℓ} → Option A → Error → Result A
or_fail (Option.some a) e = ok a
or_fail Option.none e = err e

-- The call succeeds with a value that has the property.
abbrev pub Succeeds {ℓ} : {A : Type ℓ} → (A → Type 0) → Result A → Type 0
Succeeds P (ok a) = P a
Succeeds P (err e) = ⊥

pub Succeeds->>= {ℓ κ} :
    {A : Type ℓ} {B : Type κ} (P : A → Type 0) (Q : B → Type 0) (m : Result A) (f : A → Result B)
    → Succeeds P m
    → ((a : A) → P a → Succeeds Q (f a))
    → Succeeds Q (m >>= f)
Succeeds->>= P Q (ok a) f h k = k a h
Succeeds->>= P Q (err e) f h k = absurd h

-- pricing.Dimension*.
pub data Dimension : Type 0 where
  input_token output_token cache_read_token cache_write_token reasoning_token request : Dimension

-- pricing.Snapshot, less the scope and the start of its validity.
pub record Snapshot : Type 0 where
  pub version_id : Uuid
  pub currency : Text
  pub prices : List (Dimension × Text)
  pub free : Bool

pub record TokenUsage : Type 0 where
  pub input_tokens : ℤ
  pub output_tokens : ℤ
  pub cache_read_tokens : ℤ
  pub cache_write_tokens : ℤ
  pub reasoning_tokens : ℤ

pub record Quote : Type 0 where
  pub price_version_id : Uuid
  pub currency : Text
  pub amount_minor : ℤ
  pub estimated : Bool

pub data ReservationStatus : Type 0 where
  none reserved settlement_pending settled released : ReservationStatus

pub data SettlementStatus : Type 0 where
  pending settled failed reconcile_needed : SettlementStatus

pub data EntryType : Type 0 where
  reservation usage_charge release recharge refund adjustment admin_adjustment : EntryType
  grant bonus expiration payment_refund_hold payment_reversal : EntryType
  payment_refund_release payment_liability : EntryType

pub data WalletStatus : Type 0 where
  active frozen closed : WalletStatus

pub record Wallet : Type 0 where
  pub id : Uuid
  pub user_id : Uuid
  pub currency : Text
  pub available_balance_minor : ℤ
  pub reserved_balance_minor : ℤ
  pub status : WalletStatus
  pub financial_hold : Bool
  pub version : ℕ
  pub created_at : ℕ
  pub updated_at : ℕ

pub data LiabilityStatus : Type 0 where
  opened settled reversed : LiabilityStatus

pub data LiabilityType : Type 0 where
  payment_refund payment_dispute : LiabilityType

pub record LiabilityInput : Type 0 where
  pub user_id : Uuid
  pub currency : Text
  pub liability_type : LiabilityType
  pub reference_type : Text
  pub reference_id : Text
  pub amount_minor : ℤ

pub record Liability : Type 0 where
  pub id : Uuid
  pub wallet_id : Uuid
  pub liability_type : LiabilityType
  pub reference_type : Text
  pub reference_id : Text
  pub principal_amount_minor : ℤ
  pub recovered_amount_minor : ℤ
  pub currency : Text
  pub status : LiabilityStatus
  pub recovery_ledger_id : Option Uuid
  pub created_at : ℕ
  pub updated_at : ℕ

pub record LedgerEntry : Type 0 where
  pub id : Uuid
  pub wallet_id : Uuid
  pub entry_type : EntryType
  pub amount_minor : ℤ
  pub available_delta_minor : ℤ
  pub reserved_delta_minor : ℤ
  pub available_balance_after_minor : ℤ
  pub reserved_balance_after_minor : ℤ
  pub currency : Text
  pub reference_type : Text
  pub reference_id : Text
  pub idempotency_key : Text
  pub usage_event_id : Option Uuid
  pub operator_user_id : Option Uuid
  pub source : Text
  pub created_at : ℕ

pub record Reservation : Type 0 where
  pub id : Uuid
  pub wallet_id : Uuid
  pub user_id : Uuid
  pub api_key_id : Option Uuid
  pub request_id : Text
  pub request_record_id : Option Uuid
  pub model_id : Option Uuid
  pub provider_model_id : Option Uuid
  pub route_version_id : Option Uuid
  pub provider_id : Option Uuid
  pub credential_id : Option Uuid
  pub price_version_id : Uuid
  pub estimated_usage : TokenUsage
  pub reservation_key : Text
  pub amount_minor : ℤ
  pub currency : Text
  pub status : ReservationStatus
  pub settled_amount_minor : Option ℤ
  pub usage_event_id : Option Uuid
  pub reason : Text
  pub expires_at : Option ℕ
  pub created_at : ℕ
  pub updated_at : ℕ

pub record ReserveInput : Type 0 where
  pub user_id : Uuid
  pub api_key_id : Uuid
  pub request_id : Text
  pub request_record_id : Option Uuid
  pub model_id : Option Uuid
  pub provider_model_id : Option Uuid
  pub route_version_id : Option Uuid
  pub provider_id : Option Uuid
  pub credential_id : Option Uuid
  pub price : Snapshot
  pub estimated_usage : TokenUsage
  pub daily_budget_minor : Option ℤ
  pub monthly_budget_minor : Option ℤ
  pub reason : Text
  pub expires_at : Option ℕ

-- The fields of usage.Event that settlement reads.
pub record Event : Type 0 where
  pub id : Uuid
  pub request_id : Text
  pub user_id : Option Uuid
  pub api_key_id : Option Uuid
  pub price_version_id : Option Uuid
  pub wallet_id : Option Uuid
  pub amount_minor : Option ℤ
  pub currency : Text
  pub estimated : Bool

pub record SettleInput : Type 0 where
  pub reservation_id : Uuid
  pub event : Event

pub record ReleaseInput : Type 0 where
  pub reservation_id : Uuid
  pub reason : Text

pub record CreditInput : Type 0 where
  pub user_id : Uuid
  pub currency : Text
  pub entry_type : EntryType
  pub amount_minor : ℤ
  pub reference_type : Text
  pub reference_id : Text
  pub idempotency_key : Text
  pub request_id : Text
  pub operator_user_id : Option Uuid
  pub source : Text

pub record Settlement : Type 0 where
  pub id : Uuid
  pub reservation_id : Uuid
  pub usage_event_id : Uuid
  pub idempotency_key : Text
  pub reserved_amount_minor : ℤ
  pub actual_amount_minor : Option ℤ
  pub status : SettlementStatus
  pub estimated : Bool
  pub error_class : Text
  pub created_at : ℕ
  pub updated_at : ℕ
