-- ===== src/Billing/Service.antt =====
-- internal/billing/service.go: the checks on a call before the repository is asked, and the
-- normal form of its arguments.
pub mod Soundness
pub mod History
use bablo.Prelude.{
  ℕ, ℤ, pos, ltb_ℤ, leb_ℤ, eqb_ℤ, Bool, true, false, not, ◌&&◌, ◌||◌, Option, none, some, List, [],
  ◌∷◌, Text, codes, text_eq, is_empty, trim_space, to_upper, byte_len, contains_any, ◌==◌, leb, ltb,
  if◌then◌else◌, any,
}
use bablo.Billing.Model.{
  Uuid, nil_uuid, Error, Result, ok, err, fail_if, ◌>>=◌, ◌>>◌, invalid_input, wallet_not_found,
  EntryType, ReserveInput, ReleaseInput, CreditInput, Quote, TokenUsage, Reservation,
  ReservationStatus, LedgerEntry, Wallet,
}
use bablo.Billing.Quote.{calculate_quote, has_negative}
use bablo.Billing.Store.Tables.{Db, find_wallet_of}
use bablo.Billing.Store.Tx.{Tx, pure, throw, reads, or_throw}
use bablo.Billing.Store.Statements.{Env}
use bablo.Billing.Reserve.{uuid_pointer, clone_uuid, reservation_key, reserve}
use bablo.Billing.Release.{release}
use bablo.Billing.Credit.{credit}

-- normalizeText (model.go): no text where it is empty, too long or has a line break or a NUL.
unfoldable pub normalize_text : Text → ℕ → Text
normalize_text value max =
    let trimmed = trim_space value in
    if is_empty trimmed || ltb max (byte_len trimmed) || contains_any trimmed (0xd ∷ 0xa ∷ 0 ∷ [])
    then []
    else trimmed

abbrev pub is_capital : ℕ → Bool
is_capital c = leb b'A' c && leb c b'Z'

-- normalizeCurrency.
unfoldable pub normalize_currency : Text → Text
normalize_currency value =
    let name = to_upper (trim_space value) in
    if not (byte_len name == 3) || any (λ c. not (is_capital c)) name then [] else name

abbrev pub or_default : Text → Text → Text
or_default value text = if is_empty value then text else value

abbrev pub is_negative : Option ℤ → Bool
is_negative none = false
is_negative (some a) = ltb_ℤ a (pos 0)

-- !value.After(now).
abbrev pub has_expired : ℕ → Option ℕ → Bool
has_expired now none = false
has_expired now (some at) = leb at now

-- The output tokens that a hold is for: the default where the request names none.
abbrev pub output_to_reserve : ℤ → ReserveInput → ℤ
output_to_reserve default_output input =
    if eqb_ℤ input.estimated_usage.output_tokens (pos 0) && not input.price.free
    then default_output
    else input.estimated_usage.output_tokens

-- normalizeReserveInput.
unfoldable pub normalize_reserve_input : ReserveInput → ℤ → ℕ → Result ReserveInput
normalize_reserve_input input default_output now = do
  fail_if (input.user_id == nil_uuid || input.api_key_id == nil_uuid) invalid_input
  fail_if
      (not (text_eq input.request_id (trim_space input.request_id))
        || is_empty (normalize_text input.request_id 128))
      invalid_input
  fail_if (has_negative input.estimated_usage) invalid_input
  fail_if (ltb_ℤ (pos 10000000) (output_to_reserve default_output input)) invalid_input
  fail_if (is_negative input.daily_budget_minor) invalid_input
  fail_if (is_negative input.monthly_budget_minor) invalid_input
  fail_if (has_expired now input.expires_at) invalid_input
  ok (record input {
    estimated_usage = record input.estimated_usage {
      output_tokens = output_to_reserve default_output input;
    };
    request_record_id = clone_uuid input.request_record_id;
    model_id = clone_uuid input.model_id;
    provider_model_id = clone_uuid input.provider_model_id;
    route_version_id = clone_uuid input.route_version_id;
    provider_id = clone_uuid input.provider_id;
    credential_id = clone_uuid input.credential_id;
    reason = or_default (normalize_text input.reason 128) (codes "inference_budget_hold");
  })

-- The reservation of a request that costs nothing: no row stands for it.
abbrev pub free_reservation : Env → ReserveInput → Quote → Reservation
free_reservation env input quote = record {
  id = nil_uuid;
  wallet_id = nil_uuid;
  user_id = input.user_id;
  api_key_id = uuid_pointer input.api_key_id;
  request_id = input.request_id;
  request_record_id = clone_uuid input.request_record_id;
  model_id = clone_uuid input.model_id;
  provider_model_id = clone_uuid input.provider_model_id;
  route_version_id = clone_uuid input.route_version_id;
  provider_id = clone_uuid input.provider_id;
  credential_id = clone_uuid input.credential_id;
  price_version_id = quote.price_version_id;
  estimated_usage = input.estimated_usage;
  reservation_key = reservation_key input.request_id;
  amount_minor = pos 0;
  currency = quote.currency;
  status = ReservationStatus.none;
  settled_amount_minor = none;
  usage_event_id = none;
  reason = [];
  expires_at = none;
  created_at = env.now;
  updated_at = env.now;
}

-- `if err != nil { return err }` after a call without effects, then the rest.
unfoldable pub with_result : {A B : Type 0} → Result A → (A → Tx B) → Tx B
with_result (ok a) f = f a
with_result (err e) f = throw e

unfoldable pub reserve_quote : Env → ReserveInput → Quote → Tx Reservation
reserve_quote env input quote =
    if eqb_ℤ quote.amount_minor (pos 0)
    then pure (free_reservation env input quote)
    else reserve env input quote

unfoldable pub reserve_normalized : Env → ReserveInput → Tx Reservation
reserve_normalized env input =
    with_result (calculate_quote input.price input.estimated_usage) (reserve_quote env input)

-- Service.Reserve.
unfoldable pub service_reserve : Env → ℤ → ReserveInput → Tx Reservation
service_reserve env default_output input =
    with_result (normalize_reserve_input input default_output env.now) (reserve_normalized env)

-- Service.Release: no reservation, nothing to release.
unfoldable pub service_release : Env → ReleaseInput → Tx (Unit {0})
service_release env input =
    if input.reservation_id == nil_uuid
    then pure tt
    else release env (record input {
      reason = or_default (normalize_text input.reason 128) (codes "request_not_charged");
    })

-- The amounts that an entry type takes.
abbrev pub takes_amount : EntryType → ℤ → Bool
takes_amount EntryType.recharge amount = ltb_ℤ (pos 0) amount
takes_amount EntryType.refund amount = ltb_ℤ (pos 0) amount
takes_amount EntryType.grant amount = ltb_ℤ (pos 0) amount
takes_amount EntryType.bonus amount = ltb_ℤ (pos 0) amount
takes_amount EntryType.adjustment amount = not (eqb_ℤ amount (pos 0))
takes_amount EntryType.admin_adjustment amount = not (eqb_ℤ amount (pos 0))
takes_amount EntryType.expiration amount = not (eqb_ℤ amount (pos 0))
takes_amount _ amount = false

-- An adjustment by an operator names one.
abbrev pub lacks_operator : EntryType → Option Uuid → Bool
lacks_operator EntryType.admin_adjustment none = true
lacks_operator _ _ = false

-- normalizeCreditInput.
unfoldable pub normalize_credit_input : CreditInput → Result CreditInput
normalize_credit_input input = do
  fail_if (input.user_id == nil_uuid) invalid_input
  fail_if (not (takes_amount input.entry_type input.amount_minor)) invalid_input
  let currency = normalize_currency input.currency
  let reference_type = normalize_text input.reference_type 64
  let reference_id = normalize_text input.reference_id 160
  let idempotency_key = normalize_text input.idempotency_key 160
  let request_id = normalize_text input.request_id 160
  let source = normalize_text input.source 64
  fail_if (not (is_empty input.request_id) && is_empty request_id) invalid_input
  fail_if
      (is_empty currency
        || is_empty reference_type
        || is_empty reference_id
        || is_empty idempotency_key
        || is_empty source)
      invalid_input
  fail_if (lacks_operator input.entry_type (clone_uuid input.operator_user_id)) invalid_input
  ok (record input {
    currency = currency;
    reference_type = reference_type;
    reference_id = reference_id;
    idempotency_key = idempotency_key;
    request_id = request_id;
    source = source;
    operator_user_id = clone_uuid input.operator_user_id;
  })

-- Service.Credit.
unfoldable pub service_credit : Env → CreditInput → Tx LedgerEntry
service_credit env input = with_result (normalize_credit_input input) (credit env)

-- Service.GetWallet.
unfoldable pub get_wallet : Uuid → Text → Db → Result Wallet
get_wallet user value db =
    let currency = normalize_currency value in
    if user == nil_uuid || is_empty currency
    then err invalid_input
    else elim (find_wallet_of user currency db.wallets) [
      | none ↦ err wallet_not_found
      | some wallet ↦ ok wallet
    ]
