-- ===== src/Usage/Outbox.antt =====
-- The outbox of internal/usage (service.go, repository.go): claims, acknowledgements and retries.
-- The table is a list of rows; transactions follow one another, so that no row is locked, and the
-- database answers. A time is a number of nanoseconds since the zero time.
pub mod Delivery
pub mod Answers
pub mod Settled
pub mod Service
use bablo.Prelude.{
  ℕ, zero, suc, ◌+◌, ◌==◌, leb, ltb, ℤ, pos, ◌-ℤ◌, ltb_ℤ, eqb_ℤ, Bool, true, false, not, ◌&&◌, ◌||◌,
  Option, none, some, List, [], ◌∷◌, map, length, take, any, find?, Text, text_eq, trim_space,
  byte_len, contains_any, is_empty, if◌then◌else◌,
}

pub data OutboxStatus : Type 0 where
  pending processing published failed : OutboxStatus

-- The errors of model.go that the outbox answers with.
pub data OutboxError : Type 0 where
  invalid_input not_found not_owned invalid_state : OutboxError

pub record OutboxEvent : Type 0 where
  pub id : ℕ
  pub aggregate_type : Text
  pub aggregate_id : ℕ
  pub event_type : Text
  pub idempotency_key : Text
  pub payload : Text
  pub status : OutboxStatus
  pub attempts : ℕ
  pub next_attempt_at : ℤ
  pub claimed_at : Option ℤ
  pub claimed_by : Option Text
  pub published_at : Option ℤ
  pub last_error_class : Option Text
  pub created_at : ℤ

abbrev pub Outbox : Type 0
Outbox = List OutboxEvent

-- `claimed_at IS NULL OR claimed_at < $2`.
unfoldable pub is_stale : ℤ → Option ℤ → Bool
is_stale cutoff none = true
is_stale cutoff (some at) = ltb_ℤ at cutoff

-- The WHERE of the candidates, by the status of the row.
unfoldable pub is_claimable : ℤ → ℤ → OutboxStatus → OutboxEvent → Bool
is_claimable now cutoff pending e = not (ltb_ℤ now e.next_attempt_at)
is_claimable now cutoff processing e = is_stale cutoff e.claimed_at
is_claimable now cutoff published e = false
is_claimable now cutoff failed e = false

unfoldable pub due_rows : ℤ → ℤ → Outbox → Outbox
due_rows now cutoff [] = []
due_rows now cutoff (e ∷ es) =
    let rest = due_rows now cutoff es in
    if is_claimable now cutoff e.status e then e ∷ rest else rest

-- `ORDER BY next_attempt_at, created_at, id`.
unfoldable pub comes_before : OutboxEvent → OutboxEvent → Bool
comes_before a b =
    if not (eqb_ℤ a.next_attempt_at b.next_attempt_at)
    then ltb_ℤ a.next_attempt_at b.next_attempt_at
    else if not (eqb_ℤ a.created_at b.created_at)
    then ltb_ℤ a.created_at b.created_at
    else leb a.id b.id

unfoldable pub insert_row : OutboxEvent → Outbox → Outbox
insert_row e [] = e ∷ []
insert_row e (f ∷ fs) =
    let rest = insert_row e fs in if comes_before e f then e ∷ (f ∷ fs) else f ∷ rest

unfoldable pub order_rows : Outbox → Outbox
order_rows [] = []
order_rows (e ∷ es) = insert_row e (order_rows es)

unfoldable pub candidates : ℤ → ℤ → ℕ → Outbox → Outbox
candidates now cutoff limit t = take limit (order_rows (due_rows now cutoff t))

-- The SET of the claim.
unfoldable pub leased_to : Text → ℤ → OutboxEvent → OutboxEvent
leased_to worker now e = record e {
  status = processing;
  attempts = suc e.attempts;
  claimed_at = some now;
  claimed_by = some worker;
}

unfoldable pub lease_chosen : Text → ℤ → Outbox → OutboxEvent → OutboxEvent
lease_chosen worker now chosen e =
    if any (λ c. c.id == e.id) chosen then leased_to worker now e else e

-- Repository.ClaimOutbox. The id is the primary key: the rows returned are the candidates.
unfoldable pub claim_rows : Text → ℕ → ℤ → ℤ → Outbox → Outbox × Outbox
claim_rows worker limit lease now t =
    let chosen = candidates now (now -ℤ lease) limit t in
    (map (leased_to worker now) chosen, map (lease_chosen worker now chosen) t)

-- `status = 'processing' AND claimed_by = $2`.
unfoldable pub is_claimed_by : Text → OutboxStatus → Option Text → Bool
is_claimed_by worker processing (some w) = text_eq w worker
is_claimed_by worker processing none = false
is_claimed_by worker pending w = false
is_claimed_by worker published w = false
is_claimed_by worker failed w = false

unfoldable pub is_owned : ℕ → Text → OutboxEvent → Bool
is_owned id worker e = (e.id == id) && is_claimed_by worker e.status e.claimed_by

unfoldable pub owned_count : ℕ → Text → Outbox → ℕ
owned_count id worker [] = 0
owned_count id worker (e ∷ es) =
    let rest = owned_count id worker es in if is_owned id worker e then suc rest else rest

-- The SET of an acknowledgement, and of a failure.
unfoldable pub as_published : ℤ → OutboxEvent → OutboxEvent
as_published at e = record e {
  status = published;
  published_at = some at;
  claimed_at = none;
  claimed_by = none;
}

unfoldable pub as_failed : OutboxStatus → ℤ → Option Text → OutboxEvent → OutboxEvent
as_failed status retry_at class e = record e {
  status = status;
  next_attempt_at = retry_at;
  last_error_class = class;
  claimed_at = none;
  claimed_by = none;
}

unfoldable pub if_owned : ℕ → Text → (OutboxEvent → OutboxEvent) → OutboxEvent → OutboxEvent
if_owned id worker set e = if is_owned id worker e then set e else e

unfoldable pub ownership_of : Text → Option OutboxEvent → OutboxError
ownership_of worker none = not_found
ownership_of worker (some e) =
    if not (is_claimed_by worker e.status e.claimed_by) then not_owned else invalid_state

unfoldable pub outbox_ownership_error : ℕ → Text → Outbox → OutboxError
outbox_ownership_error id worker t = ownership_of worker (find? (λ e. e.id == id) t)

-- An UPDATE of an owned row in its transaction, which an error undoes.
unfoldable pub update_owned :
    ℕ → Text → (OutboxEvent → OutboxEvent) → Outbox → Option OutboxError × Outbox
update_owned id worker set t =
    let t' = map (if_owned id worker set) t in
    if owned_count id worker t == 1
    then (none, t')
    else (some (outbox_ownership_error id worker t'), t)

-- `IsZero`.
unfoldable pub or_now : ℤ → ℤ → ℤ
or_now now at = if eqb_ℤ at (pos 0) then now else at

-- Repository.MarkOutboxPublished and MarkOutboxFailed.
unfoldable pub publish_row : ℕ → Text → ℤ → ℤ → Outbox → Option OutboxError × Outbox
publish_row id worker at now t = update_owned id worker (as_published (or_now now at)) t

abbrev pub after_failure : Bool → OutboxStatus
after_failure true = failed
after_failure false = pending

unfoldable pub string_arg : Text → Option Text
string_arg s = if is_empty s then none else some s

unfoldable pub fail_row : ℕ → Text → Text → ℤ → Bool → ℤ → Outbox → Option OutboxError × Outbox
fail_row id worker class retry_at permanent now t =
    update_owned id worker
      (as_failed (after_failure permanent) (or_now now retry_at) (string_arg class)) t
