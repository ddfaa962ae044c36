-- ===== src/Scheduler/Model.antt =====
-- internal/scheduler/model.go, with what it names of internal/route, internal/model and
-- internal/provider. A UUID is a number, and 0 is uuid.Nil: the text form has a fixed width in
-- lower-case hexadecimal digits, so the order of texts is that of numbers. A time is a number of
-- nanoseconds since the zero time, a duration a number of nanoseconds, a pointer an Option.
use bablo.Prelude.{ℤ, Bool, Option, List, Text, ℕ, ◌≡◌, refl, ◌⊎◌, inl, inr}

abbrev pub Uuid : Type 0
Uuid = ℕ

-- The errors of the package; `canceled` is that of a context that is done, `repository` any other.
pub data Error : Type 0 where
  invalid_input conflict no_eligible lease_busy lease_not_owner : Error
  state_unavailable canceled repository : Error

-- What a Go function with an error as its last result returns.
pub data Outcome {ℓ} (A : Type ℓ) : Type ℓ where
  failure : Error → Outcome A
  success : A → Outcome A

-- The type Strategy; `unset` is the empty text.
pub data Strategy : Type 0 where
  round_robin weighted_round_robin fill_first quota_aware unset : Strategy
  unknown : Text → Strategy

-- The texts in CandidateDecision.Reasons and FallbackEntry.Reason.
pub data Reason : Type 0 where
  target_disabled provider_model_disabled provider_model_unapproved pool_disabled : Reason
  resource_policy_denied protocol_mismatch capability_mismatch pool_empty : Reason
  pool_member_disabled provider_disabled credential_inactive : Reason
  credential_capacity_invalid cooldown region_mismatch proxy_required proxy_mismatch : Reason
  quota_missing quota_stale quota_exhausted : Reason
  concurrency_state_unavailable concurrency_lease_busy affinity_state_unavailable : Reason
  cursor_state_unavailable affinity_unavailable : Reason

-- provider.ReviewPending and its fellows.
pub data ReviewStatus : Type 0 where
  pending approved rejected : ReviewStatus

-- provider.ResourceOfficialAPI and its fellows.
pub data ResourceType : Type 0 where
  official_api enterprise_api subscription third_party : ResourceType

-- credential.StatusActive and its fellows.
pub data CredentialStatus : Type 0 where
  active disabled revoked error : CredentialStatus

-- model.Capabilities.
pub record Capabilities : Type 0 where
  pub chat : Bool
  pub responses : Bool
  pub messages : Bool
  pub stream : Bool
  pub tools : Bool
  pub vision : Bool
  pub reasoning : Bool

-- route.Target: the fields that the scheduler reads.
pub record Target : Type 0 where
  pub id : Uuid
  pub target_no : ℤ
  pub credential_pool_id : Uuid
  pub provider_id : Uuid
  pub provider_resource_type : ResourceType
  pub provider_commercial_allowed : Bool
  pub upstream_model_id : Text
  pub protocol : Text
  pub capabilities : Capabilities
  pub provider_model_enabled : Bool
  pub review_status : ReviewStatus
  pub pool_enabled : Bool
  pub priority : ℤ
  pub weight : ℤ
  pub effective_commercial_allowed : Bool
  pub enabled : Bool

-- route.Resolution: the version, the route and the candidates.
pub record Resolution : Type 0 where
  pub version_id : Uuid
  pub route_id : Uuid
  pub candidates : List Target

pub record QuotaPolicy : Type 0 where
  pub enabled : Bool
  pub window_kind : Text
  pub required_tokens : ℤ
  pub max_age : ℤ
  pub require_fresh : Bool

pub record Request : Type 0 where
  pub request_id : Text
  pub request_record_id : Option Uuid
  pub attempt_no : ℤ
  pub decision_no : ℤ
  pub resolution : Resolution
  pub protocol : Text
  pub required_capabilities : Capabilities
  pub region : Text
  pub proxy_ref : Text
  pub require_proxy : Bool
  pub quota : QuotaPolicy
  pub strategy : Strategy
  pub affinity_key : Text
  pub now : ℤ

pub record CandidateDecision : Type 0 where
  pub target_id : Uuid
  pub credential_id : Option Uuid
  pub target_priority : ℤ
  pub member_priority : ℤ
  pub weight : ℤ
  pub score : ℤ
  pub eligible : Bool
  pub reasons : List Reason
  pub quota_remaining : Option ℤ
  pub quota_reset_at : Option ℤ
  pub quota_observed_at : Option ℤ

pub record FallbackEntry : Type 0 where
  pub target_id : Option Uuid
  pub credential_id : Option Uuid
  pub reason : Reason

-- The strategy stands for StrategyVersion, which is its name after a constant.
pub record Decision : Type 0 where
  pub strategy_version : Strategy
  pub candidates : List CandidateDecision
  pub selected_target_id : Option Uuid
  pub selected_credential_id : Option Uuid
  pub selected_provider_id : Option Uuid
  pub fallback_chain : List FallbackEntry

pub record QuotaSnapshot : Type 0 where
  pub found : Bool
  pub remaining : Option ℤ
  pub reset_at : Option ℤ
  pub observed_at : Option ℤ

pub record PoolMember : Type 0 where
  pub credential_id : Uuid
  pub member_priority : ℤ
  pub member_weight : ℤ
  pub enabled : Bool
  pub provider_enabled : Bool
  pub status : CredentialStatus
  pub max_concurrency : ℤ
  pub region : Text
  pub proxy_ref : Text
  pub cooldown_until : Option ℤ
  pub quota : QuotaSnapshot

-- The field leaseKey is the text of the member's credential, and is left out.
pub record Candidate : Type 0 where
  pub target : Target
  pub member : PoolMember
  pub combined_weight : ℤ
  pub decision_index : ℕ

-- The fields of the leases of both coordinators that name what is held, and by whom.
pub record Lease : Type 0 where
  pub resource : Text
  pub owner : Text

-- To split on the outcome of a call.
pub Outcome-cases {ℓ} :
    {A : Type ℓ} (o : Outcome A) → ((e : Error) × (o ≡ failure e)) ⊎ ((a : A) × (o ≡ success a))
Outcome-cases (failure e) = inl (e, refl)
Outcome-cases (success a) = inr (a, refl)

-- What holds of the value if the call succeeds.
abbrev pub Yields {ℓ} : {A : Type ℓ} → (A → Type 0) → Outcome A → Type 0
Yields P (failure e) = Unit
Yields P (success a) = P a
