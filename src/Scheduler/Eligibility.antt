-- ===== src/Scheduler/Eligibility.antt =====
-- internal/scheduler/service.go: which targets and pool members may serve a request.
pub mod Meaning
use bablo.Prelude.{
  ℤ, pos, negsuc, Bool, true, false, not, ◌&&◌, ◌||◌, Option, none, some, List, [], ◌∷◌, ◌++◌, Text,
  is_empty, text_eq, ltb_ℤ, leb_ℤ, ◌-ℤ◌, if◌then◌else◌, max_int64, min_int64,
}
use bablo.Scheduler.Model.{
  Uuid, Error, invalid_input, conflict, no_eligible, lease_busy, lease_not_owner, state_unavailable,
  repository, Outcome, failure, success, Strategy, round_robin, weighted_round_robin, fill_first,
  quota_aware, unset, unknown, Reason, target_disabled, provider_model_disabled,
  provider_model_unapproved, pool_disabled, resource_policy_denied, protocol_mismatch,
  capability_mismatch, pool_empty, pool_member_disabled, provider_disabled, credential_inactive,
  credential_capacity_invalid, cooldown, region_mismatch, proxy_required, proxy_mismatch,
  quota_missing, quota_stale, quota_exhausted, concurrency_state_unavailable,
  concurrency_lease_busy, affinity_state_unavailable, cursor_state_unavailable,
  affinity_unavailable, ReviewStatus, pending, approved, rejected, ResourceType, official_api,
  enterprise_api, subscription, third_party, CredentialStatus, active, disabled, revoked, error,
  Capabilities, Target, Resolution, QuotaPolicy, Request, CandidateDecision, FallbackEntry,
  Decision, QuotaSnapshot, PoolMember, Candidate, Lease,
}

-- A run of `if test { reasons = append(reasons, reason) }`.
abbrev pub reasons_if : List (Bool × Reason) → List Reason
reasons_if [] = []
reasons_if ((test, reason) ∷ rest) =
    let found = reasons_if rest in if test then reason ∷ found else found

abbrev pub is_approved : ReviewStatus → Bool
is_approved approved = true
is_approved pending = false
is_approved rejected = false

abbrev pub is_subscription : ResourceType → Bool
is_subscription subscription = true
is_subscription official_api = false
is_subscription enterprise_api = false
is_subscription third_party = false

abbrev pub is_active : CredentialStatus → Bool
is_active active = true
is_active disabled = false
is_active revoked = false
is_active error = false

unfoldable pub supports_required : Capabilities → Capabilities → Bool
supports_required available required =
    (not required.chat || available.chat)
    && (not required.responses || available.responses)
    && (not required.messages || available.messages)
    && (not required.stream || available.stream)
    && (not required.tools || available.tools)
    && (not required.vision || available.vision)
    && (not required.reasoning || available.reasoning)

abbrev pub target_tests : Target → Text → Capabilities → List (Bool × Reason)
target_tests target protocol required =
    ((not target.enabled, target_disabled)
      ∷ (not target.provider_model_enabled, provider_model_disabled)
      ∷ (not (is_approved target.review_status), provider_model_unapproved)
      ∷ (not target.pool_enabled, pool_disabled)
      ∷ (
        is_subscription target.provider_resource_type
            || not target.provider_commercial_allowed
            || not target.effective_commercial_allowed,
        resource_policy_denied,
      )
      ∷ (not (is_empty protocol) && not (text_eq target.protocol protocol), protocol_mismatch)
      ∷ (not (supports_required target.capabilities required), capability_mismatch)
      ∷ [])

unfoldable pub target_eligibility_reasons : Target → Text → Capabilities → List Reason
unfolding supports_required
target_eligibility_reasons target protocol required =
    reasons_if (target_tests target protocol required)

-- `t != nil && t.After(now)`.
abbrev pub is_after : Option ℤ → ℤ → Bool
is_after none now = false
is_after (some t) now = ltb_ℤ now t

-- time.Time.Sub: the difference, cut to the range of a Duration.
unfoldable pub time_sub : ℤ → ℤ → ℤ
time_sub a b =
    let d = a -ℤ b in
    if ltb_ℤ max_int64 d then max_int64 else if ltb_ℤ d min_int64 then min_int64 else d

-- `now.Before(observed) || now.Sub(observed) > policy.MaxAge`.
abbrev pub is_old : ℤ → ℤ → ℤ → Bool
unfolding time_sub
is_old observed max_age now = ltb_ℤ now observed || ltb_ℤ max_age (time_sub now observed)

-- `snapshot.ResetAt != nil && !snapshot.ResetAt.After(now)`.
abbrev pub is_reset : Option ℤ → ℤ → Bool
is_reset none now = false
is_reset (some t) now = leb_ℤ t now

abbrev pub is_below : Option ℤ → ℤ → Bool
is_below none required = false
is_below (some remaining) required = ltb_ℤ remaining required

unfoldable pub quota_reasons_at : QuotaSnapshot → QuotaPolicy → ℤ → Bool → Option ℤ → List Reason
unfolding time_sub
quota_reasons_at snapshot policy now found none =
    if policy.require_fresh then quota_missing ∷ [] else []
quota_reasons_at snapshot policy now false (some observed) =
    if policy.require_fresh then quota_missing ∷ [] else []
quota_reasons_at snapshot policy now true (some observed) =
    let stale = is_old observed policy.max_age now || is_reset snapshot.reset_at now in
    if stale && policy.require_fresh
    then quota_stale ∷ []
    else if not stale && is_below snapshot.remaining policy.required_tokens
    then quota_exhausted ∷ []
    else []

unfoldable pub quota_eligibility_reasons : QuotaSnapshot → QuotaPolicy → ℤ → List Reason
unfolding quota_reasons_at
quota_eligibility_reasons snapshot policy now =
    quota_reasons_at snapshot policy now snapshot.found snapshot.observed_at

abbrev pub member_tests : PoolMember → Request → List (Bool × Reason)
member_tests member request =
    ((not member.enabled, pool_member_disabled)
      ∷ (not member.provider_enabled, provider_disabled)
      ∷ (not (is_active member.status), credential_inactive)
      ∷ (ltb_ℤ member.max_concurrency (pos 1), credential_capacity_invalid)
      ∷ (is_after member.cooldown_until request.now, cooldown)
      ∷ (
        not (is_empty request.region) && not (text_eq member.region request.region),
        region_mismatch,
      )
      ∷ (request.require_proxy && is_empty member.proxy_ref, proxy_required)
      ∷ (
        not (is_empty request.proxy_ref) && not (text_eq member.proxy_ref request.proxy_ref),
        proxy_mismatch,
      )
      ∷ [])

unfoldable pub member_eligibility_reasons : PoolMember → Request → List Reason
unfolding quota_eligibility_reasons
member_eligibility_reasons member request =
    reasons_if (member_tests member request)
    ++ (if request.quota.enabled
        then quota_eligibility_reasons member.quota request.quota request.now
        else [])

unfoldable pub quota_usable_at : QuotaSnapshot → QuotaPolicy → ℤ → Bool → Option ℤ → Bool
unfolding time_sub
quota_usable_at snapshot policy now found none = false
quota_usable_at snapshot policy now false (some observed) = false
quota_usable_at snapshot policy now true (some observed) =
    if is_old observed policy.max_age now then false else not (is_reset snapshot.reset_at now)

unfoldable pub quota_usable : QuotaSnapshot → QuotaPolicy → ℤ → Bool
unfolding quota_usable_at
quota_usable snapshot policy now =
    quota_usable_at snapshot policy now snapshot.found snapshot.observed_at
