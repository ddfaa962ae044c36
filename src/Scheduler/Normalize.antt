-- ===== src/Scheduler/Normalize.antt =====
-- normalizeRequest of internal/scheduler/service.go: the checks and normal form of a request.
pub mod Idempotence
use bablo.Prelude.{
  ℕ, ltb, ◌==◌, ℤ, pos, Bool, true, false, not, ◌||◌, ◌&&◌, Option, none, some, List, [], ◌∷◌, ◌++◌,
  Text, codes, is_empty, text_eq, trim_space, byte_len, contains_any, ltb_ℤ, leb_ℤ, eqb_ℤ,
  if◌then◌else◌,
}
use bablo.Scheduler.Model.{
  Uuid, Error, invalid_input, conflict, no_eligible, lease_busy, lease_not_owner, state_unavailable,
  canceled, repository, Outcome, failure, success, Strategy, round_robin, weighted_round_robin,
  fill_first, quota_aware, unset, unknown, Reason, target_disabled, provider_model_disabled,
  provider_model_unapproved, pool_disabled, resource_policy_denied, protocol_mismatch,
  capability_mismatch, pool_empty, pool_member_disabled, provider_disabled, credential_inactive,
  credential_capacity_invalid, cooldown, region_mismatch, proxy_required, proxy_mismatch,
  quota_missing, quota_stale, quota_exhausted, concurrency_state_unavailable,
  concurrency_lease_busy, affinity_state_unavailable, cursor_state_unavailable,
  affinity_unavailable, ReviewStatus, pending, approved, rejected, ResourceType, official_api,
  enterprise_api, subscription, third_party, CredentialStatus, active, disabled, revoked, error,
  Capabilities, Target, Resolution, QuotaPolicy, Request, CandidateDecision, FallbackEntry,
  Decision, QuotaSnapshot, PoolMember, Candidate, Lease,
}

-- "\r\n\x00".
abbrev pub breaks : Text
breaks = 13 ∷ 10 ∷ 0 ∷ []

abbrev pub bad_id : Text → Bool
bad_id id = is_empty id || ltb 128 (byte_len id) || contains_any id breaks

abbrev pub no_candidates : List Target → Bool
no_candidates [] = true
no_candidates (t ∷ ts) = false

abbrev pub bad_resolution : Request → Bool
bad_resolution request =
    ltb_ℤ request.attempt_no (pos 0)
    || ltb_ℤ request.decision_no (pos 0)
    || request.resolution.version_id == 0
    || request.resolution.route_id == 0
    || no_candidates request.resolution.candidates

-- An empty strategy is round_robin; any other name is refused.
abbrev pub default_strategy : Strategy → Option Strategy
default_strategy unset = some round_robin
default_strategy round_robin = some round_robin
default_strategy weighted_round_robin = some weighted_round_robin
default_strategy fill_first = some fill_first
default_strategy quota_aware = some quota_aware
default_strategy (unknown name) = none

abbrev pub bad_texts : Text → Text → Text → Text → Bool
bad_texts protocol region proxy_ref affinity_key =
    ltb 64 (byte_len protocol)
    || ltb 64 (byte_len region)
    || ltb 128 (byte_len proxy_ref)
    || ltb 256 (byte_len affinity_key)
    || contains_any (((protocol ++ region) ++ proxy_ref) ++ affinity_key) breaks

unfoldable pub is_window : Text → Bool
is_window kind =
    text_eq kind (codes "minute")
    || text_eq kind (codes "hour")
    || text_eq kind (codes "day")
    || text_eq kind (codes "month")
    || text_eq kind (codes "provider_specific")

-- `Quota.MaxAge`, where 0 stands for the default.
abbrev pub max_age_or : ℤ → ℤ → ℤ
max_age_or default_max_age max_age = if eqb_ℤ max_age (pos 0) then default_max_age else max_age

unfoldable pub normalize_quota : ℤ → QuotaPolicy → Option QuotaPolicy
normalize_quota default_max_age policy =
    if policy.enabled
    then (if not (is_window policy.window_kind) || ltb_ℤ policy.required_tokens (pos 0)
        then none
        else (if leb_ℤ (max_age_or default_max_age policy.max_age) (pos 0)
            then none
            else some (record policy { max_age = max_age_or default_max_age policy.max_age })))
    else (if not (is_empty policy.window_kind)
          || not (eqb_ℤ policy.required_tokens (pos 0))
          || not (eqb_ℤ policy.max_age (pos 0))
          || policy.require_fresh
        then none
        else some policy)

-- The request with the fields that are trimmed or filled in.
abbrev pub normal_form : ℤ → Request → Strategy → QuotaPolicy → Request
normal_form clock request strategy quota = record request {
  request_id = trim_space request.request_id;
  strategy = strategy;
  protocol = trim_space request.protocol;
  region = trim_space request.region;
  proxy_ref = trim_space request.proxy_ref;
  affinity_key = trim_space request.affinity_key;
  require_proxy =
      if not (is_empty (trim_space request.proxy_ref)) then true else request.require_proxy;
  now = if eqb_ℤ request.now (pos 0) then clock else request.now;
  quota = quota;
}

unfoldable pub normalize_request : ℤ → ℤ → Request → Outcome Request
unfolding normalize_quota
normalize_request default_max_age clock request =
    if bad_id (trim_space request.request_id)
    then failure invalid_input
    else if bad_resolution request
    then failure invalid_input
    else elim (default_strategy request.strategy) [
      | none ↦ failure invalid_input
      | some strategy ↦
          if bad_texts (trim_space request.protocol) (trim_space request.region)
            (trim_space request.proxy_ref) (trim_space request.affinity_key)
          then failure invalid_input
          else elim (normalize_quota default_max_age request.quota) [
            | none ↦ failure invalid_input
            | some quota ↦ success (normal_form clock request strategy quota)
          ]
    ]
