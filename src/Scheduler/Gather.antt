-- ===== src/Scheduler/Gather.antt =====
-- The first loop of Select: the candidates of a request, and what is decided of each.
pub mod Facts
use bablo.Prelude.{
  ℤ, pos, Bool, true, false, not, Option, none, some, List, [], ◌∷◌, ◌++◌, ltb_ℤ, sub64, mul64,
  length, if◌then◌else◌,
}
use bablo.Scheduler.Model.{
  Uuid, Error, invalid_input, conflict, no_eligible, lease_busy, lease_not_owner, state_unavailable,
  canceled, repository, Outcome, failure, success, Strategy, round_robin, weighted_round_robin,
  fill_first, quota_aware, unset, unknown, Reason, target_disabled, provider_model_disabled,
  provider_model_unapproved, pool_disabled, resource_policy_denied, protocol_mismatch,
  capability_mismatch, pool_empty, pool_member_disabled, provider_disabled, credential_inactive,
  credential_capacity_invalid, cooldown, region_mismatch, proxy_required, proxy_mismatch,
  quota_missing, quota_stale, quota_exhausted, concurrency_state_unavailable,
  concurrency_lease_busy, affinity_state_unavailable, cursor_state_unavailable,
  affinity_unavailable, ReviewStatus, pending, approved, rejected, ResourceType, official_api,
  enterprise_api, subscription, third_party, CredentialStatus, active, disabled, revoked, error,
  Capabilities, Target, Resolution, QuotaPolicy, Request, CandidateDecision, FallbackEntry,
  Decision, QuotaSnapshot, PoolMember, Candidate, Lease,
}
use bablo.Scheduler.Ports.{Ports}
use bablo.Scheduler.Eligibility.{target_eligibility_reasons, member_eligibility_reasons}

-- decision.Candidates and eligible.
pub record Gathered : Type 0 where
  pub decisions : List CandidateDecision
  pub eligible : List Candidate

abbrev pub nothing_gathered : Gathered
nothing_gathered = record { decisions = []; eligible = [] }

-- The decision on a target that no member is asked for.
abbrev pub refusal : Target → List Reason → CandidateDecision
refusal target reasons = record {
  target_id = target.id;
  credential_id = none;
  target_priority = target.priority;
  member_priority = pos 0;
  weight = target.weight;
  score = pos 0;
  eligible = false;
  reasons = reasons;
  quota_remaining = none;
  quota_reset_at = none;
  quota_observed_at = none;
}

unfoldable pub refuse : Gathered → Target → List Reason → Gathered
refuse g target reasons = record g { decisions = g.decisions ++ refusal target reasons ∷ [] }

unfoldable pub combine_weights : Target → PoolMember → ℤ
combine_weights target member =
    let weight = mul64 target.weight member.member_weight in
    if ltb_ℤ weight (pos 1) then pos 1 else weight

abbrev pub is_nil : List Reason → Bool
is_nil [] = true
is_nil (r ∷ rs) = false

abbrev pub member_decision : Target → PoolMember → List Reason → CandidateDecision
unfolding combine_weights
member_decision target member reasons = record {
  target_id = target.id;
  credential_id = some member.credential_id;
  target_priority = target.priority;
  member_priority = member.member_priority;
  weight = combine_weights target member;
  score = sub64 (pos 1000000) target.priority;
  eligible = is_nil reasons;
  reasons = reasons;
  quota_remaining = member.quota.remaining;
  quota_reset_at = member.quota.reset_at;
  quota_observed_at = member.quota.observed_at;
}

abbrev pub candidate_of : Gathered → Target → PoolMember → Candidate
unfolding combine_weights
candidate_of g target member = record {
  target = target;
  member = member;
  combined_weight = combine_weights target member;
  decision_index = length g.decisions;
}

-- One round of the loop over the members of a pool.
unfoldable pub gather_member : Request → Target → Gathered → PoolMember → Gathered
unfolding combine_weights
gather_member request target g member =
    let reasons = member_eligibility_reasons member request in
    record {
      decisions = g.decisions ++ member_decision target member reasons ∷ [];
      eligible =
          if is_nil reasons then g.eligible ++ candidate_of g target member ∷ [] else g.eligible;
    }

unfoldable pub gather_members : Request → Target → Gathered → List PoolMember → Gathered
gather_members request target g [] = g
gather_members request target g (m ∷ ms) =
    gather_members request target (gather_member request target g m) ms

unfoldable pub gather_pool :
    Request → Target → Gathered → Outcome (List PoolMember) → Outcome Gathered
unfolding gather_members refuse
gather_pool request target g (failure e) = failure e
gather_pool request target g (success []) = success (refuse g target (pool_empty ∷ []))
gather_pool request target g (success (m ∷ ms)) = success (gather_members request target g (m ∷ ms))

module _ {S : Type 0} (ports : Ports S) where
  abbrev pub pool_of : Request → Target → S → Outcome (List PoolMember)
  pool_of request target s =
      ports.load_pool_members target.credential_pool_id request.quota target.upstream_model_id s

  -- One round of the loop over the candidates of the resolution.
  unfoldable pub gather_target : Request → Target → Gathered → S → Outcome Gathered
  unfolding gather_pool refuse
  gather_target request target g s =
      let reasons =
        target_eligibility_reasons target request.protocol request.required_capabilities in
      if is_nil reasons
      then gather_pool request target g (pool_of request target s)
      else success (refuse g target reasons)

  -- What has been gathered, and the error that ended the loop.
  unfoldable pub gather : Request → List Target → Gathered → S → Gathered × Option Error
  unfolding gather_target
  gather request [] g s = (g, none)
  gather request (t ∷ ts) g s = elim (gather_target request t g s) [
    | failure e ↦ (g, some e)
    | success g' ↦ gather request ts g' s
  ]
