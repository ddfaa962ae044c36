-- ===== src/Scheduler/Ordering.antt =====
-- orderCandidates of internal/scheduler/service.go, with the cursors of the coordinator.
pub mod Soundness
use bablo.Prelude.{
  ℤ, pos, Bool, true, false, Option, none, some, List, [], ◌∷◌, ◌++◌, Text, codes, itoa, length,
  negsuc, suc,
}
use bablo.Scheduler.Model.{
  Uuid, Error, invalid_input, conflict, no_eligible, lease_busy, lease_not_owner, state_unavailable,
  canceled, repository, Outcome, failure, success, Strategy, round_robin, weighted_round_robin,
  fill_first, quota_aware, unset, unknown, Reason, target_disabled, provider_model_disabled,
  provider_model_unapproved, pool_disabled, resource_policy_denied, protocol_mismatch,
  capability_mismatch, pool_empty, pool_member_disabled, provider_disabled, credential_inactive,
  credential_capacity_invalid, cooldown, region_mismatch, proxy_required, proxy_mismatch,
  quota_missing, quota_stale, quota_exhausted, concurrency_state_unavailable,
  concurrency_lease_busy, affinity_state_unavailable, cursor_state_unavailable,
  affinity_unavailable, ReviewStatus, pending, approved, rejected, ResourceType, official_api,
  enterprise_api, subscription, third_party, CredentialStatus, active, disabled, revoked, error,
  Capabilities, Target, Resolution, QuotaPolicy, Request, CandidateDecision, FallbackEntry,
  Decision, QuotaSnapshot, PoolMember, Candidate, Lease,
}
use bablo.Scheduler.Ports.{Ports, Options}
use bablo.Scheduler.Order.{
  group_candidates, slice_stable, quota_candidate_less, rotate, weighted_start, total_weight,
  move_bound,
}

-- strconv.Itoa of an int.
unfoldable pub int_text : ℤ → Text
int_text (pos n) = itoa n
int_text (negsuc n) = b'-' ∷ itoa (suc n)

abbrev pub strategy_name : Strategy → Text
strategy_name round_robin = codes "round_robin"
strategy_name weighted_round_robin = codes "weighted_round_robin"
strategy_name fill_first = codes "fill_first"
strategy_name quota_aware = codes "quota_aware"
strategy_name unset = []
strategy_name (unknown name) = name

abbrev pub colon : Text
colon = b':' ∷ []

-- What Go returns: the candidates in order and whether the affinity was used, or an error.
pub record Ordered : Type 0 where
  pub candidates : List Candidate
  pub affinity_used : Bool

abbrev pub rotated : List Candidate → Outcome ℤ → Outcome (List Candidate)
rotated group (failure e) = failure e
rotated group (success start) = success (rotate group start)

abbrev pub rotated_by_weight : List Candidate → Outcome ℤ → Outcome (List Candidate)
rotated_by_weight group (failure e) = failure e
rotated_by_weight group (success slot) = success (rotate group (pos (weighted_start group slot)))

abbrev pub on_outcome : {S A B : Type 0} → (Outcome A → Outcome B) → Outcome A × S → Outcome B × S
on_outcome f (r, s) = (f r, s)

abbrev pub append_rest :
    {S : Type 0} → List Candidate → Outcome (List Candidate) × S → Outcome (List Candidate) × S
append_rest group (failure e, s) = (failure e, s)
append_rest group (success rest, s) = (success (group ++ rest), s)

abbrev pub is_some : Option (List Candidate) → Bool
is_some none = false
is_some (some moved) = true

abbrev pub with_use : Bool → Outcome (List Candidate) → Outcome Ordered
with_use used (failure e) = failure e
with_use used (success cs) = success (record { candidates = cs; affinity_used = used })

module _ {S : Type 0} (ports : Ports S) (options : Options) where
  -- cursorKey of the first candidate of a group; a group is never empty.
  unfoldable pub cursor_key : Request → List Candidate → Text
  cursor_key request [] = []
  cursor_key request (c ∷ cs) =
      ports.uuid_text request.resolution.version_id
      ++ (colon
          ++ (strategy_name request.strategy
              ++ (colon
                  ++ (int_text c.target.priority ++ (colon ++ int_text c.member.member_priority)))))

  -- The switch over the strategy.
  unfoldable pub order_by : Strategy → Request → List Candidate → S → Outcome (List Candidate) × S
  unfolding cursor_key
  order_by fill_first request group s = (success group, s)
  order_by quota_aware request group s =
      (success (slice_stable (quota_candidate_less request) group), s)
  order_by round_robin request group s =
      on_outcome (rotated group)
        (ports.next (cursor_key request group) (pos (length group)) options.cursor_ttl s)
  order_by weighted_round_robin request group s =
      on_outcome (rotated_by_weight group)
        (ports.next (cursor_key request group) (total_weight group) options.cursor_ttl s)
  order_by unset request group s = (failure invalid_input, s)
  order_by (unknown name) request group s = (failure invalid_input, s)

  unfoldable pub order_group : Request → List Candidate → S → Outcome (List Candidate) × S
  unfolding order_by
  order_group request group s = order_by request.strategy request group s

  -- The groups after the first.
  unfoldable pub order_groups : Request → List (List Candidate) → S → Outcome (List Candidate) × S
  order_groups request [] s = (success [], s)
  order_groups request (g ∷ gs) s =
      let (r, s') = order_group request g s in
      elim r [
        | failure e ↦ (failure e, s')
        | success g' ↦ append_rest g' (order_groups request gs s')
      ]

  -- The first group, in which a bound credential goes to the front instead.
  unfoldable pub order_first :
      Request → List Candidate → Option (List Candidate) → S → Outcome (List Candidate) × S
  order_first request group (some moved) s = (success moved, s)
  order_first request group none s = order_group request group s

  unfoldable pub order_all : Request → List (List Candidate) → Option Uuid → S → Outcome Ordered × S
  unfolding order_groups order_first
  order_all request [] bound s = (with_use false (success []), s)
  order_all request (g ∷ gs) bound s =
      let moved = move_bound bound g in
      let (r, s') = order_first request g moved s in
      elim r [
        | failure e ↦ (failure e, s')
        | success g' ↦
            on_outcome (with_use (is_some moved)) (append_rest g' (order_groups request gs s'))
      ]

  unfoldable pub order_candidates : Request → List Candidate → Option Uuid → S → Outcome Ordered × S
  unfolding order_all
  order_candidates request values bound s = order_all request (group_candidates values) bound s
