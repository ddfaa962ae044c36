-- ===== src/Scheduler/Order.antt =====
-- internal/scheduler/service.go: the order in which eligible candidates are tried.
pub mod Sorting
pub mod Weights
pub mod Priority
pub mod Quota
use mathlib.Core.Option
use bablo.Prelude.{
  ℕ, ◌-◌, ◌%◌, ◌==◌, suc, ltb, ℤ, pos, negsuc, Bool, true, false, not, Option, none, some, List, [],
  ◌∷◌, ◌++◌, ltb_ℤ, eqb_ℤ, add64, sub64, reverse, length, take, drop, if◌then◌else◌, ◌&&◌,
}
use bablo.Scheduler.Model.{
  Uuid, Error, invalid_input, conflict, no_eligible, lease_busy, lease_not_owner, state_unavailable,
  repository, Outcome, failure, success, Strategy, round_robin, weighted_round_robin, fill_first,
  quota_aware, unset, unknown, Reason, target_disabled, provider_model_disabled,
  provider_model_unapproved, pool_disabled, resource_policy_denied, protocol_mismatch,
  capability_mismatch, pool_empty, pool_member_disabled, provider_disabled, credential_inactive,
  credential_capacity_invalid, cooldown, region_mismatch, proxy_required, proxy_mismatch,
  quota_missing, quota_stale, quota_exhausted, concurrency_state_unavailable,
  concurrency_lease_busy, affinity_state_unavailable, cursor_state_unavailable,
  affinity_unavailable, ReviewStatus, pending, approved, rejected, ResourceType, official_api,
  enterprise_api, subscription, third_party, CredentialStatus, active, disabled, revoked, error,
  Capabilities, Target, Resolution, QuotaPolicy, Request, CandidateDecision, FallbackEntry,
  Decision, QuotaSnapshot, PoolMember, Candidate, Lease,
}
use bablo.Scheduler.Eligibility.{quota_usable}

-- The comparison in groupCandidates.
unfoldable pub candidate_before : Candidate → Candidate → Bool
candidate_before left right =
    if not (eqb_ℤ left.target.priority right.target.priority)
    then ltb_ℤ left.target.priority right.target.priority
    else if not (eqb_ℤ left.member.member_priority right.member.member_priority)
    then ltb_ℤ left.member.member_priority right.member.member_priority
    else if not (eqb_ℤ left.target.target_no right.target.target_no)
    then ltb_ℤ left.target.target_no right.target.target_no
    else if not (left.target.id == right.target.id)
    then ltb left.target.id right.target.id
    else ltb left.member.credential_id right.member.credential_id

-- sort.SliceStable, which moves each item back past those it must come before. What stands before
-- it is held last item first. Go does so in blocks of 20 items and then merges these, which gives
-- the same result if the comparison is an order.
module _ (less : Candidate → Candidate → Bool) where
  unfoldable pub insert_back : Candidate → List Candidate → List Candidate
  insert_back x [] = x ∷ []
  insert_back x (y ∷ ys) =
      let moved = y ∷ insert_back x ys in if less x y then moved else x ∷ y ∷ ys

  unfoldable pub sort_onto : List Candidate → List Candidate → List Candidate
  unfolding insert_back
  sort_onto done [] = done
  sort_onto done (x ∷ xs) = sort_onto (insert_back x done) xs

  unfoldable pub slice_stable : List Candidate → List Candidate
  unfolding sort_onto
  slice_stable xs = reverse (sort_onto [] xs)

-- The first item of a group has the priorities of the value.
abbrev pub joins : List Candidate → Candidate → Bool
joins [] value = false
joins (first ∷ group) value =
    eqb_ℤ first.target.priority value.target.priority
    && eqb_ℤ first.member.member_priority value.member.member_priority

-- One round of the loop of groupCandidates: the value joins the last group or opens the next.
unfoldable pub add_to_groups : List (List Candidate) → Candidate → List (List Candidate)
add_to_groups [] value = (value ∷ []) ∷ []
add_to_groups (group ∷ []) value =
    if joins group value then (group ++ value ∷ []) ∷ [] else group ∷ (value ∷ []) ∷ []
add_to_groups (group ∷ next ∷ groups) value = group ∷ add_to_groups (next ∷ groups) value

unfoldable pub group_onto : List (List Candidate) → List Candidate → List (List Candidate)
unfolding add_to_groups
group_onto groups [] = groups
group_onto groups (value ∷ values) = group_onto (add_to_groups groups value) values

unfoldable pub group_candidates : List Candidate → List (List Candidate)
unfolding group_onto slice_stable candidate_before
group_candidates values = group_onto [] (slice_stable candidate_before values)

unfoldable pub candidate_less : Candidate → Candidate → Bool
candidate_less left right =
    if not (eqb_ℤ left.member.member_weight right.member.member_weight)
    then ltb_ℤ right.member.member_weight left.member.member_weight
    else ltb left.member.credential_id right.member.credential_id

-- The comparison of the reset times in quotaCandidateLess, of usable snapshots.
abbrev pub less_by_reset : Option ℤ → Option ℤ → Bool → Bool
less_by_reset none none otherwise = otherwise
less_by_reset none (some r) otherwise = false
less_by_reset (some l) none otherwise = true
less_by_reset (some l) (some r) otherwise = if not (eqb_ℤ l r) then ltb_ℤ l r else otherwise

abbrev pub less_by_remaining : Option ℤ → Option ℤ → Bool → Bool
less_by_remaining none r otherwise = otherwise
less_by_remaining (some l) none otherwise = otherwise
less_by_remaining (some l) (some r) otherwise = if not (eqb_ℤ l r) then ltb_ℤ r l else otherwise

abbrev pub same_bool : Bool → Bool → Bool
same_bool true b = b
same_bool false b = not b

unfoldable pub quota_candidate_less : Request → Candidate → Candidate → Bool
unfolding quota_usable candidate_less
quota_candidate_less request left right =
    let left_usable = quota_usable left.member.quota request.quota request.now in
    let right_usable = quota_usable right.member.quota request.quota request.now in
    if not (same_bool left_usable right_usable)
    then left_usable
    else if left_usable
    then less_by_remaining left.member.quota.remaining right.member.quota.remaining (
        less_by_reset left.member.quota.reset_at right.member.quota.reset_at
          (candidate_less left right))
    else candidate_less left right

unfoldable pub sum_weights : ℤ → List Candidate → ℤ
sum_weights total [] = total
sum_weights total (value ∷ values) = sum_weights (add64 total value.combined_weight) values

unfoldable pub total_weight : List Candidate → ℤ
unfolding sum_weights add64
total_weight values =
    let total = sum_weights (pos 0) values in if ltb_ℤ total (pos 1) then pos 1 else total

unfoldable pub weighted_start_from : ℕ → List Candidate → ℤ → ℕ
weighted_start_from index [] slot = 0
weighted_start_from index (value ∷ values) slot =
    let rest = weighted_start_from (suc index) values (sub64 slot value.combined_weight) in
    if ltb_ℤ slot value.combined_weight then index else rest

unfoldable pub weighted_start : List Candidate → ℤ → ℕ
unfolding weighted_start_from sub64
weighted_start values slot = weighted_start_from 0 values slot

unfoldable pub rotate_by : List Candidate → ℕ → List Candidate
rotate_by values start = drop start values ++ take start values

-- A negative start leaves a remainder that is not positive.
unfoldable pub rotate : List Candidate → ℤ → List Candidate
unfolding rotate_by
rotate [] start = []
rotate (v ∷ vs) (negsuc n) = v ∷ vs
rotate (v ∷ vs) (pos n) = rotate_by (v ∷ vs) (n % length (v ∷ vs))

-- The search for the bound credential in the first group: what comes to the front, and what
-- stands behind it with the old first item in its place.
unfoldable pub swap_out : Uuid → Candidate → List Candidate → Option (Candidate × List Candidate)
swap_out bound front [] = none
swap_out bound front (c ∷ cs) =
    let rest = Option.map (λ found. (found.0, c ∷ found.1)) (swap_out bound front cs) in
    if c.member.credential_id == bound then some (c, front ∷ cs) else rest

abbrev pub moved_to_front : Option (Candidate × List Candidate) → Option (List Candidate)
moved_to_front none = none
moved_to_front (some (front, behind)) = some (front ∷ behind)

unfoldable pub move_bound : Option Uuid → List Candidate → Option (List Candidate)
unfolding swap_out
move_bound none group = none
move_bound (some bound) [] = none
move_bound (some bound) (c ∷ cs) =
    if c.member.credential_id == bound then some (c ∷ cs) else moved_to_front (swap_out bound c cs)
