-- ===== src/Scheduler/Tests/Orders.antt =====
-- Eligibility and the order of candidates, at concrete targets and members.
use mathlib.Core.List.{Perm}
use bablo.Prelude.{
  ℕ, ℤ, pos, ◌≤◌, ◌<◌, true, false, Option, none, some, List, [], ◌∷◌, ◌≡◌, ◌↔◌, refl, codes, arith,
}
use bablo.Scheduler.Model.{weighted_round_robin, fill_first, quota_aware, Request, Candidate}
use bablo.Scheduler.Sample.{
  target_of, member_of, candidate_with, snapshot_of, fresh_quota, request_with, chat_only, options,
  outside, start,
}
use bablo.Scheduler.Running.{scheduler}
use bablo.Scheduler.InMemory.{in_memory}
use bablo.Scheduler.Eligibility.{
  target_eligibility_reasons, member_eligibility_reasons, quota_eligibility_reasons, quota_usable,
  is_below,
}
use bablo.Scheduler.Eligibility.Meaning.{
  IsServable, IsUsable, target_reasons_iff, member_reasons_iff, quota_reasons_iff,
}
use bablo.Scheduler.Order.{weighted_start, total_weight, quota_candidate_less}
use bablo.Scheduler.Order.Weights.{weights, sum, weighted_start_iff, total_weight-sum}
use bablo.Scheduler.Order.Quota.{quota_candidate_less-cyclic}
use bablo.Scheduler.Order.Priority.{IsByPriority}
use bablo.Scheduler.Ordering.{Ordered}
use bablo.Scheduler.Ordering.Soundness.{order_candidates-IsByPriority}

target_reasons_iff_example :
    (target_eligibility_reasons (target_of 1 (pos 2)) (codes "openai") chat_only ≡ [])
    ↔ IsServable (target_of 1 (pos 2)) (codes "openai") chat_only
target_reasons_iff_example = target_reasons_iff (target_of 1 (pos 2)) (codes "openai") chat_only

member_reasons_iff_example :
    (member_eligibility_reasons (member_of 11 (pos 3)) (request_with fill_first) ≡ [])
    ↔ IsUsable (member_of 11 (pos 3)) (request_with fill_first)
member_reasons_iff_example = member_reasons_iff (member_of 11 (pos 3)) (request_with fill_first)

quota_reasons_iff_example :
    (quota_eligibility_reasons (snapshot_of (some (pos 9)) none) fresh_quota (pos 1000) ≡ []) ↔ (
      (quota_usable (snapshot_of (some (pos 9)) none) fresh_quota (pos 1000) ≡ true)
      × (is_below (some (pos 9)) (pos 10) ≡ false))
quota_reasons_iff_example =
    quota_reasons_iff (snapshot_of (some (pos 9)) none) fresh_quota (pos 1000) refl

abbrev group : List Candidate
group = candidate_with 1 (pos 2) 11 (pos 3) ∷ candidate_with 1 (pos 2) 12 (pos 2) ∷ []

weighted_start_iff_example : (weighted_start group (pos 3) ≡ 1) ↔ ((3 ≤ 3) × (3 < 5))
unfolding scheduler weights sum
weighted_start_iff_example =
    weighted_start_iff group 3 1 (omega arith, (omega arith, tt)) (omega arith) (omega arith)

total_weight-sum_example : total_weight group ≡ pos 5
unfolding scheduler weights sum
total_weight-sum_example =
    total_weight-sum (candidate_with 1 (pos 2) 11 (pos 3))
      (candidate_with 1 (pos 2) 12 (pos 2) ∷ []) (omega arith, (omega arith, tt)) (omega arith)

-- Three targets of two priorities, weighted.
abbrev mixed : List Candidate
mixed =
    candidate_with 1 (pos 2) 11 (pos 3)
    ∷ candidate_with 2 (pos 1) 12 (pos 2)
    ∷ candidate_with 3 (pos 2) 11 (pos 2)
    ∷ []

abbrev mixed_order : Ordered
mixed_order = record {
  candidates =
      candidate_with 2 (pos 1) 12 (pos 2)
      ∷ candidate_with 1 (pos 2) 11 (pos 3)
      ∷ candidate_with 3 (pos 2) 11 (pos 2)
      ∷ [];
  affinity_used = false;
}

order_candidates-IsByPriority_example :
    Perm mixed_order.candidates mixed × IsByPriority mixed_order.candidates
unfolding scheduler
order_candidates-IsByPriority_example =
    order_candidates-IsByPriority (in_memory outside) options (request_with weighted_round_robin)
      mixed none start mixed_order refl

abbrev limited : ℕ → Option ℤ → ℤ → Candidate
limited credential remaining reset_at = record (candidate_with 1 (pos 2) credential (pos 1)) {
  member = record (member_of credential (pos 1)) { quota = snapshot_of remaining (some reset_at) };
}

abbrev at_1000 : Request
at_1000 = record (request_with quota_aware) {
  now = pos 1000;
  quota = record fresh_quota { max_age = pos 120 };
}

quota_candidate_less-cyclic_example :
    (quota_candidate_less at_1000
        (limited 11 (some (pos 40)) (pos 2000))
        (limited 12 none (pos 3000))
      ≡ true)
    × (quota_candidate_less at_1000
          (limited 12 none (pos 3000))
          (limited 13 (some (pos 90)) (pos 4000))
        ≡ true)
    × (quota_candidate_less at_1000
          (limited 13 (some (pos 90)) (pos 4000))
          (limited 11 (some (pos 40)) (pos 2000))
        ≡ true)
unfolding scheduler
quota_candidate_less-cyclic_example =
    quota_candidate_less-cyclic at_1000 (limited 11 (some (pos 40)) (pos 2000))
      (limited 12 none (pos 3000)) (limited 13 (some (pos 90)) (pos 4000)) (pos 40) (pos 90)
      (pos 2000) (pos 3000) (pos 4000) refl refl refl refl refl refl refl refl refl refl refl refl
