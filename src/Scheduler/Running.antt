-- ===== src/Scheduler/Running.antt =====
-- To run the scheduler in a test, name `scheduler`.
use bablo.Scheduler.Normalize.{normalize_request, is_window, normalize_quota}
use bablo.Prelude.{
  trim_space, byte_len, contains_any, text_eq, ◌-ℤ◌, ◌*ℤ◌, mul64, itoa, add64, neg, sub64, wrap64,
  ◌+ℤ◌, is_space, trim_left,
}
use bablo.Scheduler.Gather.{
  gather, gather_member, gather_members, combine_weights, gather_target, refuse,
}
use bablo.Scheduler.Eligibility.{
  target_eligibility_reasons, member_eligibility_reasons, quota_eligibility_reasons, time_sub,
  quota_reasons_at, quota_usable_at, quota_usable, supports_required,
}
use bablo.Scheduler.Ordering.{
  order_candidates, cursor_key, int_text, order_by, order_all, order_first, order_group,
  order_groups,
}
use bablo.Scheduler.Order.{
  group_candidates, move_bound, add_to_groups, candidate_before, candidate_less, group_onto,
  insert_back, quota_candidate_less, rotate, rotate_by, slice_stable, sort_onto, swap_out,
  total_weight, sum_weights, weighted_start_from, weighted_start,
}
use bablo.Prelude.Maps.{lookup, delete, insert, retain}
use bablo.Scheduler.Coordinator.{
  cleanup, acquire, get_affinity, next, release, release_once, set_affinity,
}
use bablo.Prelude.Strings.{digits}
use bablo.Scheduler.Select.{
  acquire_any, acquire_item, acquire_slot, after_attempts, conclude, give_up, keep_affinity,
  mark_at, record_failure, select_among, select_eligible, select_gathered, select_normal,
  try_ordered, select,
}
use bablo.Scheduler.InMemory.{in_memory}

unfoldable pub scheduler : Unit {0}
unfolding normalize_request trim_space byte_len contains_any is_window text_eq gather
    target_eligibility_reasons gather_member gather_members member_eligibility_reasons ◌-ℤ◌ ◌*ℤ◌
    mul64 combine_weights order_candidates group_candidates move_bound itoa lookup cleanup add64 neg
    sub64 wrap64 ◌+ℤ◌ delete insert retain digits is_space trim_left acquire get_affinity next
    release release_once set_affinity quota_eligibility_reasons time_sub quota_reasons_at
    quota_usable_at quota_usable supports_required gather_target refuse normalize_quota
    add_to_groups candidate_before candidate_less group_onto insert_back quota_candidate_less rotate
    rotate_by slice_stable sort_onto swap_out total_weight sum_weights weighted_start_from
    weighted_start cursor_key int_text order_by order_all order_first order_group order_groups
    acquire_any acquire_item acquire_slot after_attempts conclude give_up keep_affinity mark_at
    record_failure select_among select_eligible select_gathered select_normal try_ordered select
    in_memory
scheduler = tt
