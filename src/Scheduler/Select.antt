-- ===== src/Scheduler/Select.antt =====
-- Service.Select of internal/scheduler/service.go.
pub mod Attempts
pub mod Safety
pub mod Answers
pub mod Turns
pub mod Success
use bablo.Prelude.{
  ℕ, zero, suc, ◌==◌, ℤ, pos, pos_part, Bool, true, false, not, ◌&&◌, Option, none, some, List, [],
  ◌∷◌, ◌++◌, Text, is_empty, itoa, if◌then◌else◌,
}
use bablo.Scheduler.Model.{
  Uuid, Error, invalid_input, conflict, no_eligible, lease_busy, lease_not_owner, state_unavailable,
  canceled, repository, Outcome, failure, success, Strategy, round_robin, weighted_round_robin,
  fill_first, quota_aware, unset, unknown, Reason, target_disabled, provider_model_disabled,
  provider_model_unapproved, pool_disabled, resource_policy_denied, protocol_mismatch,
  capability_mismatch, pool_empty, pool_member_disabled, provider_disabled, credential_inactive,
  credential_capacity_invalid, cooldown, region_mismatch, proxy_required, proxy_mismatch,
  quota_missing, quota_stale, quota_exhausted, concurrency_state_unavailable,
  concurrency_lease_busy, affinity_state_unavailable, cursor_state_unavailable,
  affinity_unavailable, ReviewStatus, pending, approved, rejected, ResourceType, official_api,
  enterprise_api, subscription, third_party, CredentialStatus, active, disabled, revoked, error,
  Capabilities, Target, Resolution, QuotaPolicy, Request, CandidateDecision, FallbackEntry,
  Decision, QuotaSnapshot, PoolMember, Candidate, Lease, Outcome-cases, Yields,
}
use bablo.Scheduler.Ports.{Ports, Options}
use bablo.Scheduler.Normalize.{normalize_request}
use bablo.Scheduler.Gather.{Gathered, nothing_gathered, gather}
use bablo.Scheduler.Ordering.{Ordered, order_candidates, colon}

-- Selection: the decision that it always carries, and the rest unless an error is returned.
pub record Chosen : Type 0 where
  pub target : Target
  pub credential_id : Uuid
  pub lease : Lease

pub record Reply : Type 0 where
  pub decision : Decision
  pub outcome : Outcome Chosen

abbrev pub no_decision : Decision
no_decision = record {
  strategy_version = unset;
  candidates = [];
  selected_target_id = none;
  selected_credential_id = none;
  selected_provider_id = none;
  fallback_chain = [];
}

-- The decision after the first loop, with the fallback chain so far.
abbrev pub decision_of : Request → List CandidateDecision → List FallbackEntry → Decision
decision_of request candidates chain = record no_decision {
  strategy_version = request.strategy;
  candidates = candidates;
  fallback_chain = chain;
}

abbrev pub bare_entry : Reason → FallbackEntry
bare_entry reason = record { target_id = none; credential_id = none; reason = reason }

abbrev pub add_fallback : Decision → FallbackEntry → Decision
add_fallback decision entry = record decision {
  fallback_chain = decision.fallback_chain ++ entry ∷ [];
}

-- decision.Candidates[index] is not eligible, for one reason more.
unfoldable pub mark_at : ℕ → Reason → List CandidateDecision → List CandidateDecision
mark_at index reason [] = []
mark_at zero reason (d ∷ ds) =
    record d { eligible = false; reasons = d.reasons ++ reason ∷ [] } ∷ ds
mark_at (suc index) reason (d ∷ ds) = d ∷ mark_at index reason ds

-- The candidate could not be leased.
unfoldable pub give_up : Candidate → Reason → Decision → Decision
unfolding mark_at
give_up item reason decision =
    add_fallback
      (record decision { candidates = mark_at item.decision_index reason decision.candidates })
      (record {
        target_id = some item.target.id;
        credential_id = some item.member.credential_id;
        reason = reason;
      })

-- How the loop over the candidates ends.
pub data Attempt : Type 0 where
  leased : Candidate → Lease → Decision → Attempt
  broken : Error → Decision → Attempt
  exhausted : Decision → Attempt

abbrev pub is_busy : Error → Bool
is_busy lease_busy = true
is_busy e = false

module _ {S : Type 0} (ports : Ports S) (options : Options) where
  -- The loop over the slots of one candidate, from a slot on and for as many as are left.
  unfoldable pub acquire_slot : Text → Text → ℕ → ℕ → S → Outcome (Option Lease) × S
  acquire_slot lease_key owner slot zero s = (success none, s)
  acquire_slot lease_key owner slot (suc left) s =
      let (r, s') = ports.acquire (lease_key ++ (colon ++ itoa slot)) owner options.lease_ttl s in
      elim r [
        | success lease ↦ (success (some lease), s')
        | failure e ↦ elim (is_busy e) [
          | true ↦ acquire_slot lease_key owner (suc slot) left s'
          | false ↦ (failure e, s')
        ]
      ]

  unfoldable pub acquire_item : Text → Candidate → S → Outcome (Option Lease) × S
  unfolding acquire_slot
  acquire_item owner item s =
      acquire_slot (ports.uuid_text item.member.credential_id) owner 0
        (pos_part item.member.max_concurrency) s

  -- The loop over the candidates.
  unfoldable pub acquire_any : Text → List Candidate → Decision → S → Attempt × S
  unfolding acquire_item
  acquire_any owner [] decision s = (exhausted decision, s)
  acquire_any owner (item ∷ items) decision s =
      let (r, s') = acquire_item owner item s in
      elim r [
        | failure e ↦ (broken e (give_up item concurrency_state_unavailable decision), s')
        | success found ↦ elim found [
          | some lease ↦ (leased item lease decision, s')
          | none ↦ acquire_any owner items (give_up item concurrency_lease_busy decision) s'
        ]
      ]

  -- The decision is recorded; then the error is returned, or that of the recording.
  unfoldable pub record_failure : Request → Decision → Error → S → Reply × S
  record_failure request decision e s =
      let (r, s') = ports.record_decision request decision s in
      elim r [
        | failure record_error ↦
            (record { decision = decision; outcome = failure record_error }, s')
        | success _ ↦ (record { decision = decision; outcome = failure e }, s')
      ]

  abbrev pub chosen_decision : Candidate → Decision → Decision
  chosen_decision item decision = record decision {
    selected_target_id = some item.target.id;
    selected_provider_id = some item.target.provider_id;
    selected_credential_id = some item.member.credential_id;
  }

  -- The affinity is kept if the request has a key; a failure is noted.
  unfoldable pub keep_affinity : Text → Candidate → Decision → S → Decision × S
  keep_affinity key item decision s =
      if is_empty key
      then (decision, s)
      else let (r, s') = ports.set_affinity key item.member.credential_id options.affinity_ttl s in
        elim r [
          | failure e ↦ (add_fallback decision (bare_entry affinity_state_unavailable), s')
          | success _ ↦ (decision, s')
        ]

  -- The end of Select: a lease whose decision cannot be recorded is given back.
  unfoldable pub conclude : Request → Text → Candidate → Lease → Decision → S → Reply × S
  unfolding keep_affinity
  conclude request key item lease decision s =
      let (final, s') = keep_affinity key item (chosen_decision item decision) s in
      let (r, s'') = ports.record_decision request final s' in
      elim r [
        | failure e ↦ (record { decision = final; outcome = failure e }, ports.release lease s'')
        | success _ ↦ (
          record {
            decision = final;
            outcome = success (record {
              target = item.target;
              credential_id = item.member.credential_id;
              lease = lease;
            });
          },
          s'',
        )
      ]

  unfoldable pub after_attempts : Request → Text → Attempt × S → Reply × S
  unfolding conclude record_failure
  after_attempts request key (leased item lease decision, s) =
      conclude request key item lease decision s
  after_attempts request key (broken e decision, s) = record_failure request decision e s
  after_attempts request key (exhausted decision, s) = record_failure request decision no_eligible s

  -- `affinityFound && !affinityUsed`.
  abbrev pub note_unused : Option Uuid → Bool → Decision → Decision
  note_unused none used decision = decision
  note_unused (some bound) used decision =
      if used
      then decision
      else add_fallback decision
          (record { target_id = none; credential_id = some bound; reason = affinity_unavailable })

  -- From the order of the candidates to the end.
  unfoldable pub try_ordered :
      Request → Text → Option Uuid → Decision → Outcome Ordered × S → Reply × S
  unfolding after_attempts record_failure acquire_any
  try_ordered request key bound decision (failure e, s) =
      record_failure request (add_fallback decision (bare_entry cursor_state_unavailable)) e s
  try_ordered request key bound decision (success ordered, s) =
      let (owner, s') = ports.new_owner s in
      after_attempts request key
        (acquire_any owner ordered.candidates (note_unused bound ordered.affinity_used decision) s')

  -- scopedAffinityKey.
  abbrev pub scoped_affinity_key : Request → Text
  scoped_affinity_key request =
      if is_empty request.affinity_key
      then []
      else ports.uuid_text request.resolution.version_id ++ (colon ++ request.affinity_key)

  abbrev pub read_affinity : Text → S → Outcome (Option Uuid) × S
  read_affinity key s = if is_empty key then (success none, s) else ports.get_affinity key s

  -- The binding, if it could be read, and the decision with a note if it could not.
  abbrev pub bound_by : Outcome (Option Uuid) → Option Uuid
  bound_by (failure e) = none
  bound_by (success bound) = bound

  abbrev pub note_unread : Outcome (Option Uuid) → Decision → Decision
  note_unread (failure e) decision = add_fallback decision (bare_entry affinity_state_unavailable)
  note_unread (success bound) decision = decision

  unfoldable pub select_among : Request → List Candidate → Decision → S → Reply × S
  unfolding try_ordered
  select_among request eligible decision s =
      let key = scoped_affinity_key request in
      let (r, s') = read_affinity key s in
      try_ordered request key (bound_by r) (note_unread r decision)
        (order_candidates ports options request eligible (bound_by r) s')

  -- `len(eligible) == 0` ends it here.
  unfoldable pub select_eligible : Request → List Candidate → Decision → S → Reply × S
  unfolding select_among record_failure
  select_eligible request [] decision s = record_failure request decision no_eligible s
  select_eligible request (c ∷ cs) decision s = select_among request (c ∷ cs) decision s

  unfoldable pub select_gathered : Request → Gathered × Option Error → S → Reply × S
  unfolding select_eligible
  select_gathered request (g, some e) s =
      (record { decision = decision_of request g.decisions []; outcome = failure e }, s)
  select_gathered request (g, none) s =
      select_eligible request g.eligible (decision_of request g.decisions []) s

  unfoldable pub select_normal : Outcome Request → S → Reply × S
  unfolding select_gathered
  select_normal (failure e) s = (record { decision = no_decision; outcome = failure e }, s)
  select_normal (success request) s =
      select_gathered request
        (gather ports request request.resolution.candidates nothing_gathered s) s

  unfoldable pub select : Request → S → Reply × S
  unfolding select_normal
  select request s =
      select_normal (normalize_request options.quota_max_age (ports.current s) request) s
