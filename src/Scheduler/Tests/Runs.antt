-- ===== src/Scheduler/Tests/Runs.antt =====
-- Select on a route with two targets.
use bablo.Prelude.{
  ℤ, pos, true, false, is_empty, leb_ℤ, ◌≤ℤ◌, ◌⊎◌, List, [], ◌∷◌, ◌≡◌, refl, Text, codes, inl, inr,
  arith, text_eq, Bool-cases,
}
use bablo.Scheduler.Model.{
  no_eligible, failure, success, round_robin, fill_first, quota_aware, unset, Request, Decision,
  Candidate,
}
use bablo.Scheduler.Select.{select, Chosen}
use mathlib.Core.List.{mem-cons_self, mem-cons_of_mem}
use bablo.Scheduler.Select.Answers.{is_success, is_refusal, IsHealthy}
use bablo.Scheduler.Select.Success.{select-succeeds}
use bablo.Scheduler.InMemory.{in_memory, World}
use bablo.Scheduler.Coordinator.{new_memory, LeaseEntry, acquire, next, get_affinity, cleanup}
use bablo.Prelude.Maps.{lookup, retain}
use bablo.Scheduler.Normalize.{normalize_request, normal_form}
use bablo.Scheduler.Normalize.Idempotence.{normalize_request_idem}
use bablo.Scheduler.Running.{scheduler}
use bablo.Scheduler.Sample.{
  options, outside, start, request_with, target_of, candidate_with, fresh_quota,
}
use bablo.Scheduler.Select.Safety.{select-IsSafe, IsSafe}

-- The second target comes first, and its heavier member gets the lease.
abbrev choice : Chosen
choice = record {
  target = target_of 2 (pos 1);
  credential_id = 11;
  lease = record { resource = codes "11:0"; owner = codes "owner" };
}

run :
    (select (in_memory outside) options (request_with quota_aware) start).0.outcome ≡ success choice
unfolding scheduler
run = refl

-- A third request finds both credentials of its route taken.
abbrev two_taken : World (List Decision)
two_taken = record {
  memory = record new_memory {
    leases =
        (codes "11:0", record { owner = codes "a"; expires_at = pos 1020 })
        ∷ (codes "12:0", record { owner = codes "b"; expires_at = pos 1001 })
        ∷ [];
  };
  rest = [];
}

full :
    (select (in_memory outside) options (request_with fill_first) two_taken).0.outcome
    ≡ failure no_eligible
unfolding scheduler
full = refl

select-IsSafe_example :
    (normal : Request) × (normalize_request (pos 120) (pos 1000) (request_with quota_aware)
      ≡ success normal)
    × IsSafe
        (in_memory outside)
        options
        normal
        start
        (select (in_memory outside) options (request_with quota_aware) start).0.decision
        choice
unfolding in_memory
select-IsSafe_example =
    select-IsSafe (in_memory outside) options (request_with quota_aware) start choice run

normalize_request_idem_example :
    normalize_request (pos 7) (pos 9) (
      normal_form
        (pos 1000)
        (request_with unset)
        round_robin
        (record fresh_quota { max_age = pos 120 }))
    ≡ success (
        normal_form
          (pos 1000)
          (request_with unset)
          round_robin
          (record fresh_quota { max_age = pos 120 }))
unfolding scheduler
normalize_request_idem_example =
    normalize_request_idem (pos 120) (pos 1000) (pos 7) (pos 9) (request_with unset)
      (normal_form (pos 1000) (request_with unset) round_robin
        (record fresh_quota { max_age = pos 120 }))
      (λ e. cc e) refl

-- The coordinator in memory, with a live lease on the slot of the credential that is asked first.
abbrev leases_held : List (Text × LeaseEntry)
leases_held = (codes "11:0", record { owner = codes "other"; expires_at = pos 2000 }) ∷ []

abbrev Calm : World (List Decision) → Type 0
Calm w = w.memory.leases ≡ leases_held

abbrev busy_start : World (List Decision)
busy_start = record { memory = record new_memory { leases = leases_held }; rest = [] }

calm_acquire :
    (resource owner : Text) (w : World (List Decision))
    → is_empty resource ≡ false
    → is_empty owner ≡ false
    → Calm w
    → (is_success ((in_memory outside).acquire resource owner (pos 30) w).0 ≡ true)
      ⊎ ((is_refusal ((in_memory outside).acquire resource owner (pos 30) w).0 ≡ true)
          × Calm ((in_memory outside).acquire resource owner (pos 30) w).1)
unfolding in_memory acquire cleanup retain lookup
calm_acquire resource owner w r o c = elim (Bool-cases (text_eq (codes "11:0") resource)) [
  | inl e ↦ rw (r, o, c, e) (inr (refl, refl))
  | inr e ↦ rw (r, o, c, e) (inl refl)
]

calm_turns :
    (key : Text) (modulo : ℤ) (w : World (List Decision))
    → is_empty key ≡ false
    → pos 1 ≤ℤ modulo
    → Calm w
    → (is_success ((in_memory outside).next key modulo (pos 3600) w).0 ≡ true)
      × Calm ((in_memory outside).next key modulo (pos 3600) w).1
unfolding in_memory next cleanup retain
calm_turns key modulo w k m c =
    let positive : leb_ℤ modulo (pos 0) ≡ false = ground arith in rw (k, positive, c) (refl, refl)

calm_reads :
    (key : Text) (w : World (List Decision))
    → Calm w
    → Calm ((in_memory outside).get_affinity key w).1
unfolding in_memory get_affinity cleanup retain
calm_reads key w c = elim (Bool-cases (is_empty key)) [ inl e ↦ rw (e) c | inr e ↦ rw (e, c) refl ]

in_memory-IsHealthy : IsHealthy (in_memory outside) options Calm
unfolding in_memory
in_memory-IsHealthy = record {
  loads = λ pool quota model w c. refl;
  mints = λ w c. (refl, c);
  reads = calm_reads;
  turns = calm_turns;
  answers = calm_acquire;
  records = λ request decision w. refl;
}

abbrev free_candidate : Candidate
free_candidate = record (candidate_with 1 (pos 2) 12 (pos 2)) { decision_index = 1 }

free_slot :
    (owner : Text) (w : World (List Decision))
    → is_empty owner ≡ false
    → Calm w
    → is_success ((in_memory outside).acquire (codes "12:0") owner (pos 30) w).0 ≡ true
unfolding in_memory acquire cleanup retain lookup text_eq
free_slot owner w o c = rw (o, c) refl

select-succeeds_example :
    is_success (select (in_memory outside) options (request_with fill_first) busy_start).0.outcome
    ≡ true
unfolding scheduler
select-succeeds_example =
    select-succeeds (in_memory outside) options Calm (request_with fill_first)
      (normal_form (pos 1000) (request_with fill_first) fill_first
        (record fresh_quota { max_age = pos 120 }))
      busy_start free_candidate in_memory-IsHealthy refl refl (mem-cons_of_mem _ mem-cons_self)
      (record { slot = 0; in_capacity = omega arith; free = free_slot })
