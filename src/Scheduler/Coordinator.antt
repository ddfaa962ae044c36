-- ===== src/Scheduler/Coordinator.antt =====
-- internal/scheduler/coordinator.go: leases, cursors and affinities in the memory of one process.
-- A call holds the mutex from its first read of the state to its end, so calls follow one another.
-- The current time is an argument, one for each call of time.Now.
pub mod Store
pub mod Exclusion
pub mod Rotation
pub mod Lifetime
use bablo.Prelude.{
  ℕ, ◌%◌, suc, ℤ, pos, negsuc, neg, leb_ℤ, ltb_ℤ, add64, ◌+ℤ◌, Bool, true, false, not, ◌||◌, ◌&&◌,
  ◌==◌, Option, none, some, List, [], ◌∷◌, Text, is_empty, text_eq, if◌then◌else◌,
}
use bablo.Prelude.Maps.{lookup, insert, delete, retain}
use bablo.Scheduler.Model.{
  Uuid, Error, invalid_input, conflict, no_eligible, lease_busy, lease_not_owner, state_unavailable,
  canceled, repository, Outcome, failure, success, Strategy, round_robin, weighted_round_robin,
  fill_first, quota_aware, unset, unknown, Reason, target_disabled, provider_model_disabled,
  provider_model_unapproved, pool_disabled, resource_policy_denied, protocol_mismatch,
  capability_mismatch, pool_empty, pool_member_disabled, provider_disabled, credential_inactive,
  credential_capacity_invalid, cooldown, region_mismatch, proxy_required, proxy_mismatch,
  quota_missing, quota_stale, quota_exhausted, concurrency_state_unavailable,
  concurrency_lease_busy, affinity_state_unavailable, cursor_state_unavailable,
  affinity_unavailable, ReviewStatus, pending, approved, rejected, ResourceType, official_api,
  enterprise_api, subscription, third_party, CredentialStatus, active, disabled, revoked, error,
  Capabilities, Target, Resolution, QuotaPolicy, Request, CandidateDecision, FallbackEntry,
  Decision, QuotaSnapshot, PoolMember, Candidate, Lease,
}

pub record LeaseEntry : Type 0 where
  pub owner : Text
  pub expires_at : ℤ

pub record CursorEntry : Type 0 where
  pub value : ℤ
  pub expires_at : ℤ

pub record AffinityEntry : Type 0 where
  pub credential_id : Uuid
  pub expires_at : ℤ

-- memoryCoordinator.
pub record Memory : Type 0 where
  pub leases : List (Text × LeaseEntry)
  pub cursors : List (Text × CursorEntry)
  pub affinities : List (Text × AffinityEntry)

-- NewMemoryCoordinator.
abbrev pub new_memory : Memory
new_memory = record { leases = []; cursors = []; affinities = [] }

-- `expiresAt.After(now)`.
abbrev pub lives : ℤ → ℤ → Bool
lives expires_at now = ltb_ℤ now expires_at

unfoldable pub cleanup : ℤ → Memory → Memory
cleanup now c = record {
  leases = retain (λ e. lives e.expires_at now) c.leases;
  cursors = retain (λ e. lives e.expires_at now) c.cursors;
  affinities = retain (λ e. lives e.expires_at now) c.affinities;
}

-- Whether an entry is there and has not expired.
abbrev pub is_live : Option LeaseEntry → ℤ → Bool
is_live none now = false
is_live (some e) now = lives e.expires_at now

unfoldable pub acquire : Bool → Text → Text → ℤ → ℤ → Memory → Outcome Lease × Memory
acquire done resource owner ttl now c =
    if done
    then (failure canceled, c)
    else if is_empty resource || is_empty owner || leb_ℤ ttl (pos 0)
    then (failure invalid_input, c)
    else let c' = cleanup now c in
      if is_live (lookup resource c'.leases) now then (failure lease_busy, c') else (
        success (record { resource = resource; owner = owner }),
        record c' {
          leases = insert resource (record { owner = owner; expires_at = now +ℤ ttl }) c'.leases;
        },
      )

-- `a % m` on int64, of a positive m.
abbrev pub rem64 : ℤ → ℤ → ℤ
rem64 (pos n) (pos m) = pos (n % m)
rem64 (negsuc n) (pos m) = neg (pos (suc n % m))
rem64 a (negsuc m) = a

abbrev pub cursor_value : Option CursorEntry → ℤ
cursor_value none = pos 0
cursor_value (some e) = e.value

unfoldable pub next : Bool → Text → ℤ → ℤ → ℤ → Memory → Outcome ℤ × Memory
next done key modulo ttl now c =
    if done
    then (failure canceled, c)
    else if is_empty key || leb_ℤ modulo (pos 0) || leb_ℤ ttl (pos 0)
    then (failure invalid_input, c)
    else let c' = cleanup now c in
      let value = cursor_value (lookup key c'.cursors) in
      (
        success (rem64 value modulo),
        record c' {
          cursors =
              insert key (record { value = add64 value (pos 1); expires_at = now +ℤ ttl })
                c'.cursors;
        },
      )

abbrev pub affinity_at : Option AffinityEntry → ℤ → Option Uuid
affinity_at none now = none
affinity_at (some e) now = if lives e.expires_at now then some e.credential_id else none

-- affinityStateKey, a prefix with the SHA-256 of the key in hexadecimal digits, is a parameter.
module _ (affinity_state_key : Text → Text) where
  unfoldable pub get_affinity : Bool → Text → ℤ → Memory → Outcome (Option Uuid) × Memory
  get_affinity done key now c =
      if done
      then (failure canceled, c)
      else if is_empty key
      then (failure invalid_input, c)
      else let c' = cleanup now c in
        (success (affinity_at (lookup (affinity_state_key key) c'.affinities) now), c')

  unfoldable pub set_affinity : Bool → Text → Uuid → ℤ → ℤ → Memory → Outcome (Unit {0}) × Memory
  set_affinity done key credential ttl now c =
      if done
      then (failure canceled, c)
      else if is_empty key || credential == 0 || leb_ℤ ttl (pos 0)
      then (failure invalid_input, c)
      else let c' = cleanup now c in
        (
          success tt,
          record c' {
            affinities =
                insert (affinity_state_key key)
                  (record { credential_id = credential; expires_at = now +ℤ ttl }) c'.affinities;
          },
        )

-- The lease's entry as `Renew` and `Release` find it: whose it is, unless it is missing or expired.
pub data Found : Type 0 where
  gone : Found
  own : LeaseEntry → Found
  foreign : Found

abbrev pub find_entry : Text → Option LeaseEntry → ℤ → Found
find_entry owner none now = gone
find_entry owner (some e) now =
    if lives e.expires_at now then if text_eq e.owner owner then own e else foreign else gone

abbrev pub renewed : Lease → ℤ → ℤ → Memory → Found → Outcome (Unit {0}) × Memory
renewed lease ttl later c gone = (failure lease_not_owner, c)
renewed lease ttl later c foreign = (failure lease_not_owner, c)
renewed lease ttl later c (own e) = (
  success tt,
  record c { leases = insert lease.resource (record e { expires_at = later +ℤ ttl }) c.leases },
)

-- memoryLease.Renew, which looks at the clock twice.
unfoldable pub renew : Bool → Lease → ℤ → ℤ → ℤ → Memory → Outcome (Unit {0}) × Memory
renew done lease ttl now later c =
    if leb_ℤ ttl (pos 0)
    then (failure invalid_input, c)
    else if done
    then (failure canceled, c)
    else renewed lease ttl later c (find_entry lease.owner (lookup lease.resource c.leases) now)

-- memoryLease: `outcome` is that of the first call of Release, if there was one.
pub record MemoryLease : Type 0 where
  pub lease : Lease
  pub outcome : Option (Outcome (Unit {0}))

abbrev pub released : Lease → Memory → Found → Outcome (Unit {0}) × Memory
released lease c gone = (success tt, record c { leases = delete lease.resource c.leases })
released lease c foreign = (failure lease_not_owner, c)
released lease c (own e) = (success tt, record c { leases = delete lease.resource c.leases })

-- The body that sync.Once runs.
unfoldable pub release_once : Bool → Lease → ℤ → Memory → Outcome (Unit {0}) × Memory
release_once done lease now c =
    if done
    then (failure canceled, c)
    else released lease c (find_entry lease.owner (lookup lease.resource c.leases) now)

abbrev pub release_first : MemoryLease → Outcome (Unit {0}) × Memory → MemoryLease × Memory
release_first l (r, c) = (record l { outcome = some r }, c)

-- memoryLease.Release: its result is the `outcome` of the lease that it leaves.
unfoldable pub release : Bool → MemoryLease → ℤ → Memory → MemoryLease × Memory
unfolding release_once
release done l now c = elim l.outcome [
  | some r ↦ (l, c)
  | none ↦ release_first l (release_once done l.lease now c)
]
