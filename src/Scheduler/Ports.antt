-- ===== src/Scheduler/Ports.antt =====
-- What Select calls: the coordinator (interface Coordinator of internal/scheduler/model.go), the
-- repository (internal/scheduler/repository.go), the clock and google/uuid, over a state of theirs.
use bablo.Prelude.{ℤ, Option, List, Text}
use bablo.Scheduler.Model.{Uuid, Outcome, QuotaPolicy, Request, Decision, PoolMember, Lease}

pub record Ports (S : Type 0) : Type 0 where
  -- uuid.UUID.String and uuid.New().String().
  pub uuid_text : Uuid → Text
  pub new_owner : S → Text × S
  -- time.Now().UTC().
  pub current : S → ℤ
  -- Repository.loadPoolMembers and RecordDecision.
  pub load_pool_members : Uuid → QuotaPolicy → Text → S → Outcome (List PoolMember)
  pub record_decision : Request → Decision → S → Outcome (Unit {0}) × S
  -- The methods of Coordinator, and Release of the leases that it gives out.
  pub acquire : Text → Text → ℤ → S → Outcome Lease × S
  pub next : Text → ℤ → ℤ → S → Outcome ℤ × S
  pub get_affinity : Text → S → Outcome (Option Uuid) × S
  pub set_affinity : Text → Uuid → ℤ → S → Outcome (Unit {0}) × S
  pub release : Lease → S → S

-- Options of internal/scheduler/service.go.
pub record Options : Type 0 where
  pub lease_ttl : ℤ
  pub affinity_ttl : ℤ
  pub cursor_ttl : ℤ
  pub quota_max_age : ℤ
