-- ===== src/Scheduler/InMemory.antt =====
-- Select with the coordinator of one process: memoryCoordinator behind the interface Coordinator.
use bablo.Prelude.{ℤ, false, none, List, Text}
use bablo.Scheduler.Model.{Uuid, Outcome, PoolMember, QuotaPolicy, Request, Decision}
use bablo.Scheduler.Ports.{Ports}
use bablo.Scheduler.Coordinator.{Memory, acquire, next, get_affinity, set_affinity, release}

-- The coordinator, and the state of all else.
pub record World (R : Type 0) : Type 0 where
  pub memory : Memory
  pub rest : R

-- What Select uses besides the coordinator.
pub record Outside (R : Type 0) : Type 0 where
  pub uuid_text : Uuid → Text
  pub affinity_state_key : Text → Text
  pub new_owner : R → Text × R
  pub clock : R → ℤ
  pub load_pool_members : Uuid → QuotaPolicy → Text → R → Outcome (List PoolMember)
  pub record_decision : Request → Decision → R → Outcome (Unit {0}) × R

module _ {R : Type 0} (o : Outside R) where
  abbrev pub on_memory :
      {A : Type 0} → (ℤ → Memory → Outcome A × Memory) → World R → Outcome A × World R
  on_memory f w = let (r, m) = f (o.clock w.rest) w.memory in (r, record w { memory = m })

  abbrev pub on_rest : {A : Type 0} → (R → A × R) → World R → A × World R
  on_rest f w = let (a, r) = f w.rest in (a, record w { rest = r })

  -- The contexts of the calls are not done while Select runs.
  unfoldable pub in_memory : Ports (World R)
  unfolding acquire next get_affinity set_affinity release
  in_memory = record {
    uuid_text = o.uuid_text;
    new_owner = on_rest o.new_owner;
    current = λ w. o.clock w.rest;
    load_pool_members = λ pool quota model w. o.load_pool_members pool quota model w.rest;
    record_decision = λ request decision. on_rest (o.record_decision request decision);
    acquire = λ resource owner ttl. on_memory (acquire false resource owner ttl);
    next = λ key modulo ttl. on_memory (next false key modulo ttl);
    get_affinity = λ key. on_memory (get_affinity o.affinity_state_key false key);
    set_affinity = λ key credential ttl.
        on_memory (set_affinity o.affinity_state_key false key credential ttl);
    release = λ lease w. record w {
      memory =
          (release false (record { lease = lease; outcome = none }) (o.clock w.rest) w.memory).1;
    };
  }
