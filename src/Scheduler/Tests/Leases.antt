-- ===== src/Scheduler/Tests/Leases.antt =====
-- The coordinator of one process, at concrete memories.
use bablo.Prelude.{pos, true, false, none, [], ◌∷◌, ◌≡◌, refl, Text, codes, arith}
use bablo.Prelude.Maps.{lookup}
use bablo.Scheduler.Model.{lease_busy, failure, success, Lease}
use bablo.Scheduler.Coordinator.{Memory, new_memory, acquire, release}
use bablo.Scheduler.Coordinator.Exclusion.{
  System, acquire-IsExclusive, waits, acquires, here, after,
}
use bablo.Scheduler.Coordinator.Lifetime.{acquire_lem, release_lem}
use bablo.Scheduler.Coordinator.Rotation.{nexts, positions, nexts-positions}
use bablo.Scheduler.Running.{scheduler}

abbrev slot : Text
slot = codes "11:0"

abbrev other_slot : Text
other_slot = codes "12:0"

abbrev lease_of : Text → Text → Lease
lease_of resource owner = record { resource = resource; owner = owner }

-- The slot is leased at 1000 for 30, and at 1020 another owner takes another slot.
abbrev later : System
later = record {
  clock = pos 1020;
  memory =
      (acquire false other_slot (codes "b") (pos 5) (pos 1020)
        (acquire false slot (codes "a") (pos 30) (pos 1000) new_memory).1).1;
}

acquire-IsExclusive_example :
    (acquire false slot (codes "c") (pos 9) later.clock later.memory).0 ≡ failure lease_busy
unfolding scheduler
acquire-IsExclusive_example =
    acquire-IsExclusive (λ key. key) slot (codes "a") (pos 30) (pos 1000) new_memory
      (lease_of slot (codes "a")) {t = later} tt refl
      (after (after here (waits _ (pos 1020) refl))
        (acquires _ false other_slot (codes "b") (pos 5)))
      (codes "c") (pos 9) refl

abbrev taken : Memory
taken = record new_memory {
  leases = (slot, record { owner = codes "a"; expires_at = pos 1030 }) ∷ [];
}

acquire_lem_example :
    (acquire false slot (codes "b") (pos 30) (pos 1030) taken).0
    ≡ success (lease_of slot (codes "b"))
unfolding scheduler
acquire_lem_example = acquire_lem slot (codes "b") (pos 30) (pos 1030) taken (refl, tt) refl

release_lem_example :
    let first =
      release false
        (record { lease = lease_of slot (codes "a"); outcome = none })
        (pos 1010)
        taken in
    (lookup slot first.1.leases ≡ none) × (release true first.0 (pos 1011) first.1 ≡ first)
unfolding scheduler
release_lem_example = release_lem (lease_of slot (codes "a")) slot (pos 1010) (pos 1011) true taken

abbrev turning : Memory
turning = record new_memory {
  cursors = (codes "k", record { value = pos 7; expires_at = pos 1030 }) ∷ [];
}

nexts-positions_example :
    nexts (codes "k") (pos 3) (pos 30) (pos 1000 ∷ pos 1029 ∷ pos 1040 ∷ []) turning
    ≡ success (pos 1) ∷ success (pos 2) ∷ success (pos 0) ∷ []
unfolding scheduler positions
nexts-positions_example =
    nexts-positions (codes "k") 3 7 (pos 30) (pos 1030) (pos 1000 ∷ pos 1029 ∷ pos 1040 ∷ [])
      turning refl (omega arith) (record { unique = (refl, tt); entry = refl })
      (refl, (refl, (refl, tt)))
