-- ===== src/Scheduler/Coordinator/Store.antt =====
-- What each call of the coordinator does to a lease that is held.
use bablo.Prelude.{
  ℤ, pos, leb_ℤ, ltb_ℤ, Bool, true, false, ◌||◌, ◌&&◌, ◌==◌, some, Text, is_empty, text_eq,
  text_eq→eq, ◌≡◌, ap, ◌∙◌, Bool-cases, Option-cases, inl, inr,
}
use bablo.Prelude.Maps.{
  lookup, insert, delete, kept, AreUnique, lookup-insert, lookup-delete, lookup-retain,
  insert-AreUnique, delete-AreUnique, retain-AreUnique,
}
use bablo.Scheduler.Model.{Uuid, Lease, failure, lease_busy}
use bablo.Scheduler.Coordinator.{
  Memory, LeaseEntry, cleanup, acquire, next, get_affinity, set_affinity, find_entry, Found, own,
  gone, foreign, renew, renewed, released, release_once, release, MemoryLease, is_live, lives,
}

-- The resource is held by the owner until the instant, which has not come.
pub record IsHeld (resource owner : Text) (until now : ℤ) (c : Memory) : Type 0 where
  pub unique : AreUnique c.leases
  pub entry : lookup resource c.leases ≡ some (record { owner = owner; expires_at = until })
  pub early : ltb_ℤ now until ≡ true

-- The lease in hand is not that of this owner for this resource.
abbrev pub IsOther : Text → Text → Lease → Type 0
IsOther resource owner lease =
    (text_eq lease.resource resource && text_eq owner lease.owner) ≡ false

module _ (r o : Text) (e now : ℤ) {c : Memory} (h : IsHeld r o e now c) where
  pub cleanup-IsHeld : IsHeld r o e now (cleanup now c)
  unfolding cleanup
  cleanup-IsHeld = record {
    unique = retain-AreUnique _ c.leases h.unique;
    entry =
        lookup-retain _ r c.leases h.unique
        ∙ (ap (kept (λ (x : LeaseEntry). lives x.expires_at now)) h.entry ∙ (rw h.early));
    early = h.early;
  }

-- A write of another key.
insert-IsHeld :
    (r o : Text) (e now : ℤ) (k : Text) (v : LeaseEntry) {c : Memory}
    → IsHeld r o e now c
    → text_eq k r ≡ false
    → IsHeld r o e now (record c { leases = insert k v c.leases })
insert-IsHeld r o e now k v {c} h d = record {
  unique = insert-AreUnique k v c.leases h.unique;
  entry = lookup-insert k r v c.leases ∙ (rw d h.entry);
  early = h.early;
}

delete-IsHeld :
    (r o : Text) (e now : ℤ) (k : Text) {c : Memory}
    → IsHeld r o e now c
    → text_eq k r ≡ false
    → IsHeld r o e now (record c { leases = delete k c.leases })
delete-IsHeld r o e now k {c} h d = record {
  unique = delete-AreUnique k c.leases h.unique;
  entry = lookup-delete k r c.leases ∙ (rw d h.entry);
  early = h.early;
}

module _ (r o : Text) (e now : ℤ) {c : Memory} (h : IsHeld r o e now c) where
  taken : is_live (lookup r (cleanup now c).leases) now ≡ true
  taken = ap (λ x. is_live x now) ((cleanup-IsHeld r o e now h).entry) ∙ h.early

  -- Whoever asks for the resource is told that it is busy.
  pub acquire-busy :
      (owner : Text) (ttl : ℤ)
      → (is_empty r || is_empty owner || leb_ℤ ttl (pos 0)) ≡ false
      → acquire false r owner ttl now c ≡ (failure lease_busy, cleanup now c)
  unfolding acquire
  acquire-busy owner ttl v = rw (v, taken)

  pub acquire-IsHeld :
      (done : Bool) (resource owner : Text) (ttl : ℤ)
      → IsHeld r o e now (acquire done resource owner ttl now c).1
  unfolding acquire
  acquire-IsHeld true resource owner ttl = h
  acquire-IsHeld false resource owner ttl =
      elim (Bool-cases (is_empty resource || is_empty owner || leb_ℤ ttl (pos 0))) [
        | inl v ↦ rw v h
        | inr v ↦ elim (Bool-cases (text_eq resource r)) [
          | inl same ↦
              rw
                (
                  v,
                  ap (λ k. is_live (lookup k (cleanup now c).leases) now)
                        (text_eq→eq resource r same)
                      ∙ taken,
                )
                (cleanup-IsHeld r o e now h)
          | inr other ↦ elim (Bool-cases (is_live (lookup resource (cleanup now c).leases) now)) [
            | inl l ↦ rw (v, l) (cleanup-IsHeld r o e now h)
            | inr l ↦
                rw (v, l) (insert-IsHeld r o e now resource _ (cleanup-IsHeld r o e now h) other)
          ]
        ]
      ]

  pub next-IsHeld :
      (done : Bool) (key : Text) (modulo ttl : ℤ)
      → IsHeld r o e now (next done key modulo ttl now c).1
  unfolding next
  next-IsHeld true key modulo ttl = h
  next-IsHeld false key modulo ttl =
      elim (Bool-cases (is_empty key || leb_ℤ modulo (pos 0) || leb_ℤ ttl (pos 0))) [
        | inl v ↦ rw v h
        | inr v ↦ rw v (record {
          unique = (cleanup-IsHeld r o e now h).unique;
          entry = (cleanup-IsHeld r o e now h).entry;
          early = h.early;
        })
      ]

  pub get_affinity-IsHeld :
      (state_key : Text → Text) (done : Bool) (key : Text)
      → IsHeld r o e now (get_affinity state_key done key now c).1
  unfolding get_affinity
  get_affinity-IsHeld state_key true key = h
  get_affinity-IsHeld state_key false key = elim (Bool-cases (is_empty key)) [
    | inl v ↦ rw v h
    | inr v ↦ rw v (cleanup-IsHeld r o e now h)
  ]

  pub set_affinity-IsHeld :
      (state_key : Text → Text) (done : Bool) (key : Text) (credential : Uuid) (ttl : ℤ)
      → IsHeld r o e now (set_affinity state_key done key credential ttl now c).1
  unfolding set_affinity
  set_affinity-IsHeld state_key true key credential ttl = h
  set_affinity-IsHeld state_key false key credential ttl =
      elim (Bool-cases (is_empty key || credential == 0 || leb_ℤ ttl (pos 0))) [
        | inl v ↦ rw v h
        | inr v ↦ rw v (record {
          unique = (cleanup-IsHeld r o e now h).unique;
          entry = (cleanup-IsHeld r o e now h).entry;
          early = h.early;
        })
      ]

  -- A lease of another owner finds nothing of its own under this resource.
  find_foreign :
      (lease : Lease)
      → lease.resource ≡ r
      → text_eq o lease.owner ≡ false
      → find_entry lease.owner (lookup lease.resource c.leases) now ≡ foreign
  find_foreign lease s d =
      ap (λ k. find_entry lease.owner (lookup k c.leases) now) s
      ∙ (ap (λ x. find_entry lease.owner x now) h.entry ∙ (rw (h.early, d)))

  renewed-IsHeld :
      (lease : Lease) (ttl later : ℤ) (f : Found)
      → text_eq lease.resource r ≡ false
      → IsHeld r o e now (renewed lease ttl later c f).1
  renewed-IsHeld lease ttl later gone d = h
  renewed-IsHeld lease ttl later foreign d = h
  renewed-IsHeld lease ttl later (own x) d = insert-IsHeld r o e now lease.resource _ h d

  released-IsHeld :
      (lease : Lease) (f : Found)
      → text_eq lease.resource r ≡ false
      → IsHeld r o e now (released lease c f).1
  released-IsHeld lease gone d = delete-IsHeld r o e now lease.resource h d
  released-IsHeld lease foreign d = h
  released-IsHeld lease (own x) d = delete-IsHeld r o e now lease.resource h d

  pub renew-IsHeld :
      (done : Bool) (lease : Lease) (ttl later : ℤ)
      → IsOther r o lease
      → IsHeld r o e now (renew done lease ttl now later c).1
  unfolding renew
  renew-IsHeld true lease ttl later d = elim (Bool-cases (leb_ℤ ttl (pos 0))) [
    | inl v ↦ rw v h
    | inr v ↦ rw v h
  ]
  renew-IsHeld false lease ttl later d = elim (Bool-cases (leb_ℤ ttl (pos 0))) [
    | inl v ↦ rw v h
    | inr v ↦ elim (Bool-cases (text_eq lease.resource r)) [
      | inl s ↦ rw (v, find_foreign lease (text_eq→eq _ _ s) (rw s at d)) h
      | inr s ↦ rw v (renewed-IsHeld lease ttl later _ s)
    ]
  ]

  pub release_once-IsHeld :
      (done : Bool) (lease : Lease)
      → IsOther r o lease
      → IsHeld r o e now (release_once done lease now c).1
  unfolding release_once
  release_once-IsHeld true lease d = h
  release_once-IsHeld false lease d = elim (Bool-cases (text_eq lease.resource r)) [
    | inl s ↦ rw (find_foreign lease (text_eq→eq _ _ s) (rw s at d)) h
    | inr s ↦ released-IsHeld lease _ s
  ]

  pub release-IsHeld :
      (done : Bool) (l : MemoryLease)
      → IsOther r o l.lease
      → IsHeld r o e now (release done l now c).1
  unfolding release
  release-IsHeld done l d = elim (Option-cases l.outcome) [
    | inl e ↦ rw e (release_once-IsHeld done l.lease d)
    | inr (b, e) ↦ rw e h
  ]
