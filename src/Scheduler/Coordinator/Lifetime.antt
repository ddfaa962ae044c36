-- ===== src/Scheduler/Coordinator/Lifetime.antt =====
-- A resource becomes free when its lease expires or is released by its owner, and by nothing else.
use bablo.Prelude.{
  ℤ, pos, leb_ℤ, Bool, false, ◌||◌, Option, none, some, Text, is_empty, text_eq, text_eq→eq, ◌≡◌,
  refl, sym, ap, ◌∙◌, if◌then◌else◌, Bool-cases, inl, inr,
}
use bablo.Prelude.Maps.{lookup, delete, kept, AreUnique, lookup-delete, lookup-retain}
use bablo.Scheduler.Model.{Lease, failure, success, lease_busy}
use bablo.Scheduler.Coordinator.{
  Memory, LeaseEntry, cleanup, acquire, release, release_once, released, lives, is_live, find_entry,
}

is_live-kept :
    (now : ℤ) (o : Option LeaseEntry)
    → is_live (kept (λ (x : LeaseEntry). lives x.expires_at now) o) now ≡ is_live o now
is_live-kept now none = refl
is_live-kept now (some e) = elim (Bool-cases (lives e.expires_at now)) [
  | inl l ↦ rw l l
  | inr l ↦ rw l
]

is_live-cleanup :
    (r : Text) (now : ℤ) (c : Memory)
    → AreUnique c.leases
    → is_live (lookup r (cleanup now c).leases) now ≡ is_live (lookup r c.leases) now
unfolding cleanup
is_live-cleanup r now c u =
    ap (λ o. is_live o now) (lookup-retain _ r c.leases u) ∙ is_live-kept now (lookup r c.leases)

-- A proper request for a lease is granted exactly if no lease of the resource is live, whatever
-- expired entries the map holds.
pub acquire_lem :
    (r o : Text) (ttl now : ℤ) (c : Memory)
    → AreUnique c.leases
    → (is_empty r || is_empty o || leb_ℤ ttl (pos 0)) ≡ false
    → (acquire false r o ttl now c).0 ≡ (
        if is_live (lookup r c.leases) now
        then failure lease_busy
        else success (record { resource = r; owner = o }))
unfolding acquire
acquire_lem r o ttl now c u v = elim (Bool-cases (is_live (lookup r c.leases) now)) [
  | inl l ↦ rw (v, is_live-cleanup r now c u, l)
  | inr l ↦ rw (v, is_live-cleanup r now c u, l)
]

-- What is left of the entry under the resource that a lease releases.
abbrev left_of : Text → ℤ → Option LeaseEntry → Option LeaseEntry
left_of owner now none = none
left_of owner now (some e) =
    if lives e.expires_at now then if text_eq e.owner owner then none else some e else none

lookup-deleted :
    (r k : Text) (c : Memory)
    → lookup k (delete r c.leases) ≡ (if text_eq r k then none else lookup k c.leases)
lookup-deleted r k c = lookup-delete r k c.leases

lookup-released :
    (lease : Lease) (k : Text) (now : ℤ) (c : Memory) (o : Option LeaseEntry)
    → lookup lease.resource c.leases ≡ o
    → lookup k (released lease c (find_entry lease.owner o now)).1.leases
      ≡ (if text_eq lease.resource k then left_of lease.owner now o else lookup k c.leases)
lookup-released lease k now c none h = lookup-deleted lease.resource k c
lookup-released lease k now c (some e) h = elim (Bool-cases (lives e.expires_at now)) [
  | inr l ↦ rw l (lookup-deleted lease.resource k c)
  | inl l ↦ elim (Bool-cases (text_eq e.owner lease.owner)) [
    | inl o ↦ rw (l, o) (lookup-deleted lease.resource k c)
    | inr o ↦
        rw (l, o)
          (elim (Bool-cases (text_eq lease.resource k)) [
            | inl s ↦ rw s (ap (λ j. lookup j c.leases) (sym (text_eq→eq _ _ s)) ∙ h)
            | inr s ↦ rw s
          ])
  ]
]

pub lookup-release_once :
    (lease : Lease) (k : Text) (now : ℤ) (c : Memory)
    → lookup k (release_once false lease now c).1.leases ≡ (
        if text_eq lease.resource k
        then left_of lease.owner now (lookup lease.resource c.leases)
        else lookup k c.leases)
unfolding release_once
lookup-release_once lease k now c =
    lookup-released lease k now c (lookup lease.resource c.leases) refl

-- The first Release of a lease takes the entry of its resource away unless it is a live one of
-- another owner, leaves all other resources alone, and a second Release changes nothing.
pub release_lem :
    (lease : Lease) (k : Text) (now later : ℤ) (done : Bool) (c : Memory)
    → let first = release false (record { lease = lease; outcome = none }) now c in
      (lookup k first.1.leases ≡ (
        if text_eq lease.resource k
        then left_of lease.owner now (lookup lease.resource c.leases)
        else lookup k c.leases))
      × (release done first.0 later first.1 ≡ first)
unfolding release
release_lem lease k now later done c = (lookup-release_once lease k now c, refl)
