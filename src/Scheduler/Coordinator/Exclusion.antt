-- ===== src/Scheduler/Coordinator/Exclusion.antt =====
-- A lease excludes all other holders of its resource until it expires or its owner gives it up.
use bablo.Prelude.{
  ℤ, pos, ◌+ℤ◌, leb_ℤ, ltb_ℤ, Bool, true, false, ◌||◌, Text, is_empty, text_eq_refl, ◌≡◌, ap, ◌∙◌,
  arith, Bool-cases, inl, inr,
}
use bablo.Prelude.Maps.{lookup, AreUnique, lookup-insert, insert-AreUnique, retain-AreUnique}
use bablo.Scheduler.Model.{Uuid, Lease, failure, success, lease_busy}
use bablo.Scheduler.Coordinator.{
  Memory, cleanup, acquire, next, get_affinity, set_affinity, renew, release, MemoryLease, is_live,
}
use bablo.Scheduler.Coordinator.Store.{
  IsHeld, IsOther, acquire-busy, acquire-IsHeld, next-IsHeld, get_affinity-IsHeld,
  set_affinity-IsHeld, renew-IsHeld, release-IsHeld,
}

-- The coordinator and the clock that its callers read.
pub record System : Type 0 where
  pub clock : ℤ
  pub memory : Memory

-- One call by anyone, of which a renewal or release is of another lease than the owner's for the
-- resource; or time passes, and the instant is not reached.
pub data Step (state_key : Text → Text) (resource owner : Text) (until : ℤ)
    : System → System → Type 0 where
  waits :
      (s : System) (now : ℤ)
      → ltb_ℤ now until ≡ true
      → Step state_key resource owner until s (record s { clock = now })
  acquires :
      (s : System) (done : Bool) (k o : Text) (ttl : ℤ)
      → Step state_key resource owner until s
          (record s { memory = (acquire done k o ttl s.clock s.memory).1 })
  nexts :
      (s : System) (done : Bool) (key : Text) (modulo ttl : ℤ)
      → Step state_key resource owner until s
          (record s { memory = (next done key modulo ttl s.clock s.memory).1 })
  gets_affinity :
      (s : System) (done : Bool) (key : Text)
      → Step state_key resource owner until s
          (record s { memory = (get_affinity state_key done key s.clock s.memory).1 })
  sets_affinity :
      (s : System) (done : Bool) (key : Text) (credential : Uuid) (ttl : ℤ)
      → Step state_key resource owner until s (record s {
        memory = (set_affinity state_key done key credential ttl s.clock s.memory).1;
      })
  renews :
      (s : System) (done : Bool) (lease : Lease) (ttl later : ℤ)
      → IsOther resource owner lease
      → Step state_key resource owner until s
          (record s { memory = (renew done lease ttl s.clock later s.memory).1 })
  releases :
      (s : System) (done : Bool) (l : MemoryLease)
      → IsOther resource owner l.lease
      → Step state_key resource owner until s
          (record s { memory = (release done l s.clock s.memory).1 })

pub data Reach (state_key : Text → Text) (resource owner : Text) (until : ℤ) (s : System)
    : System → Type 0 where
  here : Reach state_key resource owner until s s
  after :
      {t u : System}
      → Reach state_key resource owner until s t
      → Step state_key resource owner until t u
      → Reach state_key resource owner until s u

module _ (state_key : Text → Text) (r o : Text) (e : ℤ) where
  Step-IsHeld :
      {s t : System}
      → Step state_key r o e s t
      → IsHeld r o e s.clock s.memory
      → IsHeld r o e t.clock t.memory
  Step-IsHeld (waits s now early) h = record { unique = h.unique; entry = h.entry; early = early }
  Step-IsHeld (acquires s done k owner ttl) h = acquire-IsHeld r o e s.clock h done k owner ttl
  Step-IsHeld (nexts s done key modulo ttl) h = next-IsHeld r o e s.clock h done key modulo ttl
  Step-IsHeld (gets_affinity s done key) h = get_affinity-IsHeld r o e s.clock h state_key done key
  Step-IsHeld (sets_affinity s done key credential ttl) h =
      set_affinity-IsHeld r o e s.clock h state_key done key credential ttl
  Step-IsHeld (renews s done lease ttl later other) h =
      renew-IsHeld r o e s.clock h done lease ttl later other
  Step-IsHeld (releases s done l other) h = release-IsHeld r o e s.clock h done l other

  Reach-IsHeld :
      {s t : System}
      → IsHeld r o e s.clock s.memory
      → Reach state_key r o e s t
      → IsHeld r o e t.clock t.memory
  Reach-IsHeld h here = h
  Reach-IsHeld h (after path step) = Step-IsHeld step (Reach-IsHeld h path)

later_lem : (now ttl : ℤ) → leb_ℤ ttl (pos 0) ≡ false → ltb_ℤ now (now +ℤ ttl) ≡ true
unfolding ◌+ℤ◌
later_lem now ttl h = ground arith

last_false : (a b c : Bool) → (a || b || c) ≡ false → c ≡ false
last_false a b c h = ground arith

cleanup-AreUnique : (now : ℤ) (c : Memory) → AreUnique c.leases → AreUnique (cleanup now c).leases
unfolding cleanup
cleanup-AreUnique now c u = retain-AreUnique _ c.leases u

-- What a granted lease leaves behind.
granted-IsHeld :
    (r o : Text) (ttl now : ℤ) (c : Memory) (lease : Lease)
    → AreUnique c.leases
    → (acquire false r o ttl now c).0 ≡ success lease
    → IsHeld r o (now +ℤ ttl) now (acquire false r o ttl now c).1
unfolding acquire
granted-IsHeld r o ttl now c lease u g =
    elim (Bool-cases (is_empty r || is_empty o || leb_ℤ ttl (pos 0))) [
      | inl v ↦ absurd (cc (rw v at g))
      | inr v ↦ elim (Bool-cases (is_live (lookup r (cleanup now c).leases) now)) [
        | inl l ↦ absurd (cc (rw (v, l) at g))
        | inr l ↦
            rw (v, l)
              (record {
                unique = insert-AreUnique r _ (cleanup now c).leases (cleanup-AreUnique now c u);
                entry = lookup-insert r r _ (cleanup now c).leases ∙ (rw (text_eq_refl r));
                early = later_lem now ttl (last_false (is_empty r) (is_empty o) _ v);
              })
      ]
    ]

-- Once a lease is granted, and whatever others do until it expires, no one gets the resource.
pub acquire-IsExclusive :
    (state_key : Text → Text) (r o : Text) (ttl now : ℤ) (c : Memory) (lease : Lease) {t : System}
    → AreUnique c.leases
    → (acquire false r o ttl now c).0 ≡ success lease
    → Reach state_key r o
        (now +ℤ ttl)
        (record { clock = now; memory = (acquire false r o ttl now c).1 })
        t
    → (rival : Text) (time : ℤ) → (is_empty r || is_empty rival || leb_ℤ time (pos 0)) ≡ false
    → (acquire false r rival time t.clock t.memory).0 ≡ failure lease_busy
acquire-IsExclusive state_key r o ttl now c lease {t} u g path rival time v =
    ap (λ x. x.0)
      (acquire-busy r o (now +ℤ ttl) t.clock
        (Reach-IsHeld state_key r o (now +ℤ ttl) (granted-IsHeld r o ttl now c lease u g) path)
        rival time v)
