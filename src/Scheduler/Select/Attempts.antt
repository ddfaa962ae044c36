-- ===== src/Scheduler/Select/Attempts.antt =====
-- The loops of Select over candidates and slots: whose lease it is that they end with.
use mathlib.Core.List.{Mem, mem-cons_self, mem-cons_of_mem}
use bablo.Prelude.{
  ℕ, zero, suc, ◌+◌, ◌<◌, pos_part, Option, none, some, List, [], ◌∷◌, ◌++◌, ◌≡◌, subst, Text, itoa,
  Bool-cases, inl, inr, arith,
}
use bablo.Scheduler.Model.{
  Outcome, failure, success, concurrency_lease_busy, Decision, PoolMember, Candidate, Lease,
  Outcome-cases, Yields,
}
use bablo.Scheduler.Ports.{Ports, Options}
use bablo.Scheduler.Ordering.{colon}
use bablo.Scheduler.Select.{
  Attempt, leased, broken, exhausted, is_busy, acquire_slot, acquire_item, acquire_any, give_up,
}

module _ {S : Type 0} (ports : Ports S) (options : Options) where
  -- The coordinator granted the lease for a slot of the member, and one that the member has.
  pub record IsGranted (member : PoolMember) (lease : Lease) : Type 0 where
    pub slot : ℕ
    pub owner : Text
    pub state : S
    pub in_capacity : slot < pos_part member.max_concurrency
    pub granted :
        (ports.acquire
          (ports.uuid_text member.credential_id ++ (colon ++ itoa slot))
          owner
          options.lease_ttl
          state).0
        ≡ success lease

  -- What the slots that are tried end with.
  abbrev SlotGranted : Text → Text → ℕ → Option Lease → Type 0
  SlotGranted key owner end none = Unit
  SlotGranted key owner end (some lease) =
      (slot : ℕ) × (state : S) × (slot < end)
      × ((ports.acquire (key ++ (colon ++ itoa slot)) owner options.lease_ttl state).0
          ≡ success lease)

  acquire_slot-granted :
      (key owner : Text) (slot left : ℕ) (s : S)
      → Yields
          (SlotGranted key owner (slot + left))
          (acquire_slot ports options key owner slot left s).0
  unfolding acquire_slot
  acquire_slot-granted key owner slot zero s = tt
  acquire_slot-granted key owner slot (suc left) s =
      elim (Outcome-cases
        (ports.acquire (key ++ (colon ++ itoa slot)) owner options.lease_ttl s).0) [
          | inr (lease, h) ↦ rw (h, acquire_slot) (slot, s, omega arith, h)
          | inl (e, h) ↦ elim (Bool-cases (is_busy e)) [
            | inl b ↦
                rw (h, b, acquire_slot)
                  (subst
                    (λ end.
                      Yields (SlotGranted key owner end)
                        (acquire_slot ports options key owner (suc slot) left
                          (ports.acquire (key ++ (colon ++ itoa slot)) owner options.lease_ttl
                            s).1).0)
                    (omega arith) (acquire_slot-granted key owner (suc slot) left _))
            | inr b ↦ rw (h, b, acquire_slot) tt
          ]
        ]

  abbrev ItemGranted : Candidate → Option Lease → Type 0
  ItemGranted item none = Unit
  ItemGranted item (some lease) = IsGranted item.member lease

  item_granted :
      (owner : Text) (item : Candidate) (found : Outcome (Option Lease))
      → Yields
          (SlotGranted
            (ports.uuid_text item.member.credential_id)
            owner
            (pos_part item.member.max_concurrency))
          found
      → Yields (ItemGranted item) found
  item_granted owner item (failure e) h = tt
  item_granted owner item (success none) h = tt
  item_granted owner item (success (some lease)) (slot, state, bound, g) = record {
    slot = slot;
    owner = owner;
    state = state;
    in_capacity = bound;
    granted = g;
  }

  acquire_item-granted :
      (owner : Text) (item : Candidate) (s : S)
      → Yields (ItemGranted item) (acquire_item ports options owner item s).0
  unfolding acquire_item
  acquire_item-granted owner item s =
      let key = ports.uuid_text item.member.credential_id in
      let capacity = pos_part item.member.max_concurrency in
      item_granted owner item _ (
        subst
          (λ end.
            Yields (SlotGranted key owner end)
              (acquire_slot ports options key owner 0 capacity s).0)
          (omega arith) (acquire_slot-granted key owner 0 capacity s))

  -- An attempt that ends with a lease ends with a candidate of the list.
  abbrev pub EndsWell : List Candidate → Attempt → Type 0
  EndsWell items (broken e d) = Unit
  EndsWell items (exhausted d) = Unit
  EndsWell items (leased item lease d) = Mem item items × IsGranted item.member lease

  EndsWell-later :
      (i : Candidate) (items : List Candidate) (a : Attempt)
      → EndsWell items a
      → EndsWell (i ∷ items) a
  EndsWell-later i items (broken e d) h = tt
  EndsWell-later i items (exhausted d) h = tt
  EndsWell-later i items (leased item lease d) h = (mem-cons_of_mem i h.0, h.1)

  pub acquire_any-EndsWell :
      (owner : Text) (items : List Candidate) (d : Decision) (s : S)
      → EndsWell items (acquire_any ports options owner items d s).0
  unfolding acquire_any
  acquire_any-EndsWell owner [] d s = tt
  acquire_any-EndsWell owner (item ∷ items) d s =
      elim (Outcome-cases (acquire_item ports options owner item s).0) [
        | inl (e, h) ↦ rw (h, acquire_any) tt
        | inr (none, h) ↦
            rw (h, acquire_any)
              (EndsWell-later item items _
                (acquire_any-EndsWell owner items (give_up item concurrency_lease_busy d) _))
        | inr (some lease, h) ↦
            rw (h, acquire_any)
              (
                mem-cons_self,
                subst (Yields (ItemGranted item)) h (acquire_item-granted owner item s),
              )
      ]
