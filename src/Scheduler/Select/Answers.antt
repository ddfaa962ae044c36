-- ===== src/Scheduler/Select/Answers.antt =====
-- The loops of Select under a coordinator that answers: they are not broken, and find a free slot.
use mathlib.Core.Logic.Or
use mathlib.Core.List.{Mem, Mem-prop, mem-cons, not-mem-nil}
use bablo.Prelude.{
  ℕ, zero, suc, ◌+◌, ◌<◌, ℤ, pos_part, Bool, true, false, Option, none, some, List, [], ◌∷◌, ◌++◌,
  ◌≡◌, ◌⊎◌, ◌≤ℤ◌, pos, refl, subst, Text, itoa, is_empty, inl, inr, arith,
}
use bablo.Scheduler.Model.{
  Error, Uuid, Outcome, failure, success, Strategy, round_robin, weighted_round_robin, fill_first,
  quota_aware, unset, unknown, QuotaPolicy, Request, Decision, Candidate, Lease,
}
use bablo.Scheduler.Ports.{Ports, Options}
use bablo.Scheduler.Normalize.{default_strategy}
use bablo.Scheduler.Ordering.{colon}
use bablo.Scheduler.Select.{
  Attempt, leased, broken, exhausted, is_busy, acquire_slot, acquire_item, acquire_any,
}

abbrev pub is_success {ℓ} : {A : Type ℓ} → Outcome A → Bool
is_success (failure e) = false
is_success (success a) = true

pub success_of {ℓ} : {A : Type ℓ} (o : Outcome A) → is_success o ≡ true → (a : A) × (o ≡ success a)
success_of (failure e) h = absurd (cc h)
success_of (success a) h = (a, refl)

abbrev pub is_leased : Attempt → Bool
is_leased (leased item lease d) = true
is_leased (broken e d) = false
is_leased (exhausted d) = false

abbrev pub is_refusal : Outcome Lease → Bool
is_refusal (success lease) = false
is_refusal (failure e) = is_busy e

-- A strategy that normalizeRequest lets through.
abbrev pub is_known : Strategy → Bool
is_known unset = false
is_known (unknown name) = false
is_known round_robin = true
is_known weighted_round_robin = true
is_known fill_first = true
is_known quota_aware = true

pub known : (s t : Strategy) → default_strategy s ≡ some t → is_known t ≡ true
known unset t h = ground arith
known round_robin t h = ground arith
known weighted_round_robin t h = ground arith
known fill_first t h = ground arith
known quota_aware t h = ground arith
known (unknown name) t h = absurd (cc h)

pub text-filled : (t u : Text) → is_empty (t ++ (colon ++ u)) ≡ false
text-filled [] u = refl
text-filled (c ∷ t) u = refl

module _ {S : Type 0} (ports : Ports S) (options : Options) where
  -- A kind of states in which what Select calls is answered: the members of pools are loaded, an
  -- owner is no empty text, a cursor with a key turns over a positive count, a lease for a resource
  -- and an owner is granted or refused as busy, and a decision is recorded. A state stays of the
  -- kind until a lease is granted.
  pub record IsHealthy (Calm : S → Type 0) : Type 0 where
    pub loads :
        (pool : Uuid) (quota : QuotaPolicy) (model : Text) (s : S)
        → Calm s
        → is_success (ports.load_pool_members pool quota model s) ≡ true
    pub mints :
        (s : S) → Calm s → (is_empty (ports.new_owner s).0 ≡ false) × Calm (ports.new_owner s).1
    pub reads : (key : Text) (s : S) → Calm s → Calm (ports.get_affinity key s).1
    pub turns :
        (key : Text) (modulo : ℤ) (s : S)
        → is_empty key ≡ false
        → pos 1 ≤ℤ modulo
        → Calm s
        → (is_success (ports.next key modulo options.cursor_ttl s).0 ≡ true)
          × Calm (ports.next key modulo options.cursor_ttl s).1
    pub answers :
        (resource owner : Text) (s : S)
        → is_empty resource ≡ false
        → is_empty owner ≡ false
        → Calm s
        → (is_success (ports.acquire resource owner options.lease_ttl s).0 ≡ true)
          ⊎ ((is_refusal (ports.acquire resource owner options.lease_ttl s).0 ≡ true)
              × Calm (ports.acquire resource owner options.lease_ttl s).1)
    pub records :
        (request : Request) (decision : Decision) (s : S)
        → is_success (ports.record_decision request decision s).0 ≡ true

  abbrev pub slot_key : Candidate → ℕ → Text
  slot_key c slot = ports.uuid_text c.member.credential_id ++ (colon ++ itoa slot)

  -- One of the slots of the candidate is granted to whoever asks for it in such a state.
  pub record IsFree (Calm : S → Type 0) (c : Candidate) : Type 0 where
    pub slot : ℕ
    pub in_capacity : slot < pos_part c.member.max_concurrency
    pub free :
        (owner : Text) (s : S)
        → is_empty owner ≡ false
        → Calm s
        → is_success (ports.acquire (slot_key c slot) owner options.lease_ttl s).0 ≡ true

  module _ (Calm : S → Type 0) (healthy : IsHealthy Calm) where
    abbrev pub Serves : {A : Type 0} → Outcome A × S → Type 0
    Serves r = (is_success r.0 ≡ true) × Calm r.1

    -- A lease is found, or none, in a state of the kind.
    abbrev Ends : Outcome (Option Lease) × S → Type 0
    Ends r = ((l : Lease) × (r.0 ≡ success (some l))) ⊎ ((r.0 ≡ success none) × Calm r.1)

    -- A request for a lease is granted, or refused as busy in a state of the kind.
    abbrev Granted : Outcome Lease × S → Type 0
    Granted r =
        ((l : Lease) × (r.0 ≡ success l))
        ⊎ ((e : Error) × (r.0 ≡ failure e) × (is_busy e ≡ true) × Calm r.1)

    refused :
        (o : Outcome Lease)
        → is_refusal o ≡ true
        → (e : Error) × (o ≡ failure e) × (is_busy e ≡ true)
    refused (success l) h = absurd (cc h)
    refused (failure e) h = (e, refl, h)

    asks :
        (key owner : Text) (slot : ℕ) (s : S)
        → is_empty owner ≡ false
        → Calm s
        → Granted (ports.acquire (key ++ (colon ++ itoa slot)) owner options.lease_ttl s)
    asks key owner slot s o c =
        elim (healthy.answers (key ++ (colon ++ itoa slot)) owner s (text-filled key (itoa slot)) o
          c) [
            | inl h ↦ inl (success_of _ h)
            | inr (h, c') ↦ let (e, f, b) = refused _ h in inr (e, f, b, c')
          ]

    acquire_slot-Ends :
        (key owner : Text) (slot left : ℕ) (s : S)
        → is_empty owner ≡ false
        → Calm s
        → Ends (acquire_slot ports options key owner slot left s)
    unfolding acquire_slot
    acquire_slot-Ends key owner slot zero s o c = inr (refl, c)
    acquire_slot-Ends key owner slot (suc left) s o c = elim (asks key owner slot s o c) [
      | inl (l, h) ↦ rw (h, acquire_slot) (inl (l, refl))
      | inr (e, h, b, c') ↦
          rw (h, b, acquire_slot) (acquire_slot-Ends key owner (suc slot) left _ o c')
    ]

    acquire_slot-finds :
        (key owner : Text) (slot ahead left : ℕ) (s : S)
        → is_empty owner ≡ false
        → Calm s
        → ahead < left
        → ((s' : S)
            → Calm s'
            → is_success
                (ports.acquire (key ++ (colon ++ itoa (slot + ahead))) owner options.lease_ttl s').0
              ≡ true)
        → (l : Lease) × ((acquire_slot ports options key owner slot left s).0 ≡ success (some l))
    unfolding acquire_slot
    acquire_slot-finds key owner slot ahead zero s o c h free = absurd (omega arith)
    acquire_slot-finds key owner slot zero (suc left) s o c h free =
        let granted : is_success
              (ports.acquire (key ++ (colon ++ itoa slot)) owner options.lease_ttl s).0
            ≡ true =
          subst
            (λ n.
              is_success (ports.acquire (key ++ (colon ++ itoa n)) owner options.lease_ttl s).0
              ≡ true)
            (omega arith) (free s c) in
        let (l, e) = success_of _ granted in (l, rw (e, acquire_slot) refl)
    acquire_slot-finds key owner slot (suc ahead) (suc left) s o c h free =
        elim (asks key owner slot s o c) [
          | inl (l, e) ↦ (l, rw (e, acquire_slot) refl)
          | inr (f, e, b, c') ↦
              rw (e, b, acquire_slot)
                (acquire_slot-finds key owner (suc slot) ahead left _ o c' (omega arith) (λ s' d.
                  subst
                    (λ n.
                      is_success
                        (ports.acquire (key ++ (colon ++ itoa n)) owner options.lease_ttl s').0
                      ≡ true)
                    (omega arith) (free s' d)))
        ]

    item-finds :
        (owner : Text) (s : S) (c : Candidate)
        → is_empty owner ≡ false
        → Calm s
        → IsFree Calm c
        → (l : Lease) × ((acquire_item ports options owner c s).0 ≡ success (some l))
    unfolding acquire_item
    item-finds owner s c o calm f =
        acquire_slot-finds (ports.uuid_text c.member.credential_id) owner 0 f.slot
          (pos_part c.member.max_concurrency) s o calm f.in_capacity
          (λ s' d.
            subst
              (λ n. is_success (ports.acquire (slot_key c n) owner options.lease_ttl s').0 ≡ true)
              (omega arith) (f.free owner s' o d))

    pub acquire_any-leases :
        (owner : Text) (items : List Candidate) (d : Decision) (s : S) (c : Candidate)
        → is_empty owner ≡ false
        → Calm s
        → IsFree Calm c
        → Mem c items
        → is_leased (acquire_any ports options owner items d s).0 ≡ true
    unfolding acquire_any acquire_item
    acquire_any-leases owner [] d s c o calm f m = absurd (not-mem-nil m)
    acquire_any-leases owner (i ∷ items) d s c o calm f m =
        elim (acquire_slot-Ends (ports.uuid_text i.member.credential_id) owner 0
          (pos_part i.member.max_concurrency) s o calm) [
            | inl (l, h) ↦ rw (h, acquire_any) refl
            | inr (h, calm') ↦
                rw (h, acquire_any)
                  (acquire_any-leases owner items _ _ c o calm' f (
                    Or.elim Mem-prop (mem-cons.0 m)
                      (λ e.
                        let (l, found) = item-finds owner s c o calm f in
                        absurd (
                          cc (
                            subst (λ x. (acquire_item ports options owner x s).0 ≡ success (some l))
                                e found,
                            h,
                          )))
                      (λ n. n)))
          ]
