-- ===== src/Scheduler/Select/Success.antt =====
-- When Select succeeds.
use mathlib.Core.List.Perm
use mathlib.Core.List.{Mem, Perm, not-mem-nil}
use bablo.Prelude.{
  true, Option, none, some, List, [], ◌∷◌, ◌≡◌, refl, sym, subst, Text, is_empty, Bool-cases, inl,
  inr,
}
use bablo.Scheduler.Model.{
  Uuid, Error, Outcome, failure, success, Target, Request, Decision, PoolMember, Candidate, Lease,
}
use bablo.Scheduler.Ports.{Ports, Options}
use bablo.Scheduler.Normalize.{normalize_request}
use bablo.Scheduler.Normalize.Idempotence.{normalize_request→Passes}
use bablo.Scheduler.Eligibility.{target_eligibility_reasons}
use bablo.Scheduler.Gather.{Gathered, nothing_gathered, is_nil, gather_pool, gather_target, gather}
use bablo.Scheduler.Ordering.{Ordered}
use bablo.Scheduler.Ordering.Soundness.{order_candidates-IsByPriority}
use bablo.Scheduler.Select.{
  Attempt, leased, broken, exhausted, chosen_decision, keep_affinity, conclude, after_attempts,
  try_ordered, scoped_affinity_key, read_affinity, bound_by, note_unread, select_among,
  select_eligible, select_gathered, select_normal, select,
}
use bablo.Scheduler.Select.Turns.{order_candidates-Serves}
use bablo.Scheduler.Select.Answers.{
  is_success, success_of, is_leased, is_known, known, IsHealthy, IsFree, Serves, acquire_any-leases,
}

module _ {S : Type 0} (ports : Ports S) (options : Options) where
  module _ (Calm : S → Type 0) (healthy : IsHealthy ports options Calm) where
    conclude-succeeds :
        (request : Request) (key : Text) (item : Candidate) (lease : Lease) (d : Decision) (s : S)
        → is_success (conclude ports options request key item lease d s).0.outcome ≡ true
    unfolding conclude
    conclude-succeeds request key item lease d s =
        let kept = keep_affinity ports options key item (chosen_decision ports options item d) s in
        let (u, h) = success_of _ (healthy.records request kept.0 kept.1) in rw (h, conclude) refl

    after_attempts-succeeds :
        (request : Request) (key : Text) (a : Attempt) (s : S)
        → is_leased a ≡ true
        → is_success (after_attempts ports options request key (a, s)).0.outcome ≡ true
    unfolding after_attempts
    after_attempts-succeeds request key (leased item lease d) s h =
        conclude-succeeds request key item lease d s
    after_attempts-succeeds request key (broken e d) s h = absurd (cc h)
    after_attempts-succeeds request key (exhausted d) s h = absurd (cc h)

    try_ordered-succeeds :
        (request : Request) (key : Text) (bound : Option Uuid) (d : Decision) (r : Outcome Ordered)
        (s : S) (eligible : List Candidate) (c : Candidate)
        → Serves ports options Calm healthy (r, s)
        → ((o : Ordered) → r ≡ success o → Perm o.candidates eligible)
        → IsFree ports options Calm c
        → Mem c eligible
        → is_success (try_ordered ports options request key bound d (r, s)).0.outcome ≡ true
    unfolding try_ordered
    try_ordered-succeeds request key bound d (failure e) s eligible c h p f m = absurd (cc h.0)
    try_ordered-succeeds request key bound d (success o) s eligible c h p f m =
        let (named, calm) = healthy.mints s h.1 in
        after_attempts-succeeds request key _ _ (
          acquire_any-leases ports options Calm healthy (ports.new_owner s).0 o.candidates _
            (ports.new_owner s).1 c named calm f ((Perm.mem_iff (p o refl)).1 m))

    reads_affinity : (key : Text) (s : S) → Calm s → Calm (read_affinity ports options key s).1
    reads_affinity key s c = elim (Bool-cases (is_empty key)) [
      | inl e ↦ rw (e, read_affinity) c
      | inr e ↦ rw (e, read_affinity) (healthy.reads key s c)
    ]

    select_among-succeeds :
        (request : Request) (eligible : List Candidate) (d : Decision) (s : S) (c : Candidate)
        → is_known request.strategy ≡ true
        → Calm s
        → IsFree ports options Calm c
        → Mem c eligible
        → is_success (select_among ports options request eligible d s).0.outcome ≡ true
    unfolding select_among
    select_among-succeeds request eligible d s c k calm f m =
        let key = scoped_affinity_key ports options request in
        let calm' = reads_affinity key s calm in
        let (r, s') = read_affinity ports options key s in
        try_ordered-succeeds request key (bound_by ports options r) (note_unread ports options r d)
          _ _ eligible c
          (order_candidates-Serves ports options Calm healthy request k eligible
            (bound_by ports options r) s' calm')
          (λ o h.
            (order_candidates-IsByPriority ports options request eligible (bound_by ports options r)
              s' o h).0)
          f m

    select_eligible-succeeds :
        (request : Request) (eligible : List Candidate) (d : Decision) (s : S) (c : Candidate)
        → is_known request.strategy ≡ true
        → Calm s
        → IsFree ports options Calm c
        → Mem c eligible
        → is_success (select_eligible ports options request eligible d s).0.outcome ≡ true
    unfolding select_eligible
    select_eligible-succeeds request [] d s c k calm f m = absurd (not-mem-nil m)
    select_eligible-succeeds request (e ∷ es) d s c k calm f m =
        select_among-succeeds request (e ∷ es) d s c k calm f m

    gather_pool-answers :
        (request : Request) (t : Target) (g : Gathered) (o : Outcome (List PoolMember))
        → is_success o ≡ true
        → is_success (gather_pool request t g o) ≡ true
    unfolding gather_pool
    gather_pool-answers request t g (failure e) h = h
    gather_pool-answers request t g (success []) h = refl
    gather_pool-answers request t g (success (m ∷ ms)) h = refl

    gather_target-answers :
        (request : Request) (t : Target) (g : Gathered) (s : S)
        → Calm s
        → is_success (gather_target ports request t g s) ≡ true
    unfolding gather_target
    gather_target-answers request t g s c =
        elim (Bool-cases
          (is_nil (target_eligibility_reasons t request.protocol request.required_capabilities))) [
            | inl n ↦
                rw (n, gather_target) (gather_pool-answers request t g _ (healthy.loads _ _ _ s c))
            | inr n ↦ rw (n, gather_target) refl
          ]

    gather-answers :
        (request : Request) (ts : List Target) (g : Gathered) (s : S)
        → Calm s
        → (gather ports request ts g s).1 ≡ none
    unfolding gather
    gather-answers request [] g s c = refl
    gather-answers request (t ∷ ts) g s c =
        let (g', h) = success_of _ (gather_target-answers request t g s c) in
        rw (h, gather) (gather-answers request ts g' s c)

    gathered_succeeds :
        (request : Request) (g : Gathered) (e : Option Error) (s : S) (c : Candidate)
        → e ≡ none
        → is_known request.strategy ≡ true
        → Calm s
        → IsFree ports options Calm c
        → Mem c g.eligible
        → is_success (select_gathered ports options request (g, e) s).0.outcome ≡ true
    unfolding select_gathered
    gathered_succeeds request g (some e) s c h k calm f m = absurd (cc h)
    gathered_succeeds request g none s c h k calm f m =
        select_eligible-succeeds request g.eligible _ s c k calm f m

  -- In a state of a kind in which the coordinator and the repository answer, and which lasts while
  -- leases are refused as busy: a request with a normal form of which one eligible candidate has a
  -- slot that is granted in every such state is served, by any strategy.
  pub select-succeeds :
      (Calm : S → Type 0) (request normal : Request) (s : S) (c : Candidate)
      → IsHealthy ports options Calm
      → Calm s
      → normalize_request options.quota_max_age (ports.current s) request ≡ success normal
      → Mem c (gather ports normal normal.resolution.candidates nothing_gathered s).0.eligible
      → IsFree ports options Calm c
      → is_success (select ports options request s).0.outcome ≡ true
  unfolding select select_normal
  select-succeeds Calm request normal s c healthy calm n m f =
      let (strategy, quota, p, e) = normalize_request→Passes _ _ request normal n in
      let k : is_known normal.strategy ≡ true =
        subst (λ (r : Request). is_known r.strategy ≡ true) (sym e) (known _ _ p.strategy_is) in
      subst (λ o. is_success (select_normal ports options o s).0.outcome ≡ true) (sym n)
        (gathered_succeeds Calm healthy normal _ _ s c
          (gather-answers Calm healthy normal _ _ s calm) k calm f m)
