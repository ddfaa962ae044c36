-- ===== src/Scheduler/Gather/Facts.antt =====
-- A candidate that is gathered as eligible is one of the route's targets with a member of its pool,
-- and no test speaks against either.
use mathlib.Core.Logic.Or
use mathlib.Core.List.{Mem, mem-cons, not-mem-nil, mem-cons_self, mem-cons_of_mem, Mem-prop}
use bablo.Prelude.{true, List, [], ◌∷◌, ◌++◌, ◌≡◌, refl, sym, subst, All, Bool-cases, inl, inr}
use bablo.Scheduler.Model.{
  Outcome, failure, success, Target, Request, PoolMember, Candidate, Outcome-cases, Yields,
}
use bablo.Scheduler.Ports.{Ports}
use bablo.Scheduler.Eligibility.{target_eligibility_reasons, member_eligibility_reasons}
use bablo.Scheduler.Gather.{
  Gathered, refuse, is_nil, candidate_of, gather_member, gather_members, gather_pool, pool_of,
  gather_target, gather,
}

-- The member is one of the pool's, which could be loaded.
abbrev pub IsIn : PoolMember → Outcome (List PoolMember) → Type 0
IsIn member (failure e) = ⊥
IsIn member (success pool) = Mem member pool

abbrev pub ServesTarget : Request → Target → Type 0
ServesTarget request target =
    is_nil (target_eligibility_reasons target request.protocol request.required_capabilities) ≡ true

module _ {S : Type 0} (ports : Ports S) (request : Request) (targets : List Target) (s : S) where
  pub record Fits (c : Candidate) : Type 0 where
    pub target_listed : Mem c.target targets
    pub in_pool : IsIn c.member (pool_of ports request c.target s)
    pub serves : ServesTarget request c.target
    pub usable : is_nil (member_eligibility_reasons c.member request) ≡ true

  IsIn-prop : (m : PoolMember) (o : Outcome (List PoolMember)) → IsProp (IsIn m o)
  IsIn-prop m (failure e) = hlevel
  IsIn-prop m (success pool) = hlevel (Mem-prop)

  pub Fits-prop : (c : Candidate) → IsProp (Fits c)
  Fits-prop c = hlevel (Mem-prop, IsIn-prop)

  pub Fits-of_mem : (c : Candidate) (cs : List Candidate) → All Fits cs → Mem c cs → Fits c
  Fits-of_mem c [] h m = absurd (not-mem-nil m)
  Fits-of_mem c (d ∷ cs) h m =
      Or.elim (Fits-prop c) (mem-cons.0 m) (λ e. subst Fits (sym e) h.0) (Fits-of_mem c cs h.1)

  All-snoc : (cs : List Candidate) (c : Candidate) → All Fits cs → Fits c → All Fits (cs ++ c ∷ [])
  All-snoc [] c h k = (k, tt)
  All-snoc (d ∷ cs) c h k = (h.0, All-snoc cs c h.1 k)

  module _ (target : Target) (listed : Mem target targets) (serves : ServesTarget request target)
      (pool : List PoolMember) (loaded : pool_of ports request target s ≡ success pool) where
    gather_member-Fits :
        (g : Gathered) (m : PoolMember)
        → Mem m pool
        → All Fits g.eligible
        → All Fits (gather_member request target g m).eligible
    unfolding gather_member
    gather_member-Fits g m i h = elim (Bool-cases (is_nil (member_eligibility_reasons m request))) [
      | inl u ↦ rw u (
          All-snoc g.eligible (candidate_of g target m) h (record {
            target_listed = listed;
            in_pool = subst (IsIn m) (sym loaded) i;
            serves = serves;
            usable = u;
          }))
      | inr u ↦ rw u h
    ]

    gather_members-Fits :
        (ms : List PoolMember) (g : Gathered)
        → ((m : PoolMember) → Mem m ms → Mem m pool)
        → All Fits g.eligible
        → All Fits (gather_members request target g ms).eligible
    unfolding gather_members
    gather_members-Fits [] g i h = h
    gather_members-Fits (m ∷ ms) g i h =
        gather_members-Fits ms (gather_member request target g m) (λ n k. i n (mem-cons_of_mem m k))
          (gather_member-Fits g m (i m mem-cons_self) h)

  gather_pool-Fits :
      (target : Target) (g : Gathered) (o : Outcome (List PoolMember))
      → Mem target targets
      → ServesTarget request target
      → pool_of ports request target s ≡ o
      → All Fits g.eligible
      → Yields (λ g'. All Fits g'.eligible) (gather_pool request target g o)
  unfolding refuse gather_pool
  gather_pool-Fits target g (failure e) l t p h = tt
  gather_pool-Fits target g (success []) l t p h = h
  gather_pool-Fits target g (success (m ∷ ms)) l t p h =
      gather_members-Fits target l t (m ∷ ms) p (m ∷ ms) g (λ n k. k) h

  gather_target-Fits :
      (target : Target) (g : Gathered)
      → Mem target targets
      → All Fits g.eligible
      → Yields (λ g'. All Fits g'.eligible) (gather_target ports request target g s)
  unfolding gather_target refuse
  gather_target-Fits target g l h =
      elim (Bool-cases (
        is_nil
          (target_eligibility_reasons target request.protocol request.required_capabilities))) [
            | inl t ↦ rw t (gather_pool-Fits target g _ l t refl h)
            | inr t ↦ rw t h
          ]

  pub gather-Fits :
      (ts : List Target) (g : Gathered)
      → ((t : Target) → Mem t ts → Mem t targets)
      → All Fits g.eligible
      → All Fits (gather ports request ts g s).0.eligible
  unfolding gather
  gather-Fits [] g l h = h
  gather-Fits (t ∷ ts) g l h = elim (Outcome-cases (gather_target ports request t g s)) [
    | inl (e, k) ↦ rw (k, gather) h
    | inr (g', k) ↦
        rw (k, gather)
          (gather-Fits ts g' (λ u m. l u (mem-cons_of_mem t m))
            (subst (Yields (λ (x : Gathered). All Fits x.eligible)) k
              (gather_target-Fits t g (l t mem-cons_self) h)))
  ]
