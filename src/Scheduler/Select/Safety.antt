-- ===== src/Scheduler/Select/Safety.antt =====
-- What a successful Select promises.
use mathlib.Core.List.{Mem, Perm}
use mathlib.Core.List.Perm
use bablo.Prelude.{
  true, Option, none, some, List, [], ◌∷◌, ◌≡◌, refl, sym, subst, Text, is_empty, Bool-cases, inl,
  inr,
}
use bablo.Scheduler.Model.{
  Uuid, Error, no_eligible, Outcome, failure, success, Reason, Request, Decision, Candidate, Lease,
  Outcome-cases, Yields,
}
use bablo.Scheduler.Ports.{Ports, Options}
use bablo.Scheduler.Normalize.{normalize_request}
use bablo.Scheduler.Eligibility.Meaning.{
  IsServable, IsUsable, target_reasons_iff, member_reasons_iff,
}
use bablo.Scheduler.Gather.{Gathered, nothing_gathered, gather, is_nil, pool_of}
use bablo.Scheduler.Gather.Facts.{IsIn, Fits-of_mem, gather-Fits}
use bablo.Scheduler.Ordering.{Ordered}
use bablo.Scheduler.Ordering.Soundness.{order_candidates-IsByPriority}
use bablo.Scheduler.Select.{
  Chosen, Reply, Attempt, leased, broken, exhausted, record_failure, keep_affinity, chosen_decision,
  conclude, after_attempts, try_ordered, select_among, select_eligible, select_gathered,
  select_normal, select, scoped_affinity_key, read_affinity, bound_by,
}
use bablo.Scheduler.Select.Attempts.{IsGranted, EndsWell, acquire_any-EndsWell}

Yields-of_eq :
    {A : Type 0} (P : A → Type 0) (o : Outcome A) → ((a : A) → o ≡ success a → P a) → Yields P o
Yields-of_eq P (failure e) h = tt
Yields-of_eq P (success a) h = h a refl

is_nil→eq : (rs : List Reason) → is_nil rs ≡ true → rs ≡ []
is_nil→eq [] h = refl
is_nil→eq (r ∷ rs) h = absurd (cc h)

module _ {S : Type 0} (ports : Ports S) (options : Options) where
  -- The choice is one of the candidates, under a lease of its own, and is recorded as it is returned.
  pub record IsOf (request : Request) (eligible : List Candidate) (decision : Decision)
      (chosen : Chosen) : Type 0 where
    pub item : Candidate
    pub listed : Mem item eligible
    pub target_is : chosen.target ≡ item.target
    pub credential_is : chosen.credential_id ≡ item.member.credential_id
    pub granted : IsGranted ports options item.member chosen.lease
    pub state : S
    pub recorded : (ports.record_decision request decision state).0 ≡ success tt
    pub names_target : decision.selected_target_id ≡ some chosen.target.id
    pub names_credential : decision.selected_credential_id ≡ some chosen.credential_id

  abbrev IsGood : Request → List Candidate → Reply → Type 0
  IsGood request eligible reply = Yields (IsOf request eligible reply.decision) reply.outcome

  record_failure-IsGood :
      (request : Request) (eligible : List Candidate) (decision : Decision) (e : Error) (s : S)
      → IsGood request eligible (record_failure ports options request decision e s).0
  unfolding record_failure
  record_failure-IsGood request eligible decision e s =
      elim (Outcome-cases (ports.record_decision request decision s).0) [
        | inl (f, h) ↦ rw (h, record_failure) tt
        | inr (u, h) ↦ rw (h, record_failure) tt
      ]

  -- Keeping the affinity does not change what is chosen.
  keep_affinity-selected :
      (key : Text) (item : Candidate) (d : Decision) (s : S)
      → ((keep_affinity ports options key item d s).0.selected_target_id ≡ d.selected_target_id)
        × ((keep_affinity ports options key item d s).0.selected_credential_id
            ≡ d.selected_credential_id)
  unfolding keep_affinity
  keep_affinity-selected key item d s = elim (Bool-cases (is_empty key)) [
    | inl e ↦ rw e (refl, refl)
    | inr e ↦
        elim (Outcome-cases
          (ports.set_affinity key item.member.credential_id options.affinity_ttl s).0) [
            | inl (f, h) ↦ rw (e, h) (refl, refl)
            | inr (u, h) ↦ rw (e, h) (refl, refl)
          ]
  ]

  conclude-IsGood :
      (request : Request) (eligible : List Candidate) (key : Text) (item : Candidate)
      (lease : Lease) (d : Decision) (s : S)
      → Mem item eligible
      → IsGranted ports options item.member lease
      → IsGood request eligible (conclude ports options request key item lease d s).0
  unfolding conclude
  conclude-IsGood request eligible key item lease d s m g =
      let kept = keep_affinity ports options key item (chosen_decision ports options item d) s in
      elim (Outcome-cases (ports.record_decision request kept.0 kept.1).0) [
        | inl (f, h) ↦ rw (h, conclude) tt
        | inr (u, h) ↦
            rw (h, conclude)
              (record {
                item = item;
                listed = m;
                target_is = refl;
                credential_is = refl;
                granted = g;
                state = kept.1;
                recorded = h;
                names_target =
                    (keep_affinity-selected key item (chosen_decision ports options item d) s).0;
                names_credential =
                    (keep_affinity-selected key item (chosen_decision ports options item d) s).1;
              })
      ]

  after_attempts-IsGood :
      (request : Request) (eligible items : List Candidate) (key : Text) (a : Attempt) (s : S)
      → Perm items eligible
      → EndsWell ports options items a
      → IsGood request eligible (after_attempts ports options request key (a, s)).0
  unfolding after_attempts
  after_attempts-IsGood request eligible items key (leased item lease d) s p h =
      conclude-IsGood request eligible key item lease d s ((Perm.mem_iff p).0 h.0) h.1
  after_attempts-IsGood request eligible items key (broken e d) s p h =
      record_failure-IsGood request eligible d e s
  after_attempts-IsGood request eligible items key (exhausted d) s p h =
      record_failure-IsGood request eligible d no_eligible s

  try_ordered-IsGood :
      (request : Request) (eligible : List Candidate) (key : Text) (bound : Option Uuid)
      (d : Decision) (r : Outcome Ordered × S)
      → Yields (λ o. Perm o.candidates eligible) r.0
      → IsGood request eligible (try_ordered ports options request key bound d r).0
  unfolding try_ordered
  try_ordered-IsGood request eligible key bound d (failure e, s) h =
      record_failure-IsGood request eligible _ e s
  try_ordered-IsGood request eligible key bound d (success o, s) h =
      after_attempts-IsGood request eligible o.candidates key _ _ h (
        acquire_any-EndsWell ports options (ports.new_owner s).0 o.candidates _
          (ports.new_owner s).1)

  select_among-IsGood :
      (request : Request) (eligible : List Candidate) (d : Decision) (s : S)
      → IsGood request eligible (select_among ports options request eligible d s).0
  unfolding select_among
  select_among-IsGood request eligible d s =
      let key = scoped_affinity_key ports options request in
      let (r, s') = read_affinity ports options key s in
      try_ordered-IsGood request eligible key (bound_by ports options r) _ _ (
        Yields-of_eq _ _ (λ o h.
          (order_candidates-IsByPriority ports options request eligible (bound_by ports options r)
            s' o h).0))

  select_eligible-IsGood :
      (request : Request) (eligible : List Candidate) (d : Decision) (s : S)
      → IsGood request eligible (select_eligible ports options request eligible d s).0
  unfolding select_eligible
  select_eligible-IsGood request [] d s = record_failure-IsGood request [] d no_eligible s
  select_eligible-IsGood request (c ∷ cs) d s = select_among-IsGood request (c ∷ cs) d s

  select_gathered-IsGood :
      (request : Request) (g : Gathered) (e : Option Error) (s : S)
      → IsGood request g.eligible (select_gathered ports options request (g, e) s).0
  unfolding select_gathered
  select_gathered-IsGood request g (some e) s = tt
  select_gathered-IsGood request g none s = select_eligible-IsGood request g.eligible _ s

  -- What the choice is of a request in normal form.
  pub record IsSafe (request : Request) (s : S) (decision : Decision) (chosen : Chosen)
      : Type 0 where
    pub item : Candidate
    pub target_is : chosen.target ≡ item.target
    pub credential_is : chosen.credential_id ≡ item.member.credential_id
    pub target_listed : Mem chosen.target request.resolution.candidates
    pub in_pool : IsIn item.member (pool_of ports request chosen.target s)
    pub servable : IsServable chosen.target request.protocol request.required_capabilities
    pub usable : IsUsable item.member request
    pub granted : IsGranted ports options item.member chosen.lease
    pub state : S
    pub recorded : (ports.record_decision request decision state).0 ≡ success tt
    pub names_target : decision.selected_target_id ≡ some chosen.target.id
    pub names_credential : decision.selected_credential_id ≡ some chosen.credential_id

  gathered : Request → S → Gathered × Option Error
  gathered request s = gather ports request request.resolution.candidates nothing_gathered s

  IsOf→IsSafe :
      (request : Request) (s : S) (decision : Decision) (chosen : Chosen)
      → IsOf request (gathered request s).0.eligible decision chosen
      → IsSafe request s decision chosen
  unfolding gathered
  IsOf→IsSafe request s decision chosen c =
      let fits =
        Fits-of_mem ports request request.resolution.candidates s c.item _
          (gather-Fits ports request request.resolution.candidates s request.resolution.candidates
            nothing_gathered (λ t m. m) tt)
          c.listed in
      record {
        item = c.item;
        target_is = c.target_is;
        credential_is = c.credential_is;
        target_listed =
            subst (λ t. Mem t request.resolution.candidates) (sym c.target_is) fits.target_listed;
        in_pool =
            subst (λ t. IsIn c.item.member (pool_of ports request t s)) (sym c.target_is)
              fits.in_pool;
        servable =
            subst (λ t. IsServable t request.protocol request.required_capabilities)
              (sym c.target_is)
              ((target_reasons_iff c.item.target request.protocol request.required_capabilities).0
                (is_nil→eq _ fits.serves));
        usable = (member_reasons_iff c.item.member request).0 (is_nil→eq _ fits.usable);
        granted = c.granted;
        state = c.state;
        recorded = c.recorded;
        names_target = c.names_target;
        names_credential = c.names_credential;
      }

  select_normal-IsSafe :
      (r : Outcome Request) (s : S) (chosen : Chosen)
      → (select_normal ports options r s).0.outcome ≡ success chosen
      → (request : Request) × (r ≡ success request)
        × IsSafe request s (select_normal ports options r s).0.decision chosen
  unfolding select_normal gathered
  select_normal-IsSafe (failure e) s chosen h = absurd (cc h)
  select_normal-IsSafe (success request) s chosen h = (
    request,
    refl,
    IsOf→IsSafe request s _ chosen (
        subst (Yields (IsOf request _ _)) h
          (select_gathered-IsGood request (gathered request s).0 (gathered request s).1 s)),
  )

  -- Where Select succeeds, its choice is safe for the request in normal form: a target of the
  -- route that is enabled, approved, commercially allowed and able to do what is asked, and a
  -- member of its pool that is active, not cooling down, in the right region, behind the right
  -- proxy and within its quota; the coordinator granted the lease for one of the member's slots,
  -- and the decision that is returned has been recorded and names the choice.
  pub select-IsSafe :
      (request : Request) (s : S) (chosen : Chosen)
      → (select ports options request s).0.outcome ≡ success chosen
      → (normal : Request) × (normalize_request options.quota_max_age (ports.current s) request
          ≡ success normal)
        × IsSafe normal s (select ports options request s).0.decision chosen
  unfolding select
  select-IsSafe request s chosen h = select_normal-IsSafe _ s chosen h
