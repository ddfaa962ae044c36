-- ===== src/Scheduler/Eligibility/Meaning.antt =====
-- What it means that no reason is found against a target or a pool member.
use bablo.Prelude.{
  ℤ, pos, All, if◌then◌else◌, Bool, true, false, not, ◌&&◌, ◌||◌, Option, none, some, List, [], ◌∷◌,
  ◌++◌, Text, ◌≡◌, refl, ◌↔◌, ◌⊎◌, inl, inr, is_empty, text_eq, text_eq→eq, text_eq_refl, ◌≤ℤ◌,
  arith, ◌≢◌, sym, subst, ap,
}
use bablo.Scheduler.Model.{
  Reason, approved, subscription, active, Capabilities, Target, QuotaPolicy, Request, QuotaSnapshot,
  PoolMember,
}
use bablo.Scheduler.Eligibility.{
  supports_required, target_tests, member_tests, target_eligibility_reasons,
  member_eligibility_reasons, quota_eligibility_reasons, quota_usable, reasons_if, is_active,
  is_after, is_below,
}

-- What the request needs, the target can do.
abbrev pub Covers : Capabilities → Capabilities → Type 0
Covers available required =
    (required.chat ≡ true → available.chat ≡ true)
    × (required.responses ≡ true → available.responses ≡ true)
    × (required.messages ≡ true → available.messages ≡ true)
    × (required.stream ≡ true → available.stream ≡ true)
    × (required.tools ≡ true → available.tools ≡ true)
    × (required.vision ≡ true → available.vision ≡ true)
    × (required.reasoning ≡ true → available.reasoning ≡ true)

-- An empty text asks for nothing.
abbrev pub Meets : Text → Text → Type 0
Meets wanted given = (wanted ≡ []) ⊎ (given ≡ wanted)

pub record IsServable (target : Target) (protocol : Text) (required : Capabilities) : Type 0 where
  pub enabled : target.enabled ≡ true
  pub model_enabled : target.provider_model_enabled ≡ true
  pub reviewed : target.review_status ≡ approved
  pub pool_enabled : target.pool_enabled ≡ true
  pub not_subscription : target.provider_resource_type ≢ subscription
  pub commercial : target.provider_commercial_allowed ≡ true
  pub effective : target.effective_commercial_allowed ≡ true
  pub speaks : Meets protocol target.protocol
  pub covers : Covers target.capabilities required

-- Each instant that is set has come.
abbrev pub IsPast : Option ℤ → ℤ → Type 0
IsPast none now = Unit
IsPast (some t) now = t ≤ℤ now

pub record IsUsable (member : PoolMember) (request : Request) : Type 0 where
  pub enabled : member.enabled ≡ true
  pub provider_enabled : member.provider_enabled ≡ true
  pub is_active : member.status ≡ active
  pub capacity : pos 1 ≤ℤ member.max_concurrency
  pub cooled : IsPast member.cooldown_until request.now
  pub region : Meets request.region member.region
  pub has_proxy : (request.require_proxy ≡ false) ⊎ (is_empty member.proxy_ref ≡ false)
  pub proxy : Meets request.proxy_ref member.proxy_ref
  pub quota :
      (request.quota.enabled ≡ false)
      ⊎ (quota_eligibility_reasons member.quota request.quota request.now ≡ [])

-- No reason is given exactly if every test fails.
reasons_if-nil :
    (tests : List (Bool × Reason)) → (reasons_if tests ≡ []) ↔ All (λ t. t.0 ≡ false) tests
reasons_if-nil [] = (λ h. tt, λ h. refl)
reasons_if-nil ((true, r) ∷ ts) = (λ h. cc, λ h. cc (h.0))
reasons_if-nil ((false, r) ∷ ts) =
    (λ h. (refl, (reasons_if-nil ts).0 h), λ h. (reasons_if-nil ts).1 h.1)

append_nil_iff : (rs ss : List Reason) → (rs ++ ss ≡ []) ↔ ((rs ≡ []) × (ss ≡ []))
append_nil_iff [] ss = (λ h. (refl, h), λ h. h.1)
append_nil_iff (r ∷ rs) ss = (λ h. cc, λ h. cc (h.0))

negated : (b : Bool) → not b ≡ false → b ≡ true
negated b h = ground arith

Meets-iff :
    (wanted given : Text)
    → ((not (is_empty wanted) && not (text_eq given wanted)) ≡ false) ↔ Meets wanted given
Meets-iff [] given = (λ h. inl refl, λ h. refl)
Meets-iff (c ∷ s) given = (
  λ h. inr (text_eq→eq given (c ∷ s) (ground arith)),
  λ h. elim h [
    | inl e ↦ cc
    | inr e ↦ subst (λ t. not (text_eq t (c ∷ s)) ≡ false) (sym e) (ap not (text_eq_refl (c ∷ s)))
  ],
)

implied_iff : (a b : Bool) → ((not a || b) ≡ true) ↔ (a ≡ true → b ≡ true)
implied_iff true b = (λ h k. h, λ h. h refl)
implied_iff false b = (λ h k. cc, λ h. refl)

both_iff : (a b : Bool) → ((a && b) ≡ true) ↔ ((a ≡ true) × (b ≡ true))
both_iff true b = (λ h. (refl, h), λ h. h.1)
both_iff false b = (λ h. cc, λ h. cc)

module _ (available required : Capabilities) where
  supports_required→Covers : supports_required available required ≡ true → Covers available required
  unfolding supports_required
  supports_required→Covers h =
      let h1 = (both_iff _ _).0 h in
      let h2 = (both_iff _ _).0 h1.0 in
      let h3 = (both_iff _ _).0 h2.0 in
      let h4 = (both_iff _ _).0 h3.0 in
      let h5 = (both_iff _ _).0 h4.0 in
      let h6 = (both_iff _ _).0 h5.0 in
      (
        (implied_iff _ _).0 h6.0,
        (implied_iff _ _).0 h6.1,
        (implied_iff _ _).0 h5.1,
        (implied_iff _ _).0 h4.1,
        (implied_iff _ _).0 h3.1,
        (implied_iff _ _).0 h2.1,
        (implied_iff _ _).0 h1.1,
      )

  Covers→supports_required : Covers available required → supports_required available required ≡ true
  unfolding supports_required
  Covers→supports_required c = (both_iff _ _).1 (
    (both_iff _ _).1 (
      (both_iff _ _).1 (
        (both_iff _ _).1 (
          (both_iff _ _).1 (
            (both_iff _ _).1 ((implied_iff _ _).1 c.0, (implied_iff _ _).1 c.1),
            (implied_iff _ _).1 c.2,
          ),
          (implied_iff _ _).1 c.3,
        ),
        (implied_iff _ _).1 c.4,
      ),
      (implied_iff _ _).1 c.5,
    ),
    (implied_iff _ _).1 c.6,
  )

-- A target is refused for no reason exactly if it may serve the request.
pub target_reasons_iff :
    (target : Target) (protocol : Text) (required : Capabilities)
    → (target_eligibility_reasons target protocol required ≡ [])
      ↔ IsServable target protocol required
unfolding target_eligibility_reasons
target_reasons_iff target protocol required = (
  λ h.
      let (t0, (t1, (t2, (t3, (t4, (t5, (t6, u))))))) =
        (reasons_if-nil (target_tests target protocol required)).0 h in
      record {
        enabled = negated _ t0;
        model_enabled = negated _ t1;
        reviewed = ground arith;
        pool_enabled = negated _ t3;
        not_subscription = ground arith;
        commercial = ground arith;
        effective = ground arith;
        speaks = (Meets-iff _ _).0 t5;
        covers = supports_required→Covers _ _ (negated _ t6);
      },
  λ s. (reasons_if-nil (target_tests target protocol required)).1 (
    ap not s.enabled,
    (
      ap not s.model_enabled,
      (
        ground arith,
        (
          ap not s.pool_enabled,
          (
            ground arith,
            ((Meets-iff _ _).1 s.speaks, (ap not (Covers→supports_required _ _ s.covers), tt)),
          ),
        ),
      ),
    ),
  ),
)

-- With a policy that wants fresh snapshots, quota speaks against a member unless its snapshot is
-- usable and holds enough tokens.
pub quota_reasons_iff :
    (snapshot : QuotaSnapshot) (policy : QuotaPolicy) (now : ℤ)
    → policy.require_fresh ≡ true
    → (quota_eligibility_reasons snapshot policy now ≡ []) ↔ (
        (quota_usable snapshot policy now ≡ true)
        × (is_below snapshot.remaining policy.required_tokens ≡ false))
unfolding quota_eligibility_reasons quota_usable
quota_reasons_iff snapshot policy now fresh = grind arith

is_after_iff : (t : Option ℤ) (now : ℤ) → (is_after t now ≡ false) ↔ IsPast t now
is_after_iff none now = (λ h. tt, λ h. refl)
is_after_iff (some t) now = (λ h. ground arith, λ h. ground arith)

unless_iff :
    (b : Bool) (rs : List Reason) → ((if b then rs else []) ≡ []) ↔ ((b ≡ false) ⊎ (rs ≡ []))
unless_iff true rs = (λ h. inr h, λ h. elim h [ inl e ↦ cc | inr e ↦ e ])
unless_iff false rs = (λ h. inl refl, λ h. refl)

-- A pool member is refused for no reason exactly if it may serve the request.
pub member_reasons_iff :
    (member : PoolMember) (request : Request)
    → (member_eligibility_reasons member request ≡ []) ↔ IsUsable member request
unfolding member_eligibility_reasons
member_reasons_iff member request = (
  λ h.
      let parts = (append_nil_iff (reasons_if (member_tests member request)) _).0 h in
      let (t0, (t1, (t2, (t3, (t4, (t5, (t6, (t7, u)))))))) =
        (reasons_if-nil (member_tests member request)).0 parts.0 in
      record {
        enabled = negated _ t0;
        provider_enabled = negated _ t1;
        is_active = ground arith;
        capacity = ground arith;
        cooled = (is_after_iff member.cooldown_until request.now).0 t4;
        region = (Meets-iff _ _).0 t5;
        has_proxy = ground arith;
        proxy = (Meets-iff _ _).0 t7;
        quota = (unless_iff request.quota.enabled _).0 parts.1;
      },
  λ s. (append_nil_iff (reasons_if (member_tests member request)) _).1 (
    (reasons_if-nil (member_tests member request)).1 (
      ap not s.enabled,
      (
        ap not s.provider_enabled,
        (
          ap (λ a. not (is_active a)) s.is_active,
          (
            ground arith,
            (
              (is_after_iff member.cooldown_until request.now).1 s.cooled,
              ((Meets-iff _ _).1 s.region, (ground arith, ((Meets-iff _ _).1 s.proxy, tt))),
            ),
          ),
        ),
      ),
    ),
    (unless_iff request.quota.enabled _).1 s.quota,
  ),
)
