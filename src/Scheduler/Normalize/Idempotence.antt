-- ===== src/Scheduler/Normalize/Idempotence.antt =====
-- A normal request is its own normal form.
use bablo.Prelude.{
  ℤ, pos, Bool, true, false, not, some, is_empty, trim_space, trim_space_idem, eqb_ℤ, ◌≡◌, ◌≢◌,
  refl, sym, ap, subst, ◌∙◌, if◌then◌else◌, arith, Bool-cases, Option-cases, inl, inr, eqb_ℤ→eq,
}
use bablo.Scheduler.Model.{
  Request, QuotaPolicy, Strategy, success, round_robin, weighted_round_robin, fill_first,
  quota_aware, unset, unknown,
}
use bablo.Scheduler.Normalize.{
  bad_id, bad_resolution, bad_texts, default_strategy, normalize_quota, normal_form,
  normalize_request,
}

success-injective : {a b : Request} → success a ≡ success b → a ≡ b
success-injective h = cc h

default_strategy_idem : (s t : Strategy) → default_strategy s ≡ some t → default_strategy t ≡ some t
default_strategy_idem unset t h = ground arith
default_strategy_idem round_robin t h = ground arith
default_strategy_idem weighted_round_robin t h = ground arith
default_strategy_idem fill_first t h = ground arith
default_strategy_idem quota_aware t h = ground arith
default_strategy_idem (unknown name) t h = absurd (cc h)

normalize_quota_idem :
    (default other : ℤ) (p q : QuotaPolicy)
    → normalize_quota default p ≡ some q
    → normalize_quota other q ≡ some q
unfolding normalize_quota
normalize_quota_idem default other p q h = ground arith

-- The checks that a request has passed, with the strategy and the quota policy that it gets.
pub record Passes (default : ℤ) (request : Request) (strategy : Strategy) (quota : QuotaPolicy)
    : Type 0 where
  pub id : bad_id (trim_space request.request_id) ≡ false
  pub resolution : bad_resolution request ≡ false
  pub strategy_is : default_strategy request.strategy ≡ some strategy
  pub texts :
      bad_texts
        (trim_space request.protocol)
        (trim_space request.region)
        (trim_space request.proxy_ref)
        (trim_space request.affinity_key)
      ≡ false
  pub quota_is : normalize_quota default request.quota ≡ some quota

Passes→normal_form :
    (default clock : ℤ) (request : Request) (strategy : Strategy) (quota : QuotaPolicy)
    → Passes default request strategy quota
    → normalize_request default clock request ≡ success (normal_form clock request strategy quota)
unfolding normalize_request
Passes→normal_form default clock request strategy quota p =
    rw (p.id, p.resolution, p.strategy_is, p.texts, p.quota_is) refl

pub normalize_request→Passes :
    (default clock : ℤ) (request normal : Request)
    → normalize_request default clock request ≡ success normal
    → (strategy : Strategy) × (quota : QuotaPolicy) × Passes default request strategy quota
      × (normal ≡ normal_form clock request strategy quota)
unfolding normalize_request
normalize_request→Passes default clock request normal h =
    elim (Bool-cases (bad_id (trim_space request.request_id))) [
      | inl i ↦ absurd (cc (rw i at h))
      | inr i ↦ elim (Bool-cases (bad_resolution request)) [
        | inl n ↦ absurd (cc (rw (i, n) at h))
        | inr n ↦ elim (Option-cases (default_strategy request.strategy)) [
          | inl s ↦ absurd (cc (rw (i, n, s) at h))
          | inr (strategy, s) ↦
              elim (Bool-cases (
                bad_texts (trim_space request.protocol) (trim_space request.region)
                  (trim_space request.proxy_ref) (trim_space request.affinity_key))) [
                    | inl t ↦ absurd (cc (rw (i, n, s, t) at h))
                    | inr t ↦ elim (Option-cases (normalize_quota default request.quota)) [
                      | inl q ↦ absurd (cc (rw (i, n, s, t, q) at h))
                      | inr (quota, q) ↦ (
                        strategy,
                        quota,
                        record { id = i; resolution = n; strategy_is = s; texts = t; quota_is = q },
                        sym (success-injective (rw (i, n, s, t, q) at h)),
                      )
                    ]
                  ]
        ]
      ]
    ]

normal_form-Passes :
    (default other clock : ℤ) (request : Request) (strategy : Strategy) (quota : QuotaPolicy)
    → Passes default request strategy quota
    → Passes other (normal_form clock request strategy quota) strategy quota
normal_form-Passes default other clock request strategy quota p = record {
  id = ap bad_id (trim_space_idem request.request_id) ∙ p.id;
  resolution = p.resolution;
  strategy_is = default_strategy_idem request.strategy strategy p.strategy_is;
  texts =
      rw
        (
          trim_space_idem request.protocol,
          trim_space_idem request.region,
          trim_space_idem request.proxy_ref,
          trim_space_idem request.affinity_key,
        )
        p.texts;
  quota_is = normalize_quota_idem default other request.quota quota p.quota_is;
}

-- The time that is set stays.
set_once :
    (clock other now : ℤ)
    → clock ≢ pos 0
    → (if eqb_ℤ (if eqb_ℤ now (pos 0) then clock else now) (pos 0)
        then other
        else if eqb_ℤ now (pos 0)
        then clock
        else now)
      ≡ (if eqb_ℤ now (pos 0) then clock else now)
set_once clock other now set = ground (arith, eqb_ℤ→eq clock (pos 0))

set_proxy : (p b : Bool) → (if p then true else if p then true else b) ≡ (if p then true else b)
set_proxy true b = refl
set_proxy false b = refl

normal_form_idem :
    (clock other : ℤ) (request : Request) (strategy : Strategy) (quota : QuotaPolicy)
    → clock ≢ pos 0
    → normal_form other (normal_form clock request strategy quota) strategy quota
      ≡ normal_form clock request strategy quota
normal_form_idem clock other request strategy quota set =
    rw
      (
        trim_space_idem request.request_id,
        trim_space_idem request.protocol,
        trim_space_idem request.region,
        trim_space_idem request.proxy_ref,
        trim_space_idem request.affinity_key,
        set_once clock other request.now set,
        set_proxy (not (is_empty (trim_space request.proxy_ref))) request.require_proxy,
      )
      refl

-- What normalizeRequest returns passes its checks again and stays as it is, whatever the clock and
-- the default age are then.
pub normalize_request_idem :
    (default clock default' clock' : ℤ) (request normal : Request)
    → clock ≢ pos 0
    → normalize_request default clock request ≡ success normal
    → normalize_request default' clock' normal ≡ success normal
normalize_request_idem default clock default' clock' request normal set h =
    let (strategy, quota, p, e) = normalize_request→Passes default clock request normal h in
    subst (λ r. normalize_request default' clock' r ≡ success r) (sym e)
      (Passes→normal_form default' clock' (normal_form clock request strategy quota) strategy quota
          (normal_form-Passes default default' clock request strategy quota p)
        ∙ ap success (normal_form_idem clock clock' request strategy quota set))
