-- ===== src/Scheduler/Order/Quota.antt =====
-- quotaCandidateLess: what the order of the strategy quota_aware does, and where it is no order.
use bablo.Prelude.{ℤ, ltb_ℤ, eqb_ℤ, Bool, true, false, refl, ◌∙◌, Option, none, some, ◌≡◌, arith}
use bablo.Scheduler.Model.{Candidate, Request}
use bablo.Scheduler.Eligibility.{quota_usable}
use bablo.Scheduler.Order.{quota_candidate_less, candidate_less, less_by_reset, less_by_remaining}

abbrev IsUsable : Request → Candidate → Type 0
IsUsable request c = quota_usable c.member.quota request.quota request.now ≡ true

-- A member whose quota is known to be usable comes before one whose quota is not.
pub quota_candidate_less-usable :
    (request : Request) (left right : Candidate)
    → IsUsable request left
    → quota_usable right.member.quota request.quota request.now ≡ false
    → (quota_candidate_less request left right ≡ true)
      × (quota_candidate_less request right left ≡ false)
unfolding quota_candidate_less
quota_candidate_less-usable request left right l r = (rw (l, r), rw (l, r))

ltb→not_eqb : (x y : ℤ) → ltb_ℤ x y ≡ true → (eqb_ℤ x y ≡ false) × (eqb_ℤ y x ≡ false)
ltb→not_eqb x y h = (ground arith, ground arith)

-- Where what remains does not decide, the one that is reset first comes first.
less_by_reset_lem :
    (l r : Option ℤ) (s t : ℤ) (b : Bool)
    → l ≡ some s
    → r ≡ some t
    → ltb_ℤ s t ≡ true
    → less_by_reset l r b ≡ true
less_by_reset_lem l r s t b hl hr h = rw (hl, hr, (ltb→not_eqb s t h).0, h)

less_by_remaining_lem :
    (l r : Option ℤ) (s t : ℤ) (b : Bool)
    → l ≡ some s
    → r ≡ some t
    → ltb_ℤ t s ≡ true
    → less_by_remaining l r b ≡ true
less_by_remaining_lem l r s t b hl hr h = rw (hl, hr, (ltb→not_eqb t s h).1, h)

unknown_left : (l r : Option ℤ) (b : Bool) → l ≡ none → less_by_remaining l r b ≡ b
unknown_left l r b h = rw h

unknown_right : (l r : Option ℤ) (b : Bool) → r ≡ none → less_by_remaining l r b ≡ b
unknown_right none r b h = refl
unknown_right (some l) r b h = rw h

both_usable :
    (request : Request) (left right : Candidate)
    → IsUsable request left
    → IsUsable request right
    → quota_candidate_less request left right
      ≡ less_by_remaining left.member.quota.remaining right.member.quota.remaining (
          less_by_reset left.member.quota.reset_at right.member.quota.reset_at
            (candidate_less left right))
unfolding quota_candidate_less
both_usable request left right l r = rw (l, r)

-- Three members, all usable, of which the second alone does not say what remains: if the one with
-- less left is reset first, then the second and then the third, each comes before the next, and the
-- third before the first.
pub quota_candidate_less-cyclic :
    (request : Request) (a b c : Candidate) (x y r s t : ℤ)
    → IsUsable request a
    → IsUsable request b
    → IsUsable request c
    → a.member.quota.remaining ≡ some x
    → b.member.quota.remaining ≡ none
    → c.member.quota.remaining ≡ some y
    → ltb_ℤ x y ≡ true
    → a.member.quota.reset_at ≡ some r
    → b.member.quota.reset_at ≡ some s
    → c.member.quota.reset_at ≡ some t
    → ltb_ℤ r s ≡ true
    → ltb_ℤ s t ≡ true
    → (quota_candidate_less request a b ≡ true)
      × (quota_candidate_less request b c ≡ true)
      × (quota_candidate_less request c a ≡ true)
quota_candidate_less-cyclic request a b c x y r s t ua ub uc ra rb rc lt ta tb tc lr ls = (
  both_usable request a b ua ub ∙ (unknown_right _ _ _ rb ∙ less_by_reset_lem _ _ r s _ ta tb lr),
  both_usable request b c ub uc ∙ (unknown_left _ _ _ rb ∙ less_by_reset_lem _ _ s t _ tb tc ls),
  both_usable request c a uc ua ∙ less_by_remaining_lem _ _ y x _ rc ra lt,
)
