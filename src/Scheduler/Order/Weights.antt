-- ===== src/Scheduler/Order/Weights.antt =====
-- weightedStart and totalWeight: a candidate comes first for as many slots as its weight.
use bablo.Prelude.{
  ℕ, zero, suc, ◌+◌, ◌-◌, ◌<◌, ◌≤◌, ltb, ℤ, pos, negsuc, pos_part, ◌≤ℤ◌, ◌-ℤ◌, ◌+ℤ◌, max_int64,
  sub64, add64, sub64-nonneg, add64_lem, false, List, [], ◌∷◌, ◌≡◌, ap, ◌∙◌, ◌↔◌, All, take,
  if◌then◌else◌, arith, Bool-cases, inl, inr, ltb_ℤ,
}
use bablo.Scheduler.Model.{Candidate}
use bablo.Scheduler.Order.{weighted_start, weighted_start_from, total_weight, sum_weights}

-- What Select gives to combinedWeight is at least 1.
abbrev pub IsWeighted : List Candidate → Type 0
IsWeighted = All (λ c. pos 1 ≤ℤ c.combined_weight)

unfoldable pub weights : List Candidate → List ℕ
weights [] = []
weights (c ∷ cs) = pos_part c.combined_weight ∷ weights cs

unfoldable pub sum : List ℕ → ℕ
sum [] = 0
sum (w ∷ ws) = w + sum ws

-- The item in whose stretch of the number line n lies, the stretches being as long as the weights.
stretch : List ℕ → ℕ → ℕ
stretch [] n = 0
stretch (w ∷ ws) n = let rest = suc (stretch ws (n - w)) in if ltb n w then 0 else rest

ltb-false : (a b : ℕ) → ltb a b ≡ false → b ≤ a
ltb-false a b h = ground arith

stretch_iff :
    (ws : List ℕ) (n i : ℕ)
    → n < sum ws
    → (stretch ws n ≡ i) ↔ ((sum (take i ws) ≤ n) × (n < sum (take (suc i) ws)))
unfolding stretch sum
stretch_iff [] n i h = absurd (omega arith)
stretch_iff (w ∷ ws) n zero h = (λ e. ground arith, λ b. ground arith)
stretch_iff (w ∷ ws) n (suc i) h = elim (Bool-cases (ltb n w)) [
  | inl e ↦ (λ f. absurd (ground arith), λ b. absurd (ground arith))
  | inr e ↦
      let ih = stretch_iff ws (n - w) i (ground arith) in
      (
        λ f. omega (arith, ih.0 (ground arith), ltb-false n w e),
        λ b. rw e (ap suc (ih.1 (omega (arith, ltb-false n w e)))),
      )
]

sub_weight :
    (n : ℕ) (w : ℤ)
    → pos 1 ≤ℤ w
    → pos_part w ≤ n
    → pos n ≤ℤ max_int64
    → sub64 (pos n) w ≡ pos (n - pos_part w)
unfolding ◌-ℤ◌
sub_weight n (pos w) h k l =
    sub64-nonneg (pos n) (pos w) (omega arith) l (omega arith) (omega arith) ∙ ground arith
sub_weight n (negsuc w) h k l = absurd (omega arith)

ltb_weight : (n : ℕ) (w : ℤ) → pos 1 ≤ℤ w → ltb_ℤ (pos n) w ≡ ltb n (pos_part w)
ltb_weight n (pos w) h = ground arith
ltb_weight n (negsuc w) h = absurd (omega arith)

add_weight :
    (n : ℕ) (w : ℤ)
    → pos 1 ≤ℤ w
    → pos (n + pos_part w) ≤ℤ max_int64
    → add64 (pos n) w ≡ pos (n + pos_part w)
unfolding ◌+ℤ◌
add_weight n (pos w) h m = add64_lem (pos n) (pos w) (ground arith) ∙ ground arith
add_weight n (negsuc w) h m = absurd (omega arith)

weighted_start_from-stretch :
    (index : ℕ) (vs : List Candidate) (n : ℕ)
    → IsWeighted vs
    → pos n ≤ℤ max_int64
    → n < sum (weights vs)
    → weighted_start_from index vs (pos n) ≡ index + stretch (weights vs) n
unfolding weighted_start_from weights stretch sum
weighted_start_from-stretch index [] n p m h = absurd (omega arith)
weighted_start_from-stretch index (v ∷ vs) n p m h =
    rw (ltb_weight n v.combined_weight p.0)
      (elim (Bool-cases (ltb n (pos_part v.combined_weight))) [
        | inl e ↦ rw e (omega arith)
        | inr e ↦
            let k = ltb-false n (pos_part v.combined_weight) e in
            rw (e, sub_weight n v.combined_weight p.0 k m)
              (weighted_start_from-stretch (suc index) vs (n - pos_part v.combined_weight) p.1
                  (omega arith) (omega arith)
                ∙ omega arith)
      ])

-- In a group of positive weights, the candidate at place i comes first for the slots that follow
-- those of the candidates before it, as many as its weight, and for no other slot of the cycle.
pub weighted_start_iff :
    (vs : List Candidate) (n i : ℕ)
    → IsWeighted vs
    → pos n ≤ℤ max_int64
    → n < sum (weights vs)
    → (weighted_start vs (pos n) ≡ i)
      ↔ ((sum (take i (weights vs)) ≤ n) × (n < sum (take (suc i) (weights vs))))
unfolding weighted_start
weighted_start_iff vs n i p m h = (
  λ e.
      (stretch_iff (weights vs) n i h).0
        (omega (arith, weighted_start_from-stretch 0 vs n p m h, e)),
  λ b.
      weighted_start_from-stretch 0 vs n p m h
      ∙ omega (arith, (stretch_iff (weights vs) n i h).1 b),
)

sum_weights-sum :
    (n : ℕ) (vs : List Candidate)
    → IsWeighted vs
    → pos (n + sum (weights vs)) ≤ℤ max_int64
    → sum_weights (pos n) vs ≡ pos (n + sum (weights vs))
unfolding sum_weights weights sum
sum_weights-sum n [] p m = ap pos (omega arith)
sum_weights-sum n (v ∷ vs) p m =
    rw (add_weight n v.combined_weight p.0 (omega arith))
      (sum_weights-sum (n + pos_part v.combined_weight) vs p.1 (omega arith) ∙ ap pos (omega arith))

-- The cycle is as long as the weights together.
pub total_weight-sum :
    (v : Candidate) (vs : List Candidate)
    → IsWeighted (v ∷ vs)
    → pos (sum (weights (v ∷ vs))) ≤ℤ max_int64
    → total_weight (v ∷ vs) ≡ pos (sum (weights (v ∷ vs)))
unfolding total_weight weights sum
total_weight-sum v vs p m = rw (sum_weights-sum 0 (v ∷ vs) p (omega arith)) (ground arith)
