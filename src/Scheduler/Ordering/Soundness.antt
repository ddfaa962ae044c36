-- ===== src/Scheduler/Ordering/Soundness.antt =====
-- The candidates in the order in which they are tried: all of them, by priority.
use mathlib.Core.List.{Perm, Pairwise, map-append, Pairwise-map}
use mathlib.Core.List.Perm
use mathlib.Core.Path.{ap₂}
use bablo.Prelude.{
  ℤ, pos, Bool, Option, none, some, List, [], ◌∷◌, ◌++◌, ◌≡◌, refl, sym, ap, ◌∙◌, subst, map, All,
  inl, inr,
}
use bablo.Scheduler.Model.{
  Uuid, Outcome, failure, success, Strategy, round_robin, weighted_round_robin, fill_first,
  quota_aware, unset, unknown, Request, Candidate, Outcome-cases, Yields,
}
use bablo.Scheduler.Ports.{Ports, Options}
use bablo.Scheduler.Order.{
  group_candidates, quota_candidate_less, weighted_start, move_bound, candidate_before,
}
use bablo.Scheduler.Order.Sorting.{
  flatten, rotate-perm, slice_stable-perm, move_bound-perm, group_candidates-flatten,
}
use bablo.Scheduler.Order.Priority.{
  priority, NoLater, NoLater-prop, IsGroup, IsGroup-perm, IsByPriority, group_candidates-IsGroup,
  slice_stable-IsByPriority,
}
use bablo.Scheduler.Ordering.{
  Ordered, order_by, order_group, order_groups, order_first, order_all, order_candidates,
  append_rest, with_use, rotated, rotated_by_weight, on_outcome, is_some,
}

-- The same candidates, with the same priority at each place.
abbrev Reorders : List Candidate → List Candidate → Type 0
Reorders original ordered = Perm ordered original × (map priority ordered ≡ map priority original)

rotated-perm :
    (group : List Candidate) (start : Outcome ℤ) → Yields (λ g. Perm g group) (rotated group start)
rotated-perm group (failure e) = tt
rotated-perm group (success start) = rotate-perm group start

rotated_by_weight-perm :
    (group : List Candidate) (slot : Outcome ℤ)
    → Yields (λ g. Perm g group) (rotated_by_weight group slot)
rotated_by_weight-perm group (failure e) = tt
rotated_by_weight-perm group (success slot) = rotate-perm group (pos (weighted_start group slot))

append_rest-Reorders :
    {S : Type 0} (first rest moved : List Candidate) (r : Outcome (List Candidate) × S)
    → Reorders first moved
    → Yields (Reorders rest) r.0
    → Yields (Reorders (first ++ rest)) (append_rest moved r).0
append_rest-Reorders first rest moved (failure e, s) h k = tt
append_rest-Reorders first rest moved (success cs, s) h k = (
  Perm.append h.0 k.0,
  map-append priority moved cs
      ∙ (ap₂ (λ a b. a ++ b) h.1 k.1 ∙ sym (map-append priority first rest)),
)

with_use-Reorders :
    {S : Type 0} (used : Bool) (original : List Candidate) (r : Outcome (List Candidate) × S)
    → Yields (Reorders original) r.0
    → Yields (λ o. Reorders original o.candidates) (on_outcome (with_use used) r).0
with_use-Reorders used original (failure e, s) h = tt
with_use-Reorders used original (success cs, s) h = h

module _ {S : Type 0} (ports : Ports S) (options : Options) (request : Request) where
  order_by-perm :
      (strategy : Strategy) (group : List Candidate) (s : S)
      → Yields (λ g. Perm g group) (order_by ports options strategy request group s).0
  unfolding order_by
  order_by-perm fill_first group s = Perm.rfl
  order_by-perm quota_aware group s = slice_stable-perm (quota_candidate_less request) group
  order_by-perm round_robin group s = rotated-perm group _
  order_by-perm weighted_round_robin group s = rotated_by_weight-perm group _
  order_by-perm unset group s = tt
  order_by-perm (unknown name) group s = tt

  order_group-Reorders :
      (group : List Candidate) (s : S)
      → IsGroup group
      → Yields (Reorders group) (order_group ports options request group s).0
  unfolding order_group
  order_group-Reorders group s g =
      by_perm group (order_by ports options request.strategy request group s).0 g
        (order_by-perm request.strategy group s)
    where
      by_perm :
          (group : List Candidate) (r : Outcome (List Candidate))
          → IsGroup group
          → Yields (λ g. Perm g group) r
          → Yields (Reorders group) r
      by_perm group (failure e) g h = tt
      by_perm group (success moved) g h = (h, IsGroup-perm g h)

  order_groups-Reorders :
      (gs : List (List Candidate)) (s : S)
      → All IsGroup gs
      → Yields (Reorders (flatten gs)) (order_groups ports options request gs s).0
  unfolding order_groups flatten
  order_groups-Reorders [] s u = (Perm.rfl, refl)
  order_groups-Reorders (g ∷ gs) s u =
      elim (Outcome-cases (order_group ports options request g s).0) [
        | inl (e, h) ↦ rw (h, order_groups) tt
        | inr (moved, h) ↦
            rw (h, order_groups)
              (append_rest-Reorders g (flatten gs) moved
                (order_groups ports options request gs (order_group ports options request g s).1)
                (subst (Yields (Reorders g)) h (order_group-Reorders g s u.0))
                (order_groups-Reorders gs _ u.1))
      ]

  order_first-Reorders :
      (g : List Candidate) (moved : Option (List Candidate)) (bound : Option Uuid) (s : S)
      → move_bound bound g ≡ moved
      → IsGroup g
      → Yields (Reorders g) (order_first ports options request g moved s).0
  unfolding order_first
  order_first-Reorders g none bound s h u = order_group-Reorders g s u
  order_first-Reorders g (some moved) bound s h u =
      let p = move_bound-perm bound g moved h in (p, IsGroup-perm u p)

  order_all-Reorders :
      (gs : List (List Candidate)) (bound : Option Uuid) (s : S)
      → All IsGroup gs
      → Yields
          (λ o. Reorders (flatten gs) o.candidates)
          (order_all ports options request gs bound s).0
  unfolding order_all flatten
  order_all-Reorders [] bound s u = (Perm.rfl, refl)
  order_all-Reorders (g ∷ gs) bound s u =
      elim (Outcome-cases (order_first ports options request g (move_bound bound g) s).0) [
        | inl (e, h) ↦ rw (h, order_all) tt
        | inr (moved, h) ↦
            let s' = (order_first ports options request g (move_bound bound g) s).1 in
            rw (h, order_all)
              (with_use-Reorders (is_some (move_bound bound g)) (g ++ flatten gs)
                (append_rest moved (order_groups ports options request gs s'))
                (append_rest-Reorders g (flatten gs) moved
                  (order_groups ports options request gs s')
                  (subst (Yields (Reorders g)) h (order_first-Reorders g _ bound s refl u.0))
                  (order_groups-Reorders gs s' u.1)))
      ]

  -- When the candidates are ordered, by any strategy, cursor and affinity, none is lost, added or
  -- doubled, and those of a smaller target priority, and then of a smaller member priority, come
  -- first.
  pub order_candidates-IsByPriority :
      (values : List Candidate) (bound : Option Uuid) (s : S) (ordered : Ordered)
      → (order_candidates ports options request values bound s).0 ≡ success ordered
      → Perm ordered.candidates values × IsByPriority ordered.candidates
  unfolding order_candidates
  order_candidates-IsByPriority values bound s ordered h =
      let r =
        subst (Yields (λ o. Reorders (flatten (group_candidates values)) o.candidates)) h (
          order_all-Reorders (group_candidates values) bound s (group_candidates-IsGroup values)) in
      let f = group_candidates-flatten values in
      (
        Perm.trans (subst (λ vs. Perm ordered.candidates vs) f r.0)
            (slice_stable-perm candidate_before values),
        (Pairwise-map NoLater-prop priority).0 (
            subst (Pairwise NoLater) (sym (r.1 ∙ ap (map priority) f))
              ((Pairwise-map NoLater-prop priority).1 (slice_stable-IsByPriority values))),
      )
