-- ===== src/Scheduler/Select/Turns.antt =====
-- The order of candidates where the coordinator answers: its cursors turn, and no group is empty.
use bablo.Prelude.{
  ℤ, Bool, true, false, Option, none, some, List, [], ◌∷◌, ◌++◌, ◌≡◌, ◌≤ℤ◌, pos, refl, inl, inr,
  arith, All, Bool-cases, length,
}
use bablo.Scheduler.Model.{
  Uuid, Outcome, failure, success, Strategy, round_robin, weighted_round_robin, fill_first,
  quota_aware, unset, unknown, Request, Candidate,
}
use bablo.Scheduler.Ports.{Ports, Options}
use bablo.Scheduler.Ordering.{
  cursor_key, rotated, rotated_by_weight, on_outcome, append_rest, is_some, with_use, order_by,
  order_group, order_groups, order_first, order_all, order_candidates,
}
use bablo.Scheduler.Order.{
  group_candidates, move_bound, add_to_groups, group_onto, joins, total_weight, slice_stable,
  candidate_before,
}
use bablo.Scheduler.Select.Answers.{
  is_success, success_of, is_known, text-filled, IsHealthy, Serves,
}

rotated-success :
    (group : List Candidate) (o : Outcome ℤ)
    → is_success o ≡ true
    → is_success (rotated group o) ≡ true
rotated-success group (failure e) h = h
rotated-success group (success n) h = refl

rotated_by_weight-success :
    (group : List Candidate) (o : Outcome ℤ)
    → is_success o ≡ true
    → is_success (rotated_by_weight group o) ≡ true
rotated_by_weight-success group (failure e) h = h
rotated_by_weight-success group (success n) h = refl

-- The groups of candidates have members.
abbrev is_filled : List Candidate → Bool
is_filled [] = false
is_filled (c ∷ cs) = true

abbrev AreFilled : List (List Candidate) → Type 0
AreFilled = All (λ g. is_filled g ≡ true)

filled-append : (g : List Candidate) (v : Candidate) → is_filled (g ++ v ∷ []) ≡ true
filled-append [] v = refl
filled-append (c ∷ cs) v = refl

add_to_groups-AreFilled :
    (gs : List (List Candidate)) (v : Candidate) → AreFilled gs → AreFilled (add_to_groups gs v)
unfolding add_to_groups
add_to_groups-AreFilled [] v a = (refl, tt)
add_to_groups-AreFilled (g ∷ []) v a = elim (Bool-cases (joins g v)) [
  | inl j ↦ rw (j) (filled-append g v, tt)
  | inr j ↦ rw (j) (a.0, (refl, tt))
]
add_to_groups-AreFilled (g ∷ h ∷ gs) v a = (a.0, add_to_groups-AreFilled (h ∷ gs) v a.1)

group_onto-AreFilled :
    (gs : List (List Candidate)) (vs : List Candidate) → AreFilled gs → AreFilled (group_onto gs vs)
unfolding group_onto
group_onto-AreFilled gs [] a = a
group_onto-AreFilled gs (v ∷ vs) a =
    group_onto-AreFilled (add_to_groups gs v) vs (add_to_groups-AreFilled gs v a)

total_weight-positive : (g : List Candidate) → pos 1 ≤ℤ total_weight g
unfolding total_weight
total_weight-positive g = ground arith

module _ {S : Type 0} (ports : Ports S) (options : Options) where
  module _ (Calm : S → Type 0) (healthy : IsHealthy ports options Calm) where
    append_rest-Serves :
        (g : List Candidate) (r : Outcome (List Candidate) × S)
        → Serves ports options Calm healthy r
        → Serves ports options Calm healthy (append_rest g r)
    append_rest-Serves g (failure e, s) h = absurd (cc h.0)
    append_rest-Serves g (success cs, s) h = (refl, h.1)

    with_use-Serves :
        (used : Bool) (r : Outcome (List Candidate) × S)
        → Serves ports options Calm healthy r
        → Serves ports options Calm healthy (on_outcome (with_use used) r)
    with_use-Serves used (failure e, s) h = absurd (cc h.0)
    with_use-Serves used (success cs, s) h = (refl, h.1)

    order_by-Serves :
        (strategy : Strategy) (request : Request) (group : List Candidate) (s : S)
        → is_known strategy ≡ true
        → is_filled group ≡ true
        → Calm s
        → Serves ports options Calm healthy (order_by ports options strategy request group s)
    unfolding order_by cursor_key
    order_by-Serves fill_first request group s k g c = (refl, c)
    order_by-Serves quota_aware request group s k g c = (refl, c)
    order_by-Serves round_robin request [] s k g c = absurd (cc g)
    order_by-Serves round_robin request (v ∷ vs) s k g c =
        let (h, c') =
          healthy.turns (cursor_key ports options request (v ∷ vs)) (pos (length (v ∷ vs))) s
            (text-filled (ports.uuid_text request.resolution.version_id) _) (ground arith) c in
        (rotated-success (v ∷ vs) _ h, c')
    order_by-Serves weighted_round_robin request [] s k g c = absurd (cc g)
    order_by-Serves weighted_round_robin request (v ∷ vs) s k g c =
        let (h, c') =
          healthy.turns (cursor_key ports options request (v ∷ vs)) (total_weight (v ∷ vs)) s
            (text-filled (ports.uuid_text request.resolution.version_id) _)
            (total_weight-positive (v ∷ vs)) c in
        (rotated_by_weight-success (v ∷ vs) _ h, c')
    order_by-Serves unset request group s k g c = absurd (cc k)
    order_by-Serves (unknown name) request group s k g c = absurd (cc k)

    module _ (request : Request) (k : is_known request.strategy ≡ true) where
      order_groups-Serves :
          (gs : List (List Candidate)) (s : S)
          → AreFilled gs
          → Calm s
          → Serves ports options Calm healthy (order_groups ports options request gs s)
      unfolding order_groups order_group
      order_groups-Serves [] s a c = (refl, c)
      order_groups-Serves (g ∷ gs) s a c =
          let (answered, c') = order_by-Serves request.strategy request g s k a.0 c in
          let (moved, h) = success_of _ answered in
          rw (h, order_groups) (append_rest-Serves moved _ (order_groups-Serves gs _ a.1 c'))

      order_first-Serves :
          (g : List Candidate) (moved : Option (List Candidate)) (s : S)
          → is_filled g ≡ true
          → Calm s
          → Serves ports options Calm healthy (order_first ports options request g moved s)
      unfolding order_first order_group
      order_first-Serves g none s f c = order_by-Serves request.strategy request g s k f c
      order_first-Serves g (some moved) s f c = (refl, c)

      order_all-Serves :
          (gs : List (List Candidate)) (bound : Option Uuid) (s : S)
          → AreFilled gs
          → Calm s
          → Serves ports options Calm healthy (order_all ports options request gs bound s)
      unfolding order_all
      order_all-Serves [] bound s a c = (refl, c)
      order_all-Serves (g ∷ gs) bound s a c =
          let (answered, c') = order_first-Serves g (move_bound bound g) s a.0 c in
          let (moved, h) = success_of _ answered in
          rw (h, order_all)
            (with_use-Serves (is_some (move_bound bound g))
              (append_rest moved (
                order_groups ports options request gs
                  (order_first ports options request g (move_bound bound g) s).1))
              (append_rest-Serves moved _ (order_groups-Serves gs _ a.1 c')))

      pub order_candidates-Serves :
          (values : List Candidate) (bound : Option Uuid) (s : S)
          → Calm s
          → Serves ports options Calm healthy
              (order_candidates ports options request values bound s)
      unfolding order_candidates group_candidates
      order_candidates-Serves values bound s c =
          order_all-Serves (group_candidates values) bound s
            (group_onto-AreFilled [] (slice_stable candidate_before values) tt) c
