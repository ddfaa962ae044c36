-- ===== src/Scheduler/Order/Priority.antt =====
-- The groups of groupCandidates come in the order of their priorities.
use mathlib.Core.List.{
  Perm, Mem, Pairwise, Pairwise-map, Pairwise-reverse, Pairwise-singleton, perm-replicate,
  not-mem-nil, mem-cons, map-append, append_assoc,
}
use mathlib.Core.List
use mathlib.Core.Logic.Or
use mathlib.Core.Path.{ap₂}
use native.Mathlib.Decide.{ℕ_discrete}
use mathlib.Core.List.Perm
use native.Mathlib.Bridge.{le_prop}
use bablo.Prelude.{
  ◌≤ℤ◌, ℤ, true, false, List, [], ◌∷◌, ◌++◌, ◌≡◌, refl, sym, subst, ◌∙◌, All, map, arith,
  Bool-cases, inl, inr,
}
use bablo.Scheduler.Model.{Candidate}
use bablo.Scheduler.Order.{
  insert_back, sort_onto, slice_stable, joins, add_to_groups, group_onto, group_candidates,
  candidate_before,
}
use bablo.Scheduler.Order.Sorting.{insert_back-perm}

-- The priority of a candidate's target, and that of its member.
abbrev pub Priority : Type 0
Priority = ℤ × ℤ

abbrev pub priority : Candidate → Priority
priority c = (c.target.priority, c.member.member_priority)

-- The lexicographic order of priorities: the smaller comes first.
abbrev pub NoLater : Priority → Priority → Type 0
NoLater p q = (p.0 ≤ℤ q.0) × (q.0 ≤ℤ p.0 → p.1 ≤ℤ q.1)

pub NoLater-trans : (p q r : Priority) → NoLater p q → NoLater q r → NoLater p r
NoLater-trans p q r h k = grind arith

pub NoLater-prop : (p q : Priority) → IsProp (NoLater p q)
NoLater-prop p q = hlevel (le_prop)

before→NoLater : (x y : Candidate) → candidate_before x y ≡ true → NoLater (priority x) (priority y)
unfolding candidate_before
before→NoLater x y h = grind arith

not_before→NoLater :
    (x y : Candidate) → candidate_before x y ≡ false → NoLater (priority y) (priority x)
unfolding candidate_before
not_before→NoLater x y h = grind arith

abbrev IsDescending : List Candidate → Type 0
IsDescending = Pairwise (λ a b. NoLater (priority b) (priority a))

insert_back-IsDescending :
    (x : Candidate) {ys : List Candidate}
    → IsDescending ys
    → IsDescending (insert_back candidate_before x ys)
unfolding insert_back
insert_back-IsDescending x Pairwise.nil = Pairwise-singleton _ x
insert_back-IsDescending x (Pairwise.cons {a = y} {l = ys} below s) =
    elim (Bool-cases (candidate_before x y)) [
      | inl e ↦ rw e (
          Pairwise.cons
            (λ z m.
              Or.elim (NoLater-prop (priority z) (priority y))
                (mem-cons.0 ((Perm.mem_iff (insert_back-perm candidate_before x ys)).0 m))
                (λ z_eq.
                  subst (λ w. NoLater (priority w) (priority y)) (sym z_eq) (before→NoLater x y e))
                (λ m'. below z m'))
            (insert_back-IsDescending x s))
      | inr e ↦ rw e (
          Pairwise.cons
            (λ z m.
              Or.elim (NoLater-prop (priority z) (priority x)) (mem-cons.0 m)
                (λ z_eq.
                  subst (λ w. NoLater (priority w) (priority x)) (sym z_eq)
                    (not_before→NoLater x y e))
                (λ m'.
                  NoLater-trans (priority z) (priority y) (priority x) (below z m')
                    (not_before→NoLater x y e)))
            (Pairwise.cons below s))
    ]

sort_onto-IsDescending :
    (xs : List Candidate) {done : List Candidate}
    → IsDescending done
    → IsDescending (sort_onto candidate_before done xs)
unfolding sort_onto
sort_onto-IsDescending [] h = h
sort_onto-IsDescending (x ∷ xs) h = sort_onto-IsDescending xs (insert_back-IsDescending x h)

-- In the order of their priorities.
abbrev pub IsByPriority : List Candidate → Type 0
IsByPriority = Pairwise (λ a b. NoLater (priority a) (priority b))

pub slice_stable-IsByPriority :
    (xs : List Candidate) → IsByPriority (slice_stable candidate_before xs)
unfolding slice_stable
slice_stable-IsByPriority xs =
    (Pairwise-reverse (λ a b. NoLater-prop (priority a) (priority b))).1
      (sort_onto-IsDescending xs Pairwise.nil)

-- All of one priority.
abbrev pub IsGroup : List Candidate → Type 0
IsGroup group = (p : Priority) × All (λ c. priority c ≡ p) group

All-append {ℓ κ} :
    {A : Type ℓ} (P : A → Type κ) (xs ys : List A) → All P xs → All P ys → All P (xs ++ ys)
All-append P [] ys hx hy = hy
All-append P (x ∷ xs) ys hx hy = (hx.0, All-append P xs ys hx.1 hy)

joins→eq :
    (c : Candidate) (cs : List Candidate) (v : Candidate)
    → joins (c ∷ cs) v ≡ true
    → priority c ≡ priority v
joins→eq c cs v h = ground arith

Priority-set : IsSet Priority
Priority-set = hlevel (ℕ_discrete)

joins-IsGroup :
    (group : List Candidate) (v : Candidate)
    → IsGroup group
    → joins group v ≡ true
    → IsGroup (group ++ v ∷ [])
joins-IsGroup [] v h e = absurd (cc e)
joins-IsGroup (c ∷ cs) v (p, h) e =
    (p, All-append (λ d. priority d ≡ p) (c ∷ cs) (v ∷ []) h (sym (joins→eq c cs v e) ∙ h.0, tt))

add_to_groups-IsGroup :
    (gs : List (List Candidate)) (v : Candidate) → All IsGroup gs → All IsGroup (add_to_groups gs v)
unfolding add_to_groups
add_to_groups-IsGroup [] v h = ((priority v, (refl, tt)), tt)
add_to_groups-IsGroup (g ∷ []) v h = elim (Bool-cases (joins g v)) [
  | inl e ↦ rw e (joins-IsGroup g v h.0 e, tt)
  | inr e ↦ rw e (h.0, ((priority v, (refl, tt)), tt))
]
add_to_groups-IsGroup (g ∷ k ∷ gs) v h = (h.0, add_to_groups-IsGroup (k ∷ gs) v h.1)

group_onto-IsGroup :
    (gs : List (List Candidate)) (vs : List Candidate)
    → All IsGroup gs
    → All IsGroup (group_onto gs vs)
unfolding group_onto
group_onto-IsGroup gs [] h = h
group_onto-IsGroup gs (v ∷ vs) h =
    group_onto-IsGroup (add_to_groups gs v) vs (add_to_groups-IsGroup gs v h)

pub group_candidates-IsGroup : (vs : List Candidate) → All IsGroup (group_candidates vs)
unfolding group_candidates
group_candidates-IsGroup vs = group_onto-IsGroup [] (slice_stable candidate_before vs) tt

-- Any order of a group has the same list of priorities.
priorities_of_group :
    (p : Priority) (group : List Candidate)
    → All (λ c. priority c ≡ p) group
    → map priority group ≡ List.replicate (List.length group) p
priorities_of_group p [] h = refl
priorities_of_group p (c ∷ cs) h = ap₂ (λ q qs. q ∷ qs) h.0 (priorities_of_group p cs h.1)

pub IsGroup-perm :
    {moved group : List Candidate}
    → IsGroup group
    → Perm moved group
    → map priority moved ≡ map priority group
IsGroup-perm {moved} {group} (p, h) m =
    (perm-replicate Priority-set _ p).0 (
      subst (λ ps. Perm (map priority moved) ps) (priorities_of_group p group h)
        (Perm.map priority m))
    ∙ sym (priorities_of_group p group h)
