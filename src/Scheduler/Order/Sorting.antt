-- ===== src/Scheduler/Order/Sorting.antt =====
-- groupCandidates and orderCandidates keep every candidate.
use mathlib.Core.Option
use mathlib.Core.List.{Perm, reverse_perm, perm_middle, perm_append_comm, append_assoc, append-nil}
use mathlib.Core.List.Perm
use bablo.Prelude.{
  ℕ, ◌%◌, ◌==◌, ℤ, pos, negsuc, Bool, Option, none, some, List, [], ◌∷◌, ◌++◌, ◌∙◌, ◌≡◌, refl,
  subst, length, take, drop, take-append-drop, Bool-cases, inl, inr,
}
use bablo.Scheduler.Model.{Candidate, Uuid}
use bablo.Scheduler.Order.{
  insert_back, sort_onto, slice_stable, joins, add_to_groups, group_onto, group_candidates,
  candidate_before, rotate, rotate_by, swap_out, moved_to_front, move_bound,
}

module _ (less : Candidate → Candidate → Bool) where
  pub insert_back-perm :
      (x : Candidate) (ys : List Candidate) → Perm (insert_back less x ys) (x ∷ ys)
  unfolding insert_back
  insert_back-perm x [] = Perm.rfl
  insert_back-perm x (y ∷ ys) = elim (Bool-cases (less x y)) [
    | inl e ↦ rw e (Perm.trans (Perm.cons y (insert_back-perm x ys)) (Perm.swap x y ys))
    | inr e ↦ rw e Perm.rfl
  ]

  sort_onto-perm : (done xs : List Candidate) → Perm (sort_onto less done xs) (done ++ xs)
  unfolding sort_onto
  sort_onto-perm done [] = rw append-nil Perm.rfl
  sort_onto-perm done (x ∷ xs) = Perm.trans (sort_onto-perm (insert_back less x done) xs) (
      Perm.trans (Perm.append_right xs (insert_back-perm x done)) (Perm.symm (perm_middle done xs)))

  pub slice_stable-perm : (xs : List Candidate) → Perm (slice_stable less xs) xs
  unfolding slice_stable
  slice_stable-perm xs = Perm.trans (reverse_perm _) (sort_onto-perm [] xs)

some-injective {ℓ} : {A : Type ℓ} {a b : A} → some a ≡ some b → a ≡ b
some-injective h = cc h

-- The candidates of the groups, group after group.
unfoldable pub flatten : List (List Candidate) → List Candidate
flatten [] = []
flatten (g ∷ gs) = g ++ flatten gs

add_to_groups-flatten :
    (gs : List (List Candidate)) (v : Candidate)
    → flatten (add_to_groups gs v) ≡ flatten gs ++ v ∷ []
unfolding flatten add_to_groups
add_to_groups-flatten [] v = refl
add_to_groups-flatten (g ∷ []) v = elim (Bool-cases (joins g v)) [
  | inl e ↦ rw e (simp (append-nil))
  | inr e ↦ rw e (simp (append-nil))
]
add_to_groups-flatten (g ∷ h ∷ gs) v = simp (add_to_groups-flatten (h ∷ gs) v, append_assoc)

group_onto-flatten :
    (gs : List (List Candidate)) (vs : List Candidate)
    → flatten (group_onto gs vs) ≡ flatten gs ++ vs
unfolding group_onto
group_onto-flatten gs [] = rw append-nil
group_onto-flatten gs (v ∷ vs) =
    group_onto-flatten (add_to_groups gs v) vs
    ∙ (rw (add_to_groups-flatten gs v) (append_assoc (flatten gs) (v ∷ []) vs))

pub group_candidates-flatten :
    (vs : List Candidate) → flatten (group_candidates vs) ≡ slice_stable candidate_before vs
unfolding group_candidates flatten
group_candidates-flatten vs = group_onto-flatten [] (slice_stable candidate_before vs)

pub rotate_by-perm : (vs : List Candidate) (n : ℕ) → Perm (rotate_by vs n) vs
unfolding rotate_by
rotate_by-perm vs n =
    subst (λ ws. Perm (drop n vs ++ take n vs) ws) (take-append-drop n vs)
      (perm_append_comm (drop n vs) (take n vs))

pub rotate-perm : (vs : List Candidate) (start : ℤ) → Perm (rotate vs start) vs
unfolding rotate
rotate-perm [] start = Perm.rfl
rotate-perm (v ∷ vs) (negsuc n) = Perm.rfl
rotate-perm (v ∷ vs) (pos n) = rotate_by-perm (v ∷ vs) (n % length (v ∷ vs))

-- What the search for the bound credential finds is made of the candidates searched.
abbrev Rearranges : List Candidate → Option (Candidate × List Candidate) → Type 0
Rearranges group none = Unit
Rearranges group (some (front, behind)) = Perm (front ∷ behind) group

Rearranges-behind :
    (c e : Candidate) (cs : List Candidate) (found : Option (Candidate × List Candidate))
    → Rearranges (c ∷ cs) found
    → Rearranges (c ∷ e ∷ cs) (Option.map (λ f. (f.0, e ∷ f.1)) found)
Rearranges-behind c e cs none h = tt
Rearranges-behind c e cs (some (d, ds)) h =
    Perm.trans (Perm.swap e d ds) (Perm.trans (Perm.cons e h) (Perm.swap c e cs))

swap_out-Rearranges :
    (bound : Uuid) (c : Candidate) (cs : List Candidate) → Rearranges (c ∷ cs) (swap_out bound c cs)
unfolding swap_out
swap_out-Rearranges bound c [] = tt
swap_out-Rearranges bound c (e ∷ cs) = elim (Bool-cases (e.member.credential_id == bound)) [
  | inl h ↦ rw h (Perm.swap c e cs)
  | inr h ↦ rw h (Rearranges-behind c e cs (swap_out bound c cs) (swap_out-Rearranges bound c cs))
]

moved_to_front-perm :
    (group : List Candidate) (found : Option (Candidate × List Candidate)) (moved : List Candidate)
    → Rearranges group found
    → moved_to_front found ≡ some moved
    → Perm moved group
moved_to_front-perm group none moved h e = absurd (cc e)
moved_to_front-perm group (some (d, ds)) moved h e = subst (λ m. Perm m group) (some-injective e) h

pub move_bound-perm :
    (bound : Option Uuid) (group moved : List Candidate)
    → move_bound bound group ≡ some moved
    → Perm moved group
unfolding move_bound
move_bound-perm none group moved h = absurd (cc h)
move_bound-perm (some b) [] moved h = absurd (cc h)
move_bound-perm (some b) (c ∷ cs) moved h = elim (Bool-cases (c.member.credential_id == b)) [
  | inl e ↦ subst (λ m. Perm m (c ∷ cs)) (some-injective (rw e at h)) Perm.rfl
  | inr e ↦ moved_to_front-perm _ _ moved (swap_out-Rearranges b c cs) (rw e at h)
]
