-- ===== src/Limits/Window/Quota.antt =====
-- Within one minute, the requests and tokens that are allowed to a key stay within its limits.
use bablo.Prelude.{
  ℕ, ◌+◌, ◌≤◌, ℤ, pos, pos_part, eqb_ℤ, Bool, true, false, Option, none, some, List, [], ◌∷◌, ◌≡◌,
  refl, sym, ap, ◌∙◌, if◌then◌else◌, arith, Bool-cases, inl, inr, ◌&&◌, eqb_ℤ→eq, ◌==◌,
}
use bablo.Limits.Window.{
  WindowId, WindowCount, Windows, find, put, prune, same_id, count_or_zero, allow, LimitError,
}

same_id→eq : (a b : WindowId) → same_id a b ≡ true → a ≡ b
unfolding same_id
same_id→eq a b h = ground (arith, eqb_ℤ→eq a.minute b.minute)

same_id_refl : (a : WindowId) → same_id a a ≡ true
unfolding same_id
same_id_refl a = ground arith

same_id-minute : (a b : WindowId) → same_id a b ≡ true → eqb_ℤ a.minute b.minute ≡ true
unfolding same_id
same_id-minute a b h = ground arith

-- Two that differ are not both the same as a third.
apart : (i id j : WindowId) → same_id i id ≡ false → same_id i j ≡ true → same_id id j ≡ false
apart i id j e f = elim (Bool-cases (same_id id j)) [
  | inr g ↦ g
  | inl g ↦
      let back : same_id i id ≡ true = ap (same_id i) (same_id→eq id j g) ∙ f in
      absurd (cc (back, e))
]

find-put :
    (id j : WindowId) (c : WindowCount) (ws : Windows)
    → find j (put id c ws) ≡ (if same_id id j then some c else find j ws)
unfolding find put
find-put id j c [] = refl
find-put id j c ((i, d) ∷ ws) = elim (Bool-cases (same_id i id)) [
  | inl e ↦
      rw (e, put)
        (elim (Bool-cases (same_id i j)) [
          | inl f ↦ rw (sym (ap (λ k. same_id k j) (same_id→eq i id e)), f, find)
          | inr f ↦ rw (sym (ap (λ k. same_id k j) (same_id→eq i id e)), f, find)
        ])
  | inr e ↦
      rw (e, put)
        (elim (Bool-cases (same_id i j)) [
          | inl f ↦ rw (f, apart i id j e f, find) refl
          | inr f ↦ rw (f, find) (find-put id j c ws)
        ])
]

find-prune : (id : WindowId) (ws : Windows) → find id (prune id.minute ws) ≡ find id ws
unfolding find prune
find-prune id [] = refl
find-prune id ((i, d) ∷ ws) = elim (Bool-cases (eqb_ℤ i.minute id.minute)) [
  | inl m ↦ rw (m, prune) (ap (λ rest. if same_id i id then some d else rest) (find-prune id ws))
  | inr m ↦
      rw (m, prune)
        (elim (Bool-cases (same_id i id)) [
          | inl s ↦ absurd (cc (m, same_id-minute i id s))
          | inr s ↦ rw (s, find) (find-prune id ws)
        ])
]

-- A request: whose it is, the limits of its key, its tokens and its time.
pub record Call : Type 0 where
  pub key_id : ℕ
  pub rpm : Option ℤ
  pub tpm : Option ℤ
  pub tokens : ℤ
  pub now : ℕ

unfoldable pub serve : Call → Windows → Option LimitError × Windows
serve call ws = allow call.key_id call.rpm call.tpm call.tokens call.now ws

abbrev pub is_allowed : Option LimitError → Bool
is_allowed none = true
is_allowed (some e) = false

abbrev pub grants : ℕ → Call → Option LimitError → Bool
grants k call answer = (call.key_id == k) && is_allowed answer

-- The requests of the key that are allowed, and their tokens.
unfoldable pub allowed_requests : ℕ → List Call → Windows → ℕ
allowed_requests k [] ws = 0
allowed_requests k (c ∷ cs) ws =
    let (answer, ws') = serve c ws in
    (if grants k c answer then 1 else 0) + allowed_requests k cs ws'

unfoldable pub allowed_tokens : ℕ → List Call → Windows → ℕ
allowed_tokens k [] ws = 0
allowed_tokens k (c ∷ cs) ws =
    let (answer, ws') = serve c ws in
    (if grants k c answer then pos_part c.tokens else 0) + allowed_tokens k cs ws'

unfoldable pub sum_tokens : List Call → ℕ
sum_tokens [] = 0
sum_tokens (c ∷ cs) = pos_part c.tokens + sum_tokens cs

-- No more than the limit, if there is one.
abbrev pub AtMost : ℕ → Option ℤ → Type 0
AtMost n none = Unit
AtMost n (some limit) = n ≤ pos_part limit

-- The counts of a window.
abbrev pub Counts : WindowId → ℕ → ℕ → Windows → Type 0
Counts id r t ws = count_or_zero (find id ws) ≡ record { requests = pos r; tokens = pos t }

module _ (id : WindowId) where
  pub put-Counts :
      (r t : ℕ) (ws : Windows)
      → Counts id r t (put id (record { requests = pos r; tokens = pos t }) ws)
  put-Counts r t ws = ap count_or_zero (find-put id id _ ws) ∙ (rw (same_id_refl id))

  pub put_other-Counts :
      (other : WindowId) (c : WindowCount) (r t : ℕ) (ws : Windows)
      → same_id other id ≡ false
      → Counts id r t ws
      → Counts id r t (put other c ws)
  put_other-Counts other c r t ws d h = ap count_or_zero (find-put other id c ws) ∙ (rw d h)

  pub prune-Counts :
      (m : ℤ) (r t : ℕ) (ws : Windows)
      → id.minute ≡ m
      → Counts id r t ws
      → Counts id r t (prune m ws)
  prune-Counts m r t ws e h =
      ap (λ n. count_or_zero (find id (prune n ws))) (sym e)
      ∙ (ap count_or_zero (find-prune id ws) ∙ h)
