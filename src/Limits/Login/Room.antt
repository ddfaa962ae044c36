-- ===== src/Limits/Login/Room.antt =====
-- The loop of LoginLimiter.Allow that makes room ends.
use bablo.Prelude.{
  ℕ, zero, suc, ◌≤◌, ◌<◌, ℤ, ltb_ℤ, Bool, true, false, some, List, [], ◌∷◌, ◌≡◌, ◌⊎◌, inl, inr,
  refl, Text, text_eq, text_eq_refl, length, arith, Bool-cases,
}
use bablo.Prelude.Maps.{lookup, delete, retain}
use bablo.Limits.Login.{
  Entry, Entries, prune_expired, earliest, evict_earliest_reset, has_room, is_nil, make_room,
}

module _ {V : Type 0} where
  pub length-delete : (k : Text) (m : List (Text × V)) → length (delete k m) ≤ length m
  unfolding delete
  length-delete k [] = omega arith
  length-delete k ((j, v) ∷ m) = ground (arith, length-delete k m)

  -- What is there is deleted.
  pub length-delete_found :
      (k : Text) (m : List (Text × V)) (v : V)
      → lookup k m ≡ some v
      → length (delete k m) < length m
  unfolding delete lookup
  length-delete_found k [] v h = absurd (cc h)
  length-delete_found k ((j, w) ∷ m) v h =
      ground (arith, length-delete k m, length-delete_found k m v)

  length-retain : (p : V → Bool) (m : List (Text × V)) → length (retain p m) ≤ length m
  unfolding retain
  length-retain p [] = omega arith
  length-retain p ((j, v) ∷ m) = ground (arith, length-retain p m)

abbrev Has : Text → Entries → Type 0
Has k m = (e : Entry) × (lookup k m ≡ some e)

Has-cons : (k j : Text) (e : Entry) (m : Entries) → Has k m → Has k ((j, e) ∷ m)
unfolding lookup
Has-cons k j e m (d, h) = elim (Bool-cases (text_eq j k)) [
  | inl s ↦ (e, rw (s, lookup))
  | inr s ↦ (d, rw (s, lookup) h)
]

Has-first : (k : Text) (e : Entry) (m : Entries) → Has k ((k, e) ∷ m)
unfolding lookup
Has-first k e m = (e, rw (text_eq_refl k, lookup))

earliest-Has : (k : Text) (r : ℤ) (m : Entries) → (earliest k r m ≡ k) ⊎ Has (earliest k r m) m
unfolding earliest
earliest-Has k r [] = inl refl
earliest-Has k r ((j, e) ∷ m) = elim (Bool-cases (ltb_ℤ e.reset_at r)) [
  | inl s ↦
      rw (s, earliest)
        (elim (earliest-Has j e.reset_at m) [
          | inl f ↦ inr (rw f (Has-first j e m))
          | inr f ↦ inr (Has-cons _ j e m f)
        ])
  | inr s ↦
      rw (s, earliest)
        (elim (earliest-Has k r m) [ inl f ↦ inl f | inr f ↦ inr (Has-cons _ j e m f) ])
]

evict-shrinks :
    (k : Text) (e : Entry) (m : Entries)
    → length (evict_earliest_reset ((k, e) ∷ m)) < length ((k, e) ∷ m)
unfolding evict_earliest_reset
evict-shrinks k e m = elim (earliest-Has k e.reset_at m) [
  | inl f ↦ let (d, h) = Has-first k e m in rw f (length-delete_found k ((k, e) ∷ m) d h)
  | inr f ↦ let (d, h) = Has-cons _ k e m f in length-delete_found _ ((k, e) ∷ m) d h
]

shrinks_unless_nil :
    (es : Entries)
    → is_nil (evict_earliest_reset es) ≡ false
    → length (evict_earliest_reset es) < length es
unfolding evict_earliest_reset
shrinks_unless_nil [] h = absurd (cc h)
shrinks_unless_nil ((k, e) ∷ m) h = evict-shrinks k e m

is_nil→eq : (es : Entries) → is_nil es ≡ true → es ≡ []
is_nil→eq [] h = refl
is_nil→eq (e ∷ es) h = absurd (cc h)

length-pruned : (now : ℕ) (es : Entries) → length (prune_expired now es) ≤ length es
unfolding prune_expired
length-pruned now es = length-retain _ es

-- With fuel for more rounds than there are entries, the loop ends by its own conditions: there is
-- room for the new entries, or no entry is left.
pub make_room_ends :
    (fuel now fresh : ℕ) (max : ℤ) (es : Entries)
    → length es < fuel
    → (has_room fresh max (make_room fuel now fresh max es) ≡ true)
      ⊎ (make_room fuel now fresh max es ≡ [])
unfolding make_room
make_room_ends zero now fresh max es h = absurd (omega arith)
make_room_ends (suc fuel) now fresh max es h =
    let pruned = prune_expired now es in
    elim (Bool-cases (has_room fresh max es)) [
      | inl a ↦ rw (a, make_room) (inl a)
      | inr a ↦ elim (Bool-cases (has_room fresh max pruned)) [
        | inl b ↦ rw (a, b, make_room) (inl b)
        | inr b ↦ elim (Bool-cases (is_nil (evict_earliest_reset pruned))) [
          | inl c ↦ rw (a, b, c, make_room) (inr (is_nil→eq _ c))
          | inr c ↦
              rw (a, b, c, make_room)
                (make_room_ends fuel now fresh max (evict_earliest_reset pruned)
                  (omega (arith, shrinks_unless_nil pruned c, length-pruned now es)))
        ]
      ]
    ]
