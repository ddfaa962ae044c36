-- ===== src/Scheduler/Coordinator/Rotation.antt =====
-- Next hands out consecutive positions of a cursor as long as no call comes later than its TTL.
use bablo.Prelude.{
  ℕ, suc, ◌+◌, ◌%◌, ℤ, pos, ◌+ℤ◌, ◌≤ℤ◌, add64, add64_lem, max_int64, leb_ℤ, ltb_ℤ, true, false,
  ◌||◌, some, List, [], ◌∷◌, Text, is_empty, text_eq_refl, ◌≡◌, refl, ap, ◌∙◌, arith, length,
}
use bablo.Prelude.Maps.{
  lookup, retain, kept, AreUnique, lookup-insert, lookup-retain, insert-AreUnique, retain-AreUnique,
}
use bablo.Scheduler.Model.{Outcome, success}
use bablo.Scheduler.Coordinator.{Memory, CursorEntry, cleanup, next, lives}

-- Calls of Next at one instant after the other.
pub nexts : Text → ℤ → ℤ → List ℤ → Memory → List (Outcome ℤ)
nexts key modulo ttl [] c = []
nexts key modulo ttl (now ∷ times) c =
    (next false key modulo ttl now c).0
    ∷ nexts key modulo ttl times (next false key modulo ttl now c).1

-- Each call comes before the cursor that the call before it left has expired.
abbrev pub InTime : ℤ → ℤ → List ℤ → Type 0
InTime ttl until [] = Unit
InTime ttl until (now ∷ times) = (ltb_ℤ now until ≡ true) × InTime ttl (now +ℤ ttl) times

-- v mod n, v + 1 mod n, and so on.
unfoldable pub positions : ℕ → ℕ → List ℤ → List (Outcome ℤ)
positions v n [] = []
positions v n (now ∷ times) = success (pos (v % n)) ∷ positions (suc v) n times

-- The cursor of the key is at a value until the instant.
pub record IsAt (key : Text) (v : ℕ) (until : ℤ) (c : Memory) : Type 0 where
  pub unique : AreUnique c.cursors
  pub entry : lookup key c.cursors ≡ some (record { value = pos v; expires_at = until })

found_after_cleanup :
    (key : Text) (v : ℕ) (until now : ℤ) (c : Memory)
    → IsAt key v until c
    → ltb_ℤ now until ≡ true
    → lookup key (retain (λ (e : CursorEntry). lives e.expires_at now) c.cursors)
      ≡ some (record { value = pos v; expires_at = until })
found_after_cleanup key v until now c a l =
    lookup-retain _ key c.cursors a.unique
    ∙ (ap (kept (λ (e : CursorEntry). lives e.expires_at now)) a.entry ∙ (rw l))

successor : (v : ℕ) → pos (suc v) ≤ℤ max_int64 → add64 (pos v) (pos 1) ≡ pos (suc v)
unfolding ◌+ℤ◌
successor v m = add64_lem (pos v) (pos 1) (ground arith) ∙ ground arith

next-IsAt :
    (key : Text) (n v : ℕ) (ttl now until : ℤ) (c : Memory)
    → (is_empty key || leb_ℤ (pos n) (pos 0) || leb_ℤ ttl (pos 0)) ≡ false
    → pos (suc v) ≤ℤ max_int64
    → IsAt key v until c
    → ltb_ℤ now until ≡ true
    → ((next false key (pos n) ttl now c).0 ≡ success (pos (v % n)))
      × IsAt key (suc v) (now +ℤ ttl) (next false key (pos n) ttl now c).1
unfolding next cleanup
next-IsAt key n v ttl now until c valid m a l =
    let found = found_after_cleanup key v until now c a l in
    (
      rw (valid, found),
      rw (valid, found)
          (record {
            unique = insert-AreUnique key _ _ (retain-AreUnique _ c.cursors a.unique);
            entry = lookup-insert key key _ _ ∙ (rw (text_eq_refl key, successor v m));
          }),
    )

-- The i-th of a row of calls, each in time, returns the cursor's first value plus i, modulo n.
pub nexts-positions :
    (key : Text) (n v : ℕ) (ttl until : ℤ) (times : List ℤ) (c : Memory)
    → (is_empty key || leb_ℤ (pos n) (pos 0) || leb_ℤ ttl (pos 0)) ≡ false
    → pos (v + length times) ≤ℤ max_int64
    → IsAt key v until c
    → InTime ttl until times
    → nexts key (pos n) ttl times c ≡ positions v n times
unfolding nexts positions
nexts-positions key n v ttl until [] c valid m a t = refl
nexts-positions key n v ttl until (now ∷ times) c valid m a t =
    let (r, a') = next-IsAt key n v ttl now until c valid (omega arith) a t.0 in
    rw r (
      ap (λ rest. success (pos (v % n)) ∷ rest)
        (nexts-positions key n (suc v) ttl (now +ℤ ttl) times _ valid (omega arith) a' t.1))
