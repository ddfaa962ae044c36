-- ===== src/Limits/Login/Entries.antt =====
-- The number of entries after LoginLimiter.Allow.
use bablo.Prelude.{
  ℕ, suc, ◌+◌, ◌≤◌, ℤ, pos, negsuc, pos_part, leb_ℤ, true, false, Option, none, some, [], ◌≡◌, inl,
  inr, refl, ◌∙◌, ap, Text, text_eq, length, arith, Option-cases,
}
use bablo.Prelude.Maps.{lookup, insert, lookup-insert}
use bablo.Limits.Login.{
  Entry, Entries, LoginLimiter, drop_expired, one_if_new, has_room, make_room, attempt, attempts_of,
  allow, next_reset, attempted,
}
use bablo.Limits.Login.Room.{make_room_ends, length-delete, length-delete_found}

-- 1 for a key without an entry.
abbrev pub absent : Text → Entries → ℕ
absent k es = elim (lookup k es) [ none ↦ 1 | some e ↦ 0 ]

length-insert :
    (k : Text) (e : Entry) (es : Entries) → length (insert k e es) ≤ length es + absent k es
unfolding insert
length-insert k e es = elim (Option-cases (lookup k es)) [
  | inl h ↦ rw (h, absent) (omega (arith, length-delete k es))
  | inr (d, h) ↦ rw (h, absent) (omega (arith, length-delete_found k es d h))
]

-- Other keys are present or absent as before.
absent-insert :
    (k j : Text) (e : Entry) (es : Entries)
    → text_eq k j ≡ false
    → absent j (insert k e es) ≡ absent j es
absent-insert k j e es n =
    ap (λ (o : Option Entry). elim o [ none ↦ 1 | some e ↦ 0 ])
      (lookup-insert k j e es ∙ rw (n) refl)

length-attempts_of :
    (l : LoginLimiter) (account ip : Text) (now : ℕ) (es : Entries)
    → text_eq account ip ≡ false
    → length (attempts_of l account ip now es).1 ≤ length es + (absent account es + absent ip es)
unfolding attempts_of attempt
length-attempts_of l account ip now es n =
    let reset_at = next_reset l.window now in
    let e = attempted reset_at (lookup account es) in
    let es' = insert account e es in
    omega (
      arith,
      length-insert account e es,
      length-insert ip (attempted reset_at (lookup ip es')) es',
      absent-insert account ip e es n,
    )

-- The entries after those of the call's own keys that have expired are dropped, and after the loop
-- that makes room for the new ones.
abbrev pub current : LoginLimiter → Text → Text → ℕ → Entries
current l account ip now = drop_expired now ip (drop_expired now account l.entries)

abbrev pub with_room : LoginLimiter → Text → Text → ℕ → Entries
with_room l account ip now =
    let es = current l account ip now in
    make_room (suc (length es)) now (one_if_new account es + one_if_new ip es) l.max_entries es

absent-le : (k : Text) (es : Entries) → absent k es ≤ 1
absent-le k es = elim (Option-cases (lookup k es)) [
  | inl h ↦ rw (h, absent) (omega arith)
  | inr (d, h) ↦ rw (h, absent) (omega arith)
]

absent-nil : (k : Text) → absent k [] ≡ 1
unfolding lookup
absent-nil k = refl

room-length :
    (fresh : ℕ) (max : ℤ) (es : Entries)
    → has_room fresh max es ≡ true
    → length es + fresh ≤ pos_part max
room-length fresh max es h = bound (length es + fresh) max h
  where
    bound : (n : ℕ) (max : ℤ) → leb_ℤ (pos n) max ≡ true → n ≤ pos_part max
    bound n (pos m) h = ground arith
    bound n (negsuc m) h = ground arith

-- Whatever the entries were, of a limiter for two entries or more and of two different keys: after
-- an attempt there are at most as many entries as configured, and one more for each of the two
-- keys whose entry, present and not expired, was evicted to make room.
pub allow-entries :
    (l : LoginLimiter) (account ip : Text) (now : ℕ)
    → text_eq account ip ≡ false
    → 2 ≤ pos_part l.max_entries
    → length (allow l account ip now).1.entries
        + (absent account (current l account ip now) + absent ip (current l account ip now))
      ≤ pos_part l.max_entries
        + (absent account (with_room l account ip now) + absent ip (with_room l account ip now))
unfolding allow
allow-entries l account ip now n two =
    let es = current l account ip now in
    let fresh = one_if_new account es + one_if_new ip es in
    let roomy = with_room l account ip now in
    let few = length-attempts_of l account ip now roomy n in
    elim (make_room_ends (suc (length es)) now fresh l.max_entries es (omega arith)) [
      | inl h ↦ omega (arith, few, room-length fresh l.max_entries roomy h)
      | inr h ↦
          let empty : length roomy ≡ 0 = ap length h in
          let first : absent account roomy ≡ 1 = ap (absent account) h ∙ absent-nil account in
          let second : absent ip roomy ≡ 1 = ap (absent ip) h ∙ absent-nil ip in
          omega (arith, few, empty, first, second, absent-le account es, absent-le ip es)
    ]
