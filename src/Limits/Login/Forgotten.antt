-- ===== src/Limits/Login/Forgotten.antt =====
-- LoginLimiter.Allow forgets the attempts of the very account that it counts.
use bablo.Prelude.{
  ℕ, suc, ◌+◌, ℤ, pos, pos_part, ◌≤ℤ◌, ltb_ℤ, Bool, true, false, Option, none, some, [], ◌∷◌, ◌≡◌,
  inl, inr, refl, ◌∙◌, ap, Text, text_eq, text_eq_refl, length, arith, Bool-cases, All, ◌&&◌,
}
use bablo.Prelude.Maps.{lookup, insert, delete, retain}
use bablo.Limits.Login.Entries.{current, with_room}
use bablo.Limits.Login.{
  Entry, Entries, LoginLimiter, drop_expired, one_if_new, prune_expired, earliest, is_expired,
  found_expired, evict_earliest_reset, has_room, is_nil, make_room, attempt, attempts_of, allow,
  next_reset,
}

-- Entries of other keys than two, that have not expired and are not reset before some time.
abbrev pub AreLater : Text → Text → ℕ → ℤ → Entries → Type 0
AreLater account ip now reset_at es =
    All
      (λ x.
        (text_eq x.0 account ≡ false)
        × (text_eq x.0 ip ≡ false)
        × (is_expired now x.1 ≡ false)
        × (ltb_ℤ x.1.reset_at reset_at ≡ false))
      es

module _ (account ip : Text) (now : ℕ) (reset_at : ℤ) where
  lookup-later :
      (es : Entries)
      → AreLater account ip now reset_at es
      → (lookup account es ≡ none) × (lookup ip es ≡ none)
  unfolding lookup
  lookup-later [] a = (refl, refl)
  lookup-later ((k, e) ∷ es) ((n, m, x, r), a) =
      let (f, g) = lookup-later es a in (rw (n) f, rw (m) g)

  delete-later :
      (es : Entries)
      → AreLater account ip now reset_at es
      → (delete account es ≡ es) × (delete ip es ≡ es)
  unfolding delete
  delete-later [] a = (refl, refl)
  delete-later ((k, e) ∷ es) ((n, m, x, r), a) =
      let (f, g) = delete-later es a in
      (rw (n) (ap (λ fs. (k, e) ∷ fs) f), rw (m) (ap (λ fs. (k, e) ∷ fs) g))

  prune-later : (es : Entries) → AreLater account ip now reset_at es → prune_expired now es ≡ es
  unfolding prune_expired retain
  prune-later [] a = refl
  prune-later ((k, e) ∷ es) ((n, m, x, r), a) = rw (x) (ap (λ fs. (k, e) ∷ fs) (prune-later es a))

  earliest-later :
      (es : Entries) → AreLater account ip now reset_at es → earliest account reset_at es ≡ account
  unfolding earliest
  earliest-later [] a = refl
  earliest-later ((k, e) ∷ es) ((n, m, x, r), a) = rw (r) (earliest-later es a)

make_room-enough :
    (n now fresh : ℕ) (max : ℤ) (es : Entries)
    → has_room fresh max es ≡ true
    → make_room (suc n) now fresh max es ≡ es
unfolding make_room
make_room-enough n now fresh max es h = rw (h, make_room) refl

make_room-evicts :
    (n now fresh : ℕ) (max : ℤ) (es es' : Entries)
    → prune_expired now es ≡ es
    → has_room fresh max es ≡ false
    → evict_earliest_reset es ≡ es'
    → has_room fresh max es' ≡ true
    → make_room (suc (suc n)) now fresh max es ≡ es'
unfolding make_room
make_room-evicts n now fresh max es es' p h v r =
    let evicted : evict_earliest_reset (prune_expired now es) ≡ es' =
      ap evict_earliest_reset p ∙ v in
    let full : has_room fresh max (prune_expired now es) ≡ false = ap (has_room fresh max) p ∙ h in
    elim (Bool-cases (is_nil es')) [
      | inl e ↦ rw (h, full, evicted, e, make_room) refl
      | inr e ↦ rw (h, full, evicted, e, make_room) (make_room-enough n now fresh max es' r)
    ]

abbrev first_attempt : ℤ → Entry
first_attempt reset_at = record { attempts = pos 1; reset_at = reset_at }

attempt-new :
    (reset_at limit : ℤ) (key : Text) (es : Entries)
    → pos 1 ≤ℤ limit
    → lookup key es ≡ none
    → delete key es ≡ es
    → attempt reset_at limit key es ≡ (true, (key, first_attempt reset_at) ∷ es)
unfolding attempt insert
attempt-new reset_at limit key es h f d =
    let within : ltb_ℤ limit (pos 1) ≡ false = ground arith in rw (f, d, within, attempt) refl

-- Both attempts on entries of other keys.
attempts_of-new :
    (l : LoginLimiter) (account ip : Text) (now : ℕ) (reset_at : ℤ) (es : Entries)
    → pos 1 ≤ℤ l.account_limit
    → pos 1 ≤ℤ l.ip_limit
    → text_eq account ip ≡ false
    → AreLater account ip now reset_at es
    → attempts_of l account ip now es ≡ (
      true,
      (ip, first_attempt (next_reset l.window now))
          ∷ (account, first_attempt (next_reset l.window now))
          ∷ es,
    )
unfolding attempts_of lookup delete
attempts_of-new l account ip now reset_at es a i n later =
    let r = next_reset l.window now in
    let (f, g) = lookup-later account ip now reset_at es later in
    let (d, c) = delete-later account ip now reset_at es later in
    let first = attempt-new r l.account_limit account es a f d in
    let second =
      attempt-new r l.ip_limit ip ((account, first_attempt r) ∷ es) i (rw (n) g)
        (rw (n) (ap (λ fs. (account, first_attempt r) ∷ fs) c)) in
    let outcome : Bool × Entries → Bool × Entries =
      λ p. let q = attempt r l.ip_limit ip p.1 in (p.0 && q.0, q.1) in
    let whole : attempts_of l account ip now es ≡ outcome (attempt r l.account_limit account es) =
      refl in
    whole ∙ ap outcome first ∙ ap (λ (q : Bool × Entries). (q.0, q.1)) second

drop_live :
    (now : ℕ) (key : Text) (es : Entries)
    → found_expired now (lookup key es) ≡ false
    → drop_expired now key es ≡ es
unfolding drop_expired
drop_live now key es h = rw (h, drop_expired) refl

-- The account's entry is evicted to make room for that of the address.
with_room-forgets :
    (l : LoginLimiter) (account ip : Text) (now : ℕ) (e : Entry) (es : Entries)
    → l.entries ≡ (account, e) ∷ es
    → pos (suc (length es)) ≡ l.max_entries
    → text_eq account ip ≡ false
    → is_expired now e ≡ false
    → AreLater account ip now e.reset_at es
    → with_room l account ip now ≡ es
unfolding lookup prune_expired retain evict_earliest_reset delete
with_room-forgets l account ip now e es start full n x later =
    let all = (account, e) ∷ es in
    let here : lookup account all ≡ some e = rw (text_eq_refl account, lookup) refl in
    let there : lookup ip all ≡ none =
      rw (n, lookup) ((lookup-later account ip now e.reset_at es later).1) in
    let account_live = drop_live now account all (ap (found_expired now) here ∙ x) in
    let ip_live = drop_live now ip all (ap (found_expired now) there) in
    let unchanged : current l account ip now ≡ all =
      ap (λ fs. drop_expired now ip (drop_expired now account fs)) start
      ∙ ap (drop_expired now ip) account_live
      ∙ ip_live in
    let fresh : one_if_new account all + one_if_new ip all ≡ 1 =
      ap (λ (o : Option Entry). elim o [ none ↦ 1 | some d ↦ 0 ] + one_if_new ip all) here
      ∙ ap (λ (o : Option Entry). 0 + elim o [ none ↦ 1 | some d ↦ 0 ]) there in
    ap
      (λ fs.
        make_room (suc (length fs)) now (one_if_new account fs + one_if_new ip fs) l.max_entries fs)
      unchanged
    ∙ ap (λ f. make_room (suc (length all)) now f l.max_entries all) fresh
    ∙ make_room-evicts (length es) now 1 l.max_entries all es
        (rw (x) (ap (λ fs. (account, e) ∷ fs) (prune-later account ip now e.reset_at es later)))
        (ground arith)
        (ap (λ k. delete k all) (earliest-later account ip now e.reset_at es later)
          ∙ rw (text_eq_refl account) ((delete-later account ip now e.reset_at es later).0))
        (ground arith)

-- A full limiter, of which no entry has expired, and that of an account is the first to be reset,
-- whatever its attempts; and another address. The account's attempt is allowed, its entry having
-- been evicted to make room for that of the address, and more entries are left than configured.
pub allow-forgets :
    (l : LoginLimiter) (account ip : Text) (now : ℕ) (e : Entry) (es : Entries)
    → l.entries ≡ (account, e) ∷ es
    → pos (suc (length es)) ≡ l.max_entries
    → pos 1 ≤ℤ l.account_limit
    → pos 1 ≤ℤ l.ip_limit
    → text_eq account ip ≡ false
    → is_expired now e ≡ false
    → AreLater account ip now e.reset_at es
    → ((allow l account ip now).0 ≡ true)
      × (length (allow l account ip now).1.entries ≡ suc (pos_part l.max_entries))
unfolding allow
allow-forgets l account ip now e es start full a i n x later =
    let room = with_room-forgets l account ip now e es start full n x later in
    let done =
      ap (attempts_of l account ip now) room
      ∙ attempts_of-new l account ip now e.reset_at es a i n later in
    (ap (λ r. r.0) done, ap (λ r. length r.1) done ∙ ap (λ m. suc (pos_part m)) full)
