-- ===== src/Limits/Login.antt =====
-- LoginLimiter of internal/auth/limiter.go: attempts of an account and of an address in one window.
-- A time is a number of nanoseconds since the zero time. The keys are those of attemptKeys, two
-- hashes that are never empty. The order of the entries stands for that in which Go ranges over
-- them. The mutex makes calls follow one another.
pub mod Room
pub mod Entries
pub mod Forgotten
use bablo.Prelude.{
  ℕ, zero, suc, ◌+◌, ◌/◌, ◌*◌, ℤ, pos, negsuc, pos_part, ltb_ℤ, leb_ℤ, eqb_ℤ, add64, mul64, Bool,
  true, false, not, ◌&&◌, Option, none, some, List, [], ◌∷◌, Text, length, if◌then◌else◌,
}
use bablo.Prelude.Maps.{lookup, insert, delete, retain}

-- defaultAttemptEntries.
abbrev pub default_attempt_entries : ℤ
default_attempt_entries = pos 10000

-- loginLimitEntry.
pub record Entry : Type 0 where
  pub attempts : ℤ
  pub reset_at : ℤ

abbrev pub Entries : Type 0
Entries = List (Text × Entry)

pub record LoginLimiter : Type 0 where
  pub entries : Entries
  pub account_limit : ℤ
  pub ip_limit : ℤ
  pub window : ℕ
  pub max_entries : ℤ

abbrev pub positive_or : ℤ → ℤ → ℤ
positive_or default n = if leb_ℤ n (pos 0) then default else n

-- NewMemoryAttemptLimiter.
unfoldable pub new_memory_attempt_limiter : ℤ → ℤ → ℤ → ℤ → LoginLimiter
new_memory_attempt_limiter account_limit ip_limit window max_entries =
    let account = positive_or (pos 8) account_limit in
    record {
      entries = [];
      account_limit = account;
      ip_limit = positive_or (mul64 account (pos 5)) ip_limit;
      window = pos_part (positive_or (pos 300000000000) window);
      max_entries = if ltb_ℤ max_entries (pos 2) then default_attempt_entries else max_entries;
    }

-- `!now.Before(entry.resetAt)`.
abbrev pub is_expired : ℕ → Entry → Bool
is_expired now e = leb_ℤ e.reset_at (pos now)

abbrev pub found_expired : ℕ → Option Entry → Bool
found_expired now none = false
found_expired now (some e) = is_expired now e

unfoldable pub drop_expired : ℕ → Text → Entries → Entries
drop_expired now key es = if found_expired now (lookup key es) then delete key es else es

abbrev pub one_if_new : Text → Entries → ℕ
one_if_new key es = elim (lookup key es) [ none ↦ 1 | some e ↦ 0 ]

unfoldable pub prune_expired : ℕ → Entries → Entries
prune_expired now es = retain (λ e. not (is_expired now e)) es

-- The key of the earliest reset: of the entry seen so far, or of one that follows.
unfoldable pub earliest : Text → ℤ → Entries → Text
earliest key reset_at [] = key
earliest key reset_at ((k, e) ∷ es) =
    let sooner = earliest k e.reset_at es in
    let same = earliest key reset_at es in if ltb_ℤ e.reset_at reset_at then sooner else same

unfoldable pub evict_earliest_reset : Entries → Entries
unfolding earliest
evict_earliest_reset [] = []
evict_earliest_reset ((k, e) ∷ es) = delete (earliest k e.reset_at es) ((k, e) ∷ es)

-- `len(l.entries)+newEntries <= l.maxEntries`.
abbrev pub has_room : ℕ → ℤ → Entries → Bool
has_room fresh max es = leb_ℤ (pos (length es + fresh)) max

abbrev pub is_nil : Entries → Bool
is_nil [] = true
is_nil (e ∷ es) = false

-- The loop that makes room, with fuel for its rounds.
unfoldable pub make_room : ℕ → ℕ → ℕ → ℤ → Entries → Entries
unfolding prune_expired evict_earliest_reset
make_room zero now fresh max es = es
make_room (suc fuel) now fresh max es =
    let pruned = prune_expired now es in
    let evicted = evict_earliest_reset pruned in
    let rest = make_room fuel now fresh max evicted in
    if has_room fresh max es
    then es
    else if has_room fresh max pruned
    then pruned
    else if is_nil evicted
    then evicted
    else rest

-- `now.Truncate(l.window).Add(l.window)`.
abbrev pub next_reset : ℕ → ℕ → ℤ
next_reset window now = pos (now / window * window + window)

abbrev pub attempted : ℤ → Option Entry → Entry
attempted reset_at none = record { attempts = pos 1; reset_at = reset_at }
attempted reset_at (some e) = record {
  attempts = add64 e.attempts (pos 1);
  reset_at = if eqb_ℤ e.reset_at (pos 0) then reset_at else e.reset_at;
}

-- One round of the last loop: the entry of a key after the attempt, and whether it is within.
unfoldable pub attempt : ℤ → ℤ → Text → Entries → Bool × Entries
attempt reset_at limit key es =
    let e = attempted reset_at (lookup key es) in (not (ltb_ℤ limit e.attempts), insert key e es)

-- Both attempts, on entries with room for them.
unfoldable pub attempts_of : LoginLimiter → Text → Text → ℕ → Entries → Bool × Entries
unfolding attempt
attempts_of l account ip now es =
    let reset_at = next_reset l.window now in
    let (first, es') = attempt reset_at l.account_limit account es in
    let (second, es'') = attempt reset_at l.ip_limit ip es' in (first && second, es'')

-- LoginLimiter.Allow, with fuel for one round more than there are entries.
unfoldable pub allow : LoginLimiter → Text → Text → ℕ → Bool × LoginLimiter
unfolding drop_expired make_room attempts_of
allow l account ip now =
    let es = drop_expired now ip (drop_expired now account l.entries) in
    let fresh = one_if_new account es + one_if_new ip es in
    let roomy = make_room (suc (length es)) now fresh l.max_entries es in
    let (allowed, entries) = attempts_of l account ip now roomy in
    (allowed, record l { entries = entries })
