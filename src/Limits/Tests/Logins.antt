-- ===== src/Limits/Tests/Logins.antt =====
-- A limiter of two entries that is full.
use bablo.Prelude.{
  pos, ◌≤◌, ◌+◌, ◌⊎◌, true, [], ◌∷◌, ◌≡◌, refl, length, arith, ◌+ℤ◌, add64, wrap64, codes, text_eq,
}
use bablo.Prelude.Maps.{lookup, insert, delete, retain}
use bablo.Limits.Login.{LoginLimiter, Entries, allow, make_room, has_room}
use bablo.Limits.Login.Room.{make_room_ends}
use bablo.Limits.Login.Entries.{absent, current, with_room, allow-entries}
use bablo.Limits.Login.Forgotten.{allow-forgets}

abbrev two_entries : Entries
two_entries =
    (codes "account", record { attempts = pos 9; reset_at = pos 200 })
    ∷ (codes "other", record { attempts = pos 1; reset_at = pos 300 })
    ∷ []

abbrev limiter : LoginLimiter
limiter = record {
  entries = two_entries;
  account_limit = pos 8;
  ip_limit = pos 40;
  window = 100;
  max_entries = pos 2;
}

-- The account has used up its attempts, but its entry is evicted to make room for that of the
-- address: the attempt is allowed, and three entries are left.
forgotten :
    ((allow limiter (codes "account") (codes "address") 150).0 ≡ true)
    × (length (allow limiter (codes "account") (codes "address") 150).1.entries ≡ 3)
unfolding allow lookup insert delete retain text_eq add64 wrap64 ◌+ℤ◌
forgotten = (refl, refl)

allow-forgets_example :
    ((allow limiter (codes "account") (codes "address") 150).0 ≡ true)
    × (length (allow limiter (codes "account") (codes "address") 150).1.entries ≡ 3)
unfolding text_eq
allow-forgets_example =
    allow-forgets limiter (codes "account") (codes "address") 150
      (record { attempts = pos 9; reset_at = pos 200 })
      ((codes "other", record { attempts = pos 1; reset_at = pos 300 }) ∷ []) refl refl
      (omega arith) (omega arith) refl refl ((refl, refl, refl, refl), tt)

allow-entries_example :
    length (allow limiter (codes "account") (codes "address") 150).1.entries
      + (absent (codes "account") (current limiter (codes "account") (codes "address") 150)
          + absent (codes "address") (current limiter (codes "account") (codes "address") 150))
    ≤ 2
      + (absent (codes "account") (with_room limiter (codes "account") (codes "address") 150)
          + absent (codes "address") (with_room limiter (codes "account") (codes "address") 150))
unfolding text_eq
allow-entries_example =
    allow-entries limiter (codes "account") (codes "address") 150 refl (omega arith)

make_room_ends_example :
    (has_room 1 (pos 2) (make_room 3 150 1 (pos 2) two_entries) ≡ true)
    ⊎ (make_room 3 150 1 (pos 2) two_entries ≡ [])
make_room_ends_example = make_room_ends 3 150 1 (pos 2) two_entries (omega arith)
