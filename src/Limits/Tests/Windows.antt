-- ===== src/Limits/Tests/Windows.antt =====
-- Three requests of a key within one minute, of which its limits allow the first two.
use bablo.Prelude.{
  ℕ, ℤ, pos, ◌≤◌, none, some, List, [], ◌∷◌, ◌≡◌, refl, length, arith, ◌+ℤ◌, ◌-ℤ◌, add64, wrap64,
}
use bablo.Limits.Window.{allow, find, put, same_id, minute_of, max_memory_windows}
use bablo.Limits.Window.Size.{allow-length}
use bablo.Limits.Window.Quota.{Call, allowed_requests, allowed_tokens, sum_tokens, serve}
use bablo.Limits.Window.Minute.{allowed-within_limits}

abbrev call_of : ℕ → ℤ → Call
call_of key tokens = record {
  key_id = key;
  rpm = some (pos 2);
  tpm = some (pos 100);
  tokens = tokens;
  now = 63000000000000000000;
}

abbrev calls : List Call
calls = call_of 1 (pos 60) ∷ call_of 2 (pos 9) ∷ call_of 1 (pos 40) ∷ call_of 1 (pos 0) ∷ []

run : (allowed_requests 1 calls [] ≡ 2) × (allowed_tokens 1 calls [] ≡ 100)
unfolding allowed_requests allowed_tokens serve allow find put same_id add64 wrap64 ◌+ℤ◌ ◌-ℤ◌
run = (refl, refl)

allowed-within_limits_example :
    (allowed_requests 1 calls [] ≤ 2) × (allowed_tokens 1 calls [] ≤ 100)
unfolding sum_tokens find
allowed-within_limits_example =
    allowed-within_limits 1 (minute_of 63000000000000000000) (some (pos 2)) (some (pos 100)) calls
      []
      (
        (refl, λ e. (refl, refl)),
        ((refl, λ e. (refl, refl)), ((refl, λ e. (refl, refl)), ((refl, λ e. (refl, refl)), tt))),
      )
      (omega arith) (omega arith) refl

allow-length_example :
    length (allow 1 (some (pos 2)) none (pos 5) 63000000000000000000 []).1 ≤ max_memory_windows
allow-length_example =
    allow-length 1 (some (pos 2)) none (pos 5) 63000000000000000000 [] (omega arith)
