-- ===== src/Limits/Window.antt =====
-- memoryLimiter of internal/apikey/limiter.go: requests and tokens of a key in one minute.
-- A time is a number of nanoseconds since the zero time. The mutex makes calls follow one another.
pub mod Quota
pub mod Size
pub mod Minute
use bablo.Prelude.{
  ℕ, ◌/◌, ◌*◌, ◌==◌, leb, ℤ, pos, ◌-ℤ◌, ltb_ℤ, eqb_ℤ, add64, Bool, true, false, not, ◌&&◌, Option,
  none, some, List, [], ◌∷◌, length, if◌then◌else◌,
}

-- maxMemoryWindows.
abbrev pub max_memory_windows : ℕ
max_memory_windows = 100000

-- windowID.
pub record WindowId : Type 0 where
  pub key_id : ℕ
  pub minute : ℤ

pub record WindowCount : Type 0 where
  pub requests : ℤ
  pub tokens : ℤ

abbrev pub Windows : Type 0
Windows = List (WindowId × WindowCount)

pub data LimitError : Type 0 where
  invalid_input rate_limited rate_limit_unavailable : LimitError

unfoldable pub same_id : WindowId → WindowId → Bool
same_id a b = (a.key_id == b.key_id) && eqb_ℤ a.minute b.minute

unfoldable pub find : WindowId → Windows → Option WindowCount
find id [] = none
find id ((i, c) ∷ ws) = let rest = find id ws in if same_id i id then some c else rest

-- `l.windows[id] = count`.
unfoldable pub put : WindowId → WindowCount → Windows → Windows
put id count [] = (id, count) ∷ []
put id count ((i, c) ∷ ws) =
    let rest = (i, c) ∷ put id count ws in if same_id i id then (i, count) ∷ ws else rest

-- The loop that deletes the windows of other minutes.
unfoldable pub prune : ℤ → Windows → Windows
prune minute [] = []
prune minute ((i, c) ∷ ws) =
    let rest = prune minute ws in if eqb_ℤ i.minute minute then (i, c) ∷ rest else rest

-- now.UTC().Truncate(time.Minute).Unix(): seconds since 1970.
abbrev pub minute_of : ℕ → ℤ
minute_of now = pos (now / 60000000000 * 60) -ℤ pos 62135596800

abbrev pub count_or_zero : Option WindowCount → WindowCount
count_or_zero none = record { requests = pos 0; tokens = pos 0 }
count_or_zero (some c) = c

abbrev pub is_none : Option WindowCount → Bool
is_none none = true
is_none (some c) = false

-- `limit != nil && used > *limit`.
abbrev pub exceeds : ℤ → Option ℤ → Bool
exceeds used none = false
exceeds used (some limit) = ltb_ℤ limit used

abbrev pub is_unlimited : Option ℤ → Option ℤ → Bool
is_unlimited none none = true
is_unlimited none (some t) = false
is_unlimited (some r) t = false

-- The answer to a counted request; nothing means that it is allowed.
abbrev pub verdict : Option ℤ → Option ℤ → WindowCount → Option LimitError
verdict rpm tpm count =
    if exceeds count.requests rpm
    then some rate_limited
    else if exceeds count.tokens tpm
    then some rate_limited
    else none

abbrev pub counted : WindowCount → ℤ → WindowCount
counted count tokens = record {
  requests = add64 count.requests (pos 1);
  tokens = add64 count.tokens tokens;
}

unfoldable pub count_request :
    WindowId → Option ℤ → Option ℤ → ℤ → Windows → Option LimitError × Windows
unfolding find put
count_request id rpm tpm tokens ws =
    let count = counted (count_or_zero (find id ws)) tokens in
    (verdict rpm tpm count, put id count ws)

-- The map is full and the window is new.
abbrev pub lacks_room : WindowId → Windows → Bool
lacks_room id ws = is_none (find id ws) && leb max_memory_windows (length ws)

-- memoryLimiter.Allow under the mutex.
unfoldable pub allow_window :
    WindowId → Option ℤ → Option ℤ → ℤ → Windows → Option LimitError × Windows
unfolding count_request prune
allow_window id rpm tpm tokens ws =
    if lacks_room id ws
    then (let pruned = prune id.minute ws in
        if leb max_memory_windows (length pruned)
        then (some rate_limit_unavailable, pruned)
        else count_request id rpm tpm tokens pruned)
    else count_request id rpm tpm tokens ws

-- memoryLimiter.Allow.
unfoldable pub allow : ℕ → Option ℤ → Option ℤ → ℤ → ℕ → Windows → Option LimitError × Windows
unfolding allow_window
allow key_id rpm tpm tokens now ws =
    if ltb_ℤ tokens (pos 0)
    then (some invalid_input, ws)
    else if is_unlimited rpm tpm
    then (none, ws)
    else allow_window (record { key_id = key_id; minute = minute_of now }) rpm tpm tokens ws
