-- ===== src/Utils/RateLimit/Memory.antt =====
-- utils/ratelimit.py: the in-memory windows. Times and windows are whole seconds, and
-- `t <= now - window` is written `t + window <= now`, which needs no negative cutoff.
use guillotina_oauth_server.Prelude.{
  ℕ, zero, suc, ◌+◌, ◌/◌, String, Bool, true, false, Option, none, some, List, [], ◌∷◌, ◌++◌, ◌==◌,
  leb, if◌then◌else◌, length, drop, ℤ, pos, negsuc, Dict, get, put,
}

-- `_windows`: for each key its hits, oldest first, the keys in the order in which they were added
abbrev pub Windows : Type 0
Windows = Dict (List ℕ)

abbrev pub max_tracked_keys : ℕ
max_tracked_keys = 50000

-- `not limit or limit <= 0` disables the limiter.
unfoldable pub active_limit : Option ℤ → Option ℕ
active_limit none = none
active_limit (some (pos zero)) = none
active_limit (some (pos (suc n))) = some (suc n)
active_limit (some (negsuc n)) = none

unfoldable pub prune_if_needed : Windows → Windows
prune_if_needed windows =
    if leb (length windows) max_tracked_keys then windows else drop (length windows / 2) windows

-- while window_deque and window_deque[0] <= cutoff: window_deque.popleft()
unfoldable pub popleft_expired : ℕ → ℕ → List ℕ → List ℕ
popleft_expired window now [] = []
popleft_expired window now (t ∷ hits) =
    let rest = popleft_expired window now hits in if leb (t + window) now then rest else t ∷ hits

-- A change of a deque that the dict may hold: a key that is gone does not come back.
unfoldable pub change_deque : Windows → String → List ℕ → Windows
change_deque [] key hits = []
change_deque ((k, old) ∷ windows) key hits =
    if k == key then (k, hits) ∷ windows else (k, old) ∷ change_deque windows key hits

-- The rest of `_memory_rate_limit_exceeded`, once the key has a deque.
unfoldable pub record_hit : String → ℕ → ℕ → ℕ → List ℕ → Windows → Bool × Windows
unfolding popleft_expired change_deque
record_hit key limit window now deque windows =
    let hits = popleft_expired window now deque in
    if leb limit (length hits)
    then (true, change_deque windows key hits)
    else (false, change_deque windows key (hits ++ now ∷ []))

unfoldable pub track_and_record : String → ℕ → ℕ → ℕ → Option (List ℕ) → Windows → Bool × Windows
unfolding prune_if_needed
track_and_record key limit window now none windows =
    record_hit key limit window now [] (prune_if_needed (put windows key []))
track_and_record key limit window now (some deque) windows =
    record_hit key limit window now deque windows

exceeded_within : String → Option ℕ → ℕ → ℕ → Windows → Bool × Windows
exceeded_within key none window now windows = (false, windows)
exceeded_within key (some limit) window now windows =
    track_and_record key limit window now (get windows key) windows

unfoldable pub memory_rate_limit_exceeded : String → Option ℤ → ℕ → ℕ → Windows → Bool × Windows
unfolding active_limit exceeded_within
memory_rate_limit_exceeded key limit window now windows =
    exceeded_within key (active_limit limit) window now windows

check_deque : String → ℕ → ℕ → ℕ → Option (List ℕ) → Windows → Bool × Windows
check_deque key limit window now none windows = (false, windows)
check_deque key limit window now (some deque) windows =
    let hits = popleft_expired window now deque in
    (leb limit (length hits), change_deque windows key hits)

check_within : String → Option ℕ → ℕ → ℕ → Windows → Bool × Windows
unfolding check_deque
check_within key none window now windows = (false, windows)
check_within key (some limit) window now windows =
    check_deque key limit window now (get windows key) windows

unfoldable pub memory_rate_limit_check : String → Option ℤ → ℕ → ℕ → Windows → Bool × Windows
unfolding active_limit check_within
memory_rate_limit_check key limit window now windows =
    check_within key (active_limit limit) window now windows
