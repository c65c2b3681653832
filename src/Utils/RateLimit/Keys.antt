-- ===== src/Utils/RateLimit/Keys.antt =====
-- utils/ratelimit.py: how many keys are tracked, and what a call does to other keys.
use guillotina_oauth_server.Prelude.{
  ℕ, ◌+◌, ◌/◌, ◌≤◌, ◌<◌, String, ◌≡◌, ◌≢◌, refl, ◌∙◌, Option, List, [], ◌∷◌, ◌++◌, arith, eq_iff,
  length, length-drop, ℤ, get, put, get-put, Option-cases, inl, inr,
}
use guillotina_oauth_server.Utils.RateLimit.Memory.{
  Windows, max_tracked_keys, prune_if_needed, popleft_expired, change_deque, record_hit,
  track_and_record, memory_rate_limit_exceeded, active_limit,
}
use guillotina_oauth_server.Utils.RateLimit.Window.{get-change_deque, deque_of}

length-change_deque :
    (windows : Windows) (key : String) (hits : List ℕ)
    → length (change_deque windows key hits) ≡ length windows
unfolding change_deque
length-change_deque [] key hits = refl
length-change_deque ((k, old) ∷ windows) key hits =
    ground (arith, length-change_deque windows key hits)

length-put :
    (windows : Windows) (key : String) (hits : List ℕ)
    → length (put windows key hits) ≤ length windows + 1
unfolding put
length-put [] key hits = omega arith
length-put ((k, old) ∷ windows) key hits = ground (arith, length-put windows key hits)

length-record_hit :
    (key : String) (limit window now : ℕ) (deque : List ℕ) (windows : Windows)
    → length (record_hit key limit window now deque windows).1 ≡ length windows
unfolding record_hit
length-record_hit key limit window now deque windows =
    let hits = popleft_expired window now deque in
    ground (
      arith,
      length-change_deque windows key hits,
      length-change_deque windows key (hits ++ now ∷ []),
    )

length-prune_if_needed :
    (windows : Windows)
    → length windows ≤ max_tracked_keys + 1
    → length (prune_if_needed windows) ≤ max_tracked_keys
unfolding prune_if_needed
length-prune_if_needed windows h = ground (arith, length-drop (length windows / 2) windows)

-- The memory is bounded: a call never takes the number of tracked keys past `_MAX_TRACKED_KEYS`,
-- whatever its limit.
pub length-memory_rate_limit_exceeded :
    (key : String) (limit : Option ℤ) (window now : ℕ) (windows : Windows)
    → length windows ≤ max_tracked_keys
    → length (memory_rate_limit_exceeded key limit window now windows).1 ≤ max_tracked_keys
unfolding memory_rate_limit_exceeded track_and_record
length-memory_rate_limit_exceeded key limit window now windows h =
    elim (Option-cases (active_limit limit)) [
      | inl e ↦ rw e h
      | inr (n, e) ↦ elim (Option-cases (get windows key)) [
        | inl e' ↦
            let pruned = prune_if_needed (put windows key []) in
            rw (e, e')
              (omega (
                arith,
                length-record_hit key n window now [] pruned,
                length-prune_if_needed (put windows key []),
                length-put windows key [],
              ))
        | inr (deque, e') ↦
            rw (e, e') (omega (arith, length-record_hit key n window now deque windows))
      ]
    ]

-- A call tracks at most one more key.
pub memory_rate_limit_exceeded_grows :
    (key : String) (limit : Option ℤ) (window now : ℕ) (windows : Windows)
    → length windows < max_tracked_keys
    → length (memory_rate_limit_exceeded key limit window now windows).1 ≤ length windows + 1
unfolding memory_rate_limit_exceeded track_and_record
memory_rate_limit_exceeded_grows key limit window now windows h =
    elim (Option-cases (active_limit limit)) [
      | inl e ↦ rw e (omega arith)
      | inr (n, e) ↦ elim (Option-cases (get windows key)) [
        | inl e' ↦
            let pruned = prune_if_needed (put windows key []) in
            let same : pruned ≡ put windows key [] =
              (unfold prune_if_needed in ground (arith, length-put windows key [])) in
            rw (e, e')
              (rw same (
                omega (
                  arith,
                  length-record_hit key n window now [] (put windows key []),
                  length-put windows key [],
                )))
        | inr (deque, e') ↦
            rw (e, e') (omega (arith, length-record_hit key n window now deque windows))
      ]
    ]

-- The deque of a key depends on what is found under the key.
pub deque_of-same :
    (windows windows' : Windows) (key : String)
    → get windows key ≡ get windows' key
    → deque_of windows key ≡ deque_of windows' key
deque_of-same windows windows' key h = rw h refl

get-record_hit :
    (key : String) (limit window now : ℕ) (deque : List ℕ) (windows : Windows) (other : String)
    → key ≢ other
    → get (record_hit key limit window now deque windows).1 other ≡ get windows other
unfolding record_hit
get-record_hit key limit window now deque windows other apart =
    let hits = popleft_expired window now deque in
    ground (
      arith,
      eq_iff key other,
      get-change_deque windows key hits other,
      get-change_deque windows key (hits ++ now ∷ []) other,
    )

-- A call does not touch the hits of another key, as long as fewer keys than `_MAX_TRACKED_KEYS` are
-- tracked.
pub get-memory_rate_limit_exceeded :
    (key : String) (limit : Option ℤ) (window now : ℕ) (windows : Windows) (other : String)
    → key ≢ other
    → length windows < max_tracked_keys
    → get (memory_rate_limit_exceeded key limit window now windows).1 other ≡ get windows other
unfolding memory_rate_limit_exceeded track_and_record
get-memory_rate_limit_exceeded key limit window now windows other apart room =
    elim (Option-cases (active_limit limit)) [
      | inl e ↦ rw e refl
      | inr (n, e) ↦ elim (Option-cases (get windows key)) [
        | inr (deque, e') ↦ rw (e, e') (get-record_hit key n window now deque windows other apart)
        | inl e' ↦
            let pruned = prune_if_needed (put windows key []) in
            let same : pruned ≡ put windows key [] =
              (unfold prune_if_needed in ground (arith, length-put windows key [])) in
            rw (e, e')
              (get-record_hit key n window now [] pruned other apart
                ∙ ground (arith, same, get-put windows key [] other, eq_iff key other))
      ]
    ]
