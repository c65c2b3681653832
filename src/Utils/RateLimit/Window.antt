-- ===== src/Utils/RateLimit/Window.antt =====
-- utils/ratelimit.py: the deque of a key, and what a call makes of it.
use guillotina_oauth_server.Prelude.{
  ℕ, zero, suc, ◌+◌, ◌/◌, ◌≤◌, ◌<◌, String, ◌≡◌, refl, ◌∙◌, Option, none, some, List, [], ◌∷◌, ◌++◌,
  arith, ◌==◌, eq_iff, eq_refl, leb, if◌then◌else◌, length, length-append, drop, map_option, pos,
  get, put, Option-cases, Bool-cases, inl, inr, All,
}
use guillotina_oauth_server.Utils.RateLimit.Memory.{
  Windows, prune_if_needed, popleft_expired, change_deque, record_hit, track_and_record,
  memory_rate_limit_exceeded, memory_rate_limit_check,
}
use guillotina_oauth_server.Utils.RateLimit.Redis.{within}

-- Oldest first.
abbrev pub IsSorted : List ℕ → Type 0
IsSorted [] = Unit
IsSorted (t ∷ hits) = All (λ u. t ≤ u) hits × IsSorted hits

All-within :
    (window now t : ℕ) (hits : List ℕ)
    → now < t + window
    → All (λ u. t ≤ u) hits
    → within window now hits ≡ hits
unfolding within
All-within window now t [] h later = refl
All-within window now t (u ∷ hits) h later =
    ground (arith, All-within window now t hits h later.1, later.0)

-- Dropping from the front until a hit is recent enough is keeping the recent ones, since a deque is in
-- the order of its times.
pub popleft_expired-eq-within :
    (window now : ℕ) (hits : List ℕ)
    → IsSorted hits
    → popleft_expired window now hits ≡ within window now hits
unfolding popleft_expired within
popleft_expired-eq-within window now [] sorted = refl
popleft_expired-eq-within window now (t ∷ hits) sorted = ground (
  arith,
  popleft_expired-eq-within window now hits sorted.1,
  All-within window now t hits,
  sorted.0,
)

pub get-change_deque :
    (windows : Windows) (key : String) (hits : List ℕ) (j : String)
    → get (change_deque windows key hits) j
      ≡ (if key == j then map_option (λ _. hits) (get windows j) else get windows j)
unfolding get change_deque
get-change_deque [] key hits j = ground arith
get-change_deque ((k, old) ∷ windows) key hits j =
    ground (arith, eq_iff k key, eq_iff k j, eq_iff key j, get-change_deque windows key hits j)

put_absent :
    (windows : Windows) (key : String) (hits : List ℕ)
    → get windows key ≡ none
    → put windows key hits ≡ windows ++ (key, hits) ∷ []
unfolding get put
put_absent [] key hits h = refl
put_absent ((k, old) ∷ windows) key hits h = ground (arith, put_absent windows key hits)

-- Dropping entries from the front does not reach the last one.
get-drop :
    (n : ℕ) (windows : Windows) (key : String) (hits : List ℕ)
    → get windows key ≡ none
    → n ≤ length windows
    → get (drop n (windows ++ (key, hits) ∷ [])) key ≡ some hits
unfolding get
get-drop zero [] key hits h le = rw (eq_refl key)
get-drop zero ((k, old) ∷ windows) key hits h le = ground (arith, get-drop zero windows key hits)
get-drop (suc n) [] key hits h le = absurd (omega arith)
get-drop (suc n) ((k, old) ∷ windows) key hits h le = ground (arith, get-drop n windows key hits)

-- The key that has just been added is the last to be evicted.
pub get-prune_if_needed :
    (windows : Windows) (key : String)
    → get windows key ≡ none
    → get (prune_if_needed (put windows key [])) key ≡ some []
unfolding prune_if_needed
get-prune_if_needed windows key h = rw (put_absent windows key [] h) (
    ground (
      arith,
      get-drop 0 windows key [] h,
      get-drop (length (windows ++ (key, []) ∷ []) / 2) windows key [] h,
      length-append windows ((key, []) ∷ []),
    ))

-- The deque of a key; a key that is not tracked has none.
abbrev pub deque_or : Option (List ℕ) → List ℕ
deque_or none = []
deque_or (some hits) = hits

abbrev pub deque_of : Windows → String → List ℕ
deque_of windows key = deque_or (get windows key)

record_hit_lem :
    (key : String) (limit window now : ℕ) (deque : List ℕ) (windows : Windows)
    → get windows key ≡ some deque
    → let hits = popleft_expired window now deque in
      ((record_hit key limit window now deque windows).0 ≡ leb limit (length hits))
      × (get (record_hit key limit window now deque windows).1 key
          ≡ some (if leb limit (length hits) then hits else hits ++ now ∷ []))
unfolding record_hit
record_hit_lem key limit window now deque windows h =
    let hits = popleft_expired window now deque in
    elim (Bool-cases (leb limit (length hits))) [
      | inl e ↦ (rw e, rw e (rw (get-change_deque windows key hits key, eq_refl key, h)))
      | inr e ↦
          (rw e, rw e (rw (get-change_deque windows key (hits ++ now ∷ []) key, eq_refl key, h)))
    ]

-- A call with a positive limit blocks exactly if, after the hits that have left the window are
-- dropped, `limit` of them remain. A call that is let through is recorded as the newest hit, and one that is
-- blocked is not, so that a blocked caller cannot extend its own window. This holds for a new key too,
-- also where adding it evicts half of the keys.
pub memory_rate_limit_exceeded_lem :
    (key : String) (n window now : ℕ) (windows : Windows)
    → let hits = popleft_expired window now (deque_of windows key) in
      let outcome = memory_rate_limit_exceeded key (some (pos (suc n))) window now windows in
      (outcome.0 ≡ leb (suc n) (length hits))
      × (get outcome.1 key ≡ some (if leb (suc n) (length hits) then hits else hits ++ now ∷ []))
unfolding memory_rate_limit_exceeded track_and_record
memory_rate_limit_exceeded_lem key n window now windows = elim (Option-cases (get windows key)) [
  | inl e ↦ rw e (
      record_hit_lem key (suc n) window now [] (prune_if_needed (put windows key []))
        (get-prune_if_needed windows key e))
  | inr (deque, e) ↦ rw e (record_hit_lem key (suc n) window now deque windows e)
]

-- The check gives the verdict that a registering call would give, and the hits that such a call would
-- keep; it records nothing and tracks no new key.
pub memory_rate_limit_check_lem :
    (key : String) (n window now : ℕ) (windows : Windows)
    → let hits = popleft_expired window now (deque_of windows key) in
      let outcome = memory_rate_limit_check key (some (pos (suc n))) window now windows in
      (outcome.0 ≡ (memory_rate_limit_exceeded key (some (pos (suc n))) window now windows).0)
      × (get outcome.1 key ≡ map_option (λ _. hits) (get windows key))
unfolding memory_rate_limit_check
memory_rate_limit_check_lem key n window now windows =
    let registered = memory_rate_limit_exceeded_lem key n window now windows in
    elim (Option-cases (get windows key)) [
      | inl e ↦ rw registered.0 (rw e (unfold popleft_expired in (ground arith, e)))
      | inr (deque, e) ↦ rw registered.0 (
          rw e (
            refl,
            get-change_deque windows key (popleft_expired window now deque) key
                ∙ rw (eq_refl key, e),
          ))
    ]
