-- ===== src/Utils/RateLimit/Redis.antt =====
-- utils/ratelimit.py: the windows in Redis, and the choice between Redis and memory.
use guillotina_oauth_server.Prelude.{
  ℕ, ◌+◌, String, Bool, true, false, not, ◌||◌, Option, none, some, List, [], ◌∷◌, ◌++◌, leb, ltb,
  if◌then◌else◌, length, ℤ, concat,
}
use guillotina_oauth_server.Exec.{Result, ok, err, type_error, Exec, ◌>>=◌, ◌>>◌, pure, lift}
use guillotina_oauth_server.Utils.RateLimit.Memory.{
  Windows, active_limit, memory_rate_limit_exceeded, memory_rate_limit_check,
}

-- What a key of Redis holds: bytes that do not parse as JSON, a number or null, which Python cannot
-- iterate, or a value that it can, as its items. An item that is no number (any character of a text, any
-- key of an object) counts for nothing.
pub data StoredItem : Type 0 where
  number : ℕ → StoredItem
  other : StoredItem

pub data Stored : Type 0 where
  undecodable : Stored
  not_iterable : Stored
  items : List StoredItem → Stored

-- guillotina.contrib.redis, over its own state: any of these calls may raise.
pub record RedisDriver (R : Type 0) : Type 0 where
  pub get_driver : Exec R (Unit {0})
  pub fetch : String → Exec R (Option Stored)
  -- driver.set(key, dumps(window), expire=…)
  pub save : String → List ℕ → ℕ → Exec R (Unit {0})

-- The module's state: `_windows`, `_redis_unavailable`, and what Redis holds.
pub record Limiter (R : Type 0) : Type 0 where
  pub windows : Windows
  pub redis_unavailable : Bool
  pub redis : R

-- time.time() and time.monotonic() at a call.
pub record Clocks : Type 0 where
  pub wall : ℕ
  pub monotonic : ℕ

unfoldable pub numbers : List StoredItem → List ℕ
numbers [] = []
numbers (number t ∷ rest) = t ∷ numbers rest
numbers (other ∷ rest) = numbers rest

unfoldable pub decode_redis_window : Option Stored → Result (List ℕ)
unfolding numbers
decode_redis_window none = ok []
decode_redis_window (some undecodable) = ok []
decode_redis_window (some not_iterable) = err type_error
decode_redis_window (some (items stored)) = ok (numbers stored)

-- [item for item in window_deque if item > cutoff]
unfoldable pub within : ℕ → ℕ → List ℕ → List ℕ
within window now [] = []
within window now (t ∷ hits) =
    let rest = within window now hits in if ltb now (t + window) then t ∷ rest else rest

unfoldable pub redis_key : String → String
redis_key key = concat "oauth-rate-limit:v1:" key

module _ {R : Type 0} (driver : RedisDriver R) where
  unfoldable pub redis_window : String → ℕ → ℕ → Exec R (List ℕ)
  unfolding decode_redis_window
  redis_window key window now = do
    raw ← driver.fetch key
    hits ← lift (decode_redis_window raw)
    pure (within window now hits)

  unfoldable pub redis_rate_limit_exceeded : String → ℕ → ℕ → ℕ → Exec R Bool
  unfolding redis_window
  redis_rate_limit_exceeded key limit window now = do
    hits ← redis_window (redis_key key) window now
    let blocked = leb limit (length hits)
    driver.save (redis_key key) (if blocked then hits else hits ++ now ∷ []) (window + 1)
    pure blocked

  unfoldable pub redis_rate_limit_check : String → ℕ → ℕ → ℕ → Exec R Bool
  unfolding redis_window
  redis_rate_limit_check key limit window now = do
    hits ← redis_window (redis_key key) window now
    driver.save (redis_key key) hits (window + 1)
    pure (leb limit (length hits))

  -- `_get_redis_driver`: whether there is one. A failure is remembered.
  unfoldable pub get_redis_driver : Bool → Limiter R → Bool × Limiter R
  get_redis_driver enabled l =
      if l.redis_unavailable || not enabled
      then (false, l)
      else (let (r, redis) = driver.get_driver l.redis in
          elim r [
            | ok _ ↦ (true, record l { redis = redis })
            | err _ ↦ (false, record l { redis = redis; redis_unavailable = true })
          ])

  in_memory_of : (Windows → Bool × Windows) → Limiter R → Bool × Limiter R
  in_memory_of in_memory l =
      let (verdict, windows) = in_memory l.windows in (verdict, record l { windows = windows })

  -- Redis if it answers, and the memory otherwise.
  unfoldable pub with_fallback :
      Exec R Bool → (Windows → Bool × Windows) → Bool → Limiter R → Bool × Limiter R
  unfolding get_redis_driver in_memory_of
  with_fallback over_redis in_memory enabled l =
      let (connected, l') = get_redis_driver enabled l in
      if connected
      then (let (r, redis) = over_redis l'.redis in
          elim r [
            | ok verdict ↦ (verdict, record l' { redis = redis })
            | err _ ↦ in_memory_of in_memory (record l' { redis = redis })
          ])
      else in_memory_of in_memory l'

  unfoldable pub rate_limit_exceeded :
      String → Option ℤ → ℕ → Clocks → Bool → Limiter R → Bool × Limiter R
  rate_limit_exceeded key limit window clocks enabled l = elim (active_limit limit) [
    | none ↦ (false, l)
    | some n ↦
        with_fallback (redis_rate_limit_exceeded key n window clocks.wall)
          (memory_rate_limit_exceeded key limit window clocks.monotonic) enabled l
  ]

  unfoldable pub rate_limit_check :
      String → Option ℤ → ℕ → Clocks → Bool → Limiter R → Bool × Limiter R
  rate_limit_check key limit window clocks enabled l = elim (active_limit limit) [
    | none ↦ (false, l)
    | some n ↦
        with_fallback (redis_rate_limit_check key n window clocks.wall)
          (memory_rate_limit_check key limit window clocks.monotonic) enabled l
  ]

-- `reset_rate_limits`: what Redis holds stays.
unfoldable pub reset_rate_limits : {R : Type 0} → Limiter R → Limiter R
reset_rate_limits l = record l { windows = []; redis_unavailable = false }
