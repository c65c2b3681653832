-- ===== src/Utils/RateLimit/Agreement.antt =====
-- utils/ratelimit.py: Redis and the memory decide alike.
use guillotina_oauth_server.Prelude.{
  ℕ, suc, ◌+◌, String, ◌≡◌, refl, ap, sym, ◌∙◌, Bool, some, List, [], ◌∷◌, ◌++◌, map, leb,
  if◌then◌else◌, length, pos, get,
}
use guillotina_oauth_server.Exec.{ok, Exec, lift, pure, bind_ok, ◌>>=◌, ◌>>◌}
use guillotina_oauth_server.Utils.RateLimit.Memory.{
  Windows, popleft_expired, memory_rate_limit_exceeded,
}
use guillotina_oauth_server.Utils.RateLimit.Redis.{
  RedisDriver, number, items, numbers, decode_redis_window, within, redis_key, redis_window,
  redis_rate_limit_exceeded,
}
use guillotina_oauth_server.Utils.RateLimit.Window.{
  IsSorted, popleft_expired-eq-within, memory_rate_limit_exceeded_lem,
}

decode-map_number : (hits : List ℕ) → decode_redis_window (some (items (map number hits))) ≡ ok hits
unfolding decode_redis_window
decode-map_number hits = ap ok (numbers-map hits)
  where
    numbers-map : (hits : List ℕ) → numbers (map number hits) ≡ hits
    numbers-map [] = refl
    numbers-map (t ∷ hits) = ap (λ rest. t ∷ rest) (numbers-map hits)

-- Where a key of Redis holds, as an array of numbers, the hits that the memory holds for it, oldest
-- first, and Redis answers, the Redis limiter gives the verdict of the memory limiter, and what it stores
-- back is what the memory then holds.
pub redis_rate_limit_exceeded_agrees :
    {R : Type 0} (driver : RedisDriver R) (key : String) (n window now : ℕ) (windows : Windows)
    (hits hits' : List ℕ) (r r' r'' : R)
    → get windows key ≡ some hits
    → IsSorted hits
    → get (memory_rate_limit_exceeded key (some (pos (suc n))) window now windows).1 key
      ≡ some hits'
    → driver.fetch (redis_key key) r ≡ (ok (some (items (map number hits))), r')
    → driver.save (redis_key key) hits' (window + 1) r' ≡ (ok tt, r'')
    → redis_rate_limit_exceeded driver key (suc n) window now r
      ≡ (ok (memory_rate_limit_exceeded key (some (pos (suc n))) window now windows).0, r'')
unfolding redis_rate_limit_exceeded
redis_rate_limit_exceeded_agrees {R = R} driver key n window now windows hits hits' r r' r'' held
      sorted after fetched saved =
    let recent : List ℕ = within window now hits in
    let popped : popleft_expired window now hits ≡ recent =
      popleft_expired-eq-within window now hits sorted in
    let step = rw held at (memory_rate_limit_exceeded_lem key n window now windows) in
    let verdict : (memory_rate_limit_exceeded key (some (pos (suc n))) window now windows).0
        ≡ leb (suc n) (length recent) =
      rw (← popped) step.0 in
    let stored : (if leb (suc n) (length recent) then recent else recent ++ now ∷ []) ≡ hits' =
      (rw (← popped) (cc (step.1, after))) in
    let read : redis_window driver (redis_key key) window now r ≡ (ok recent, r') =
      (unfold redis_window in
        bind_ok (driver.fetch (redis_key key))
          (λ raw. lift (decode_redis_window raw) >>= λ hits. pure (within window now hits)) fetched
        ∙ bind_ok (lift (decode_redis_window (some (items (map number hits)))))
            (λ hits. pure (within window now hits)) (ap (λ x. (x, r')) (decode-map_number hits))) in
    let save_of : Bool → List ℕ → Exec R (Unit {0}) = λ blocked hits.
      driver.save (redis_key key) (if blocked then hits else hits ++ now ∷ []) (window + 1) in
    bind_ok (redis_window driver (redis_key key) window now)
      (λ hits. save_of (leb (suc n) (length hits)) hits >> pure (leb (suc n) (length hits))) read
    ∙ bind_ok (save_of (leb (suc n) (length recent)) recent)
        (λ _. pure (leb (suc n) (length recent)))
        (ap (λ kept. driver.save (redis_key key) kept (window + 1) r') stored ∙ saved)
    ∙ ap (λ b. (ok b, r'')) (sym verdict)
