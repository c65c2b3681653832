-- ===== src/Tests/Limits.antt =====
-- The theorems on rate limiting and on forms at concrete inputs.
use guillotina_oauth_server.Prelude.{
  All, eq_iff, ◌≤◌, ◌≡◌, refl, arith, String, some, List, [], ◌∷◌, map, pos, get, put,
}
use guillotina_oauth_server.Exec.{ok, pure}
use guillotina_oauth_server.Utils.RateLimit.Memory.{
  Windows, memory_rate_limit_exceeded, popleft_expired, change_deque, record_hit, track_and_record,
  active_limit,
}
use guillotina_oauth_server.Utils.RateLimit.Redis.{
  RedisDriver, items, number, redis_rate_limit_exceeded,
}
use guillotina_oauth_server.Utils.RateLimit.Bound.{
  hits_in, accepted, accepted-le-limit, Call, own, foreign, IsApart, own_times,
}
use guillotina_oauth_server.Utils.RateLimit.Agreement.{redis_rate_limit_exceeded_agrees}
use guillotina_oauth_server.Utils.Request.Params.{
  text, repeated, parse_form_encoded, parse_qs, as_param, reject_duplicate_params,
  duplicate_param_names,
}
use guillotina_oauth_server.Utils.Request.Form.{values_of, as_parameter, get-parse_form_encoded}

abbrev windows : Windows
windows = ("a", 40 ∷ 45 ∷ []) ∷ []

-- Redis that holds the same hits under every key.
abbrev redis : RedisDriver (Unit {0})
redis = record {
  get_driver = pure tt;
  fetch = λ key. pure (some (items (map number (40 ∷ 45 ∷ []))));
  save = λ key window expire. pure tt;
}

-- Three calls for "b", and one for another key in between
abbrev limit_calls : List Call
limit_calls = own 41 ∷ foreign "c" (some (pos 1)) 5 42 ∷ own 42 ∷ own 50 ∷ []

calls-IsApart : All (IsApart "b") limit_calls
calls-IsApart = (tt, ((λ e. absurd (ground (arith, eq_iff "c" "b"))), (tt, (tt, tt))))

accepted-le-limit_example : hits_in 10 50 (accepted "b" 1 10 limit_calls windows) ≤ 2
unfolding own_times get
accepted-le-limit_example =
    accepted-le-limit "b" 1 10 limit_calls windows 50 refl calls-IsApart (omega arith)
      (omega arith, (omega arith, (omega arith, tt)))

redis_rate_limit_exceeded_agrees_example :
    redis_rate_limit_exceeded redis "a" 2 10 50 tt
    ≡ (ok (memory_rate_limit_exceeded "a" (some (pos 2)) 10 50 windows).0, tt)
unfolding get memory_rate_limit_exceeded track_and_record popleft_expired change_deque active_limit
    record_hit
redis_rate_limit_exceeded_agrees_example =
    redis_rate_limit_exceeded_agrees redis "a" 1 10 50 windows (40 ∷ 45 ∷ []) (45 ∷ 50 ∷ []) tt tt
      tt refl ((omega arith, tt), (tt, tt)) refl refl refl

abbrev body : List (String × String)
body = ("client_id", "app") ∷ ("resource", "a") ∷ ("resource", "b") ∷ []

get-parse_form_encoded_example :
    get (("client_id", text "app") ∷ ("resource", repeated ("a" ∷ "b" ∷ [])) ∷ []) "resource"
    ≡ as_parameter (values_of "resource" body)
unfolding parse_form_encoded parse_qs get reject_duplicate_params duplicate_param_names as_param put
get-parse_form_encoded_example =
    get-parse_form_encoded body ("client_id" ∷ [])
      (("client_id", text "app") ∷ ("resource", repeated ("a" ∷ "b" ∷ [])) ∷ []) "resource" refl
