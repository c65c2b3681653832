-- ===== src/Indicators/Grant.antt =====
-- indicators/grant.py: the `resource` parameter of authorization requests.
use guillotina_oauth_server.Prelude.{
  String, Bool, true, false, Option, none, some, List, [], ◌∷◌, ◌++◌, ◌==◌, if◌then◌else◌,
  is_subset,
}
use guillotina_oauth_server.Exec.{Result, ok, ◌and_then◌}
use guillotina_oauth_server.Utils.Request.Params.{
  Param, text, repeated, normalize_list, raise_oauth_error,
}
use guillotina_oauth_server.Indicators.Registry.{
  Resolver, Registry, ensure_default_resource_indicators_registered,
}

-- The union of what the resolvers return.
unfoldable pub resolved : List Resolver → Result (List String)
resolved [] = ok []
resolved (resolver ∷ resolvers) =
    let rest = resolved resolvers in
    resolver.resolve and_then λ urls. rest and_then λ others. ok (urls ++ others)

-- The resources that are allowed, once the default resolver is registered
unfoldable pub allowed_resource_indicators : Result String → Registry → Result (List String)
unfolding resolved ensure_default_resource_indicators_registered
allowed_resource_indicators issuer registry =
    resolved (ensure_default_resource_indicators_registered issuer registry).allowed

-- `not resource_indicators`
unfoldable pub is_absent : Option Param → Bool
is_absent none = true
is_absent (some (text s)) = s == ""
is_absent (some (repeated [])) = true
is_absent (some (repeated (_ ∷ _))) = false

unfoldable pub validate_resource_indicator :
    Result String → Registry → Option Param → Result (List String)
unfolding is_absent allowed_resource_indicators raise_oauth_error
validate_resource_indicator issuer registry resource = issuer and_then λ base.
    allowed_resource_indicators issuer registry and_then λ allowed.
    if is_absent resource
    then ok (base ∷ [])
    else if is_subset (normalize_list resource) allowed
    then ok (normalize_list resource)
    else raise_oauth_error "invalid_target" (some "resource is not allowed") true
