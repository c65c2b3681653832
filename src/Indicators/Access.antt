-- ===== src/Indicators/Access.antt =====
-- indicators/access.py: the resource that a request requires of its token.
use guillotina_oauth_server.Prelude.{String, ◌==◌, List, [], ◌∷◌, if◌then◌else◌}
use guillotina_oauth_server.Exec.{Result, ok, err}
use guillotina_oauth_server.Indicators.Registry.{Resolver, Registry}

-- What follows a resolver: its answer, or the next resolvers', or the issuer.
first_or : Result (List String) → Result String → Result String
first_or (err e) rest = err e
first_or (ok []) rest = rest
first_or (ok (indicator ∷ _)) rest = if indicator == "" then rest else ok indicator

first_required : Result String → List Resolver → Result String
unfolding first_or
first_required issuer [] = issuer
first_required issuer (resolver ∷ resolvers) =
    first_or resolver.resolve (first_required issuer resolvers)

unfoldable pub required_resource_indicator : Result String → Registry → Result String
unfolding first_required
required_resource_indicator issuer registry = first_required issuer registry.required
