-- ===== src/Indicators/Registry.antt =====
-- indicators/registry.py: the resolvers that packages register.
use guillotina_oauth_server.Prelude.{
  String, Bool, true, false, List, [], ◌∷◌, ◌++◌, ◌==◌, any, if◌then◌else◌,
}
use guillotina_oauth_server.Exec.{Result, ok}

-- A resolver is known by its name; `resolve` is what it returns for the request and the container at
-- hand: the resources that it allows, or at most one that it requires.
pub record Resolver : Type 0 where
  pub name : String
  pub resolve : Result (List String)

-- The module's lists `_allowed_resolvers` and `_required_resolvers`, and `_default_registered`.
pub record Registry : Type 0 where
  pub allowed : List Resolver
  pub required : List Resolver
  pub default_registered : Bool

-- `resolver not in resolvers`, and the append
unfoldable pub register : Resolver → List Resolver → List Resolver
register resolver resolvers =
    if any (λ r. r.name == resolver.name) resolvers then resolvers else resolvers ++ resolver ∷ []

unfoldable pub register_allowed_indicator_resolver : Resolver → Registry → Registry
unfolding register
register_allowed_indicator_resolver resolver r = record r { allowed = register resolver r.allowed }

unfoldable pub register_required_indicator_resolver : Resolver → Registry → Registry
unfolding register
register_required_indicator_resolver resolver r = record r {
  required = register resolver r.required;
}

-- `_default_container_resolver`, with what `container_issuer_url` returns
unfoldable pub default_container_resolver : Result String → Resolver
default_container_resolver issuer = record {
  name = "_default_container_resolver";
  resolve = elim issuer [ ok url ↦ ok (url ∷ []) | Result.err e ↦ Result.err e ];
}

unfoldable pub ensure_default_resource_indicators_registered : Result String → Registry → Registry
unfolding register_allowed_indicator_resolver
ensure_default_resource_indicators_registered issuer r =
    if r.default_registered
    then r
    else record (register_allowed_indicator_resolver (default_container_resolver issuer) r) {
      default_registered = true;
    }

unfoldable pub reset_indicator_registries : Registry → Registry
reset_indicator_registries r = record { allowed = []; required = []; default_registered = false }
