-- ===== src/Tests/AccessTokens.antt =====
-- The theorems on access tokens at concrete inputs.
use guillotina_oauth_server.Prelude.{
  ◌*◌, second, ◌≡◌, ◌<◌, refl, String, false, none, some, [], ◌∷◌, has_char, arith, All, all_chars,
  join,
}
use guillotina_oauth_server.Exec.{ok}
use guillotina_oauth_server.Config.{default_settings, Settings}
use guillotina_oauth_server.Flow.Keys.{derive_key, base_secret, access_token_signing_key}
use guillotina_oauth_server.Flow.Tokens.{Claims, access_token_claims, issue_access_token}
use guillotina_oauth_server.Indicators.Registry.{Registry}
use guillotina_oauth_server.Indicators.Access.{required_resource_indicator}
use guillotina_oauth_server.Utils.Request.SplitJoin.{IsWord}
use guillotina_oauth_server.Utils.Request.Words.{split, is_space}
use guillotina_oauth_server.Auth.Validators.{Jwt, Validated, oauth_validate, jwt_validate}
use guillotina_oauth_server.Auth.Accepted.{Accepted, vars, oauth_validate-Accepted}
use guillotina_oauth_server.Auth.Issued.{
  IsJwt, decoded_of, context_of, bearer, oauth_validate-issue_access_token,
  jwt_validate-issue_access_token,
}
use guillotina_oauth_server.Tests.Data.{crypto}

abbrev settings : Settings
settings = default_settings "secret"

-- The claims of Alice's access token
abbrev claims : Claims
claims =
    access_token_claims settings 1000 "https://guillotina.example" "alice"
      ("https://guillotina.example" ∷ []) "app" ("guillotina:access" ∷ [])

abbrev encode : Claims → String → String
encode _ key = String.◌∷◌ "." key

-- A decoder that knows the claims.
abbrev jwt : Jwt
jwt = record {
  decode = λ token key. some (decoded_of claims);
  decode_unverified = λ token. some (decoded_of claims);
  find_user = λ id. id;
  guillotina_validate = λ token. some "alice";
}

abbrev registry : Registry
registry = record { allowed = []; required = []; default_registered = false }

abbrev token : String
token = ".secretguillotina.oauth:access-token"

claims_are_jwt : IsJwt encode jwt 1500 claims
unfolding has_char
claims_are_jwt = record {
  dotted = λ key. refl;
  reads_back = λ key h. refl;
  reads_unverified = λ key. refl;
}

token_issued :
    issue_access_token encode crypto settings 1000 "https://guillotina.example" "alice"
      ("https://guillotina.example" ∷ [])
      "app"
      ("guillotina:access" ∷ [])
    ≡ ok token
unfolding issue_access_token access_token_signing_key derive_key base_secret
token_issued = refl

in_force : 1500 < claims.exp * second
unfolding access_token_claims
in_force = omega arith

required_is :
    required_resource_indicator (ok "https://guillotina.example") registry
    ≡ ok "https://guillotina.example"
unfolding required_resource_indicator
required_is = refl

scope_words : All IsWord ("guillotina:access" ∷ [])
unfolding is_space all_chars
scope_words = ((refl, refl), tt)

abbrev validated : Validated
validated = record {
  user = some "alice";
  oauth = some (context_of encode crypto settings jwt registry claims ("guillotina:access" ∷ []));
}

oauth_validate-issue_access_token_example :
    oauth_validate crypto settings jwt
      (vars crypto settings jwt (ok "https://guillotina.example") registry)
      (bearer token)
    ≡ ok validated
oauth_validate-issue_access_token_example =
    oauth_validate-issue_access_token encode crypto settings jwt registry 1000 1500
      "https://guillotina.example" "alice" "app" "https://guillotina.example" token
      ("https://guillotina.example" ∷ []) ("guillotina:access" ∷ []) claims_are_jwt token_issued
      in_force required_is refl refl refl scope_words refl

token_accepted :
    oauth_validate crypto settings jwt
      (vars crypto settings jwt (ok "https://guillotina.example") registry)
      (bearer token)
    ≡ ok validated
unfolding oauth_validate has_char access_token_signing_key derive_key base_secret
    access_token_claims required_resource_indicator split join
token_accepted = refl

oauth_validate-Accepted_example :
    Accepted crypto settings jwt (ok "https://guillotina.example") registry (bearer token) "alice"
oauth_validate-Accepted_example =
    oauth_validate-Accepted crypto settings jwt (ok "https://guillotina.example") registry
      (bearer token) validated "alice" token_accepted refl

jwt_validate-issue_access_token_example :
    jwt_validate jwt (record { type = some "bearer"; token = token }) ≡ none
jwt_validate-issue_access_token_example =
    jwt_validate-issue_access_token encode crypto settings jwt registry 1000 1500
      "https://guillotina.example" "alice" "app" token ("https://guillotina.example" ∷ [])
      ("guillotina:access" ∷ []) (some "bearer") claims_are_jwt token_issued
