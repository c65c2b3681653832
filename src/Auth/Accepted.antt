-- ===== src/Auth/Accepted.antt =====
-- auth/validators.py: which access tokens are accepted.
use guillotina_oauth_server.Prelude.{
  ◌≡◌, refl, String, true, false, not, ◌||◌, Option, none, some, arith, has_char, member, inl, inr,
  Bool-cases,
}
use guillotina_oauth_server.Exec.{Result, ok, Result-cases}
use guillotina_oauth_server.Config.{Settings, Crypto}
use guillotina_oauth_server.Flow.Keys.{access_token_signing_key}
use guillotina_oauth_server.Flow.Scopes.{oauth_default_scope}
use guillotina_oauth_server.Indicators.Registry.{Registry}
use guillotina_oauth_server.Indicators.Access.{required_resource_indicator}
use guillotina_oauth_server.Utils.Request.Words.{split}
use guillotina_oauth_server.Auth.Validators.{
  Decoded, Credentials, Jwt, Vars, Validated, is_some_text, is_oauth_token, subject, is_missing,
  with_context, client_and_scope_checked, site_checked, claims_checked, oauth_validate,
}

module _ (crypto : Crypto) (settings : Settings) (jwt : Jwt) (issuer : Result String)
    (registry : Registry) where
  -- In a request to a container
  abbrev pub vars : Vars
  vars = record { has_request = true; container = some (issuer, registry) }

  -- What is behind a user that the validator returns for a token.
  pub record Accepted (token : Credentials) (user : String) : Type 0 where
    pub key : String
    pub claims : Decoded
    pub url : String
    pub required : String
    pub is_bearer : is_some_text token.type "bearer" ≡ true
    pub key_derived : access_token_signing_key crypto settings ≡ ok key
    pub decoded : jwt.decode token.token key ≡ some claims
    pub is_oauth : is_oauth_token claims ≡ true
    pub issuer_is : issuer ≡ ok url
    pub same_issuer : is_some_text claims.iss url ≡ true
    pub requires : required_resource_indicator issuer registry ≡ ok required
    pub audience : member required claims.aud ≡ true
    pub has_client : is_missing claims.client_id ≡ false
    pub default_scope : member oauth_default_scope (split claims.scope) ≡ true
    pub user_found : jwt.find_user (subject claims) ≡ some user

  with_context_user :
      (claims : Decoded) (found : Option String) (user : String)
      → (with_context vars claims found).user ≡ some user
      → found ≡ some user
  unfolding with_context
  with_context_user claims none user h = absurd (ground arith)
  with_context_user claims (some u) user h = h

  client_and_scope_checked_user :
      (claims : Decoded) (user : String)
      → (client_and_scope_checked jwt vars claims).user ≡ some user
      → (is_missing claims.client_id ≡ false)
        × (member oauth_default_scope (split claims.scope) ≡ true)
        × (jwt.find_user (subject claims) ≡ some user)
  unfolding client_and_scope_checked
  client_and_scope_checked_user claims user h = elim (Bool-cases (is_missing claims.client_id)) [
    | inl e ↦ absurd (ground arith)
    | inr e ↦ elim (Bool-cases (member oauth_default_scope (split claims.scope))) [
      | inr e' ↦ absurd (ground arith)
      | inl e' ↦
          (e, e', with_context_user claims (jwt.find_user (subject claims)) user (ground arith))
    ]
  ]

  site_checked_user :
      (claims : Decoded) (v : Validated) (user : String)
      → site_checked jwt vars claims vars.container ≡ ok v
      → v.user ≡ some user
      → (url required : String) × (issuer ≡ ok url)
        × (is_some_text claims.iss url ≡ true)
        × (required_resource_indicator issuer registry ≡ ok required)
        × (member required claims.aud ≡ true)
        × ((client_and_scope_checked jwt vars claims).user ≡ some user)
  unfolding site_checked
  site_checked_user claims v user h is_user = elim (Result-cases issuer) [
    | inr (_, e) ↦ absurd (ground arith)
    | inl (url, e) ↦ elim (Bool-cases (is_some_text claims.iss url)) [
      | inr e' ↦ absurd (ground arith)
      | inl e' ↦ elim (Result-cases (required_resource_indicator issuer registry)) [
        | inr (_, e2) ↦ absurd (ground arith)
        | inl (required, e2) ↦ elim (Bool-cases (member required claims.aud)) [
          | inr e3 ↦ absurd (ground arith)
          | inl e3 ↦ (url, required, e, e', e2, e3, ground arith)
        ]
      ]
    ]
  ]

  claims_checked_user :
      (found : Option Decoded) (v : Validated) (user : String)
      → claims_checked jwt vars found ≡ ok v
      → v.user ≡ some user
      → (claims : Decoded) × (found ≡ some claims)
        × (is_oauth_token claims ≡ true)
        × (site_checked jwt vars claims vars.container ≡ ok v)
  unfolding claims_checked
  claims_checked_user none v user h is_user = absurd (ground arith)
  claims_checked_user (some claims) v user h is_user = elim (Bool-cases (is_oauth_token claims)) [
    | inl e ↦ (claims, refl, e, ground arith)
    | inr e ↦ absurd (ground arith)
  ]

  -- In a request to a container, the validator returns a user only for a bearer token that is signed with
  -- the key for access tokens, of the type "oauth_access_token", from the issuer of the container, for the
  -- resource that the request requires, with a client and the default scope, and the user is the one of the
  -- token.
  pub oauth_validate-Accepted :
      (token : Credentials) (v : Validated) (user : String)
      → oauth_validate crypto settings jwt vars token ≡ ok v
      → v.user ≡ some user
      → Accepted token user
  unfolding oauth_validate
  oauth_validate-Accepted token v user h is_user =
      elim (Bool-cases
        (not (is_some_text token.type "bearer") || not (has_char b'.' token.token))) [
          | inl e ↦ absurd (ground arith)
          | inr e ↦ elim (Result-cases (access_token_signing_key crypto settings)) [
            | inr (_, e') ↦ absurd (ground arith)
            | inl (key, e') ↦
                let (claims, decoded, is_oauth, checked) =
                  claims_checked_user (jwt.decode token.token key) v user (ground arith) is_user in
                let (url, required, issuer_is, same, requires, audience, rest) =
                  site_checked_user claims v user checked is_user in
                let (has_client, default_scope, found) =
                  client_and_scope_checked_user claims user rest in
                record {
                  key = key;
                  claims = claims;
                  url = url;
                  required = required;
                  is_bearer = ground arith;
                  key_derived = e';
                  decoded = decoded;
                  is_oauth = is_oauth;
                  issuer_is = issuer_is;
                  same_issuer = same;
                  requires = requires;
                  audience = audience;
                  has_client = has_client;
                  default_scope = default_scope;
                  user_found = found;
                }
          ]
        ]
