-- ===== src/Auth/Issued.antt =====
-- auth/validators.py: the access tokens of flow/tokens.py are accepted, and by no other validator.
use guillotina_oauth_server.Prelude.{
  ◌*◌, second, ℕ, ◌<◌, ◌≡◌, refl, ap, sym, subst, ◌∙◌, String, true, false, Option, none, some,
  List, ◌==◌, eq_refl, arith, has_char, member, All, inl, inr,
}
use guillotina_oauth_server.Exec.{ok, Result-cases}
use guillotina_oauth_server.Config.{Settings, Crypto}
use guillotina_oauth_server.Flow.Keys.{access_token_signing_key}
use guillotina_oauth_server.Flow.Scopes.{oauth_default_scope}
use guillotina_oauth_server.Flow.Tokens.{Claims, access_token_claims, issue_access_token}
use guillotina_oauth_server.Indicators.Registry.{Registry}
use guillotina_oauth_server.Indicators.Access.{required_resource_indicator}
use guillotina_oauth_server.Utils.Request.Words.{split}
use guillotina_oauth_server.Utils.Request.SplitJoin.{IsWord, split-join}
use guillotina_oauth_server.Auth.Validators.{
  Decoded, Credentials, OauthTokenContext, Jwt, Validated, is_some_text, is_oauth_token,
  jwt_validate, unverified_is_oauth, subject, is_missing, with_context, same_id,
  client_and_scope_checked, site_checked, claims_checked, oauth_validate,
}
use guillotina_oauth_server.Auth.Accepted.{vars}

-- What decoding gives of the claims that were encoded.
abbrev pub decoded_of : Claims → Decoded
decoded_of claims = record {
  token_type = some claims.token_type;
  iss = some claims.iss;
  aud = claims.aud;
  client_id = some claims.client_id;
  scope = claims.scope;
  id = some claims.sub;
  sub = some claims.sub;
}

-- The documented behaviour of PyJWT on some claims, at a time in microseconds: their token holds a ".", and until it expires it
-- is decoded with the key that it was encoded with. The decoding with no check reads it as well.
pub record IsJwt (encode : Claims → String → String) (jwt : Jwt) (now : ℕ) (claims : Claims)
    : Type 0 where
  pub dotted : (key : String) → has_char b'.' (encode claims key) ≡ true
  pub reads_back :
      (key : String)
      → now < claims.exp * second
      → jwt.decode (encode claims key) key ≡ some (decoded_of claims)
  pub reads_unverified :
      (key : String) → jwt.decode_unverified (encode claims key) ≡ some (decoded_of claims)

-- A bearer token
abbrev pub bearer : String → Credentials
bearer token = record { type = some "bearer"; token = token }

module _ (encode : Claims → String → String) (crypto : Crypto) (settings : Settings) (jwt : Jwt)
    (registry : Registry) where
  -- The context of a request with an issued token.
  abbrev pub context_of : Claims → List String → OauthTokenContext
  context_of claims scope = record {
    client_id = some claims.client_id;
    scopes = scope;
    resource_indicators = claims.aud;
    claims = decoded_of claims;
  }

  claims_accepted :
      (issuer user required : String) (claims : Claims)
      → (claims.token_type == "oauth_access_token") ≡ true
      → (claims.iss == issuer) ≡ true
      → required_resource_indicator (ok issuer) registry ≡ ok required
      → member required claims.aud ≡ true
      → (claims.client_id == "") ≡ false
      → member oauth_default_scope (split claims.scope) ≡ true
      → jwt.find_user (some claims.sub) ≡ some user
      → claims.sub ≡ user
      → claims_checked jwt
          (vars crypto settings jwt (ok issuer) registry)
          (some (decoded_of claims))
        ≡ ok (record { user = some user; oauth = some (context_of claims (split claims.scope)) })
  unfolding claims_checked is_oauth_token is_some_text site_checked client_and_scope_checked
      is_missing with_context subject same_id
  claims_accepted issuer user required claims typed same requires audience has_client default found
        is_user =
      rw typed (
        rw same (
          rw requires (
            rw audience
              (rw has_client (rw default (rw found (rw is_user (rw (eq_refl user) refl))))))))

  signed_accepted :
      (claims : Claims) (key token issuer : String) {now : ℕ}
      → IsJwt encode jwt now claims
      → access_token_signing_key crypto settings ≡ ok key
      → token ≡ encode claims key
      → now < claims.exp * second
      → (v : Validated)
      → claims_checked jwt
          (vars crypto settings jwt (ok issuer) registry)
          (some (decoded_of claims))
        ≡ ok v
      → oauth_validate crypto settings jwt
          (vars crypto settings jwt (ok issuer) registry)
          (bearer token)
        ≡ ok v
  unfolding oauth_validate is_some_text
  signed_accepted claims key token issuer is_jwt e same in_time v checked =
      rw same (rw (is_jwt.dotted key) (rw e (rw (is_jwt.reads_back key in_time) checked)))

  -- An access token that `issue_access_token` has issued is accepted, until it expires, in a request to a
  -- container of the same issuer that requires one of the token's resources: for the user that it was issued
  -- for, with the client, the scopes and the resources that it was issued for. Given that PyJWT reads the token back
  -- as documented, that the client is not empty, that the scopes are words with the default scope among them, and
  -- that the user is found.
  pub oauth_validate-issue_access_token :
      (issued_at now : ℕ) (issuer user client_id required token : String)
      (resources scope : List String)
      → IsJwt encode jwt now
          (access_token_claims settings issued_at issuer user resources client_id scope)
      → issue_access_token encode crypto settings issued_at issuer user resources client_id scope
        ≡ ok token
      → now
        < (access_token_claims settings issued_at issuer user resources client_id scope).exp
          * second
      → required_resource_indicator (ok issuer) registry ≡ ok required
      → member required resources ≡ true
      → (client_id == "") ≡ false
      → member oauth_default_scope scope ≡ true
      → All IsWord scope
      → jwt.find_user (some user) ≡ some user
      → oauth_validate crypto settings jwt
          (vars crypto settings jwt (ok issuer) registry)
          (bearer token)
        ≡ ok (record {
          user = some user;
          oauth = some (
              context_of
                (access_token_claims settings issued_at issuer user resources client_id scope)
                scope);
        })
  unfolding issue_access_token
  oauth_validate-issue_access_token issued_at now issuer user client_id required token resources
        scope is_jwt issued in_time requires audience has_client default words found =
      elim (Result-cases (access_token_signing_key crypto settings)) [
        | inr (_, e) ↦ absurd (ground arith)
        | inl (key, e) ↦
            let claims =
              access_token_claims settings issued_at issuer user resources client_id scope in
            let same : token ≡ encode claims key = ground arith in
            let words_kept : split claims.scope ≡ scope =
              unfold access_token_claims in split-join scope words in
            signed_accepted claims key token issuer is_jwt e same in_time _ (
              claims_accepted issuer user required claims (unfold access_token_claims in refl)
                (unfold access_token_claims in eq_refl issuer) requires
                (unfold access_token_claims in audience) (unfold access_token_claims in has_client)
                (subst (λ scopes. member oauth_default_scope scopes ≡ true) (sym words_kept)
                  default)
                (unfold access_token_claims in found) (unfold access_token_claims in refl)
              ∙ ap
                  (λ scopes.
                    ok (record { user = some user; oauth = some (context_of claims scopes) }))
                  words_kept)
      ]

  -- Guillotina's own validator never sees an access token of this server: no access token passes for a session token,
  -- where PyJWT reads the claims of the token back as documented.
  pub jwt_validate-issue_access_token :
      (issued_at now : ℕ) (issuer user client_id token : String) (resources scope : List String)
      (type : Option String)
      → IsJwt encode jwt now
          (access_token_claims settings issued_at issuer user resources client_id scope)
      → issue_access_token encode crypto settings issued_at issuer user resources client_id scope
        ≡ ok token
      → jwt_validate jwt (record { type = type; token = token }) ≡ none
  unfolding issue_access_token jwt_validate unverified_is_oauth
  jwt_validate-issue_access_token issued_at now issuer user client_id token resources scope type
        is_jwt issued =
      elim (Result-cases (access_token_signing_key crypto settings)) [
        | inr (_, e) ↦ absurd (ground arith)
        | inl (key, e) ↦
            let claims =
              access_token_claims settings issued_at issuer user resources client_id scope in
            let same : token ≡ encode claims key = ground arith in
            rw same (
              rw (is_jwt.dotted key)
                (rw (is_jwt.reads_unverified key) (unfold access_token_claims in refl)))
      ]
