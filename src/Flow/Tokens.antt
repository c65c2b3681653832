-- ===== src/Flow/Tokens.antt =====
-- flow/tokens.py
use guillotina_oauth_server.Prelude.{
  ℕ, ◌/◌, second, String, List, ◌==◌, if◌then◌else◌, concat, join, add_seconds,
}
use guillotina_oauth_server.Exec.{Result, ok, ◌and_then◌}
use guillotina_oauth_server.Config.{Settings, Crypto}
use guillotina_oauth_server.Flow.Keys.{access_token_signing_key}

-- The claims that are signed. `sub` stands for both `sub` and `id`, which are always the subject.
pub record Claims : Type 0 where
  pub iss : String
  pub sub : String
  pub aud : List String
  pub client_id : String
  pub scope : String
  pub iat : ℕ
  pub exp : ℕ
  pub token_type : String

-- `value` is what `secrets.token_urlsafe(48)` returns.
unfoldable pub generate_opaque_token : String → String → String
generate_opaque_token prefix value = if prefix == "" then value else concat prefix value

-- The claims of `issue_access_token`; `now` is `datetime.now(timezone.utc)`. `jwt.encode` makes whole seconds of
-- the two times.
unfoldable pub access_token_claims :
    Settings → ℕ → String → String → List String → String → List String → Claims
unfolding add_seconds
access_token_claims settings now issuer subject audience client_id scope = record {
  iss = issuer;
  sub = subject;
  aud = audience;
  client_id = client_id;
  scope = join " " scope;
  iat = now / second;
  exp = add_seconds now settings.access_token_ttl / second;
  token_type = "oauth_access_token";
}

-- `jwt_encode` is `jwt.encode` with the algorithm of the settings.
unfoldable pub issue_access_token :
    (Claims → String → String)
    → Crypto
    → Settings
    → ℕ
    → String
    → String
    → List String
    → String
    → List String
    → Result String
issue_access_token jwt_encode crypto settings now issuer subject audience client_id scope =
    access_token_signing_key crypto settings and_then λ key.
    ok (jwt_encode (access_token_claims settings now issuer subject audience client_id scope) key)
