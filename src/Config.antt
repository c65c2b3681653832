-- ===== src/Config.antt =====
-- The settings of `__init__.py` (app_settings["oauth"] and app_settings["jwt"]) as the code reads
-- them, each with its default put in, and the cryptographic functions of the standard library.
use guillotina_oauth_server.Prelude.{
  ℕ, String, Bool, false, Option, none, some, List, [], ◌∷◌, ℤ, pos,
}

pub record Settings : Type 0 where
  pub jwt_secret : Option String
  pub issuer : Option String
  pub trust_proxy_headers : Bool
  pub authorization_code_ttl : ℤ
  pub access_token_ttl : ℤ
  pub refresh_token_ttl : ℤ
  pub allowed_code_challenge_methods : List String
  pub scopes_supported : Option (List String)
  pub consent_ttl : ℤ
  pub registration_rate_limit : Option ℤ
  pub registration_rate_window : ℕ
  pub login_rate_limit : Option ℤ
  pub login_rate_window : ℕ
  pub token_rate_limit : Option ℤ
  pub token_rate_window : ℕ
  pub revoke_rate_limit : Option ℤ
  pub revoke_rate_window : ℕ

-- app_settings["oauth"], with a secret for `jwt.secret`
abbrev pub default_settings : String → Settings
default_settings secret = record {
  jwt_secret = some secret;
  issuer = none;
  trust_proxy_headers = false;
  authorization_code_ttl = pos 600;
  access_token_ttl = pos 3600;
  refresh_token_ttl = pos 2592000;
  allowed_code_challenge_methods = "S256" ∷ [];
  scopes_supported = some ("guillotina:access" ∷ []);
  consent_ttl = pos 2592000;
  registration_rate_limit = some (pos 20);
  registration_rate_window = 600;
  login_rate_limit = some (pos 10);
  login_rate_window = 300;
  token_rate_limit = some (pos 120);
  token_rate_window = 60;
  revoke_rate_limit = some (pos 120);
  revoke_rate_window = 60;
}

-- hashlib and hmac. Byte strings are texts of their bytes.
pub record Crypto : Type 0 where
  -- hmac.new(key, message, hashlib.sha256).digest()
  pub hmac_sha256 : String → String → String
  -- hmac.new(key, message, hashlib.sha256).hexdigest()
  pub hmac_sha256_hex : String → String → String
  -- base64.urlsafe_b64encode(hashlib.sha256(message).digest())
  pub sha256_urlsafe_b64 : String → String
