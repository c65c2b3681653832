-- ===== src/Flow/Keys.antt =====
-- flow/keys.py and utils/crypto.py: every secret use has a key of its own, derived from `jwt.secret`.
use guillotina_oauth_server.Prelude.{String, Option, none, some, ◌==◌, if◌then◌else◌, concat}
use guillotina_oauth_server.Exec.{Result, ok, err, runtime_error, ◌and_then◌}
use guillotina_oauth_server.Config.{Settings, Crypto}

base_secret_of : Option String → Result String
base_secret_of none = err runtime_error
base_secret_of (some secret) = if secret == "" then err runtime_error else ok secret

unfoldable pub base_secret : Settings → Result String
unfolding base_secret_of
base_secret settings = base_secret_of settings.jwt_secret

unfoldable pub derive_key : Crypto → Settings → String → Result String
derive_key crypto settings purpose = base_secret settings and_then λ secret.
    ok (crypto.hmac_sha256 secret (concat "guillotina.oauth:" purpose))

unfoldable pub token_hash : Crypto → Settings → String → Result String
token_hash crypto settings token =
    derive_key crypto settings "token-hash" and_then λ key. ok (crypto.hmac_sha256_hex key token)

unfoldable pub access_token_signing_key : Crypto → Settings → Result String
access_token_signing_key crypto settings = derive_key crypto settings "access-token"
