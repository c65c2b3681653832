-- ===== src/Flow/Consent.antt =====
-- flow/consent.py
use guillotina_oauth_server.Prelude.{String, List, [], ◌∷◌, join, sorted}

-- The key does not depend on the order in which scopes and resources are asked for.
unfoldable pub build_consent_key : String → String → List String → List String → String
build_consent_key user_id client_id scopes resources =
    join "|" (user_id ∷ client_id ∷ join " " (sorted scopes) ∷ join " " (sorted resources) ∷ [])
