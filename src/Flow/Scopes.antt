-- ===== src/Flow/Scopes.antt =====
-- flow/scopes.py
use guillotina_oauth_server.Prelude.{String, Option, none, some, List, [], ◌∷◌, ◌==◌, if◌then◌else◌}
use guillotina_oauth_server.Config.{Settings}

abbrev pub oauth_default_scope : String
oauth_default_scope = "guillotina:access"

abbrev pub oauth_scopes_default : List String
oauth_scopes_default = oauth_default_scope ∷ []

scopes_or_default : Option (List String) → List String
scopes_or_default none = oauth_scopes_default
scopes_or_default (some configured) = configured

unfoldable pub oauth_scopes_supported : Settings → List String
unfolding scopes_or_default
oauth_scopes_supported settings = scopes_or_default settings.scopes_supported

-- OAUTH_SCOPE_DESCRIPTIONS.get(scope, "Access requested by this OAuth client.")
unfoldable pub oauth_scope_descriptions : String → String
oauth_scope_descriptions scope =
    if scope == oauth_default_scope
    then "Access Guillotina on behalf of the authenticated user."
    else "Access requested by this OAuth client."
