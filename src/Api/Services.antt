-- ===== src/Api/Services.antt =====
-- api/services.py: the dispatch of requests to a container, and install.py.
use guillotina_oauth_server.Prelude.{
  ◌≡◌, String, true, false, Option, none, some, [], ◌∷◌, arith, Dict, get, concat, inl, inr,
  Option-cases,
}
use guillotina_oauth_server.Exec.{
  Exec, Result, ok, err, http_precondition_failed, pure, lift, ◌>>=◌,
}
use guillotina_oauth_server.Storage.Rows.{Database, Session}
use guillotina_oauth_server.Storage.Access.{TaskVars, is_installed, get_oauth_store}
use guillotina_oauth_server.Storage.Repository.Containers.{delete_container_data}
use guillotina_oauth_server.Utils.Json.{Json}
use guillotina_oauth_server.Api.Response.{not_found, Context, State, Endpoint}
use guillotina_oauth_server.Api.Authorize.Request.{Browser, AuthorizationRequest}
use guillotina_oauth_server.Api.Authorize.Endpoint.{authorization_endpoint}
use guillotina_oauth_server.Api.Consents.{list_consents_endpoint, revoke_consent_endpoint}
use guillotina_oauth_server.Api.Register.{client_registration_endpoint}
use guillotina_oauth_server.Api.Revoke.{token_revocation_endpoint}
use guillotina_oauth_server.Api.Token.Endpoint.{token_endpoint}

-- A handler, given the context with the store of the container.
abbrev pub Handler : Type 0 → Type 0
Handler R = Context R → Endpoint R

-- `a` is the request. For a registration, `client_id` and `json` are what `uuid4().hex` and
-- `await request.json()` return.
module _ {R : Type 0} (b : Browser) (a : AuthorizationRequest) (client_id : String)
    (json : Result (Dict Json)) where
  -- OAUTH_GET_ACTIONS
  unfoldable pub oauth_get_actions : Dict (Handler R)
  oauth_get_actions =
      ("authorize", λ c. authorization_endpoint c b a)
      ∷ ("consents", λ c. list_consents_endpoint c)
      ∷ []

  -- OAUTH_POST_ACTIONS
  unfoldable pub oauth_post_actions : Dict (Handler R)
  oauth_post_actions =
      ("register", λ c. client_registration_endpoint c b.checked client_id json a.request)
      ∷ ("authorize", λ c. authorization_endpoint c b a)
      ∷ ("token", λ c. token_endpoint c a.request)
      ∷ ("revoke", λ c. token_revocation_endpoint c a.request)
      ∷ ("consents", λ c. revoke_consent_endpoint c a.request)
      ∷ []

module _ {R : Type 0} (vars : TaskVars) (container_id : String) (c : Context R) where
  -- The context with the store of the container
  with_store : Handler R → String → Endpoint R
  with_store handler key =
      handler (record c { session = record c.session { container_db_key = key } })

  dispatch : String → Option (Handler R) → Endpoint R
  unfolding with_store
  dispatch reason none = pure (not_found reason)
  dispatch reason (some handler) = do
    key ← lift (get_oauth_store true vars container_id)
    with_store handler key

  -- The `__call__` of ContainerOAuthGetService and ContainerOAuthPostService
  unfoldable pub container_oauth_service : String → Dict (Handler R) → String → Endpoint R
  unfolding dispatch
  container_oauth_service method actions action =
      dispatch (concat "Unknown OAuth " (concat method (concat " action: " action)))
        (get actions action)

  -- In a container where the addon is not installed, no request reaches a handler, whatever the handlers
  -- are: the answer is 404 for an unknown action, or HTTPPreconditionFailed, and the state is as before.
  pub container_oauth_service-uninstalled :
      (method : String) (actions : Dict (Handler R)) (action : String) (state : State R)
      → is_installed vars ≡ false
      → let outcome = container_oauth_service method actions action state in
        (outcome.1 ≡ state)
        × (outcome.0 ≡ (elim (get actions action) [
          | none ↦
              ok (not_found (concat "Unknown OAuth " (concat method (concat " action: " action))))
          | some _ ↦ err (http_precondition_failed "OAuth addon is not installed" none)
        ]))
  unfolding container_oauth_service get_oauth_store
  container_oauth_service-uninstalled method actions action state uninstalled =
      elim (Option-cases (get actions action)) [
        | inl e ↦ (ground arith, ground arith)
        | inr (handler, e) ↦ (ground arith, ground arith)
      ]

-- install.py: the addon that is uninstalled takes the data of the container with it.
unfoldable pub uninstall : TaskVars → String → Session → Exec Database (Unit {0})
uninstall vars container_id s = do
  key ← lift (get_oauth_store false vars container_id)
  delete_container_data (record s { container_db_key = key })
