-- ===== src/Api/Register.antt =====
-- api/endpoints/register.py: the registration of clients.
use guillotina_oauth_server.Prelude.{
  ◌/◌, String, Bool, true, false, some, if◌then◌else◌, Dict, concat, second,
}
use guillotina_oauth_server.Exec.{Result, ok, err, http_bad_request, pure, raise, ◌>>=◌, ◌>>◌}
use guillotina_oauth_server.Storage.Repository.Clients.{create_client}
use guillotina_oauth_server.Utils.Json.{Json}
use guillotina_oauth_server.Utils.Request.Params.{Request, peer_ip_address, json_content_type_valid}
use guillotina_oauth_server.Flow.Clients.Registration.{
  Registration, client_of, client_name_text, build_client_from_registration,
}
use guillotina_oauth_server.Api.Response.{
  error, registered, Context, Endpoint, on_database, limited,
}

-- `json` is what `await request.json()` returns, which raises where the body is no JSON, and `checked`
-- and `client_id` are those of `urlparse` and `build_client_from_registration`.
module _ {R : Type 0} (c : Context R) (checked : String → Bool) (client_id : String)
    (json : Result (Dict Json)) where
  -- The client is stored under the name that it was given.
  unfoldable pub store_client : Registration → Result String → Endpoint R
  store_client r (err e) = raise e
  store_client r (ok name) =
      on_database (create_client c.session (client_of r name))
      >> pure (registered 201 (client_of r name) (r.now / second))

  -- What follows the build of the client. An HTTPBadRequest is returned as the response.
  unfoldable pub store_built : Result Registration → Endpoint R
  unfolding store_client
  store_built (ok r) = store_client r (client_name_text r.client_name)
  store_built (err (http_bad_request code description)) = pure (error 400 code description)
  store_built (err e) = raise e

  unfoldable pub register_json : Result (Dict Json) → Endpoint R
  unfolding store_built
  register_json (err e) = raise e
  register_json (ok params) =
      store_built
        (build_client_from_registration checked c.session.settings client_id c.utc_now params)

  -- What follows the rate limiter's verdict
  unfoldable pub register_unless : Request → Bool → Endpoint R
  unfolding register_json
  register_unless request true =
      pure (error 429 "temporarily_unavailable" (some "client registration rate limit exceeded"))
  register_unless request false =
      if json_content_type_valid request
      then register_json json
      else pure (error 400 "invalid_request" (some "invalid content type"))

  unfoldable pub client_registration_endpoint : Request → Endpoint R
  unfolding register_unless
  client_registration_endpoint request = do
    blocked ←
        limited c (concat "oauth-register:" (peer_ip_address request))
          c.session.settings.registration_rate_limit c.session.settings.registration_rate_window
    register_unless request blocked
