-- ===== src/Api/Throttling.antt =====
-- api/endpoints/token.py and revoke.py: requests over the limit.
use guillotina_oauth_server.Prelude.{
  ◌≡◌, refl, Bool, true, false, ◌||◌, ◌==◌, Dict, concat, inl, inr, Bool-cases,
}
use guillotina_oauth_server.Exec.{
  Result, ok, err, http_bad_request, http_precondition_failed, unique_violation, runtime_error,
  type_error, value_error, attribute_error, data_error, undefined_table,
}
use guillotina_oauth_server.Utils.RateLimit.Redis.{rate_limit_exceeded}
use guillotina_oauth_server.Utils.Request.Params.{
  Param, Request, peer_ip_address, form_content_type_valid, parse_form_encoded,
}
use guillotina_oauth_server.Api.Response.{
  Response, error, Context, State, field, with_form, after_parse, token_request_singleton_params,
  revocation_request_singleton_params,
}
use guillotina_oauth_server.Api.Token.Endpoint.{grant_request, token_request, token_endpoint}
use guillotina_oauth_server.Api.Revoke.{
  revoke_unless, revocation_request, token_revocation_endpoint,
}

-- An outcome that leaves the database as it was, with an error for the response or an exception.
abbrev pub is_error : Result Response → Bool
is_error (ok (error _ _ _)) = true
is_error (ok _) = false
is_error (err _) = true

abbrev pub Rejects : {R : Type 0} → State R → Result Response × State R → Type 0
Rejects state outcome = (is_error outcome.0 ≡ true) × (outcome.1.database ≡ state.database)

module _ {R : Type 0} (c : Context R) (request : Request) (state : State R) where
  token_request-Rejects :
      (params : Dict Param)
      → (rate_limit_exceeded c.driver
          (concat "oauth-token:" (peer_ip_address request))
          c.session.settings.token_rate_limit
          c.session.settings.token_rate_window
          c.clocks
          c.redis_enabled
          state.limiter).0
        ≡ true
      → Rejects state (token_request c params request state)
  unfolding token_request grant_request
  token_request-Rejects params exceeded = elim (Bool-cases (field params "grant_type" == "")) [
    | inl e ↦ rw e (refl, refl)
    | inr e ↦ rw e (rw exceeded (refl, refl))
  ]

  after_parse-Rejects :
      (parsed : Result (Dict Param)) (rest : Dict Param → State R → Result Response × State R)
      → ((params : Dict Param) → Rejects state (rest params state))
      → Rejects state (after_parse parsed rest state)
  unfolding after_parse
  after_parse-Rejects (ok params) rest rejects = rejects params
  after_parse-Rejects (err (http_bad_request code description)) rest rejects = (refl, refl)
  after_parse-Rejects (err (http_precondition_failed code description)) rest rejects = (refl, refl)
  after_parse-Rejects (err unique_violation) rest rejects = (refl, refl)
  after_parse-Rejects (err runtime_error) rest rejects = (refl, refl)
  after_parse-Rejects (err type_error) rest rejects = (refl, refl)
  after_parse-Rejects (err value_error) rest rejects = (refl, refl)
  after_parse-Rejects (err attribute_error) rest rejects = (refl, refl)
  after_parse-Rejects (err data_error) rest rejects = (refl, refl)
  after_parse-Rejects (err undefined_table) rest rejects = (refl, refl)

  revocation_request-Rejects :
      (params : Dict Param)
      → (rate_limit_exceeded c.driver
          (concat "oauth-revoke:" (peer_ip_address request))
          c.session.settings.revoke_rate_limit
          c.session.settings.revoke_rate_window
          c.clocks
          c.redis_enabled
          state.limiter).0
        ≡ true
      → Rejects state (revocation_request c params request state)
  unfolding revocation_request revoke_unless
  revocation_request-Rejects params exceeded =
      elim (Bool-cases (field params "client_id" == "" || field params "token" == "")) [
        | inl e ↦ rw e (refl, refl)
        | inr e ↦ elim (Bool-cases (field params "token_type_hint" == "access_token")) [
          | inl e' ↦ rw (e, e') (refl, refl)
          | inr e' ↦ rw (e, e') (rw exceeded (refl, refl))
        ]
      ]

  -- While the limiter of the peer's address reports the limit of token requests as exceeded, no request of the
  -- peer, whatever its form, changes the database or gets a response other than an error.
  pub token_endpoint-Rejects :
      (rate_limit_exceeded c.driver
          (concat "oauth-token:" (peer_ip_address request))
          c.session.settings.token_rate_limit
          c.session.settings.token_rate_window
          c.clocks
          c.redis_enabled
          state.limiter).0
        ≡ true
      → Rejects state (token_endpoint c request state)
  unfolding token_endpoint with_form
  token_endpoint-Rejects exceeded = elim (Bool-cases (form_content_type_valid request)) [
    | inr e ↦ rw e (refl, refl)
    | inl e ↦ rw e (
        after_parse-Rejects (parse_form_encoded request.body token_request_singleton_params)
          (λ params. token_request c params request)
          (λ params. token_request-Rejects params exceeded))
  ]

  -- While the limiter of the peer's address reports the limit of revocation requests as exceeded, no such
  -- request of the peer, whatever its form, changes the database or gets a response other than an error.
  pub token_revocation_endpoint-Rejects :
      (rate_limit_exceeded c.driver
          (concat "oauth-revoke:" (peer_ip_address request))
          c.session.settings.revoke_rate_limit
          c.session.settings.revoke_rate_window
          c.clocks
          c.redis_enabled
          state.limiter).0
        ≡ true
      → Rejects state (token_revocation_endpoint c request state)
  unfolding token_revocation_endpoint with_form
  token_revocation_endpoint-Rejects exceeded = elim (Bool-cases (form_content_type_valid request)) [
    | inr e ↦ rw e (refl, refl)
    | inl e ↦ rw e (
        after_parse-Rejects (parse_form_encoded request.body revocation_request_singleton_params)
          (λ params. revocation_request c params request)
          (λ params. revocation_request-Rejects params exceeded))
  ]
