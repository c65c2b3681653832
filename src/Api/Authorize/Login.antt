-- ===== src/Api/Authorize/Login.antt =====
-- api/endpoints/authorize.py: the login of the user, and auth/helpers.py.
use guillotina_oauth_server.Prelude.{
  String, Bool, true, false, not, ◌&&◌, Option, none, some, List, [], ◌∷◌, ◌==◌, if◌then◌else◌,
  Dict, concat, member,
}
use guillotina_oauth_server.Exec.{Exec, ok, pure, ◌>>=◌}
use guillotina_oauth_server.Storage.Rows.{Client}
use guillotina_oauth_server.Utils.RateLimit.Redis.{rate_limit_check}
use guillotina_oauth_server.Utils.Request.Params.{Param, peer_ip_address}
use guillotina_oauth_server.Api.Pages.{Page, login_form, oauth_error_page}
use guillotina_oauth_server.Api.Response.{Context, State, field, limited}
use guillotina_oauth_server.Api.Authorize.Request.{Validator, Browser, AuthorizationRequest}

-- `validator.for_validators is not None and "basic" not in validator.for_validators`
skips_basic : Option (List String) → Bool
skips_basic none = false
skips_basic (some kinds) = not (member "basic" kinds)

first_user : Option String → Option String → Option String
first_user (some user) rest = some user
first_user none rest = rest

-- The id of the user that the first validator to accept the credentials returns.
unfoldable pub authenticate_user_credentials : List Validator → String → String → Option String
unfolding skips_basic first_user
authenticate_user_credentials [] username password = none
authenticate_user_credentials (validator ∷ validators) username password =
    let rest = authenticate_user_credentials validators username password in
    if skips_basic validator.for_validators
    then rest
    else first_user (validator.validate username password) rest

-- `_AuthenticationResult`: a user's id, the session token of a login, and whether the user has just
-- logged in; or a page that is shown instead.
pub data AuthenticationResult : Type 0 where
  early_response : Page → AuthenticationResult
  authenticated : String → Option String → Bool → AuthenticationResult

module _ {R : Type 0} (c : Context R) where
  -- A call of `rate_limit_check`
  abbrev pub checked_limit : String → Exec (State R) Bool
  checked_limit key state =
      let (verdict, l) =
        rate_limit_check c.driver key c.session.settings.login_rate_limit
          c.session.settings.login_rate_window c.clocks c.redis_enabled state.limiter in
      (ok verdict, record state { limiter = l })

  unfoldable pub login_key : AuthorizationRequest → String → String
  login_key a username =
      concat "oauth-login:" (concat (peer_ip_address a.request) (concat ":" username))

module _ {R : Type 0} (c : Context R) (b : Browser) (a : AuthorizationRequest) where
  -- What follows the credentials: a failure is counted.
  unfoldable pub logged_in : String → Option String → Exec (State R) AuthenticationResult
  unfolding login_key
  logged_in username (some user_id) =
      pure (authenticated user_id (some (b.authenticate_user user_id)) true)
  logged_in username none = do
    _ ←
        limited c (login_key c a username) c.session.settings.login_rate_limit
          c.session.settings.login_rate_window
    pure (
        early_response (
          oauth_error_page b.templates "Login failed"
            "The username or password could not be verified." 401))

  -- What follows `rate_limit_check`: a user over the limit is not asked for the password.
  unfoldable pub login_unless : Dict Param → String → Bool → Exec (State R) AuthenticationResult
  unfolding logged_in
  login_unless params username true = pure (
      early_response (
        oauth_error_page b.templates "Too many attempts"
          "Too many failed login attempts. Please wait and try again." 429))
  login_unless params username false =
      logged_in username
        (authenticate_user_credentials b.auth_token_validators username (field params "password"))

  unfoldable pub login : Dict Param → Client → Exec (State R) AuthenticationResult
  unfolding login_unless login_key
  login params client =
      if (a.method == "POST") && not (field params "username" == "")
      then (do
        blocked ← checked_limit c (login_key c a (field params "username"))
        login_unless params (field params "username") blocked)
      else pure
          (early_response (login_form b.templates params (field params "redirect_uri") client))

  unfoldable pub current_or_login :
      Option String → Dict Param → Client → Exec (State R) AuthenticationResult
  unfolding login
  current_or_login (some user_id) params client = pure (authenticated user_id none false)
  current_or_login none params client = login params client

  -- `_authenticate_user_or_present_login`
  unfoldable pub authenticate_user_or_present_login :
      Dict Param → Client → Exec (State R) AuthenticationResult
  unfolding current_or_login
  authenticate_user_or_present_login = current_or_login c.authenticated_user
