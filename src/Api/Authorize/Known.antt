-- ===== src/Api/Authorize/Known.antt =====
-- api/endpoints/authorize.py: who the user of a request is.
use guillotina_oauth_server.Prelude.{
  ◌≡◌, refl, String, Bool, true, false, not, ◌&&◌, Option, none, some, inl, inr, ◌==◌, arith, Dict,
  Bool-cases,
}
use guillotina_oauth_server.Exec.{Result, ok}
use guillotina_oauth_server.Storage.Rows.{Client}
use guillotina_oauth_server.Utils.RateLimit.Redis.{rate_limit_check}
use guillotina_oauth_server.Utils.Request.Params.{Param}
use guillotina_oauth_server.Api.Pages.{Page}
use guillotina_oauth_server.Api.Response.{Context, State, field}
use guillotina_oauth_server.Api.Authorize.Request.{Browser, AuthorizationRequest}
use guillotina_oauth_server.Api.Authorize.Login.{
  AuthenticationResult, early_response, authenticated, authenticate_user_credentials,
  authenticate_user_or_present_login, current_or_login, login, login_key, login_unless, logged_in,
}

module _ {R : Type 0} (c : Context R) (b : Browser) (a : AuthorizationRequest) (params : Dict Param)
    (state : State R) where
  -- Whether the limiter lets a login pass: `rate_limit_check` at the state.
  abbrev pub over_login_limit : Bool
  over_login_limit =
      (rate_limit_check c.driver (login_key c a (field params "username"))
        c.session.settings.login_rate_limit c.session.settings.login_rate_window c.clocks
        c.redis_enabled state.limiter).0

  -- Why a user counts as known, with the session token of a login and whether there was one: the request
  -- is authenticated, or it is a POST with a name and a password that a validator accepts, within the limit
  -- of failed logins.
  pub data Known (user_id : String) : Option String → Bool → Type 0 where
    current : c.authenticated_user ≡ some user_id → Known user_id none false
    by_login :
        c.authenticated_user ≡ none
        → (a.method == "POST") ≡ true
        → over_login_limit ≡ false
        → authenticate_user_credentials b.auth_token_validators
            (field params "username")
            (field params "password")
          ≡ some user_id
        → Known user_id (some (b.authenticate_user user_id)) true

  -- What the login step comes to: a page, or a known user.
  pub data Resolved : AuthenticationResult → Type 0 where
    shown : (p : Page) → Resolved (early_response p)
    known :
        (user_id : String) (session_token : Option String) (now : Bool)
        → Known user_id session_token now
        → Resolved (authenticated user_id session_token now)

  -- The login step returns, leaves the database as it was, and shows a page or knows the user.
  abbrev pub Settles : Result AuthenticationResult × State R → Type 0
  Settles outcome =
      (result : AuthenticationResult) × (outcome.0 ≡ ok result)
      × (outcome.1.database ≡ state.database)
      × Resolved result

  logged_in-Settles :
      (found : Option String) (state' : State R)
      → state'.database ≡ state.database
      → c.authenticated_user ≡ none
      → (a.method == "POST") ≡ true
      → over_login_limit ≡ false
      → authenticate_user_credentials b.auth_token_validators
          (field params "username")
          (field params "password")
        ≡ found
      → Settles (logged_in c b a (field params "username") found state')
  unfolding logged_in
  logged_in-Settles (some user_id) state' same anonymous post within e =
      (_, refl, same, known user_id _ true (by_login anonymous post within e))
  logged_in-Settles none state' same anonymous post within e = (_, refl, same, shown _)

  login_unless-Settles :
      (blocked : Bool) (state' : State R)
      → state'.database ≡ state.database
      → c.authenticated_user ≡ none
      → (a.method == "POST") ≡ true
      → over_login_limit ≡ blocked
      → Settles (login_unless c b a params (field params "username") blocked state')
  unfolding login_unless
  login_unless-Settles true state' same anonymous post over = (_, refl, same, shown _)
  login_unless-Settles false state' same anonymous post within =
      logged_in-Settles _ state' same anonymous post within refl

  login-Settles :
      (client : Client) → c.authenticated_user ≡ none → Settles (login c b a params client state)
  unfolding login
  login-Settles client anonymous =
      elim (Bool-cases ((a.method == "POST") && not (field params "username" == ""))) [
        | inr e ↦ rw e (_, refl, refl, shown _)
        | inl e ↦ rw e (login_unless-Settles over_login_limit _ refl anonymous (ground arith) refl)
      ]

  current_or_login-Settles :
      (user : Option String) (client : Client)
      → c.authenticated_user ≡ user
      → Settles (current_or_login c b a user params client state)
  unfolding current_or_login
  current_or_login-Settles (some user_id) client e =
      (_, refl, refl, known user_id none false (current e))
  current_or_login-Settles none client e = login-Settles client e

  -- The login step always returns, and leaves the database as it was. It shows a page, or it knows the
  -- user: as the one that the request is authenticated for, or by a name and a password that a validator
  -- accepts within the limit of failed logins.
  pub authenticate_user_or_present_login-Settles :
      (client : Client) → Settles (authenticate_user_or_present_login c b a params client state)
  unfolding authenticate_user_or_present_login
  authenticate_user_or_present_login-Settles client =
      current_or_login-Settles c.authenticated_user client refl
