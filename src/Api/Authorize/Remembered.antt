-- ===== src/Api/Authorize/Remembered.antt =====
-- api/endpoints/authorize.py: users who have let the client in before.
use guillotina_oauth_server.Prelude.{
  ◌≡◌, refl, ap, sym, subst, ◌∙◌, String, Bool, true, false, Option, none, ◌⊎◌, inl, inr, arith,
  Dict, Bool-cases,
}
use guillotina_oauth_server.Exec.{ok, bind_ok}
use guillotina_oauth_server.Sql.{select_row, insert_row}
use guillotina_oauth_server.Flow.Keys.{token_hash}
use guillotina_oauth_server.Storage.Repository.Codes.{code_key, code_row, insert_code, create_code}
use guillotina_oauth_server.Storage.Repository.Consents.{has_consent}
use guillotina_oauth_server.Utils.Request.Params.{Param}
use guillotina_oauth_server.Api.Response.{Context, State, on_database}
use guillotina_oauth_server.Api.Authorize.Request.{Browser, AuthorizationRequest}
use guillotina_oauth_server.Api.Authorize.Grant.{
  Grant, raw_code, consent_key, issue_code, decide, is_decision, token_valid, decide_checked,
  decision_of, grant_or_request_consent,
}
use guillotina_oauth_server.Api.Authorize.Granted.{Issued}

module _ {R : Type 0} (c : Context R) (b : Browser) (params : Dict Param) (g : Grant) where
  issue_code-Issued :
      (hash : String) (state : State R)
      → token_hash c.session.crypto c.session.settings (raw_code c b params g) ≡ ok hash
      → select_row (code_key c.session.container_db_key hash) state.database.codes ≡ none
      → Issued c b params g state (issue_code c b params g state)
  unfolding issue_code create_code insert_code insert_row code_row
  issue_code-Issued hash state hashed free = record {
    hash = hash;
    hashed = hashed;
    was_free = free;
    stored = ground arith;
    answered = ground arith;
  }

  decide_checked-remembered :
      (decision : Option String) (state : State R)
      → (is_decision c b params g decision ≡ false) ⊎ (token_valid c b params g ≡ ok true)
      → decide_checked c b params g decision true state ≡ issue_code c b params g state
  unfolding decide_checked decide
  decide_checked-remembered decision state accepted =
      elim (Bool-cases (is_decision c b params g decision)) [
        | inr e ↦ rw e refl
        | inl e ↦ elim accepted [
          | inl e' ↦ absurd (ground arith)
          | inr valid ↦ rw e (rw valid refl)
        ]
      ]

  -- A user whose consent is remembered gets a code at once, with no page: whatever the request decides, "deny"
  -- included, as long as a decision comes with a valid token, and as long as the hash of the code is free.
  pub grant_or_request_consent-Issued :
      (a : AuthorizationRequest) (now : Bool) (hash : String) (state : State R)
      → (has_consent c.session (consent_key c b params g) state.database).0 ≡ ok true
      → (is_decision c b params g (decision_of c b params g a now) ≡ false)
        ⊎ (token_valid c b params g ≡ ok true)
      → token_hash c.session.crypto c.session.settings (raw_code c b params g) ≡ ok hash
      → select_row (code_key c.session.container_db_key hash) state.database.codes ≡ none
      → Issued c b params g state (grant_or_request_consent c b params g a now state)
  unfolding grant_or_request_consent has_consent
  grant_or_request_consent-Issued a now hash state remembered accepted hashed free =
      subst (Issued c b params g state)
        (sym (
          bind_ok (on_database (has_consent c.session (consent_key c b params g)))
            (decide_checked c b params g (decision_of c b params g a now)) {s' = state} {a = true}
            (ap (λ r. (r, state)) remembered)
          ∙ decide_checked-remembered (decision_of c b params g a now) state accepted))
        (issue_code-Issued hash state hashed free)
