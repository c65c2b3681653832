-- ===== src/Api/Authorize/Granted.antt =====
-- api/endpoints/authorize.py: when the endpoint issues a code.
use guillotina_oauth_server.Prelude.{
  ◌≡◌, refl, ap, sym, subst, ◌∙◌, String, Bool, true, false, ◌||◌, Option, none, List, [], ◌∷◌,
  ◌++◌, ◌⊎◌, inl, inr, ◌==◌, arith, Dict, Bool-cases, Option-cases,
}
use guillotina_oauth_server.Exec.{Result, ok, err, Exn, unique_violation, Result-cases, bind_ok}
use guillotina_oauth_server.Sql.{select_row, insert_row}
use guillotina_oauth_server.Flow.Keys.{token_hash}
use guillotina_oauth_server.Storage.Rows.{Code, CodeRow, Database, Session, row_to_code}
use guillotina_oauth_server.Storage.Repository.Codes.{code_key, code_row, insert_code, create_code}
use guillotina_oauth_server.Storage.Repository.Consents.{has_consent, create_consent}
use guillotina_oauth_server.Utils.Request.Params.{Param}
use guillotina_oauth_server.Api.Response.{Response, Context, State, optional_field, on_database}
use guillotina_oauth_server.Api.Authorize.Request.{Browser, AuthorizationRequest, is_text}
use guillotina_oauth_server.Api.Authorize.Grant.{
  Grant, answer, raw_code, consent_key, issue_code, ask_consent, decide, is_decision, token_valid,
  decide_checked, decision_of, grant_or_request_consent,
}

-- A code is stored under a hash that was free, or nothing is stored.
create_code-cases :
    (s : Session) (raw client_id user_id redirect_uri : String) (scope resource : List String)
    (challenge : Option String) (db : Database)
    → let outcome = create_code s raw client_id user_id redirect_uri scope resource challenge db in
      (((e : Exn) × (outcome.0 ≡ err e)) × (outcome.1 ≡ db))
      ⊎ ((hash : String) × (token_hash s.crypto s.settings raw ≡ ok hash)
          × (select_row (code_key s.container_db_key hash) db.codes ≡ none)
          × (outcome.1.codes
              ≡ db.codes
                ++ code_row s hash client_id user_id redirect_uri scope resource challenge ∷ [])
          × (outcome.1.consents ≡ db.consents)
          × ((code : Code) × (outcome.0 ≡ ok code)))
unfolding create_code insert_code insert_row code_row
create_code-cases s raw client_id user_id redirect_uri scope resource challenge db =
    elim (Result-cases (token_hash s.crypto s.settings raw)) [
      | inr (e, h) ↦ inl ((e, ground arith), ground arith)
      | inl (hash, h) ↦
          elim (Option-cases (select_row (code_key s.container_db_key hash) db.codes)) [
            | inr (_, taken) ↦ inl ((unique_violation, ground arith), ground arith)
            | inl free ↦ inr (
              hash,
              h,
              free,
              ground arith,
              ground arith,
              (
                record (row_to_code
                    (code_row s hash client_id user_id redirect_uri scope resource challenge)) {
                      expires_at = none;
                      created_at = none;
                    },
                ground arith,
              ),
            )
          ]
    ]

module _ {R : Type 0} (c : Context R) (b : Browser) (params : Dict Param) (g : Grant) where
  -- The row of the code that is issued
  abbrev pub issued_row : String → CodeRow
  issued_row hash =
      code_row c.session hash g.client.client_id g.user_id g.redirect_uri g.scopes g.resources
        (optional_field params "code_challenge")

  -- An outcome that issues the code: its row is stored under the hash of the code, which was free, and
  -- the browser is sent to the redirect URI with the code.
  pub record Issued (state : State R) (outcome : Result Response × State R) : Type 0 where
    pub hash : String
    pub hashed : token_hash c.session.crypto c.session.settings (raw_code c b params g) ≡ ok hash
    pub was_free : select_row (code_key c.session.container_db_key hash) state.database.codes ≡ none
    pub stored : outcome.1.database.codes ≡ state.database.codes ++ issued_row hash ∷ []
    pub answered : outcome.0 ≡ ok (answer c b params g ("code", raw_code c b params g))

  -- An outcome that leaves the codes as they were.
  abbrev pub NoCode : State R → Result Response × State R → Type 0
  NoCode state outcome = outcome.1.database.codes ≡ state.database.codes

  issue_code-cases :
      (state : State R)
      → NoCode state (issue_code c b params g state) ⊎ Issued state (issue_code c b params g state)
  unfolding issue_code
  issue_code-cases state =
      elim (create_code-cases c.session (raw_code c b params g) g.client.client_id g.user_id
        g.redirect_uri g.scopes g.resources (optional_field params "code_challenge")
        state.database) [
          | inl ((e, failed), same) ↦ inl (ground (arith, failed, same))
          | inr (hash, hashed, free, stored, _, (code, created)) ↦ inr (record {
            hash = hash;
            hashed = hashed;
            was_free = free;
            stored = ground (arith, created, stored);
            answered = ground (arith, created);
          })
        ]

  -- The user let the client in with this very request: it is a POST that does not log in, it carries the
  -- decision to allow, and a token that is valid for it.
  pub record Approves (a : AuthorizationRequest) (authenticated_now : Bool) : Type 0 where
    pub is_post : (a.method == "POST") ≡ true
    pub no_login : authenticated_now ≡ false
    pub decision : is_text (optional_field params "decision") "allow" ≡ true
    pub token : token_valid c b params g ≡ ok true

  -- The user lets the client in, or has done so before and it is remembered.
  abbrev pub Consents : AuthorizationRequest → Bool → Database → Type 0
  Consents a now db =
      ((has_consent c.session (consent_key c b params g) db).0 ≡ ok true) ⊎ Approves a now

  decide-cases :
      (decision : Option String) (existing : Bool) (state : State R)
      → let outcome = decide c b params g decision existing state in
        NoCode state outcome
        ⊎ ((existing ≡ true) ⊎ (is_text decision "allow" ≡ true)) × Issued state outcome
  unfolding decide
  decide-cases decision true state = elim (issue_code-cases state) [
    | inl same ↦ inl same
    | inr issued ↦ inr (inl refl, issued)
  ]
  decide-cases decision false state = elim (Bool-cases (is_text decision "allow")) [
    | inr e ↦ elim (Bool-cases (is_text decision "deny")) [
      | inl e' ↦ inl (ground arith)
      | inr e' ↦ inl (unfold ask_consent in ground arith)
    ]
    | inl e ↦
        let db' : Database =
          (create_consent c.session (consent_key c b params g) g.user_id g.client.client_id g.scopes
            g.resources state.database).1 in
        rw e (elim (issue_code-cases (record state { database = db' })) [
          | inl same ↦ inl (unfold create_consent in same)
          | inr issued ↦ inr (
            inr refl,
            unfold create_consent in
                record {
                  hash = issued.hash;
                  hashed = issued.hashed;
                  was_free = issued.was_free;
                  stored = issued.stored;
                  answered = issued.answered;
                },
          )
        ])
  ]

  decide_checked-cases :
      (decision : Option String) (existing : Bool) (state : State R)
      → let outcome = decide_checked c b params g decision existing state in
        NoCode state outcome
        ⊎ ((existing ≡ true)
            ⊎ ((is_text decision "allow" ≡ true) × (token_valid c b params g ≡ ok true)))
          × Issued state outcome
  unfolding decide_checked is_decision
  decide_checked-cases decision existing state =
      let cases = decide-cases decision existing state in
      elim (Bool-cases (is_text decision "allow" || is_text decision "deny")) [
        | inr e ↦ rw e (elim cases [
          | inl same ↦ inl same
          | inr (inl remembered, issued) ↦ inr (inl remembered, issued)
          | inr (inr allowed, issued) ↦ absurd (ground arith)
        ])
        | inl e ↦ rw e (elim (Result-cases (token_valid c b params g)) [
          | inr (_, e') ↦ inl (ground arith)
          | inl (false, e') ↦ inl (ground arith)
          | inl (true, e') ↦ rw e' (elim cases [
            | inl same ↦ inl same
            | inr (inl remembered, issued) ↦ inr (inl remembered, issued)
            | inr (inr allowed, issued) ↦ inr (inr (allowed, refl), issued)
          ])
        ])
      ]

  has_consent_answer :
      (key : String) (db : Database)
      → (found : Bool) × (has_consent c.session key db ≡ (ok found, db))
  unfolding has_consent
  has_consent_answer key db = (_, refl)

  approved :
      (a : AuthorizationRequest) (now : Bool)
      → is_text (decision_of c b params g a now) "allow" ≡ true
      → token_valid c b params g ≡ ok true
      → Approves a now
  unfolding decision_of is_text
  approved a now allowed valid = record {
    is_post = ground arith;
    no_login = ground arith;
    decision = ground arith;
    token = valid;
  }

  -- The consent step issues a code only if the user lets the client in, by this request or by one that is
  -- remembered. The code is then stored for the grant, and the browser is sent on with it. Otherwise the
  -- codes stay as they were.
  pub grant_or_request_consent-cases :
      (a : AuthorizationRequest) (now : Bool) (state : State R)
      → let outcome = grant_or_request_consent c b params g a now state in
        NoCode state outcome ⊎ Consents a now state.database × Issued state outcome
  unfolding grant_or_request_consent
  grant_or_request_consent-cases a now state =
      let key = consent_key c b params g in
      let (found, e) = has_consent_answer key state.database in
      conclude found (ap (λ x. x.0) e) (
        bind_ok (on_database (has_consent c.session key))
          (decide_checked c b params g (decision_of c b params g a now)) {s' = state} {a = found}
          (ground (arith, e)))
    where
      conclude :
          (found : Bool)
          → (has_consent c.session (consent_key c b params g) state.database).0 ≡ ok found
          → grant_or_request_consent c b params g a now state
            ≡ decide_checked c b params g (decision_of c b params g a now) found state
          → let outcome = grant_or_request_consent c b params g a now state in
            NoCode state outcome ⊎ Consents a now state.database × Issued state outcome
      conclude found e step =
          subst
            (λ outcome. NoCode state outcome ⊎ Consents a now state.database × Issued state outcome)
            (sym step)
            (elim (decide_checked-cases (decision_of c b params g a now) found state) [
              | inl same ↦ inl same
              | inr (inl remembered, issued) ↦ inr (inl (e ∙ ap ok remembered), issued)
              | inr (inr (allowed, valid), issued) ↦
                  inr (inr (approved a now allowed valid), issued)
            ])
