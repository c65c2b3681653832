-- ===== src/Api/Registered.antt =====
-- api/endpoints/register.py: what an accepted registration leaves behind.
use guillotina_oauth_server.Prelude.{
  ℕ, ◌≡◌, refl, ap, sym, subst, ◌∙◌, String, Bool, true, false, none, some, arith, eq_refl, Dict,
  inl, inr, Bool-cases, Option-cases,
}
use guillotina_oauth_server.Exec.{
  Result, ok, err, http_bad_request, http_precondition_failed, unique_violation, runtime_error,
  type_error, value_error, attribute_error, data_error, undefined_table, Result-cases,
}
use guillotina_oauth_server.Sql.{select_row, insert_row}
use guillotina_oauth_server.Sql.Select.{select_row-append}
use guillotina_oauth_server.Storage.Rows.{Client, Database, Session, row_to_client}
use guillotina_oauth_server.Storage.Repository.Clients.{
  client_key, client_row, create_client, get_client,
}
use guillotina_oauth_server.Utils.Json.{Json}
use guillotina_oauth_server.Utils.Request.Params.{Request, json_content_type_valid}
use guillotina_oauth_server.Flow.Clients.Registration.{
  Registration, client_of, client_name_text, requested_scope, build_client_from_registration,
}
use guillotina_oauth_server.Flow.Clients.Registrable.{
  IsRegistrable, build_client_from_registration-IsRegistrable,
}
use guillotina_oauth_server.Api.Response.{registered, Context, State}
use guillotina_oauth_server.Api.Register.{
  store_client, store_built, register_json, register_unless, client_registration_endpoint,
}

-- A client with an authentication method "none", as every client of the store has it.
client_read_back :
    (s : Session) (r : Registration) (name : String)
    → row_to_client (client_row s (client_of r name)) ≡ client_of r name
unfolding row_to_client client_row client_of
client_read_back s r name = refl

create_client_ok :
    (s : Session) (client : Client) (db : Database)
    → (create_client s client db).0 ≡ ok tt
    → ((get_client s client.client_id db).0 ≡ ok none)
      × ((get_client s client.client_id (create_client s client db).1).0
          ≡ ok (some (row_to_client (client_row s client))))
unfolding create_client get_client insert_row
create_client_ok s client db h =
    let key = client_key s.container_db_key client.client_id in
    let own : key (client_row s client) ≡ true =
      unfold client_key in
      unfold client_row in ground (arith, eq_refl s.container_db_key, eq_refl client.client_id) in
    elim (Option-cases (select_row key db.clients)) [
      | inr (_, e) ↦ absurd (ground arith)
      | inl e ↦
          (ground arith, ground (arith, select_row-append key db.clients (client_row s client)))
    ]

module _ {R : Type 0} (c : Context R) (checked : String → Bool) (client_id : String)
    (json : Result (Dict Json)) where
  -- What stands in the database after a registration that shows `client`.
  pub record Registered (client : Client) (db db' : Database) : Type 0 where
    pub params : Dict Json
    pub registration : Registration
    pub name : String
    pub body : json ≡ ok params
    pub described : client ≡ client_of registration name
    pub named : client.client_id ≡ client_id
    pub registrable : IsRegistrable checked c.session.settings (requested_scope params) registration
    pub was_free : (get_client c.session client_id db).0 ≡ ok none
    pub stored : (get_client c.session client_id db').0 ≡ ok (some client)

  store_client-stored :
      (r : Registration) (name : Result String) (state : State R) (status issued : ℕ)
      (client : Client)
      → (store_client c checked client_id json r name state).0
        ≡ ok (registered status client issued)
      → (n : String) × (client ≡ client_of r n)
        × (status ≡ 201)
        × ((create_client c.session (client_of r n) state.database).0 ≡ ok tt)
        × ((store_client c checked client_id json r name state).1.database
            ≡ (create_client c.session (client_of r n) state.database).1)
  unfolding store_client
  store_client-stored r (err e) state status issued client h = absurd (ground arith)
  store_client-stored r (ok n) state status issued client h =
      elim (Result-cases (create_client c.session (client_of r n) state.database).0) [
        | inr (_, e) ↦ absurd (ground arith)
        | inl (tt, e) ↦ (n, ground arith, ground arith, e, ground arith)
      ]

  store_built-built :
      (built : Result Registration) (state : State R) (status issued : ℕ) (client : Client)
      → (store_built c checked client_id json built state).0 ≡ ok (registered status client issued)
      → (r : Registration) × (built ≡ ok r)
        × (store_built c checked client_id json built state
            ≡ store_client c checked client_id json r (client_name_text r.client_name) state)
  unfolding store_built
  store_built-built (ok r) state status issued client h = (r, refl, refl)
  store_built-built (err (http_bad_request code description)) state status issued client h =
      absurd (ground arith)
  store_built-built (err (http_precondition_failed code d)) state status issued client h =
      absurd (ground arith)
  store_built-built (err unique_violation) state status issued client h = absurd (ground arith)
  store_built-built (err runtime_error) state status issued client h = absurd (ground arith)
  store_built-built (err type_error) state status issued client h = absurd (ground arith)
  store_built-built (err value_error) state status issued client h = absurd (ground arith)
  store_built-built (err attribute_error) state status issued client h = absurd (ground arith)
  store_built-built (err data_error) state status issued client h = absurd (ground arith)
  store_built-built (err undefined_table) state status issued client h = absurd (ground arith)

  store_client-Registered :
      (params : Dict Json) (r : Registration) (state : State R) (status issued : ℕ)
      (client : Client)
      → json ≡ ok params
      → build_client_from_registration checked c.session.settings client_id c.utc_now params ≡ ok r
      → (store_client c checked client_id json r (client_name_text r.client_name) state).0
        ≡ ok (registered status client issued)
      → (status ≡ 201)
        × Registered client state.database
            (store_client c checked client_id json r
              (client_name_text r.client_name)
              state).1.database
  store_client-Registered params r state status issued client body built h =
      let (name, described, status_is, created, left) =
        store_client-stored r (client_name_text r.client_name) state status issued client h in
      let (named, registrable) =
        build_client_from_registration-IsRegistrable checked c.session.settings client_id c.utc_now
          params r built in
      let id_is : (client_of r name).client_id ≡ client_id = unfold client_of in named in
      let (free, stored) = create_client_ok c.session (client_of r name) state.database created in
      (
        status_is,
        record {
          params = params;
          registration = r;
          name = name;
          body = body;
          described = described;
          named = ap (λ x. x.client_id) described ∙ id_is;
          registrable = registrable;
          was_free = subst (λ id. (get_client c.session id state.database).0 ≡ ok none) id_is free;
          stored = rw left (
              subst
                (λ id.
                  (get_client c.session id
                    (create_client c.session (client_of r name) state.database).1).0
                  ≡ ok (some client))
                id_is
                (stored
                  ∙ ap (λ x. ok (some x)) (client_read_back c.session r name ∙ sym described)));
        },
      )

  -- What the steps before leave of the state is its database.
  register_json-Registered :
      (body : Result (Dict Json)) (state : State R) (status issued : ℕ) (client : Client)
      → json ≡ body
      → (register_json c checked client_id json body state).0 ≡ ok (registered status client issued)
      → (status ≡ 201)
        × Registered client state.database
            (register_json c checked client_id json body state).1.database
  unfolding register_json
  register_json-Registered (err e) state status issued client is_body h = absurd (ground arith)
  register_json-Registered (ok params) state status issued client is_body h =
      let (r, built, same) =
        store_built-built
          (build_client_from_registration checked c.session.settings client_id c.utc_now params)
          state status issued client h in
      rw same (
        store_client-Registered params r state status issued client is_body built
          (ap (λ x. x.0) (sym same) ∙ h))

  register_unless-Registered :
      (request : Request) (blocked : Bool) (state : State R) (status issued : ℕ) (client : Client)
      → (register_unless c checked client_id json request blocked state).0
        ≡ ok (registered status client issued)
      → (status ≡ 201)
        × Registered client state.database
            (register_unless c checked client_id json request blocked state).1.database
  unfolding register_unless
  register_unless-Registered request true state status issued client h = absurd (ground arith)
  register_unless-Registered request false state status issued client h =
      elim (Bool-cases (json_content_type_valid request)) [
        | inr e ↦ absurd (ground arith)
        | inl e ↦ rw e (register_json-Registered json state status issued client refl (rw e at h))
      ]

  -- A registration that is answered with a client has status 201. Its body describes the client, which is
  -- registrable: its redirect URIs are valid, its grant and response types are supported and agree, and its
  -- scope is supported and holds the default scope. The client's new id was free in the container, and
  -- afterwards `get_client` returns the client that the answer shows.
  pub client_registration_endpoint-Registered :
      (request : Request) (state : State R) (status issued : ℕ) (client : Client)
      → (client_registration_endpoint c checked client_id json request state).0
        ≡ ok (registered status client issued)
      → (status ≡ 201)
        × Registered client state.database
            (client_registration_endpoint c checked client_id json request state).1.database
  unfolding client_registration_endpoint
  client_registration_endpoint-Registered request state status issued client h =
      register_unless-Registered request _ _ status issued client h
