-- ===== src/Flow/Clients/Registrable.antt =====
-- flow/clients.py: what every client that registers satisfies.
use guillotina_oauth_server.Prelude.{
  ℕ, ◌≡◌, ◌≢◌, refl, sym, String, Bool, true, false, List, [], ◌∷◌, arith, All, Dict, get, join,
  member, is_subset, inl, inr, Bool-cases,
}
use guillotina_oauth_server.Exec.{ok, Result-cases}
use guillotina_oauth_server.Config.{Settings}
use guillotina_oauth_server.Utils.Json.{
  Json, null, boolean, number, text, array, object, Jsons, nil, cons, truthy, or_null,
}
use guillotina_oauth_server.Flow.Scopes.{oauth_default_scope, oauth_scopes_supported}
use guillotina_oauth_server.Utils.Request.Params.{raise_oauth_error}
use guillotina_oauth_server.Flow.Clients.RedirectUris.{validate_redirect_uri}
use guillotina_oauth_server.Flow.Clients.Registration.{
  supported_grant_types, supported_response_types, texts, validate_redirect_value, any_unsafe,
  any_unsupported, refuse_if, non_empty_array, types_checked, scope_checked, requested_scope,
  Registration, build_client_from_registration, uris_of, grants_of, responses_of,
}

-- A client as every registration leaves it.
pub record IsRegistrable (checked : String → Bool) (settings : Settings) (scope : List String)
    (r : Registration) : Type 0 where
  pub has_uris : r.redirect_uris ≢ []
  pub uris_valid : All (λ uri. validate_redirect_uri checked uri ≡ ok true) r.redirect_uris
  pub grants_supported : is_subset r.grant_types supported_grant_types ≡ true
  pub responses_supported : is_subset r.response_types supported_response_types ≡ true
  pub grants_agree : member "authorization_code" r.grant_types ≡ member "code" r.response_types
  pub scope_joined : r.scope ≡ join " " scope
  pub default_scope : member oauth_default_scope scope ≡ true
  pub scope_supported : is_subset scope (oauth_scopes_supported settings) ≡ true

any_unsafe-All :
    (checked : String → Bool) (uris : Jsons)
    → any_unsafe checked uris ≡ ok false
    → All (λ uri. validate_redirect_uri checked uri ≡ ok true) (texts uris)
unfolding any_unsafe texts validate_redirect_value truthy
any_unsafe-All checked nil h = tt
any_unsafe-All checked (cons (text uri) uris) h =
    elim (Result-cases (validate_redirect_uri checked uri)) [
      | inr (_, e) ↦ absurd (ground arith)
      | inl (true, e) ↦ (e, any_unsafe-All checked uris (ground arith))
      | inl (false, e) ↦ absurd (ground arith)
    ]
any_unsafe-All checked (cons null uris) h = absurd (ground arith)
any_unsafe-All checked (cons (boolean true) uris) h = absurd (ground arith)
any_unsafe-All checked (cons (boolean false) uris) h = absurd (ground arith)
any_unsafe-All checked (cons (number s) uris) h = absurd (ground arith)
any_unsafe-All checked (cons (array nil) uris) h = absurd (ground arith)
any_unsafe-All checked (cons (array (cons v vs)) uris) h = absurd (ground arith)
any_unsafe-All checked (cons (object [] s) uris) h = absurd (ground arith)
any_unsafe-All checked (cons (object (k ∷ ks) s) uris) h = absurd (ground arith)

-- A list of safe URIs holds texts only, so it has as many texts as values.
any_unsafe-not_empty :
    (checked : String → Bool) (uri : Json) (uris : Jsons)
    → any_unsafe checked (cons uri uris) ≡ ok false
    → texts (cons uri uris) ≢ []
unfolding any_unsafe texts validate_redirect_value truthy
any_unsafe-not_empty checked (text s) uris h empty = ground arith
any_unsafe-not_empty checked null uris h empty = ground arith
any_unsafe-not_empty checked (boolean true) uris h empty = ground arith
any_unsafe-not_empty checked (boolean false) uris h empty = ground arith
any_unsafe-not_empty checked (number s) uris h empty = ground arith
any_unsafe-not_empty checked (array nil) uris h empty = ground arith
any_unsafe-not_empty checked (array (cons v vs)) uris h empty = ground arith
any_unsafe-not_empty checked (object [] s) uris h empty = ground arith
any_unsafe-not_empty checked (object (k ∷ ks) s) uris h empty = ground arith

any_unsupported-is_subset :
    (supported : List String) (values : Jsons)
    → any_unsupported supported values ≡ ok false
    → is_subset (texts values) supported ≡ true
unfolding any_unsupported texts
any_unsupported-is_subset supported nil h = refl
any_unsupported-is_subset supported (cons (text s) values) h =
    elim (Bool-cases (member s supported)) [
      | inl e ↦ ground (arith, any_unsupported-is_subset supported values (ground arith))
      | inr e ↦ absurd (ground arith)
    ]
any_unsupported-is_subset supported (cons (array v) values) h = absurd (ground arith)
any_unsupported-is_subset supported (cons (object k s) values) h = absurd (ground arith)
any_unsupported-is_subset supported (cons null values) h = absurd (ground arith)
any_unsupported-is_subset supported (cons (boolean b) values) h = absurd (ground arith)
any_unsupported-is_subset supported (cons (number s) values) h = absurd (ground arith)

-- The grant types and the response types that pass.
abbrev TypesAgree : Jsons → Jsons → Type 0
TypesAgree grant_types response_types =
    (is_subset (texts grant_types) supported_grant_types ≡ true)
    × (is_subset (texts response_types) supported_response_types ≡ true)
    × (member "authorization_code" (texts grant_types) ≡ member "code" (texts response_types))

types_checked-TypesAgree :
    (grant_types response_types : Jsons) {a : Unit {0}}
    → types_checked grant_types response_types ≡ ok a
    → TypesAgree grant_types response_types
unfolding types_checked refuse_if raise_oauth_error
types_checked-TypesAgree grant_types response_types h =
    elim (Result-cases (any_unsupported supported_grant_types grant_types)) [
      | inr (_, e) ↦ absurd (ground arith)
      | inl (true, e) ↦ absurd (ground arith)
      | inl (false, e) ↦
          elim (Result-cases (any_unsupported supported_response_types response_types)) [
            | inr (_, e') ↦ absurd (ground arith)
            | inl (true, e') ↦ absurd (ground arith)
            | inl (false, e') ↦ (
              any_unsupported-is_subset supported_grant_types grant_types e,
              any_unsupported-is_subset supported_response_types response_types e',
              ground arith,
            )
          ]
    ]

scope_checked_ok :
    (settings : Settings) (scope : List String) {a : Unit {0}}
    → scope_checked settings scope ≡ ok a
    → (member oauth_default_scope scope ≡ true)
      × (is_subset scope (oauth_scopes_supported settings) ≡ true)
unfolding scope_checked refuse_if raise_oauth_error
scope_checked_ok settings scope h = (ground arith, ground arith)

-- A list that passes `non_empty_array` is not empty.
non_empty_array_cons :
    (value : Json) (description : String) {values : Jsons}
    → non_empty_array value description ≡ ok values
    → (first : Json) × (rest : Jsons) × (values ≡ cons first rest)
unfolding non_empty_array raise_oauth_error
non_empty_array_cons (array (cons first rest)) description h = (first, rest, ground arith)
non_empty_array_cons (array nil) description h = absurd (ground arith)
non_empty_array_cons null description h = absurd (ground arith)
non_empty_array_cons (boolean b) description h = absurd (ground arith)
non_empty_array_cons (number s) description h = absurd (ground arith)
non_empty_array_cons (text s) description h = absurd (ground arith)
non_empty_array_cons (object k s) description h = absurd (ground arith)

uris_of-cons :
    (params : Dict Json) {uris : Jsons}
    → uris_of params ≡ ok uris
    → (first : Json) × (rest : Jsons) × (uris ≡ cons first rest)
unfolding uris_of
uris_of-cons params h =
    non_empty_array_cons (or_null (get params "redirect_uris")) "redirect_uris is required" h

texts_not_empty :
    (checked : String → Bool) (uris : Jsons)
    → any_unsafe checked uris ≡ ok false
    → (first : Json) × (rest : Jsons) × (uris ≡ cons first rest)
    → texts uris ≢ []
texts_not_empty checked uris h (first, rest, e) empty =
    any_unsafe-not_empty checked first rest (rw (sym e) h) (rw (sym e) empty)

-- A client that `build_client_from_registration` returns has redirect URIs, all of them valid, supported
-- grant types and response types that agree on the use of authorization codes, and the scopes that it
-- asked for (the default scope where it asked for none), which are supported and hold the default scope.
pub build_client_from_registration-IsRegistrable :
    (checked : String → Bool) (settings : Settings) (client_id : String) (now : ℕ)
    (params : Dict Json) (r : Registration)
    → build_client_from_registration checked settings client_id now params ≡ ok r
    → (r.client_id ≡ client_id) × IsRegistrable checked settings (requested_scope params) r
unfolding build_client_from_registration refuse_if raise_oauth_error
build_client_from_registration-IsRegistrable checked settings client_id now params r h =
    elim (Result-cases (uris_of params)) [
      | inr (_, e) ↦ absurd (ground arith)
      | inl (uris, e) ↦ elim (Result-cases (any_unsafe checked uris)) [
        | inr (_, e') ↦ absurd (ground arith)
        | inl (true, e') ↦ absurd (ground arith)
        | inl (false, e') ↦ elim (Result-cases (grants_of params)) [
          | inr (_, e2) ↦ absurd (ground arith)
          | inl (grants, e2) ↦ elim (Result-cases (responses_of params)) [
            | inr (_, e3) ↦ absurd (ground arith)
            | inl (responses, e3) ↦ elim (Result-cases (types_checked grants responses)) [
              | inr (_, e4) ↦ absurd (ground arith)
              | inl (u, e4) ↦
                  elim (Result-cases (scope_checked settings (requested_scope params))) [
                    | inr (_, e5) ↦ absurd (ground arith)
                    | inl (u', e5) ↦
                        conclude uris grants responses u u' e e' e4 e5 (ground arith) (ground arith)
                          (ground arith) (ground arith) (ground arith)
                  ]
            ]
          ]
        ]
      ]
    ]
  where
    conclude :
        (uris grants responses : Jsons) (u u' : Unit {0})
        → uris_of params ≡ ok uris
        → any_unsafe checked uris ≡ ok false
        → types_checked grants responses ≡ ok u
        → scope_checked settings (requested_scope params) ≡ ok u'
        → r.client_id ≡ client_id
        → r.redirect_uris ≡ texts uris
        → r.grant_types ≡ texts grants
        → r.response_types ≡ texts responses
        → r.scope ≡ join " " (requested_scope params)
        → (r.client_id ≡ client_id) × IsRegistrable checked settings (requested_scope params) r
    conclude uris grants responses u u' e e' e4 e5 named is_uris is_grants is_responses scoped =
        let types = types_checked-TypesAgree grants responses e4 in
        let scopes = scope_checked_ok settings (requested_scope params) e5 in
        (
          named,
          record {
            has_uris = rw is_uris (texts_not_empty checked uris e' (uris_of-cons params e));
            uris_valid = rw is_uris (any_unsafe-All checked uris e');
            grants_supported = rw is_grants types.0;
            responses_supported = rw is_responses types.1;
            grants_agree = rw is_grants (rw is_responses types.2);
            scope_joined = scoped;
            default_scope = scopes.0;
            scope_supported = scopes.1;
          },
        )
