-- ===== src/Flow/Clients/RedirectUris.antt =====
-- flow/clients.py: which redirect URIs a client may register, and which it may then use.
use guillotina_oauth_server.Prelude.{
  ◌≡◌, ◌≢◌, sym, subst, ◌∙◌, String, Bool, true, false, not, ◌&&◌, List, [], ◌∷◌, inl, inr, ◌==◌,
  eq_iff, arith, if◌then◌else◌, member, has_char, starts_with_char, Bool-cases,
}
use guillotina_oauth_server.Exec.{Result, ok, ◌and_then◌, Result-cases}
use guillotina_oauth_server.Utils.Urls.Parse.{Url, urlparse, hostname, is_alpha}
use guillotina_oauth_server.Utils.Urls.Issuer.{loopback_hosts}

unfoldable pub is_loopback_http_redirect : Url → Bool
is_loopback_http_redirect parsed =
    (parsed.scheme == "http")
    && member (hostname parsed) loopback_hosts
    && starts_with_char b'/' parsed.path

unfoldable pub is_private_use_redirect : Url → Bool
is_private_use_redirect parsed =
    if member parsed.scheme ("http" ∷ "https" ∷ "javascript" ∷ "data" ∷ [])
    then false
    else if not (starts_with_char b'/' parsed.path)
    then false
    else if has_char b'.' parsed.scheme
    then true
    else is_alpha parsed.scheme && not (parsed.netloc == "")

-- The tests of `validate_redirect_uri` on the parsed URI.
unfoldable pub redirect_url_valid : Url → Bool
unfolding is_loopback_http_redirect is_private_use_redirect
redirect_url_valid parsed =
    if not (parsed.fragment == "")
    then false
    else if member parsed.scheme ("javascript" ∷ "data" ∷ [])
    then false
    else if parsed.scheme == "https"
    then not (parsed.netloc == "") && starts_with_char b'/' parsed.path
    else if is_loopback_http_redirect parsed
    then true
    else is_private_use_redirect parsed

-- `validate_redirect_uri` of a text
unfoldable pub validate_redirect_uri : (String → Bool) → String → Result Bool
unfolding redirect_url_valid
validate_redirect_uri checked uri =
    if uri == ""
    then ok false
    else if has_char b'*' uri
    then ok false
    else urlparse checked uri and_then λ parsed. ok (redirect_url_valid parsed)

unfoldable pub same_loopback : Url → Url → Bool
same_loopback requested registered =
    (requested.scheme == registered.scheme)
    && (hostname requested == hostname registered)
    && (requested.path == registered.path)
    && (requested.query == registered.query)

-- The loop over the registered URIs; a URI that does not parse raises.
unfoldable pub any_same_loopback : (String → Bool) → Url → List String → Result Bool
unfolding is_loopback_http_redirect same_loopback
any_same_loopback checked requested [] = ok false
any_same_loopback checked requested (registered_uri ∷ registered_uris) =
    let rest = any_same_loopback checked requested registered_uris in
    urlparse checked registered_uri and_then λ registered.
    if is_loopback_http_redirect registered && same_loopback requested registered
    then ok true
    else rest

unregistered : (String → Bool) → String → List String → Result Bool
unfolding is_loopback_http_redirect any_same_loopback
unregistered checked redirect_uri redirect_uris =
    urlparse checked redirect_uri and_then λ requested.
    if is_loopback_http_redirect requested
    then any_same_loopback checked requested redirect_uris
    else ok false

-- `redirect_uri_registered_for_client`, of the `redirect_uris` of the client. A missing URI is "",
-- which is parsed alike and is never registered.
unfoldable pub redirect_uri_registered_for_client :
    (String → Bool) → List String → String → Result Bool
unfolding unregistered
redirect_uri_registered_for_client checked redirect_uris redirect_uri =
    if member redirect_uri redirect_uris
    then ok true
    else unregistered checked redirect_uri redirect_uris

-- A URI to which a browser may be sent with a code: no script or data, no fragment, encrypted, or on the
-- local machine, or in a scheme of an app of its own.
pub record IsSafe (url : Url) : Type 0 where
  pub no_script : (url.scheme ≢ "javascript") × (url.scheme ≢ "data")
  pub no_fragment : url.fragment ≡ ""
  pub rooted : starts_with_char b'/' url.path ≡ true
  pub plain_http_is_local : url.scheme ≡ "http" → member (hostname url) loopback_hosts ≡ true
  pub https_has_netloc : url.scheme ≡ "https" → url.netloc ≢ ""

http_is_local :
    (url : Url)
    → redirect_url_valid url ≡ true
    → ("http" == url.scheme) ≡ true
    → member (hostname url) loopback_hosts ≡ true
unfolding redirect_url_valid is_loopback_http_redirect is_private_use_redirect
http_is_local url h e = elim (Bool-cases (url.scheme == "https")) [
  | inl e' ↦ absurd (
      ground (
        arith,
        (eq_iff "http" "https").1
            ((eq_iff "http" url.scheme).0 e ∙ (eq_iff url.scheme "https").0 e'),
      ))
  | inr e' ↦ elim (Bool-cases (is_loopback_http_redirect url)) [
    | inl local ↦ ground arith
    | inr remote ↦ absurd (ground arith)
  ]
]

redirect_url_valid-IsSafe : (url : Url) → redirect_url_valid url ≡ true → IsSafe url
unfolding redirect_url_valid is_loopback_http_redirect is_private_use_redirect
redirect_url_valid-IsSafe url h = record {
  no_script = (
    λ e. absurd (ground (arith, (eq_iff url.scheme "javascript").1 e)),
    λ e. absurd (ground (arith, (eq_iff url.scheme "data").1 e)),
  );
  no_fragment = (eq_iff url.fragment "").0 (ground arith);
  rooted = ground arith;
  plain_http_is_local = λ e. http_is_local url h ((eq_iff "http" url.scheme).1 (sym e));
  https_has_netloc = λ e empty.
      absurd (ground (arith, (eq_iff url.scheme "https").1 e, (eq_iff url.netloc "").1 empty));
}

-- A URI that `validate_redirect_uri` lets a client register parses to a URL that is safe: no script and no
-- data, no fragment, a path from the root, plain HTTP only to the local machine, and HTTPS only with a
-- host. It holds no "*".
pub validate_redirect_uri-IsSafe :
    (checked : String → Bool) (uri : String)
    → validate_redirect_uri checked uri ≡ ok true
    → (has_char b'*' uri ≡ false) × (url : Url) × (urlparse checked uri ≡ ok url) × IsSafe url
unfolding validate_redirect_uri
validate_redirect_uri-IsSafe checked uri h = elim (Result-cases (urlparse checked uri)) [
  | inr (_, e) ↦ absurd (ground arith)
  | inl (url, e) ↦ (ground arith, url, e, redirect_url_valid-IsSafe url (ground arith))
]

-- A plain HTTP URL of the local machine
pub record IsLocal (url : Url) : Type 0 where
  pub scheme : url.scheme ≡ "http"
  pub host : member (hostname url) ("localhost" ∷ "127.0.0.1" ∷ "::1" ∷ []) ≡ true
  pub rooted : starts_with_char b'/' url.path ≡ true

-- The client registered the URI of a request, or both are plain HTTP URLs of the local machine, where the
-- URI that was registered has the same host name, path and query. The rest of the URI, which is its port,
-- fragment, userinfo and the parameters of its path, is not compared.
pub data Registered (checked : String → Bool) (redirect_uri : String) : List String → Type 0 where
  exactly : (uris : List String) → Registered checked redirect_uri (redirect_uri ∷ uris)
  same_target :
      (requested registered : Url) (uri : String) (uris : List String)
      → urlparse checked redirect_uri ≡ ok requested
      → urlparse checked uri ≡ ok registered
      → IsLocal requested
      → IsLocal registered
      → hostname requested ≡ hostname registered
      → requested.path ≡ registered.path
      → requested.query ≡ registered.query
      → Registered checked redirect_uri (uri ∷ uris)
  later :
      (uri : String) (uris : List String)
      → Registered checked redirect_uri uris
      → Registered checked redirect_uri (uri ∷ uris)

is_loopback_http_redirect-IsLocal : (url : Url) → is_loopback_http_redirect url ≡ true → IsLocal url
unfolding is_loopback_http_redirect
is_loopback_http_redirect-IsLocal url h = record {
  scheme = (eq_iff url.scheme "http").0 (ground arith);
  host = ground arith;
  rooted = ground arith;
}

member-Registered :
    (checked : String → Bool) (redirect_uri : String) (uris : List String)
    → member redirect_uri uris ≡ true
    → Registered checked redirect_uri uris
member-Registered checked redirect_uri [] h = absurd (ground arith)
member-Registered checked redirect_uri (uri ∷ uris) h = elim (Bool-cases (uri == redirect_uri)) [
  | inl e ↦
      subst (λ first. Registered checked redirect_uri (first ∷ uris))
        (sym ((eq_iff uri redirect_uri).0 e)) (exactly uris)
  | inr e ↦ later uri uris (member-Registered checked redirect_uri uris (ground arith))
]

any_same_loopback-Registered :
    (checked : String → Bool) (redirect_uri : String) (requested : Url) (uris : List String)
    → urlparse checked redirect_uri ≡ ok requested
    → is_loopback_http_redirect requested ≡ true
    → any_same_loopback checked requested uris ≡ ok true
    → Registered checked redirect_uri uris
unfolding any_same_loopback same_loopback
any_same_loopback-Registered checked redirect_uri requested [] e local h = absurd (ground arith)
any_same_loopback-Registered checked redirect_uri requested (uri ∷ uris) e local h =
    elim (Result-cases (urlparse checked uri)) [
      | inr (_, e') ↦ absurd (ground arith)
      | inl (registered, e') ↦
          elim (Bool-cases
            (is_loopback_http_redirect registered && same_loopback requested registered)) [
              | inr different ↦ later uri uris (
                  any_same_loopback-Registered checked redirect_uri requested uris e local
                    (ground arith))
              | inl agrees ↦
                  same_target requested registered uri uris e e'
                    (is_loopback_http_redirect-IsLocal requested local)
                    (is_loopback_http_redirect-IsLocal registered (ground arith))
                    ((eq_iff (hostname requested) (hostname registered)).0 (ground arith))
                    ((eq_iff requested.path registered.path).0 (ground arith))
                    ((eq_iff requested.query registered.query).0 (ground arith))
            ]
    ]

-- The URI of a request that `redirect_uri_registered_for_client` accepts is one that the client
-- registered, or it is on the local machine with the host name, path and query of one.
pub redirect_uri_registered_for_client-Registered :
    (checked : String → Bool) (uris : List String) (redirect_uri : String)
    → redirect_uri_registered_for_client checked uris redirect_uri ≡ ok true
    → Registered checked redirect_uri uris
unfolding redirect_uri_registered_for_client unregistered
redirect_uri_registered_for_client-Registered checked uris redirect_uri h =
    elim (Bool-cases (member redirect_uri uris)) [
      | inl e ↦ member-Registered checked redirect_uri uris e
      | inr e ↦ elim (Result-cases (urlparse checked redirect_uri)) [
        | inr (_, e') ↦ absurd (ground arith)
        | inl (requested, e') ↦
            any_same_loopback-Registered checked redirect_uri requested uris e' (ground arith)
              (ground arith)
      ]
    ]
