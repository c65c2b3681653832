-- ===== src/Utils/Urls/Issuer.antt =====
-- utils/urls.py: the issuer, which is the URL of the container.
use guillotina_oauth_server.Prelude.{
  ◌≡◌, ◌≢◌, String, Bool, true, false, not, ◌&&◌, ◌||◌, Option, none, some, List, [], ◌∷◌, ◌⊎◌, inl,
  inr, ◌==◌, eq_iff, arith, if◌then◌else◌, member, rstrip_char, Bool-cases,
}
use guillotina_oauth_server.Exec.{Result, ok, err, runtime_error, ◌and_then◌, Result-cases}
use guillotina_oauth_server.Config.{Settings}
use guillotina_oauth_server.Utils.Urls.Parse.{Url, urlparse, hostname, has_userinfo}

abbrev pub loopback_hosts : List String
loopback_hosts = "localhost" ∷ "127.0.0.1" ∷ "::1" ∷ []

-- What follows the parse: the first test that fails raises.
unfoldable pub issuer_checked : String → Url → Result String
issuer_checked issuer parsed =
    if not (member parsed.scheme ("https" ∷ "http" ∷ [])) || (parsed.netloc == "")
    then err runtime_error
    else if not (parsed.query == "") || not (parsed.fragment == "")
    then err runtime_error
    else if has_userinfo parsed
    then err runtime_error
    else if not (parsed.scheme == "https") && not (member (hostname parsed) loopback_hosts)
    then err runtime_error
    else ok issuer

unfoldable pub validate_issuer : (String → Bool) → String → Result String
unfolding issuer_checked
validate_issuer checked issuer =
    let stripped = rstrip_char b'/' issuer in
    urlparse checked stripped and_then λ parsed. issuer_checked stripped parsed

-- What `container_issuer_url` takes from Guillotina: the path of the container of the request, if
-- there is one (`IContainer.providedBy`, `get_current_container` and `get_full_content_path`),
-- `get_url(request, path)`, and `build_url` for the scheme and the host of the request.
pub record Site : Type 0 where
  pub container_path : Option String
  pub get_url : String → String
  pub build_url : String → String

site_url : Settings → Site → Option String → Result String
site_url settings site none = err runtime_error
site_url settings site (some path) = ok (
    rstrip_char b'/'
      (if settings.trust_proxy_headers then site.get_url path else site.build_url path))

issuer_or_site : (String → Bool) → Settings → Site → Option String → Result String
unfolding site_url
issuer_or_site checked settings site none = site_url settings site site.container_path
issuer_or_site checked settings site (some issuer) =
    if issuer == ""
    then site_url settings site site.container_path
    else validate_issuer checked issuer

unfoldable pub container_issuer_url : (String → Bool) → Settings → Site → Result String
unfolding issuer_or_site
container_issuer_url checked settings site = issuer_or_site checked settings site settings.issuer

-- An issuer that clients may rely on: an absolute HTTP(S) URL with no query, no fragment and no
-- userinfo, in plain HTTP only on the local machine.
pub record IsIssuer (checked : String → Bool) (issuer : String) : Type 0 where
  pub parsed : Url
  pub is_parsed : urlparse checked issuer ≡ ok parsed
  pub absolute : member parsed.scheme ("https" ∷ "http" ∷ []) ≡ true
  pub has_netloc : parsed.netloc ≢ ""
  pub no_query : parsed.query ≡ ""
  pub no_fragment : parsed.fragment ≡ ""
  pub no_userinfo : has_userinfo parsed ≡ false
  pub secure : (parsed.scheme ≡ "https") ⊎ (member (hostname parsed) loopback_hosts ≡ true)

secure_or_local :
    (url : Url)
    → (not (url.scheme == "https") && not (member (hostname url) loopback_hosts)) ≡ false
    → (url.scheme ≡ "https") ⊎ (member (hostname url) loopback_hosts ≡ true)
secure_or_local url h = elim (Bool-cases (url.scheme == "https")) [
  | inl e ↦ inl ((eq_iff url.scheme "https").0 e)
  | inr e ↦ inr (ground arith)
]

issuer_checked-IsIssuer :
    (checked : String → Bool) (issuer url : String) (parsed : Url)
    → urlparse checked issuer ≡ ok parsed
    → issuer_checked issuer parsed ≡ ok url
    → (url ≡ issuer) × IsIssuer checked issuer
unfolding issuer_checked
issuer_checked-IsIssuer checked issuer url parsed e h = (
  ground arith,
  record {
    parsed = parsed;
    is_parsed = e;
    absolute = ground arith;
    has_netloc = λ empty. absurd (ground (arith, (eq_iff parsed.netloc "").1 empty));
    no_query = (eq_iff parsed.query "").0 (ground arith);
    no_fragment = (eq_iff parsed.fragment "").0 (ground arith);
    no_userinfo = ground arith;
    secure = secure_or_local parsed (ground arith);
  },
)

-- With an issuer in the settings, what `container_issuer_url` returns is that issuer without the slashes
-- at its end, whatever the request says, and it is an absolute HTTP(S) URL with no query, fragment or
-- userinfo, in plain HTTP only on the local machine.
pub container_issuer_url-IsIssuer :
    (checked : String → Bool) (settings : Settings) (site : Site) (issuer url : String)
    → settings.issuer ≡ some issuer
    → issuer ≢ ""
    → container_issuer_url checked settings site ≡ ok url
    → (url ≡ rstrip_char b'/' issuer) × IsIssuer checked url
unfolding container_issuer_url issuer_or_site validate_issuer
container_issuer_url-IsIssuer checked settings site issuer url configured given h =
    elim (Result-cases (urlparse checked (rstrip_char b'/' issuer))) [
      | inr (_, e) ↦ absurd (ground (arith, configured, eq_iff issuer ""))
      | inl (parsed, e) ↦
          let (same, valid) =
            issuer_checked-IsIssuer checked (rstrip_char b'/' issuer) url parsed e
              (ground (arith, configured, eq_iff issuer "")) in
          (same, rw same valid)
    ]
