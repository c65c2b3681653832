-- ===== src/Integrations/Identifiers.antt =====
-- integrations/mcp: identifiers.py, grant.py, access.py and discovery.py.
use text.Mathlib.TextLemmas.{cons-append, append_assoc}
use guillotina_oauth_server.Prelude.{
  ◌≡◌, refl, ap, sym, subst, ◌∙◌, String, Bool, true, not, ◌&&◌, ◌||◌, Option, none, some, List, [],
  ◌∷◌, ◌==◌, eq_iff, arith, if◌then◌else◌, concat, starts_with, ends_with, rstrip_char, lstrip_char,
  inl, inr, Bool-cases, one_char,
}
use guillotina_oauth_server.Exec.{Result, ok, err, ◌and_then◌, Result-cases}
use guillotina_oauth_server.Config.{Settings}
use guillotina_oauth_server.Flow.Scopes.{oauth_scopes_supported}
use guillotina_oauth_server.Utils.Urls.Parse.{Url, urlparse}
use guillotina_oauth_server.Discovery.Metadata.{ResourceMetadata}

abbrev pub protocol : String
protocol = "/@mcp/protocol"

-- "/" + str(path or "").strip("/")
unfoldable pub target_of : String → String
target_of path = concat "/" (rstrip_char b'/' (lstrip_char b'/' path))

unfoldable pub container_path_of : Url → String
container_path_of issuer = rstrip_char b'/' issuer.path

abbrev pub origin : Url → String
origin issuer = concat issuer.scheme (concat "://" issuer.netloc)

-- The tests of `_mcp_resource_url_from_path`, with the issuer parsed
unfoldable pub resource_at : Url → String → Option String
resource_at issuer target =
    if not (ends_with protocol target)
    then none
    else if not (target == concat (container_path_of issuer) protocol)
        && not (starts_with (concat (container_path_of issuer) "/") target)
    then none
    else some (concat (origin issuer) target)

-- `checked` is that of `urlparse`, and `issuer` is what `container_issuer_url` returns.
module _ (checked : String → Bool) (issuer : Result String) where
  unfoldable pub mcp_resource_url_from_path : String → Result (Option String)
  unfolding resource_at target_of container_path_of
  mcp_resource_url_from_path path = issuer and_then λ url.
      urlparse checked url and_then λ parsed. ok (resource_at parsed (target_of path))

  from_value : Url → Url → Result (Option String)
  unfolding mcp_resource_url_from_path
  from_value issuer' parsed =
      if not (parsed.scheme == issuer'.scheme) || not (parsed.netloc == issuer'.netloc)
      then ok none
      else if not (parsed.query == "") || not (parsed.fragment == "")
      then ok none
      else mcp_resource_url_from_path parsed.path

  unfoldable pub mcp_resource_url_from_value : String → Result (Option String)
  unfolding from_value
  mcp_resource_url_from_value value = issuer and_then λ url.
      urlparse checked url and_then λ issuer'.
      urlparse checked value and_then λ parsed. from_value issuer' parsed

  default_indicator : Result String
  default_indicator = issuer and_then λ url. ok (concat url protocol)

  or_resource : Result (Option String) → Result String → Result String
  or_resource (err e) rest = err e
  or_resource (ok none) rest = rest
  or_resource (ok (some resource)) rest = ok resource

  from_request_path : String → Result String
  unfolding or_resource default_indicator
  from_request_path path =
      if ends_with protocol path
      then or_resource (mcp_resource_url_from_path path) default_indicator
      else default_indicator

  -- The path of the protected resource, "" where it is not set, and the path of the request
  unfoldable pub mcp_resource_indicator : String → String → Result String
  unfolding from_request_path
  mcp_resource_indicator protected_path request_path =
      if protected_path == ""
      then from_request_path request_path
      else or_resource (mcp_resource_url_from_path protected_path) (from_request_path request_path)

  -- grant.py: the resources of the values of the `resource` parameter
  resources_of_values : List String → Result (List String)
  unfolding mcp_resource_url_from_value
  resources_of_values [] = ok []
  resources_of_values (value ∷ values) =
      let rest = resources_of_values values in
      mcp_resource_url_from_value value and_then λ found.
      rest and_then λ others. ok (elim found [ none ↦ others | some resource ↦ resource ∷ others ])

  unfoldable pub mcp_protocol_resource_resolver : List String → Result (List String)
  unfolding resources_of_values default_indicator
  mcp_protocol_resource_resolver values = default_indicator and_then λ own.
      resources_of_values values and_then λ others. ok (own ∷ others)

  -- access.py
  unfoldable pub mcp_protocol_audience_resolver : String → String → Result (Option String)
  mcp_protocol_audience_resolver protected_path request_path =
      if ends_with protocol request_path
      then (mcp_resource_indicator protected_path request_path and_then λ resource.
          ok (some resource))
      else ok none

  resource_metadata : Settings → Option String → Result (Option ResourceMetadata)
  resource_metadata settings none = ok none
  resource_metadata settings (some resource) = issuer and_then λ url. ok (
      some (record {
        resource = resource;
        authorization_servers = url ∷ [];
        scopes_supported = oauth_scopes_supported settings;
      }))

  -- discovery.py: `_mcp_protected_resource_provider`
  unfoldable pub mcp_protected_resource_provider :
      Settings → String → Option String → Result (Option ResourceMetadata)
  unfolding resource_metadata
  mcp_protected_resource_provider settings request_path none =
      mcp_resource_indicator "" request_path and_then λ resource.
      resource_metadata settings (some resource)
  mcp_protected_resource_provider settings request_path (some path) =
      mcp_resource_url_from_path path and_then λ found. resource_metadata settings found

-- A resource inside a container: the origin of the issuer, and a path below the container's that ends in the
-- protocol's.
pub record IsInside (issuer : Url) (target resource : String) : Type 0 where
  pub resource_is : resource ≡ concat (origin issuer) target
  pub is_protocol : ends_with protocol target ≡ true
  pub below : starts_with (concat (container_path_of issuer) "/") target ≡ true

starts_with_refl : (s t : String) → starts_with s (concat s t) ≡ true
unfolding starts_with
starts_with_refl String.[] t = refl
starts_with_refl (String.◌∷◌ c s) t = rw (cons-append c s t) (ground (arith, starts_with_refl s t))

starts_with-protocol : (path : String) → starts_with (concat path "/") (concat path protocol) ≡ true
starts_with-protocol path =
    subst (λ s. starts_with (concat path "/") s ≡ true)
      (append_assoc path "/" "@mcp/protocol" ∙ ap (concat path) (one_char "/" "@mcp/protocol"))
      (starts_with_refl (concat path "/") "@mcp/protocol")

resource_at-IsInside :
    (issuer : Url) (target resource : String)
    → resource_at issuer target ≡ some resource
    → IsInside issuer target resource
unfolding resource_at
resource_at-IsInside issuer target resource h =
    let path = container_path_of issuer in
    record {
      resource_is = ground arith;
      is_protocol = ground arith;
      below = elim (Bool-cases (target == concat path protocol)) [
        | inl e ↦
            subst (λ t. starts_with (concat path "/") t ≡ true)
              (sym ((eq_iff target (concat path protocol)).0 e)) (starts_with-protocol path)
        | inr e ↦ ground arith
      ];
    }

-- A resource that the MCP integration names for a value is inside the container of the request: the value has the
-- scheme and the host of the issuer, no query and no fragment, and its path ends in "/@mcp/protocol" and
-- lies below the path of the container, at a "/".
pub mcp_resource_url_from_value-IsInside :
    (checked : String → Bool) (issuer value resource : String)
    → mcp_resource_url_from_value checked (ok issuer) value ≡ ok (some resource)
    → (site parsed : Url) × (urlparse checked issuer ≡ ok site)
      × (urlparse checked value ≡ ok parsed)
      × ((parsed.scheme == site.scheme) ≡ true)
      × ((parsed.netloc == site.netloc) ≡ true)
      × ((parsed.query == "") ≡ true)
      × ((parsed.fragment == "") ≡ true)
      × IsInside site (target_of parsed.path) resource
unfolding mcp_resource_url_from_value from_value mcp_resource_url_from_path
mcp_resource_url_from_value-IsInside checked issuer value resource h =
    elim (Result-cases (urlparse checked issuer)) [
      | inr (_, e) ↦ absurd (ground arith)
      | inl (site, e) ↦ elim (Result-cases (urlparse checked value)) [
        | inr (_, e') ↦ absurd (ground arith)
        | inl (parsed, e') ↦ (
          site,
          parsed,
          e,
          e',
          ground arith,
          ground arith,
          ground arith,
          ground arith,
          resource_at-IsInside site (target_of parsed.path) resource (ground arith),
        )
      ]
    ]
