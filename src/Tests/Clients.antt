-- ===== src/Tests/Clients.antt =====
-- The theorems on redirect URIs, tokens of forms and issuers at concrete inputs.
use guillotina_oauth_server.Prelude.{
  ◌≡◌, eq_iff, ◌≤◌, refl, String, true, false, some, [], ◌∷◌, Option, List, has_char, partition,
  pos, ◌==◌, ◌+◌, rstrip_char, all_chars, map, arith, lower, starts_with_char, ends_with,
  lstrip_char, starts_with,
}
use guillotina_oauth_server.Exec.{ok}
use guillotina_oauth_server.Config.{default_settings, Settings}
use guillotina_oauth_server.Flow.Keys.{derive_key, base_secret}
use guillotina_oauth_server.Flow.Csrf.{
  csrf_signature, csrf_token, csrf_valid, parts_valid, payload_valid, same_payload, in_future,
  too_old,
}
use guillotina_oauth_server.Flow.Csrf.Binding.{IsCodec, csrf_valid-csrf_token, csrf_valid_unique}
use guillotina_oauth_server.Flow.Clients.RedirectUris.{
  validate_redirect_uri, IsSafe, validate_redirect_uri-IsSafe,
}
use guillotina_oauth_server.Flow.Clients.Redirects.{
  redirect_with_params, present, urlencode, query_pairs, in_query, redirect_with_params-query,
}
use guillotina_oauth_server.Utils.Urls.Parse.{
  Url, urlparse, split_netloc, split_scheme, url_of, cut, has_userinfo, split_userinfo,
}
use guillotina_oauth_server.Utils.Urls.Issuer.{
  Site, container_issuer_url, IsIssuer, container_issuer_url-IsIssuer, validate_issuer,
}
use guillotina_oauth_server.Integrations.Identifiers.{
  mcp_resource_url_from_value, target_of, IsInside, mcp_resource_url_from_value-IsInside,
}
use guillotina_oauth_server.Tests.Data.{crypto}
use guillotina_oauth_server.Tests.Web.{checked, codec, payload}

abbrev settings : Settings
settings = default_settings "secret"

abbrev token : String
token = "body.secretguillotina.oauth:csrfbody"

codec_reads : IsCodec codec payload 40
unfolding has_char all_chars
codec_reads = record { reads_back = refl; no_dot = refl; ascii = refl }

token_issued : csrf_token crypto settings codec 40 payload ≡ ok token
unfolding csrf_token csrf_signature derive_key base_secret
token_issued = refl

not_before : 40 ≤ 600
not_before = omega arith

in_time : 600 ≤ 600 + 40
in_time = omega arith

csrf_valid-csrf_token_example :
    csrf_valid crypto settings codec (pos 600) 600 (some token) payload ≡ ok true
csrf_valid-csrf_token_example =
    csrf_valid-csrf_token crypto settings codec 600 40 600 payload token codec_reads token_issued
      not_before in_time

token_valid_here : csrf_valid crypto settings codec (pos 600) 600 (some token) payload ≡ ok true
unfolding csrf_valid parts_valid payload_valid csrf_signature derive_key base_secret same_payload
    in_future too_old partition all_chars
token_valid_here = refl

csrf_valid_unique_example : payload ≡ payload
csrf_valid_unique_example =
    csrf_valid_unique crypto settings codec (pos 600) (pos 600) 600 600 token payload payload
      token_valid_here token_valid_here

abbrev answer_params : List (String × Option String)
answer_params = ("state", some "x y") ∷ ("code", some "goc_1") ∷ []

abbrev callback : String
callback = "https://app.example/cb"

no_query : has_char b'?' callback ≡ false
unfolding has_char
no_query = refl

both_present : present answer_params ≡ ("state", "x y") ∷ ("code", "goc_1") ∷ []
unfolding present
both_present = refl

redirect_with_params-query_example :
    (partition b'?' (redirect_with_params callback answer_params)
      ≡ (callback, some (urlencode (("state", "x y") ∷ ("code", "goc_1") ∷ []))))
    × (query_pairs (urlencode (("state", "x y") ∷ ("code", "goc_1") ∷ []))
        ≡ map in_query (("state", "x y") ∷ ("code", "goc_1") ∷ []))
redirect_with_params-query_example =
    redirect_with_params-query callback answer_params ("state", "x y") (("code", "goc_1") ∷ [])
      no_query both_present

callback_valid : validate_redirect_uri checked callback ≡ ok true
unfolding validate_redirect_uri urlparse has_char split_netloc split_scheme partition all_chars
    url_of cut lower starts_with_char
callback_valid = refl

validate_redirect_uri-IsSafe_example :
    (has_char b'*' callback ≡ false)
    × (url : Url) × (urlparse checked callback ≡ ok url)
    × IsSafe url
validate_redirect_uri-IsSafe_example = validate_redirect_uri-IsSafe checked callback callback_valid

abbrev named : Settings
named = record settings { issuer = some "https://guillotina.example/" }

abbrev site : Site
site = record {
  container_path = some "/db/guillotina";
  get_url = λ path. path;
  build_url = λ path. path;
}

issuer_found : container_issuer_url checked named site ≡ ok "https://guillotina.example"
unfolding container_issuer_url urlparse validate_issuer has_char split_netloc split_scheme partition
    rstrip_char all_chars url_of lower cut has_userinfo split_userinfo
issuer_found = refl

container_issuer_url-IsIssuer_example :
    ("https://guillotina.example" ≡ rstrip_char b'/' "https://guillotina.example/")
    × IsIssuer checked "https://guillotina.example"
container_issuer_url-IsIssuer_example =
    container_issuer_url-IsIssuer checked named site "https://guillotina.example/"
      "https://guillotina.example" refl
      (λ e. absurd (ground (arith, (eq_iff "https://guillotina.example/" "").1 e))) issuer_found

abbrev resource : String
resource = "https://guillotina.example/docs/@mcp/protocol"

resource_found :
    mcp_resource_url_from_value checked (ok "https://guillotina.example") resource
    ≡ ok (some resource)
unfolding mcp_resource_url_from_value urlparse has_char split_netloc split_scheme partition
    all_chars url_of lower cut ends_with rstrip_char lstrip_char starts_with
resource_found = refl

mcp_resource_url_from_value-IsInside_example :
    (url parsed : Url) × (urlparse checked "https://guillotina.example" ≡ ok url)
    × (urlparse checked resource ≡ ok parsed)
    × ((parsed.scheme == url.scheme) ≡ true)
    × ((parsed.netloc == url.netloc) ≡ true)
    × ((parsed.query == "") ≡ true)
    × ((parsed.fragment == "") ≡ true)
    × IsInside url (target_of parsed.path) resource
mcp_resource_url_from_value-IsInside_example =
    mcp_resource_url_from_value-IsInside checked "https://guillotina.example" resource resource
      resource_found
