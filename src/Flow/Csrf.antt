-- ===== src/Flow/Csrf.antt =====
-- flow/csrf.py: the token that ties the consent form to one authorization request of one user.
pub mod Binding
use guillotina_oauth_server.Prelude.{
  ℕ, suc, ◌+◌, ◌≤◌, ◌≡◌, refl, ap, sym, subst, ◌∙◌, String, Bool, true, false, not, ◌&&◌, ◌||◌,
  Option, none, some, List, [], ◌∷◌, ◌==◌, eq_iff, eq_refl, arith, ltb, if◌then◌else◌, Dict, get,
  concat, has_char, partition, all_chars, ℤ, pos, negsuc, inl, inr, Bool-cases, Option-cases,
}
use guillotina_oauth_server.Exec.{Result, ok, err, ◌and_then◌, Result-cases}
use guillotina_oauth_server.Config.{Settings, Crypto}
use guillotina_oauth_server.Flow.Keys.{derive_key}

abbrev pub oauth_csrf_field : String
oauth_csrf_field = "oauth_csrf"

-- `_csrf_base_payload`: what a token is about.
pub record Payload : Type 0 where
  pub user_id : String
  pub client_id : String
  pub redirect_uri : String
  pub response_type : String
  pub scope : List String
  pub state : String
  pub code_challenge : String
  pub code_challenge_method : String
  pub resource : List String

-- What json and base64 do. `encode` is `_b64url_encode(json.dumps(...))` of a payload and its `iat`, and
-- `decode` is `json.loads(_b64url_decode(body))`: none where one of the errors that are caught is raised,
-- and else the payload, where its nine members are those of one, and `iat`, where it is an integer.
pub record Codec : Type 0 where
  pub encode : Payload → ℕ → String
  pub decode : String → Option (Option Payload × Option ℤ)
  pub b64url_encode : String → String

same_texts : List String → List String → Bool
same_texts [] [] = true
same_texts [] (_ ∷ _) = false
same_texts (_ ∷ _) [] = false
same_texts (s ∷ ss) (t ∷ ts) = (s == t) && same_texts ss ts

-- all(payload.get(key) == value for key, value in expected.items())
unfoldable pub same_payload : Payload → Payload → Bool
unfolding same_texts
same_payload p q =
    (p.user_id == q.user_id)
    && (p.client_id == q.client_id)
    && (p.redirect_uri == q.redirect_uri)
    && (p.response_type == q.response_type)
    && same_texts p.scope q.scope
    && (p.state == q.state)
    && (p.code_challenge == q.code_challenge)
    && (p.code_challenge_method == q.code_challenge_method)
    && same_texts p.resource q.resource

matches : Option Payload → Payload → Bool
unfolding same_payload
matches none expected = false
matches (some payload) expected = same_payload payload expected

-- issued_at > now + 60
unfoldable pub in_future : ℕ → ℤ → Bool
in_future now (pos i) = ltb (now + 60) i
in_future now (negsuc i) = false

-- now - issued_at > ttl
unfoldable pub too_old : ℕ → ℤ → ℤ → Bool
too_old now (pos i) (pos ttl) = ltb (ttl + i) now
too_old now (pos i) (negsuc t) = ltb i (now + suc t)
too_old now (negsuc i) (pos ttl) = ltb ttl (now + suc i)
too_old now (negsuc i) (negsuc t) = true

-- What follows the decoding
unfoldable pub payload_valid : ℤ → ℕ → Payload → Option (Option Payload × Option ℤ) → Bool
unfolding matches in_future too_old
payload_valid ttl now expected none = false
payload_valid ttl now expected (some (payload, none)) = false
payload_valid ttl now expected (some (payload, some issued_at)) =
    if in_future now issued_at || too_old now issued_at ttl then false else matches payload expected

module _ (crypto : Crypto) (settings : Settings) (codec : Codec) where
  unfoldable pub csrf_signature : String → Result String
  csrf_signature body = derive_key crypto settings "csrf" and_then λ secret.
      ok (codec.b64url_encode (crypto.hmac_sha256 secret body))

  -- `time` is `int(time.time())`.
  unfoldable pub csrf_token : ℕ → Payload → Result String
  unfolding csrf_signature
  csrf_token time payload =
      let body = codec.encode payload time in
      csrf_signature body and_then λ signature. ok (concat body (String.◌∷◌ "." signature))

-- `ttl` is `authorize_csrf_ttl` of the settings.
module _ (crypto : Crypto) (settings : Settings) (codec : Codec) (ttl : ℤ) (time : ℕ) where
  -- What follows `token.partition(".")`. A body that is not ASCII cannot be signed.
  unfoldable pub parts_valid : Payload → String × Option String → Result Bool
  unfolding csrf_signature payload_valid
  parts_valid expected (body, none) = ok false
  parts_valid expected (body, some signature) =
      csrf_signature crypto settings codec body and_then λ own. ok (
        if all_chars (λ c. ltb c 128) body && (own == signature)
        then payload_valid ttl time expected (codec.decode body)
        else false)

  unfoldable pub csrf_valid : Option String → Payload → Result Bool
  unfolding parts_valid
  csrf_valid none expected = ok false
  csrf_valid (some token) expected = parts_valid expected (partition b'.' token)
