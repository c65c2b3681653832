-- ===== src/Flow/Csrf/Binding.antt =====
-- flow/csrf.py: which requests a token stands for.
use guillotina_oauth_server.Prelude.{
  ℕ, ◌+◌, ◌≤◌, ◌≡◌, refl, ap, sym, ◌∙◌, String, true, false, Option, none, some, List, [], ◌∷◌,
  ◌==◌, eq_iff, eq_refl, arith, ltb, concat, has_char, partition, all_chars, partition-concat, ℤ,
  pos, inl, inr,
}
use guillotina_oauth_server.Exec.{ok, Result-cases}
use guillotina_oauth_server.Config.{Settings, Crypto}
use guillotina_oauth_server.Flow.Csrf.{
  Payload, Codec, same_texts, same_payload, matches, payload_valid, in_future, too_old,
  csrf_signature, csrf_token, parts_valid, csrf_valid,
}

same_texts_sound : (ss ts : List String) → same_texts ss ts ≡ true → ss ≡ ts
unfolding same_texts
same_texts_sound [] [] h = refl
same_texts_sound [] (_ ∷ _) h = absurd (ground arith)
same_texts_sound (_ ∷ _) [] h = absurd (ground arith)
same_texts_sound (s ∷ ss) (t ∷ ts) h =
    ap (λ x. x ∷ ss) ((eq_iff s t).0 (ground arith))
    ∙ ap (λ xs. t ∷ xs) (same_texts_sound ss ts (ground arith))

same_texts_refl : (ss : List String) → same_texts ss ss ≡ true
unfolding same_texts
same_texts_refl [] = refl
same_texts_refl (s ∷ ss) = ground (arith, eq_refl s, same_texts_refl ss)

same_payload_refl : (p : Payload) → same_payload p p ≡ true
unfolding same_payload
same_payload_refl p = ground (
  arith,
  eq_refl p.user_id,
  eq_refl p.client_id,
  eq_refl p.redirect_uri,
  eq_refl p.response_type,
  same_texts_refl p.scope,
  eq_refl p.state,
  eq_refl p.code_challenge,
  eq_refl p.code_challenge_method,
  same_texts_refl p.resource,
)

same_payload_sound : (p q : Payload) → same_payload p q ≡ true → p ≡ q
unfolding same_payload
same_payload_sound p q h =
    let user_id = (eq_iff p.user_id q.user_id).0 (ground arith) in
    let client_id = (eq_iff p.client_id q.client_id).0 (ground arith) in
    let redirect_uri = (eq_iff p.redirect_uri q.redirect_uri).0 (ground arith) in
    let response_type = (eq_iff p.response_type q.response_type).0 (ground arith) in
    let scope = same_texts_sound p.scope q.scope (ground arith) in
    let state = (eq_iff p.state q.state).0 (ground arith) in
    let challenge = (eq_iff p.code_challenge q.code_challenge).0 (ground arith) in
    let method = (eq_iff p.code_challenge_method q.code_challenge_method).0 (ground arith) in
    let resource = same_texts_sound p.resource q.resource (ground arith) in cc

-- The documented behaviour of json and base64 on a payload and a time: the body is ASCII without a ".", and
-- is read back.
pub record IsCodec (codec : Codec) (p : Payload) (t : ℕ) : Type 0 where
  pub reads_back : codec.decode (codec.encode p t) ≡ some (some p, some (pos t))
  pub no_dot : has_char b'.' (codec.encode p t) ≡ false
  pub ascii : all_chars (λ c. ltb c 128) (codec.encode p t) ≡ true

payload_valid_fresh :
    (ttl time issued_at : ℕ) (p : Payload)
    → issued_at ≤ time
    → time ≤ ttl + issued_at
    → payload_valid (pos ttl) time p (some (some p, some (pos issued_at))) ≡ true
unfolding payload_valid matches in_future too_old
payload_valid_fresh ttl time issued_at p past fresh = ground (arith, same_payload_refl p)

payload_valid_sound :
    (ttl : ℤ) (time : ℕ) (p : Payload) (decoded : Option (Option Payload × Option ℤ))
    → payload_valid ttl time p decoded ≡ true
    → (issued_at : ℤ) × (decoded ≡ some (some p, some issued_at))
      × (in_future time issued_at ≡ false)
      × (too_old time issued_at ttl ≡ false)
unfolding payload_valid matches
payload_valid_sound ttl time p none h = absurd (ground arith)
payload_valid_sound ttl time p (some (_, none)) h = absurd (ground arith)
payload_valid_sound ttl time p (some (none, some issued_at)) h = absurd (ground arith)
payload_valid_sound ttl time p (some (some q, some issued_at)) h = (
  issued_at,
  ap (λ x. some (some x, some issued_at)) (same_payload_sound q p (ground arith)),
  ground arith,
  ground arith,
)

module _ (crypto : Crypto) (settings : Settings) (codec : Codec) where
  -- A token that was issued for a request of a user is valid for the same request of the same user, until
  -- `authorize_csrf_ttl` seconds have passed, where the encoding of its body is read back as documented.
  pub csrf_valid-csrf_token :
      (ttl issued_at time : ℕ) (p : Payload) (token : String)
      → IsCodec codec p issued_at
      → csrf_token crypto settings codec issued_at p ≡ ok token
      → issued_at ≤ time
      → time ≤ ttl + issued_at
      → csrf_valid crypto settings codec (pos ttl) time (some token) p ≡ ok true
  unfolding csrf_token csrf_valid parts_valid
  csrf_valid-csrf_token ttl issued_at time p token is_codec h past fresh =
      let body : String = codec.encode p issued_at in
      elim (Result-cases (csrf_signature crypto settings codec body)) [
        | inr (_, e) ↦ absurd (ground arith)
        | inl (signature, e) ↦
            let whole : token ≡ concat body (String.◌∷◌ "." signature) = ground arith in
            rw whole (
              rw (partition-concat "." body signature is_codec.no_dot) (
                rw e (
                  rw is_codec.ascii (
                    rw (eq_refl signature) (
                      rw is_codec.reads_back
                        (ap ok (payload_valid_fresh ttl time issued_at p past fresh)))))))
      ]

  parts_valid_sound :
      (ttl : ℤ) (time : ℕ) (p : Payload) (parts : String × Option String)
      → parts_valid crypto settings codec ttl time p parts ≡ ok true
      → (signature : String) × (issued_at : ℤ) × (parts.1 ≡ some signature)
        × (csrf_signature crypto settings codec parts.0 ≡ ok signature)
        × (codec.decode parts.0 ≡ some (some p, some issued_at))
        × (in_future time issued_at ≡ false)
        × (too_old time issued_at ttl ≡ false)
  unfolding parts_valid
  parts_valid_sound ttl time p (body, none) h = absurd (ground arith)
  parts_valid_sound ttl time p (body, some signature) h =
      elim (Result-cases (csrf_signature crypto settings codec body)) [
        | inr (_, e) ↦ absurd (ground arith)
        | inl (own, e) ↦
            let same : (own == signature) ≡ true = ground arith in
            let valid : payload_valid ttl time p (codec.decode body) ≡ true = ground arith in
            let (issued_at, decoded, past, young) =
              payload_valid_sound ttl time p (codec.decode body) valid in
            (
              signature,
              issued_at,
              refl,
              e ∙ ap ok ((eq_iff own signature).0 same),
              decoded,
              past,
              young,
            )
      ]

  -- What a token that is valid for a request holds.
  pub record Bound (ttl : ℤ) (time : ℕ) (token : String) (p : Payload) : Type 0 where
    pub signature : String
    pub issued_at : ℤ
    pub signed : csrf_signature crypto settings codec (partition b'.' token).0 ≡ ok signature
    pub carries : (partition b'.' token).1 ≡ some signature
    pub decoded : codec.decode (partition b'.' token).0 ≡ some (some p, some issued_at)
    pub not_ahead : in_future time issued_at ≡ false
    pub still_fresh : too_old time issued_at ttl ≡ false

  -- A token that is valid carries the server's own signature of its body, is about the very request that is
  -- checked, and is not older than `authorize_csrf_ttl`.
  pub csrf_valid-Bound :
      (ttl : ℤ) (time : ℕ) (token : String) (p : Payload)
      → csrf_valid crypto settings codec ttl time (some token) p ≡ ok true
      → Bound ttl time token p
  unfolding csrf_valid
  csrf_valid-Bound ttl time token p h =
      let (signature, issued_at, carries, signed, decoded, past, young) =
        parts_valid_sound ttl time p (partition b'.' token) h in
      record {
        signature = signature;
        issued_at = issued_at;
        signed = signed;
        carries = carries;
        decoded = decoded;
        not_ahead = past;
        still_fresh = young;
      }

  -- A token is valid for one request of one user only: two requests that it is valid for, at whatever times,
  -- agree on the user, the client, the redirect URI, the scopes, the resources, the state and the PKCE
  -- challenge.
  pub csrf_valid_unique :
      (ttl ttl' : ℤ) (time time' : ℕ) (token : String) (p q : Payload)
      → csrf_valid crypto settings codec ttl time (some token) p ≡ ok true
      → csrf_valid crypto settings codec ttl' time' (some token) q ≡ ok true
      → p ≡ q
  csrf_valid_unique ttl ttl' time time' token p q h h' =
      let b = csrf_valid-Bound ttl time token p h in
      let b' = csrf_valid-Bound ttl' time' token q h' in decoded_unique (sym b.decoded ∙ b'.decoded)
    where
      decoded_unique :
          {i i' : ℤ}
          → ◌≡◌ {A = Option (Option Payload × Option ℤ)}
              (some (some p, some i))
              (some (some q, some i'))
          → p ≡ q
      decoded_unique e = cc
