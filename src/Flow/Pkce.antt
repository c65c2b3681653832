-- ===== src/Flow/Pkce.antt =====
-- flow/pkce.py
use Prim.Native.Nat.{suc}
use Prim.Native.Char.{code}
use guillotina_oauth_server.Prelude.{
  ℕ, String, Bool, true, false, ◌&&◌, ◌||◌, Option, none, some, ◌==◌, leb, if◌then◌else◌,
}
use guillotina_oauth_server.Config.{Crypto}

between : ℕ → ℕ → ℕ → Bool
between lo hi c = leb lo c && leb c hi

nat_eq : ℕ → ℕ → Bool
nat_eq a b = leb a b && leb b a

-- [A-Za-z0-9\-._~]
unfoldable pub unreserved : ℕ → Bool
unfolding between nat_eq
unreserved c =
    between b'A' b'Z' c
    || between b'a' b'z' c
    || between b'0' b'9' c
    || nat_eq c b'-'
    || nat_eq c b'.'
    || nat_eq c b'_'
    || nat_eq c b'~'

all_unreserved : String → Bool
all_unreserved String.[] = true
all_unreserved (String.◌∷◌ c s) = unreserved (code c) && all_unreserved s

-- len(s)
char_count : String → ℕ
char_count String.[] = 0
char_count (String.◌∷◌ c s) = suc (char_count s)

-- re.compile(r"^[A-Za-z0-9\-._~]{43,128}$").fullmatch(s) is not None
unfoldable pub pkce_syntax_valid : String → Bool
unfolding all_unreserved char_count
pkce_syntax_valid s = all_unreserved s && leb 43 (char_count s) && leb (char_count s) 128

unfoldable pub pkce_verifier_valid : Option String → Bool
pkce_verifier_valid none = false
pkce_verifier_valid (some verifier) = if verifier == "" then false else pkce_syntax_valid verifier

unfoldable pub pkce_challenge_valid : Option String → Bool
pkce_challenge_valid none = false
pkce_challenge_valid (some challenge) =
    if challenge == "" then false else pkce_syntax_valid challenge

all_padding : String → Bool
all_padding String.[] = true
all_padding (String.◌∷◌ c s) = nat_eq (code c) b'=' && all_padding s

-- s.rstrip(b"=")
unfoldable pub rstrip_padding : String → String
unfolding all_padding nat_eq
rstrip_padding String.[] = ""
rstrip_padding (String.◌∷◌ c s) =
    let rest = rstrip_padding s in if all_padding (String.◌∷◌ c s) then "" else String.◌∷◌ c rest

unfoldable pub s256_challenge : Crypto → String → String
s256_challenge crypto verifier = rstrip_padding (crypto.sha256_urlsafe_b64 verifier)

unfoldable pub verify_s256 : Crypto → String → String → Bool
verify_s256 crypto verifier challenge =
    if pkce_verifier_valid (some verifier)
    then s256_challenge crypto verifier == challenge
    else false
