-- ===== src/Utils/Request/Words.antt =====
-- The operations of Python's `str` that utils/request.py uses.
use Prim.Native.Char.{code}
use guillotina_oauth_server.Prelude.{
  ℕ, ◌+◌, String, Bool, true, false, ◌&&◌, ◌||◌, List, [], ◌∷◌, ◌==◌, leb, if◌then◌else◌,
}

between : ℕ → ℕ → ℕ → Bool
between lo hi c = leb lo c && leb c hi

-- str.isspace, by code points
unfoldable pub is_space : ℕ → Bool
unfolding between
is_space c =
    between 9 13 c
    || between 28 32 c
    || between 133 133 c
    || between 160 160 c
    || between 5760 5760 c
    || between 8192 8202 c
    || between 8232 8233 c
    || between 8239 8239 c
    || between 8287 8287 c
    || between 12288 12288 c

-- The word that a text starts with, which may be empty, and the words after it.
unfoldable pub first_word : String → String × List String
unfolding is_space
first_word String.[] = ("", [])
first_word (String.◌∷◌ c s) =
    let (word, rest) = first_word s in
    if is_space (code c)
    then ("", if word == "" then rest else word ∷ rest)
    else (String.◌∷◌ c word, rest)

-- s.split()
unfoldable pub split : String → List String
unfolding first_word
split s = let (word, rest) = first_word s in if word == "" then rest else word ∷ rest

-- s.split(";", 1)[0]
unfoldable pub before_semicolon : String → String
unfolding between
before_semicolon String.[] = ""
before_semicolon (String.◌∷◌ c s) =
    let rest = before_semicolon s in if between b';' b';' (code c) then "" else String.◌∷◌ c rest

lstrip : String → String
unfolding is_space
lstrip String.[] = ""
lstrip (String.◌∷◌ c s) = let rest = lstrip s in if is_space (code c) then rest else String.◌∷◌ c s

rstrip : String → String
unfolding is_space
rstrip String.[] = ""
rstrip (String.◌∷◌ c s) =
    let rest = rstrip s in if is_space (code c) && (rest == "") then "" else String.◌∷◌ c rest

-- s.strip()
unfoldable pub strip : String → String
unfolding lstrip rstrip
strip s = lstrip (rstrip s)

-- An ASCII letter's lower case. No other character has a lower case in ASCII but the Kelvin sign and
-- its kind, whose letters the texts compared here lack.
lower_code : ℕ → ℕ
unfolding between
lower_code c = if between b'A' b'Z' c then c + 32 else c

-- s.lower() == t
unfoldable pub equals_lowered : String → String → Bool
unfolding lower_code between
equals_lowered String.[] String.[] = true
equals_lowered String.[] (String.◌∷◌ d t) = false
equals_lowered (String.◌∷◌ c s) String.[] = false
equals_lowered (String.◌∷◌ c s) (String.◌∷◌ d t) =
    between (code d) (code d) (lower_code (code c)) && equals_lowered s t
