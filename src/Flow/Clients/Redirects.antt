-- ===== src/Flow/Clients/Redirects.antt =====
-- flow/clients.py: `redirect_with_params`, with urllib.parse.urlencode.
use Prim.Native.Nat.{◌%◌}
use Prim.Native.Char.{Char, code}
use text.Mathlib.TextLemmas.{nil-append, cons-append}
use guillotina_oauth_server.Prelude.{
  ℕ, zero, suc, ◌+◌, ◌/◌, ◌≡◌, refl, ap, ◌∙◌, String, Bool, true, false, ◌||◌, Option, none, some,
  List, [], ◌∷◌, map, arith, ltb, if◌then◌else◌, concat, join, char_is, code_between, has_char,
  partition, all_chars, Bool-cases, inl, inr, partition-concat, has_char-concat, one_char, split_on,
}

-- The bytes of a character in UTF-8.
unfoldable pub utf8 : ℕ → List ℕ
utf8 c =
    let last = 128 + c % 64 in
    let second_last = 128 + (c / 64) % 64 in
    if ltb c 128
    then c ∷ []
    else if ltb c 2048
    then (192 + c / 64) ∷ last ∷ []
    else if ltb c 65536
    then (224 + c / 4096) ∷ second_last ∷ last ∷ []
    else (240 + c / 262144) ∷ (128 + (c / 4096) % 64) ∷ second_last ∷ last ∷ []

digit_at : String → ℕ → Char
digit_at String.[] n = "0"
digit_at (String.◌∷◌ c s) zero = c
digit_at (String.◌∷◌ c s) (suc n) = digit_at s n

hex_digit : ℕ → Char
unfolding digit_at
hex_digit n = digit_at "0123456789ABCDEF" n

-- "%XX" of each byte, before a text
percent_encoded : List ℕ → String → String
unfolding hex_digit
percent_encoded [] s = s
percent_encoded (b ∷ bytes) s =
    String.◌∷◌ "%"
      (String.◌∷◌ (hex_digit (b / 16)) (String.◌∷◌ (hex_digit (b % 16)) (percent_encoded bytes s)))

always_safe : ℕ → Bool
always_safe c =
    code_between b'A' b'Z' c
    || code_between b'a' b'z' c
    || code_between b'0' b'9' c
    || char_is c b'_'
    || char_is c b'.'
    || char_is c b'-'
    || char_is c b'~'

unfoldable pub quote_plus : String → String
unfolding always_safe percent_encoded utf8
quote_plus String.[] = ""
quote_plus (String.◌∷◌ c s) =
    let rest = quote_plus s in
    if always_safe (code c)
    then String.◌∷◌ c rest
    else if char_is (code c) b' '
    then String.◌∷◌ "+" rest
    else percent_encoded (utf8 (code c)) rest

abbrev pub quoted : String × String → String × String
quoted (name, value) = (quote_plus name, quote_plus value)

pair_text : String × String → String
pair_text (name, value) = concat name (String.◌∷◌ "=" value)

unfoldable pub urlencode : List (String × String) → String
unfolding pair_text
urlencode pairs = join "&" (map (λ pair. pair_text (quoted pair)) pairs)

-- The items whose value is not None
unfoldable pub present : List (String × Option String) → List (String × String)
present [] = []
present ((name, none) ∷ params) = present params
present ((name, some value) ∷ params) = (name, value) ∷ present params

unfoldable pub redirect_with_params : String → List (String × Option String) → String
unfolding present
redirect_with_params uri params =
    let sep = if has_char b'?' uri then "&" else "?" in
    concat uri (concat sep (urlencode (present params)))

-- The characters of a quoted text.
quoted_char : ℕ → Bool
unfolding always_safe
quoted_char c = always_safe c || char_is c b'%' || char_is c b'+'

digit_at_lem :
    (p : ℕ → Bool) (s : String) (n : ℕ)
    → p (code "0") ≡ true
    → all_chars p s ≡ true
    → p (code (digit_at s n)) ≡ true
unfolding digit_at all_chars
digit_at_lem p String.[] n zero_passes all_pass = zero_passes
digit_at_lem p (String.◌∷◌ c s) zero zero_passes all_pass = ground arith
digit_at_lem p (String.◌∷◌ c s) (suc n) zero_passes all_pass =
    digit_at_lem p s n zero_passes (ground arith)

hex_digit_quoted : (n : ℕ) → quoted_char (code (hex_digit n)) ≡ true
unfolding hex_digit
hex_digit_quoted n =
    digit_at_lem quoted_char "0123456789ABCDEF" n (unfold quoted_char in refl)
      (unfold quoted_char all_chars in refl)

percent_encoded_quoted :
    (bytes : List ℕ) (s : String)
    → all_chars quoted_char s ≡ true
    → all_chars quoted_char (percent_encoded bytes s) ≡ true
unfolding percent_encoded all_chars quoted_char
percent_encoded_quoted [] s h = h
percent_encoded_quoted (b ∷ bytes) s h =
    rw (hex_digit_quoted (b / 16))
      (rw (hex_digit_quoted (b % 16)) (percent_encoded_quoted bytes s h))

quote_plus_quoted : (s : String) → all_chars quoted_char (quote_plus s) ≡ true
unfolding quote_plus all_chars quoted_char
quote_plus_quoted String.[] = refl
quote_plus_quoted (String.◌∷◌ c s) = elim (Bool-cases (always_safe (code c))) [
  | inl e ↦ ground (arith, quote_plus_quoted s)
  | inr e ↦ elim (Bool-cases (char_is (code c) b' ')) [
    | inl space ↦ ground (arith, quote_plus_quoted s)
    | inr other ↦
        rw e
          (rw other (percent_encoded_quoted (utf8 (code c)) (quote_plus s) (quote_plus_quoted s)))
  ]
]

char_is_sound : (a b : ℕ) → char_is a b ≡ true → a ≡ b
char_is_sound a b h = ground arith

quoted_lacks :
    (c : ℕ) (s : String)
    → quoted_char c ≡ false
    → all_chars quoted_char s ≡ true
    → has_char c s ≡ false
unfolding all_chars has_char
quoted_lacks c String.[] special all_quoted = refl
quoted_lacks c (String.◌∷◌ d s) special all_quoted = elim (Bool-cases (char_is (code d) c)) [
  | inr e ↦ ground (arith, quoted_lacks c s special (ground arith))
  | inl e ↦ absurd (ground (arith, ap quoted_char (char_is_sound (code d) c e)))
]

quote_plus_lacks : (c : ℕ) (s : String) → quoted_char c ≡ false → has_char c (quote_plus s) ≡ false
quote_plus_lacks c s special = quoted_lacks c (quote_plus s) special (quote_plus_quoted s)

-- The names and the values of a query, as a decoder takes them apart at "&" and at the first "=".
unfoldable pub query_pairs : String → List (String × Option String)
unfolding split_on partition
query_pairs query = map (partition b'=') (split_on b'&' query)

split_on-no : (c : ℕ) (s : String) → has_char c s ≡ false → split_on c s ≡ s ∷ []
unfolding split_on has_char
split_on-no c String.[] h = refl
split_on-no c (String.◌∷◌ d s) h = ground (arith, split_on-no c s (ground arith))

split_on-concat :
    (c : Char) (s t : String)
    → has_char (code c) s ≡ false
    → split_on (code c) (concat s (String.◌∷◌ c t)) ≡ s ∷ split_on (code c) t
unfolding split_on has_char
split_on-concat c String.[] t h = rw (nil-append (String.◌∷◌ c t)) (ground arith)
split_on-concat c (String.◌∷◌ d s) t h =
    rw (cons-append d s (String.◌∷◌ c t)) (ground (arith, split_on-concat c s t (ground arith)))

urlencode_cons :
    (first second : String × String) (others : List (String × String))
    → urlencode (first ∷ second ∷ others)
      ≡ concat (pair_text (quoted first)) (String.◌∷◌ "&" (urlencode (second ∷ others)))
unfolding urlencode join
urlencode_cons first second others =
    ap (concat (pair_text (quoted first))) (one_char "&" (urlencode (second ∷ others)))

pair_text_lacks : (pair : String × String) → has_char b'&' (pair_text (quoted pair)) ≡ false
unfolding pair_text
pair_text_lacks (name, value) =
    rw (has_char-concat b'&' (quote_plus name) (String.◌∷◌ "=" (quote_plus value))) (
      rw (quote_plus_lacks b'&' name (unfold quoted_char in refl))
        (unfold has_char in quote_plus_lacks b'&' value (unfold quoted_char in refl)))

partition-pair_text :
    (pair : String × String)
    → partition b'=' (pair_text (quoted pair)) ≡ (quote_plus pair.0, some (quote_plus pair.1))
unfolding pair_text
partition-pair_text (name, value) =
    partition-concat "=" (quote_plus name) (quote_plus value)
      (quote_plus_lacks b'=' name (unfold quoted_char in refl))

-- The name and the value of a parameter, as they stand in the query.
abbrev pub in_query : String × String → String × Option String
in_query (name, value) = (quote_plus name, some (quote_plus value))

query_pairs-urlencode :
    (first : String × String) (others : List (String × String))
    → query_pairs (urlencode (first ∷ others)) ≡ map in_query (first ∷ others)
unfolding query_pairs urlencode join
query_pairs-urlencode first [] =
    rw (split_on-no b'&' (pair_text (quoted first)) (pair_text_lacks first))
      (rw (partition-pair_text first) refl)
query_pairs-urlencode first (second ∷ others) =
    rw
      (ap (split_on b'&') (urlencode_cons first second others)
        ∙ split_on-concat "&" (pair_text (quoted first)) (urlencode (second ∷ others))
            (pair_text_lacks first))
      (rw (partition-pair_text first)
        (ap (λ rest. in_query first ∷ rest) (query_pairs-urlencode second others)))

-- A redirect to a URI with no query of its own: the part before its first "?" is the URI, and a decoder that
-- takes the query apart at "&" and "=" finds the given parameters, each name and value quoted, in order,
-- and no others. So no value, such as the client's `state`, can add or replace a parameter.
pub redirect_with_params-query :
    (uri : String) (params : List (String × Option String)) (first : String × String)
    (others : List (String × String))
    → has_char b'?' uri ≡ false
    → present params ≡ first ∷ others
    → (partition b'?' (redirect_with_params uri params) ≡ (uri, some (urlencode (first ∷ others))))
      × (query_pairs (urlencode (first ∷ others)) ≡ map in_query (first ∷ others))
unfolding redirect_with_params
redirect_with_params-query uri params first others bare given = (
  rw bare (
      rw given (
        rw (one_char "?" (urlencode (first ∷ others)))
          (partition-concat "?" uri (urlencode (first ∷ others)) bare))),
  query_pairs-urlencode first others,
)
