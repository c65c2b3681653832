-- ===== src/Utils/Urls/Parse.antt =====
-- urllib.parse: `urlparse` and `urlencode`, as far as the code reads their results.
use Prim.Native.Char.{code}
use guillotina_oauth_server.Prelude.{
  ℕ, String, Bool, false, not, ◌&&◌, ◌||◌, Option, none, some, List, [], ◌∷◌, ◌==◌, leb,
  if◌then◌else◌, member, char_is, code_between, has_char, partition, lower, all_chars,
}
use guillotina_oauth_server.Exec.{Result, ok, err, value_error}

-- The parts of a ParseResult, `params` left aside. `netloc` still holds the userinfo and the port.
pub record Url : Type 0 where
  pub scheme : String
  pub netloc : String
  pub path : String
  pub query : String
  pub fragment : String

-- url.lstrip of the C0 control characters and the space
lstrip_c0 : String → String
lstrip_c0 String.[] = ""
lstrip_c0 (String.◌∷◌ c s) =
    let rest = lstrip_c0 s in if leb (code c) 32 then rest else String.◌∷◌ c s

-- The tab, the line feed and the carriage return are removed everywhere.
remove_unsafe : String → String
remove_unsafe String.[] = ""
remove_unsafe (String.◌∷◌ c s) =
    let rest = remove_unsafe s in
    if char_is (code c) 9 || char_is (code c) 10 || char_is (code c) 13
    then rest
    else String.◌∷◌ c rest

ascii_letter : ℕ → Bool
ascii_letter c = code_between b'A' b'Z' c || code_between b'a' b'z' c

scheme_char : ℕ → Bool
unfolding ascii_letter
scheme_char c =
    ascii_letter c || code_between b'0' b'9' c || char_is c b'+' || char_is c b'-' || char_is c b'.'

-- s.isalpha(), of the characters of a scheme
unfoldable pub is_alpha : String → Bool
unfolding ascii_letter
is_alpha s = not (s == "") && all_chars ascii_letter s

is_scheme : String → Bool
unfolding ascii_letter scheme_char
is_scheme String.[] = false
is_scheme (String.◌∷◌ c s) =
    ascii_letter (code c) && scheme_char (code c) && all_chars scheme_char s

-- The scheme, in lower case, and the rest of the url.
unfoldable pub split_scheme : String → String × String
unfolding is_scheme
split_scheme url =
    let (head, tail) = partition b':' url in
    elim tail [
      | none ↦ ("", url)
      | some rest ↦ if is_scheme head then (lower head, rest) else ("", url)
    ]

-- What stands before the first of "/", "?" and "#", and the rest from there on.
until_delimiter : String → String × String
until_delimiter String.[] = ("", "")
until_delimiter (String.◌∷◌ c s) =
    let (before, rest) = until_delimiter s in
    if char_is (code c) b'/' || char_is (code c) b'?' || char_is (code c) b'#'
    then ("", String.◌∷◌ c s)
    else (String.◌∷◌ c before, rest)

-- The netloc after "//", and the rest.
unfoldable pub split_netloc : String → String × String
unfolding until_delimiter
split_netloc String.[] = ("", "")
split_netloc (String.◌∷◌ c String.[]) = ("", String.◌∷◌ c "")
split_netloc (String.◌∷◌ c (String.◌∷◌ d s)) =
    if char_is (code c) b'/' && char_is (code d) b'/'
    then until_delimiter s
    else ("", String.◌∷◌ c (String.◌∷◌ d s))

or_empty : Option String → String
or_empty none = ""
or_empty (some s) = s

-- What stands before the first such character and what stands after it, "" where there is none.
unfoldable pub cut : ℕ → String → String × String
unfolding or_empty
cut c s = let (before, after) = partition c s in (before, or_empty after)

uses_params : List String
uses_params =
    "" ∷ "ftp" ∷ "hdl" ∷ "prospero" ∷ "http" ∷ "imap" ∷ "https" ∷ "shttp" ∷ "rtsp" ∷ "rtsps"
    ∷ "rtspu" ∷ "sip" ∷ "sips" ∷ "mms" ∷ "sftp" ∷ "tel" ∷ []

-- The path before the first ";" of its last segment.
without_params : String → String
without_params String.[] = ""
without_params (String.◌∷◌ c s) =
    let rest = without_params s in
    if char_is (code c) b';' && not (has_char b'/' s) then "" else String.◌∷◌ c rest

path_of : String → String → String
unfolding without_params uses_params
path_of scheme path = if member scheme uses_params then without_params path else path

-- "[" and "]" stand both or neither.
brackets_match : String → Bool
brackets_match netloc =
    if has_char b'[' netloc then has_char b']' netloc else not (has_char b']' netloc)

unfoldable pub url_of : String → String → String → Url
unfolding path_of
url_of scheme netloc rest =
    let (before_fragment, fragment) = cut b'#' rest in
    let (path, query) = cut b'?' before_fragment in
    record {
      scheme = scheme;
      netloc = netloc;
      path = path_of scheme path;
      query = query;
      fragment = fragment;
    }

-- `checked` says whether a netloc passes what `urlsplit` asks of bracketed addresses (ipaddress) and of
-- characters that Unicode's NFKC form would turn into delimiters.
unfoldable pub urlparse : (String → Bool) → String → Result Url
unfolding brackets_match lstrip_c0 remove_unsafe
urlparse checked url =
    let (scheme, rest) = split_scheme (remove_unsafe (lstrip_c0 url)) in
    let (netloc, rest') = split_netloc rest in
    if brackets_match netloc && checked netloc
    then ok (url_of scheme netloc rest')
    else err value_error

-- The userinfo, where there is an "@", and what stands after the last one.
unfoldable pub split_userinfo : String → Option String × String
split_userinfo String.[] = (none, "")
split_userinfo (String.◌∷◌ c s) =
    let (before, after) = split_userinfo s in
    elim before [
      | some info ↦ (some (String.◌∷◌ c info), after)
      | none ↦ if char_is (code c) b'@' then (some "", s) else (none, String.◌∷◌ c s)
    ]

lower_host : String → String
lower_host s =
    let (name, zone) = partition b'%' s in
    elim zone [
      | none ↦ lower name
      | some id ↦ Prim.Native.String.◌++◌ (lower name) (String.◌∷◌ "%" id)
    ]

unbracketed : String → String
unfolding or_empty
unbracketed hostinfo =
    let (_, bracketed) = partition b'[' hostinfo in
    elim bracketed [ some inside ↦ (partition b']' inside).0 | none ↦ (partition b':' hostinfo).0 ]

-- `.hostname`, "" where it is None
unfoldable pub hostname : Url → String
unfolding lower_host unbracketed
hostname url = let (_, hostinfo) = split_userinfo url.netloc in lower_host (unbracketed hostinfo)

-- `.username or .password` as a test: the userinfo holds more than a ":".
unfoldable pub has_userinfo : Url → Bool
has_userinfo url =
    let (info, _) = split_userinfo url.netloc in
    elim info [
      | none ↦ false
      | some userinfo ↦
          let (user, password) = cut b':' userinfo in not (user == "") || not (password == "")
    ]
