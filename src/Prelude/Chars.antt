-- ===== src/Prelude/Chars.antt =====
-- Native texts by their characters: the searches of Python's `str`.
use Prim.Native.Nat.{ℕ, ◌-◌}
use Prim.Native.Char.{Char, code}
use Prim.Native.String.{String, char_at}
use mathlib.Core.Bool.{Bool, true, false, ◌&&◌, ◌||◌}
use mathlib.Core.Option.{Option, none, some}
use mathlib.Core.List.{List, [], ◌∷◌}
use text.Mathlib.Text.{◌==◌}
use guillotina_oauth_server.Prelude.Tests.{if◌then◌else◌, leb}

abbrev pub char_is : ℕ → ℕ → Bool
char_is a b = leb a b && leb b a

abbrev pub code_between : ℕ → ℕ → ℕ → Bool
code_between lo hi c = leb lo c && leb c hi

-- `chr(c) in s`
unfoldable pub has_char : ℕ → String → Bool
has_char c String.[] = false
has_char c (String.◌∷◌ d s) = char_is (code d) c || has_char c s

-- `s.startswith(chr(c))`
unfoldable pub starts_with_char : ℕ → String → Bool
starts_with_char c String.[] = false
starts_with_char c (String.◌∷◌ d s) = char_is (code d) c

-- What stands before the first `chr(c)`, and what stands after it where there is one.
unfoldable pub partition : ℕ → String → String × Option String
partition c String.[] = ("", none)
partition c (String.◌∷◌ d s) =
    let (before, after) = partition c s in
    if char_is (code d) c then ("", some s) else (String.◌∷◌ d before, after)

-- `t in s`, and `s.startswith(t)`
unfoldable pub starts_with : String → String → Bool
starts_with String.[] s = true
starts_with (String.◌∷◌ c t) String.[] = false
starts_with (String.◌∷◌ c t) (String.◌∷◌ d s) = char_is (code c) (code d) && starts_with t s

unfoldable pub has_text : String → String → Bool
unfolding starts_with
has_text t String.[] = starts_with t ""
has_text t (String.◌∷◌ d s) = starts_with t (String.◌∷◌ d s) || has_text t s

-- `s.rstrip(chr(c))`
unfoldable pub rstrip_char : ℕ → String → String
rstrip_char c String.[] = ""
rstrip_char c (String.◌∷◌ d s) =
    let rest = rstrip_char c s in
    elim rest [
      | String.[] ↦ if char_is (code d) c then "" else String.◌∷◌ d ""
      | String.◌∷◌ e t ↦ String.◌∷◌ d (String.◌∷◌ e t)
    ]

-- Every character passes.
unfoldable pub all_chars : (ℕ → Bool) → String → Bool
all_chars p String.[] = true
all_chars p (String.◌∷◌ c s) = p (code c) && all_chars p s

lower_char : Char → Char
lower_char c =
    if code_between b'A' b'Z' (code c)
    then char_at "abcdefghijklmnopqrstuvwxyz" (code c - b'A')
    else c

-- `s.lower()`, of a text whose upper-case letters are those of ASCII.
unfoldable pub lower : String → String
unfolding lower_char
lower String.[] = ""
lower (String.◌∷◌ c s) = String.◌∷◌ (lower_char c) (lower s)

-- `s.endswith(t)`
unfoldable pub ends_with : String → String → Bool
ends_with t String.[] = t == ""
ends_with t (String.◌∷◌ c s) = (String.◌∷◌ c s) == t || ends_with t s

-- `s.lstrip(chr(c))`
unfoldable pub lstrip_char : ℕ → String → String
lstrip_char c String.[] = ""
lstrip_char c (String.◌∷◌ d s) =
    let rest = lstrip_char c s in if char_is (code d) c then rest else String.◌∷◌ d s

-- `s.split(chr(c))`
unfoldable pub split_on : ℕ → String → List String
split_on c String.[] = "" ∷ []
split_on c (String.◌∷◌ d s) =
    let rest = split_on c s in
    if char_is (code d) c
    then "" ∷ rest
    else elim rest [ [] ↦ String.◌∷◌ d "" ∷ [] | first ∷ others ↦ String.◌∷◌ d first ∷ others ]
