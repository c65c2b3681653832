-- ===== src/Utils/Json.antt =====
-- The values of a JSON body as `request.json()` returns them, and utils/request.py on them.
use guillotina_oauth_server.Prelude.{
  String, Bool, true, false, not, Option, none, some, List, [], ◌∷◌, ◌++◌, ◌==◌, member,
}
use guillotina_oauth_server.Utils.Request.Words.{split}

mutual
  -- A number is the text that `str` makes of it. Of an object inside the body the code reads the keys
  -- and its `str`.
  pub data Json : Type 0 where
    null : Json
    boolean : Bool → Json
    number : String → Json
    text : String → Json
    array : Jsons → Json
    object : List String → String → Json

  pub data Jsons : Type 0 where
    nil : Jsons
    cons : Json → Jsons → Jsons

-- `bool(value)`
unfoldable pub truthy : Json → Bool
truthy null = false
truthy (boolean b) = b
truthy (number s) = not (member s ("0" ∷ "0.0" ∷ "-0.0" ∷ []))
truthy (text s) = not (s == "")
truthy (array nil) = false
truthy (array (cons _ _)) = true
truthy (object [] s) = false
truthy (object (_ ∷ _) s) = true

-- `data.get(key)`, None where the key is missing
unfoldable pub or_null : Option Json → Json
or_null none = null
or_null (some value) = value

unfoldable mutual
  pub words : Json → List String
  words null = []
  words (boolean true) = "True" ∷ []
  words (boolean false) = "False" ∷ []
  words (number s) = split s
  words (text s) = split s
  words (array values) = words_of values
  words (object keys s) = split s

  pub words_of : Jsons → List String
  words_of nil = []
  words_of (cons value values) = words value ++ words_of values
