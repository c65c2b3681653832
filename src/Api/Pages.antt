-- ===== src/Api/Pages.antt =====
-- api/pages.py: the pages for the user. `render` is `string.Template.substitute` on the templates of
-- api/templates, `style` and `logo` are the files that every page embeds.
use Prim.Native.Char.{Char, code}
use guillotina_oauth_server.Prelude.{
  ℕ, String, Bool, true, false, Option, none, some, List, [], ◌∷◌, ◌++◌, ◌==◌, if◌then◌else◌, Dict,
  get, put, concat, join, char_is, ◌≡◌, refl, ap, ◌∙◌, ◌||◌, has_char, has_char-concat, Bool-cases,
  arith, inl, inr,
}
use guillotina_oauth_server.Storage.Rows.{Client}
use guillotina_oauth_server.Utils.Request.Params.{Param, text, repeated}
use guillotina_oauth_server.Flow.Csrf.{oauth_csrf_field}
use guillotina_oauth_server.Flow.Scopes.{oauth_scope_descriptions}

escaped_char : ℕ → Option String
escaped_char c =
    if char_is c b'&'
    then some "&amp;"
    else if char_is c b'<'
    then some "&lt;"
    else if char_is c b'>'
    then some "&gt;"
    else if char_is c b'"'
    then some "&quot;"
    else if char_is c b'\''
    then some "&#x27;"
    else none

escaped_onto : Option String → Char → String → String
escaped_onto none c rest = String.◌∷◌ c rest
escaped_onto (some entity) c rest = concat entity rest

-- html.escape(s), with quote=True, its default
unfoldable pub html_escape : String → String
unfolding escaped_char escaped_onto
html_escape String.[] = ""
html_escape (String.◌∷◌ c s) = escaped_onto (escaped_char (code c)) c (html_escape s)

-- The characters that end a text or a quoted attribute in HTML.
abbrev pub is_markup : ℕ → Bool
is_markup c = char_is c b'<' || char_is c b'>' || char_is c b'"' || char_is c b'\''

-- None of the entities holds such a character.
entities_lack :
    (c d : ℕ)
    → is_markup d ≡ true
    → (entity : String) → escaped_char c ≡ some entity
    → has_char d entity ≡ false
unfolding escaped_char
entities_lack c d markup entity h = elim (Bool-cases (char_is c b'&')) [
  | inl e ↦ lacks "&amp;" (ground arith) (unfold has_char in ground arith)
  | inr e ↦ elim (Bool-cases (char_is c b'<')) [
    | inl e' ↦ lacks "&lt;" (ground arith) (unfold has_char in ground arith)
    | inr e' ↦ elim (Bool-cases (char_is c b'>')) [
      | inl e2 ↦ lacks "&gt;" (ground arith) (unfold has_char in ground arith)
      | inr e2 ↦ elim (Bool-cases (char_is c b'"')) [
        | inl e3 ↦ lacks "&quot;" (ground arith) (unfold has_char in ground arith)
        | inr e3 ↦ elim (Bool-cases (char_is c b'\'')) [
          | inl e4 ↦ lacks "&#x27;" (ground arith) (unfold has_char in ground arith)
          | inr e4 ↦ absurd (ground arith)
        ]
      ]
    ]
  ]
]
  where
    lacks : (known : String) → entity ≡ known → has_char d known ≡ false → has_char d entity ≡ false
    lacks known same h' = ap (has_char d) same ∙ h'

-- A character that is not escaped is no markup.
unescaped_char : (c d : ℕ) → is_markup d ≡ true → escaped_char c ≡ none → char_is c d ≡ false
unfolding escaped_char
unescaped_char c d markup h = elim (Bool-cases (char_is c d)) [
  | inr e ↦ e
  | inl e ↦ absurd (ground arith)
]

escaped_onto_lacks :
    (c : Char) (rest : String) (d : ℕ)
    → is_markup d ≡ true
    → (escaped : Option String) → escaped_char (code c) ≡ escaped
    → has_char d rest ≡ false
    → has_char d (escaped_onto escaped c rest) ≡ false
unfolding escaped_onto
escaped_onto_lacks c rest d markup none e h =
    unfold has_char in rw (unescaped_char (code c) d markup e) h
escaped_onto_lacks c rest d markup (some entity) e h =
    rw (has_char-concat d entity rest) (rw (entities_lack (code c) d markup entity e) h)

-- An escaped text holds none of the characters that end a text or a quoted attribute in HTML, so what
-- the request says is never read as markup.
pub html_escape_lem : (s : String) (c : ℕ) → is_markup c ≡ true → has_char c (html_escape s) ≡ false
unfolding html_escape
html_escape_lem String.[] c markup = unfold has_char in refl
html_escape_lem (String.◌∷◌ d s) c markup =
    escaped_onto_lacks d (html_escape s) c markup (escaped_char (code d)) refl
      (html_escape_lem s c markup)

-- The status and the body of an HTML response. Every page is sent with "frame-ancestors 'none'".
pub record Page : Type 0 where
  pub status : ℕ
  pub body : String

pub record Templates : Type 0 where
  pub render : String → Dict String → String
  pub style : String
  pub logo : String

values_of_param : Param → List String
values_of_param (text s) = s ∷ []
values_of_param (repeated texts) = texts

hidden_fields : List String
hidden_fields =
    "response_type" ∷ "client_id" ∷ "redirect_uri" ∷ "scope" ∷ "state" ∷ "code_challenge"
    ∷ "code_challenge_method" ∷ "resource" ∷ oauth_csrf_field ∷ []

items_of : Option Param → List String
unfolding values_of_param
items_of none = []
items_of (some value) = values_of_param value

module _ (t : Templates) where
  render_oauth_page : String → String → String → ℕ → String → Page
  render_oauth_page title heading body status tone = record {
    status = status;
    body = t.render "base.html" (
        ("title", html_escape title)
        ∷ ("logo_src", t.logo)
        ∷ ("style", t.style)
        ∷ ("tone", html_escape tone)
        ∷ ("heading", html_escape heading)
        ∷ ("body", body)
        ∷ []);
  }

  hidden_input : String → String → String
  hidden_input name value =
      t.render "hidden_input.html" (("name", html_escape name) ∷ ("value", html_escape value) ∷ [])

  inputs_of : String → List String → List String
  unfolding hidden_input
  inputs_of name [] = []
  inputs_of name (value ∷ values) = hidden_input name value ∷ inputs_of name values

  inputs : Dict Param → List String → List String
  unfolding inputs_of items_of
  inputs params [] = []
  inputs params (name ∷ names) = inputs_of name (items_of (get params name)) ++ inputs params names

  unfoldable pub hidden_inputs : Dict Param → String
  unfolding inputs hidden_fields
  hidden_inputs params = join "\n" (inputs params hidden_fields)

  unfoldable pub oauth_error_page : String → String → ℕ → Page
  unfolding render_oauth_page
  oauth_error_page title message status =
      render_oauth_page title title (t.render "error.html" (("message", html_escape message) ∷ []))
        status "error"

  client_name_or_id : Client → String
  client_name_or_id client =
      if client.client_name == "" then client.client_id else client.client_name

  -- `redirect_uri` of the parameters, "" where it is missing
  unfoldable pub login_form : Dict Param → String → Client → Page
  unfolding render_oauth_page client_name_or_id
  login_form params redirect_uri client =
      render_oauth_page "Login to Guillotina" "Login required"
        (t.render "login.html" (
          ("client_name", html_escape (client_name_or_id client))
          ∷ ("client_id", html_escape client.client_id)
          ∷ ("redirect_uri", html_escape redirect_uri)
          ∷ ("hidden_inputs", hidden_inputs params)
          ∷ []))
        200 "default"

  list_items : List String → String
  list_items [] = ""
  list_items (value ∷ values) =
      concat (t.render "list_item.html" (("value", html_escape value) ∷ [])) (list_items values)

  resource_items : List String → String
  unfolding list_items
  resource_items [] =
      t.render "plain_item.html" (("value", html_escape "Default Guillotina container") ∷ [])
  resource_items (value ∷ values) = list_items (value ∷ values)

  scope_list : List String → String
  scope_list [] = ""
  scope_list (scope ∷ scopes) =
      concat
        (t.render "scope_item.html" (
          ("scope", html_escape scope)
          ∷ ("description", html_escape (oauth_scope_descriptions scope))
          ∷ []))
        (scope_list scopes)

  scope_items : List String → String
  unfolding scope_list
  scope_items [] = t.render "plain_item.html" (("value", "No extra scopes were requested.") ∷ [])
  scope_items (scope ∷ scopes) = scope_list (scope ∷ scopes)

  -- `token` is what `csrf_token` returns for the request.
  unfoldable pub consent_form :
      Dict Param → String → Client → List String → List String → String → String → Page
  unfolding render_oauth_page client_name_or_id scope_items resource_items
  consent_form params redirect_uri client scopes resources user_id token =
      render_oauth_page "Authorize OAuth Client"
        (concat "Allow " (concat (client_name_or_id client) "?"))
        (t.render "consent.html" (
          ("client_name", html_escape (client_name_or_id client))
          ∷ ("user_id", html_escape user_id)
          ∷ ("client_id", html_escape client.client_id)
          ∷ ("redirect_uri", html_escape redirect_uri)
          ∷ ("scope_items", scope_items scopes)
          ∷ ("resource_items", resource_items resources)
          ∷ ("hidden_inputs", hidden_inputs (put params oauth_csrf_field (text token)))
          ∷ []))
        200 "default"
