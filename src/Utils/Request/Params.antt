-- ===== src/Utils/Request/Params.antt =====
-- utils/request.py: the parameters of a form body, and utils/errors.py.
use guillotina_oauth_server.Prelude.{
  String, Bool, true, false, Option, none, some, List, [], ◌∷◌, ◌++◌, map, if◌then◌else◌, Dict, get,
  put, concat,
}
use guillotina_oauth_server.Exec.{Result, ok, err, http_bad_request, http_precondition_failed, Exn}
use guillotina_oauth_server.Utils.Request.Words.{split, before_semicolon, strip, equals_lowered}

-- The parts of a request that the endpoints read. The body is the list of the names and values that
-- `urllib.parse.parse_qsl` decodes from it, in order.
pub record Request : Type 0 where
  pub content_type : Option String
  pub body : List (String × String)
  -- scope["client"][0]
  pub client : Option String

-- A parameter's value: a text, or a list of texts where the parameter is repeated.
pub data Param : Type 0 where
  text : String → Param
  repeated : List String → Param

split_all : List String → List String
split_all [] = []
split_all (s ∷ texts) = split s ++ split_all texts

unfoldable pub normalize_list : Option Param → List String
unfolding split_all
normalize_list none = []
normalize_list (some (repeated texts)) = split_all texts
normalize_list (some (text s)) = split s

content_type_or_empty : Option String → String
content_type_or_empty none = ""
content_type_or_empty (some content_type) = content_type

unfoldable pub form_content_type_valid : Request → Bool
unfolding content_type_or_empty
form_content_type_valid request =
    equals_lowered (strip (before_semicolon (content_type_or_empty request.content_type)))
      "application/x-www-form-urlencoded"

-- The test of the content type in api/endpoints/register.py
unfoldable pub json_content_type_valid : Request → Bool
unfolding content_type_or_empty
json_content_type_valid request =
    equals_lowered (strip (before_semicolon (content_type_or_empty request.content_type)))
      "application/json"

peer_of : Option String → String
peer_of none = "unknown"
peer_of (some host) = host

unfoldable pub peer_ip_address : Request → String
unfolding peer_of
peer_ip_address request = peer_of request.client

oauth_error_of : Bool → String → Option String → Exn
oauth_error_of true error description = http_bad_request error description
oauth_error_of false error description = http_precondition_failed error description

-- `raise_oauth_error`; the last argument is `status == 400`.
unfoldable pub raise_oauth_error {ℓ} : {A : Type ℓ} → String → Option String → Bool → Result A
unfolding oauth_error_of
raise_oauth_error error description is_400 = err (oauth_error_of is_400 error description)

-- The values of a name: the first one, and the others in order.
abbrev pub Values : Type 0
Values = String × List String

unfoldable pub grouped : String → Option Values → Values
grouped value none = (value, [])
grouped value (some (first, others)) = (first, others ++ value ∷ [])

-- The dict of `parse_qs`, which appends each value to the list of its name.
unfoldable pub group_onto : Dict Values → List (String × String) → Dict Values
unfolding grouped
group_onto d [] = d
group_onto d ((name, value) ∷ pairs) = group_onto (put d name (grouped value (get d name))) pairs

unfoldable pub parse_qs : List (String × String) → Dict Values
unfolding group_onto
parse_qs pairs = group_onto [] pairs

unfoldable pub is_duplicate : Option Values → Bool
is_duplicate none = false
is_duplicate (some (first, [])) = false
is_duplicate (some (first, _ ∷ _)) = true

-- The branch for a plain dict. The fields come in the order in which the set is iterated.
unfoldable pub duplicate_param_names : Dict Values → List String → List String
unfolding is_duplicate
duplicate_param_names params [] = []
duplicate_param_names params (field ∷ fields) =
    let rest = duplicate_param_names params fields in
    if is_duplicate (get params field) then field ∷ rest else rest

unfoldable pub rejection : List String → Result (Unit {0})
rejection [] = ok tt
rejection (field ∷ _) =
    raise_oauth_error "invalid_request" (some (concat "duplicate parameter: " field)) true

unfoldable pub reject_duplicate_params : Dict Values → List String → Result (Unit {0})
unfolding rejection
reject_duplicate_params params fields = rejection (duplicate_param_names params fields)

-- values if len(values) > 1 else values[0]
unfoldable pub as_param : Values → Param
as_param (first, []) = text first
as_param (first, others) = repeated (first ∷ others)

unfoldable pub parse_form_encoded : List (String × String) → List String → Result (Dict Param)
unfolding as_param
parse_form_encoded body fields =
    let parsed = parse_qs body in
    elim (reject_duplicate_params parsed fields) [
      | ok _ ↦ ok (map (λ entry. (entry.0, as_param entry.1)) parsed)
      | err e ↦ err e
    ]
