-- ===== src/Utils/Request/Form.antt =====
-- utils/request.py: what a parsed form holds.
use guillotina_oauth_server.Prelude.{
  String, ◌≡◌, refl, ap, sym, subst, ◌∙◌, Bool, not, Option, none, some, List, [], ◌∷◌, ◌++◌, map,
  ◌==◌, arith, leb, if◌then◌else◌, length, all, Dict, get, put, get-put, map_option, eq_iff, inl,
  inr, Bool-cases,
}
use mathlib.Core.List.{append-nil, append_assoc}
use guillotina_oauth_server.Exec.{ok, is_ok, Result-cases}
use guillotina_oauth_server.Utils.Request.Params.{
  Param, text, repeated, Values, grouped, group_onto, parse_qs, is_duplicate, duplicate_param_names,
  as_param, reject_duplicate_params, parse_form_encoded, rejection, raise_oauth_error,
}

-- The values that a body gives to a name, in order.
unfoldable pub values_of : String → List (String × String) → List String
values_of name [] = []
values_of name ((n, value) ∷ body) =
    let rest = values_of name body in if n == name then value ∷ rest else rest

-- A value alone is a text, and more than one are a list.
abbrev pub as_parameter : List String → Option Param
as_parameter [] = none
as_parameter (value ∷ []) = some (text value)
as_parameter (value ∷ other ∷ others) = some (repeated (value ∷ other ∷ others))

abbrev values_list : Option Values → List String
values_list none = []
values_list (some (first, others)) = first ∷ others

grouped_lem :
    (value : String) (values : Option Values)
    → values_list (some (grouped value values)) ≡ values_list values ++ value ∷ []
unfolding grouped
grouped_lem value none = refl
grouped_lem value (some (first, others)) = refl

group_onto_lem :
    (d : Dict Values) (body : List (String × String)) (name : String)
    → values_list (get (group_onto d body) name) ≡ values_list (get d name) ++ values_of name body
unfolding group_onto values_of
group_onto_lem d [] name = sym (append-nil (values_list (get d name)))
group_onto_lem d ((n, value) ∷ body) name =
    group_onto_lem (put d n (grouped value (get d n))) body name
    ∙ rw (get-put d n (grouped value (get d n)) name) (elim (Bool-cases (n == name)) [
      | inr e ↦ rw e refl
      | inl e ↦
          let same : n ≡ name = (eq_iff n name).0 e in
          rw e (
            subst
              (λ m.
                values_list (some (grouped value (get d n))) ++ values_of m body
                ≡ values_list (get d m) ++ value ∷ values_of m body)
              same
              (ap (λ values. values ++ values_of n body) (grouped_lem value (get d n))
                ∙ append_assoc (values_list (get d n)) (value ∷ []) (values_of n body)))
    ])

parse_qs_lem :
    (body : List (String × String)) (name : String)
    → values_list (get (parse_qs body) name) ≡ values_of name body
unfolding parse_qs get
parse_qs_lem body name = group_onto_lem [] body name

-- Whether a name has at most one value.
unfoldable pub is_single : List (String × String) → String → Bool
is_single body name = leb (length (values_of name body)) 1

is_duplicate_lem :
    (values : Option Values) → is_duplicate values ≡ not (leb (length (values_list values)) 1)
unfolding is_duplicate
is_duplicate_lem none = refl
is_duplicate_lem (some (first, [])) = refl
is_duplicate_lem (some (first, other ∷ others)) = ground arith

is_duplicate-parse_qs :
    (body : List (String × String)) (name : String)
    → is_duplicate (get (parse_qs body) name) ≡ not (is_single body name)
unfolding is_single
is_duplicate-parse_qs body name =
    is_duplicate_lem (get (parse_qs body) name)
    ∙ ap (λ values. not (leb (length values) 1)) (parse_qs_lem body name)

-- A request passes exactly if none of the fields that may stand once has two values.
reject_duplicate_params_lem :
    (body : List (String × String)) (fields : List String)
    → is_ok (reject_duplicate_params (parse_qs body) fields) ≡ all (is_single body) fields
unfolding reject_duplicate_params duplicate_param_names
reject_duplicate_params_lem body [] = unfold rejection in refl
reject_duplicate_params_lem body (field ∷ fields) =
    let duplicate = is_duplicate-parse_qs body field in
    elim (Bool-cases (is_single body field)) [
      | inl e ↦ ground (arith, duplicate, reject_duplicate_params_lem body fields)
      | inr e ↦ unfold rejection raise_oauth_error in ground (arith, duplicate)
    ]

get-map :
    (d : Dict Values) (name : String)
    → get (map (λ entry. (entry.0, as_param entry.1)) d) name ≡ map_option as_param (get d name)
unfolding get
get-map [] name = refl
get-map ((n, values) ∷ d) name = ground (arith, get-map d name)

as_parameter_lem :
    (values : Option Values) → map_option as_param values ≡ as_parameter (values_list values)
unfolding as_param
as_parameter_lem none = refl
as_parameter_lem (some (first, [])) = refl
as_parameter_lem (some (first, other ∷ others)) = refl

-- A form is parsed exactly if every field that may stand once has at most one value in the body.
pub is_ok-parse_form_encoded :
    (body : List (String × String)) (fields : List String)
    → is_ok (parse_form_encoded body fields) ≡ all (is_single body) fields
unfolding parse_form_encoded
is_ok-parse_form_encoded body fields =
    let checked = reject_duplicate_params_lem body fields in
    elim (Result-cases (reject_duplicate_params (parse_qs body) fields)) [
      | inl (_, e) ↦ ground (arith, checked)
      | inr (_, e) ↦ ground (arith, checked)
    ]

-- A parsed form holds for every name what the body gives to it: nothing, a single value as a text, or
-- more than one value as the list of them in order.
pub get-parse_form_encoded :
    (body : List (String × String)) (fields : List String) (params : Dict Param) (name : String)
    → parse_form_encoded body fields ≡ ok params
    → get params name ≡ as_parameter (values_of name body)
unfolding parse_form_encoded
get-parse_form_encoded body fields params name h =
    elim (Result-cases (reject_duplicate_params (parse_qs body) fields)) [
      | inr (_, e) ↦ absurd (ground arith)
      | inl (_, e) ↦ ground (
        arith,
        get-map (parse_qs body) name,
        as_parameter_lem (get (parse_qs body) name),
        parse_qs_lem body name,
      )
    ]
