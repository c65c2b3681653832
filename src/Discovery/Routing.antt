-- ===== src/Discovery/Routing.antt =====
-- discovery/routing.py
use Prim.Native.Char.{Char, code}
use guillotina_oauth_server.Prelude.{
  ◌≡◌, refl, sym, String, Bool, true, false, Option, none, some, List, [], ◌∷◌, ◌==◌, arith,
  if◌then◌else◌, concat, join, split_on, Dict, get, put, All, subst, char_is, has_char, inl, inr,
  Bool-cases,
}
use guillotina_oauth_server.Exec.{Result, ok, ◌and_then◌}

-- The parts of a path that are not empty: `path.strip("/").split("/")`, filtered.
unfoldable pub non_empty : List String → List String
non_empty [] = []
non_empty (s ∷ parts) = let rest = non_empty parts in if s == "" then rest else s ∷ rest

split_parts : Bool → List String → Option (String × String × String)
split_parts allow_resource_path [] = none
split_parts allow_resource_path (db_id ∷ []) = none
split_parts allow_resource_path (db_id ∷ container_id ∷ []) =
    some (db_id, container_id, concat "/" (join "/" (db_id ∷ container_id ∷ [])))
split_parts allow_resource_path (db_id ∷ container_id ∷ part ∷ parts) =
    if allow_resource_path
    then some (db_id, container_id, concat "/" (join "/" (db_id ∷ container_id ∷ part ∷ parts)))
    else none

-- `_split_well_known_target_path`; none is HTTPNotFound.
unfoldable pub split_well_known_target_path : Bool → String → Option (String × String × String)
unfolding split_parts non_empty
split_well_known_target_path allow_resource_path path_value =
    split_parts allow_resource_path (non_empty (split_on b'/' path_value))

-- What a path leads to: whether it is a container, and what the check of its store comes to.
pub record Found (C : Type 0) : Type 0 where
  pub is_container : Bool
  pub store : Result String
  pub container : C

-- WELL_KNOWN_HANDLERS: the handlers by name. They get the container, and the path of the protected resource,
-- where it is set. A handler answers with a document, with none for HTTPNotFound, or raises.
abbrev pub Handlers : Type 0 → Type 0 → Type 0
Handlers C D = Dict (C → Option String → Result (Option D))

-- `register_well_known_handler`
unfoldable pub register_well_known_handler :
    {C D : Type 0} → String → (C → Option String → Result (Option D)) → Handlers C D → Handlers C D
register_well_known_handler name handler handlers = put handlers name handler

-- `serve_well_known_metadata`, where none is HTTPNotFound. `lookup` is what the database and its root give
-- for the ids of a database and a container.
module _ {C D : Type 0} (lookup : String → String → Option (Found C))
    (handlers : Handlers C D) where
  handled : Option (C → Option String → Result (Option D)) → C → Option String → Result (Option D)
  handled none container path = ok none
  handled (some handler) container path = handler container path

  in_container : String → Option String → Option (Found C) → Result (Option D)
  unfolding handled
  in_container action path none = ok none
  in_container action path (some found) =
      if found.is_container
      then (found.store and_then λ key. handled (get handlers action) found.container path)
      else ok none

  at_path : String → Bool → Option (String × String × String) → Result (Option D)
  unfolding in_container
  at_path action allow_resource_path none = ok none
  at_path action allow_resource_path (some (db_id, container_id, path)) =
      in_container action (if allow_resource_path then some path else none)
        (lookup db_id container_id)

  unfoldable pub serve_well_known_metadata : String → String → Result (Option D)
  unfolding at_path
  serve_well_known_metadata action target_path =
      let allow_resource_path = action == "oauth-protected-resource" in
      at_path action allow_resource_path
        (split_well_known_target_path allow_resource_path target_path)

-- A part of a path
abbrev pub IsPart : String → Type 0
IsPart part = ((part == "") ≡ false) × (has_char b'/' part ≡ false)

abbrev NoSlash : List String → Type 0
NoSlash parts = All (λ part. has_char b'/' part ≡ false) parts

onto_first : Char → List String → List String
onto_first d [] = String.◌∷◌ d "" ∷ []
onto_first d (first ∷ others) = String.◌∷◌ d first ∷ others

onto_first-NoSlash :
    (d : Char) (parts : List String)
    → char_is (code d) b'/' ≡ false
    → NoSlash parts
    → NoSlash (onto_first d parts)
unfolding onto_first has_char
onto_first-NoSlash d [] e h = (ground arith, tt)
onto_first-NoSlash d (first ∷ others) e (h, hs) = (ground arith, hs)

split_on_cons :
    (d : Char) (s : String)
    → split_on b'/' (String.◌∷◌ d s)
      ≡ (if char_is (code d) b'/' then "" ∷ split_on b'/' s else onto_first d (split_on b'/' s))
unfolding split_on onto_first
split_on_cons d s = refl

nil-NoSlash : has_char b'/' "" ≡ false
unfolding has_char
nil-NoSlash = refl

split_on-NoSlash : (s : String) → NoSlash (split_on b'/' s)
split_on-NoSlash String.[] = unfold split_on in (nil-NoSlash, tt)
split_on-NoSlash (String.◌∷◌ d s) =
    let ih = split_on-NoSlash s in
    subst NoSlash (sym (split_on_cons d s)) (elim (Bool-cases (char_is (code d) b'/')) [
      | inl e ↦ rw e (nil-NoSlash, ih)
      | inr e ↦ rw e (onto_first-NoSlash d (split_on b'/' s) e ih)
    ])

non_empty-IsPart : (parts : List String) → NoSlash parts → All IsPart (non_empty parts)
unfolding non_empty
non_empty-IsPart [] h = tt
non_empty-IsPart (s ∷ parts) (h, hs) = elim (Bool-cases (s == "")) [
  | inl e ↦ rw e (non_empty-IsPart parts hs)
  | inr e ↦ rw e ((e, h), non_empty-IsPart parts hs)
]

split_parts-IsPart :
    (allow_resource_path : Bool) (parts : List String) (db_id container_id path : String)
    → All IsPart parts
    → split_parts allow_resource_path parts ≡ some (db_id, container_id, path)
    → IsPart db_id
      × IsPart container_id
      × (allow_resource_path ≡ false → path ≡ concat "/" (join "/" (db_id ∷ container_id ∷ [])))
unfolding split_parts
split_parts-IsPart allow [] db_id container_id path h e = absurd (ground arith)
split_parts-IsPart allow (d ∷ []) db_id container_id path h e = absurd (ground arith)
split_parts-IsPart allow (d ∷ cid ∷ []) db_id container_id path (h, (h', hs)) e =
    let same : ◌≡◌ {A = Option (String × String × String)}
        (some (d, cid, concat "/" (join "/" (d ∷ cid ∷ [])))) (some (db_id, container_id, path)) =
      e in
    let is_db : d ≡ db_id = cc in
    let is_container : cid ≡ container_id = cc in
    (subst IsPart is_db h, subst IsPart is_container h', λ _. cc)
split_parts-IsPart true (d ∷ cid ∷ part ∷ parts) db_id container_id path (h, (h', hs)) e =
    let is_db : d ≡ db_id = cc in
    let is_container : cid ≡ container_id = cc in
    (subst IsPart is_db h, subst IsPart is_container h', λ refused. absurd (ground arith))
split_parts-IsPart false (d ∷ cid ∷ part ∷ parts) db_id container_id path h e =
    absurd (ground arith)

-- A well-known path that is served names a database and a container by ids that are not empty and hold no
-- "/". Where only issuers are served, it names nothing else.
pub split_well_known_target_path-IsPart :
    (allow_resource_path : Bool) (path_value db_id container_id path : String)
    → split_well_known_target_path allow_resource_path path_value ≡ some (db_id, container_id, path)
    → IsPart db_id
      × IsPart container_id
      × (allow_resource_path ≡ false → path ≡ concat "/" (join "/" (db_id ∷ container_id ∷ [])))
unfolding split_well_known_target_path
split_well_known_target_path-IsPart allow path_value db_id container_id path e =
    split_parts-IsPart allow (non_empty (split_on b'/' path_value)) db_id container_id path
      (non_empty-IsPart (split_on b'/' path_value) (split_on-NoSlash path_value)) e
