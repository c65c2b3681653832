-- ===== src/Storage/Families/Rows.antt =====
-- storage/pg/repository.py: the refresh tokens that the methods of revocation take, row by row.
use guillotina_oauth_server.Prelude.{
  ℕ, String, ◌≡◌, refl, ap, sym, subst, Bool, true, false, Option, none, some, List, [], ◌∷◌, arith,
  eq_iff, eq_refl, ltb, All, inl, inr, Bool-cases, Option-cases,
}
use guillotina_oauth_server.Exec.{Result, ok}
use guillotina_oauth_server.Sql.{update_rows, count_rows, sql_eq}
use guillotina_oauth_server.Storage.Rows.{RefreshRow, Database, Session}
use guillotina_oauth_server.Storage.Repository.Tokens.{
  not_revoked, revoke_row, revoke_where, same_auth_code, of_family, of_auth_code, of_user_client,
  revoke_refresh_family, revoke_refresh_tokens_by_auth_code, revoke_user_client_refresh_tokens,
}

-- An unrevoked token of a client, a user and an authorization code, or of no code
abbrev pub InFamily : String → String → String → Option String → RefreshRow → Type 0
InFamily container client_id user_id auth_code_hash r =
    (r.container_db_key ≡ container)
    × (r.client_id ≡ client_id)
    × (r.user_id ≡ user_id)
    × (r.auth_code_hash ≡ auth_code_hash)
    × (r.revoked_at ≡ none)

-- An unrevoked token that was issued from an authorization code
abbrev pub FromCode : String → String → RefreshRow → Type 0
FromCode container hash r =
    (r.container_db_key ≡ container) × (r.auth_code_hash ≡ some hash) × (r.revoked_at ≡ none)

-- An unrevoked token of a user and a client
abbrev pub OfUserClient : String → String → String → RefreshRow → Type 0
OfUserClient container user_id client_id r =
    (r.container_db_key ≡ container)
    × (r.user_id ≡ user_id)
    × (r.client_id ≡ client_id)
    × (r.revoked_at ≡ none)

-- Two tables of the same rows in the same order, of which those that are in question are revoked at `now`
-- in the second and the others are the same.
pub data RevokesOnly (IsIn : RefreshRow → Type 0) (now : ℕ)
    : List RefreshRow → List RefreshRow → Type 0 where
  end : RevokesOnly IsIn now [] []
  revoked :
      (r : RefreshRow) {rows rows' : List RefreshRow}
      → IsIn r
      → RevokesOnly IsIn now rows rows'
      → RevokesOnly IsIn now (r ∷ rows) (record r { revoked_at = some now } ∷ rows')
  kept :
      (r : RefreshRow) {rows rows' : List RefreshRow}
      → ¬ IsIn r
      → RevokesOnly IsIn now rows rows'
      → RevokesOnly IsIn now (r ∷ rows) (r ∷ rows')

-- What a report says: that no row is in question, or that there is one.
abbrev pub Reports : (RefreshRow → Type 0) → Bool → List RefreshRow → Type 0
Reports IsIn false rows = All (λ r. ¬ IsIn r) rows
Reports IsIn true rows = ¬ All (λ r. ¬ IsIn r) rows

-- A method reports whether rows are in question, revokes those, and changes nothing else.
pub record RevokesRows (IsIn : RefreshRow → Type 0) (now : ℕ) (db : Database)
    (outcome : Result Bool × Database) : Type 0 where
  pub report : Bool
  pub answered : outcome.0 ≡ ok report
  pub reports : Reports IsIn report db.refresh_tokens
  pub revokes : RevokesOnly IsIn now db.refresh_tokens outcome.1.refresh_tokens
  pub codes : outcome.1.codes ≡ db.codes
  pub clients : outcome.1.clients ≡ db.clients
  pub consents : outcome.1.consents ≡ db.consents

-- A test that takes the rows in question, all of them unrevoked.
record Takes (matches : RefreshRow → Bool) (IsIn : RefreshRow → Type 0) : Type 0 where
  sound : (r : RefreshRow) → matches r ≡ true → IsIn r
  complete : (r : RefreshRow) → IsIn r → matches r ≡ true
  unrevoked : (r : RefreshRow) → IsIn r → r.revoked_at ≡ none

module _ (matches : RefreshRow → Bool) (IsIn : RefreshRow → Type 0) (t : Takes matches IsIn) where
  left_out : (r : RefreshRow) → matches r ≡ false → ¬ IsIn r
  left_out r e is_in = absurd (ground (arith, t.complete r is_in))

  revoke_row_now :
      (now : ℕ) (r : RefreshRow)
      → r.revoked_at ≡ none
      → revoke_row now r ≡ record r { revoked_at = some now }
  unfolding revoke_row
  revoke_row_now now r h = rw h refl

  update_rows-RevokesOnly :
      (now : ℕ) (rows : List RefreshRow)
      → RevokesOnly IsIn now rows (update_rows matches (revoke_row now) rows)
  unfolding update_rows
  update_rows-RevokesOnly now [] = end
  update_rows-RevokesOnly now (r ∷ rows) = elim (Bool-cases (matches r)) [
    | inl e ↦ rw e (
        subst (λ x. RevokesOnly IsIn now (r ∷ rows) (x ∷ update_rows matches (revoke_row now) rows))
          (sym (revoke_row_now now r (t.unrevoked r (t.sound r e))))
          (revoked r (t.sound r e) (update_rows-RevokesOnly now rows)))
    | inr e ↦ rw e (kept r (left_out r e) (update_rows-RevokesOnly now rows))
  ]

  Reports-cons :
      (b : Bool) (r : RefreshRow) (rows : List RefreshRow)
      → ¬ IsIn r
      → Reports IsIn b rows
      → Reports IsIn b (r ∷ rows)
  Reports-cons false r rows out h = (out, h)
  Reports-cons true r rows out h = λ all. h all.1

  count_rows-Reports :
      (rows : List RefreshRow) → Reports IsIn (ltb 0 (count_rows matches rows)) rows
  unfolding count_rows
  count_rows-Reports [] = tt
  count_rows-Reports (r ∷ rows) = elim (Bool-cases (matches r)) [
    | inl e ↦
        let some_row : ltb 0 (count_rows matches (r ∷ rows)) ≡ true = ground (arith, e) in
        subst (λ b. Reports IsIn b (r ∷ rows)) (sym some_row) (λ all. all.0 (t.sound r e))
    | inr e ↦
        let same : ltb 0 (count_rows matches (r ∷ rows)) ≡ ltb 0 (count_rows matches rows) =
          ground (arith, e) in
        subst (λ b. Reports IsIn b (r ∷ rows)) (sym same)
          (Reports-cons (ltb 0 (count_rows matches rows)) r rows (left_out r e)
            (count_rows-Reports rows))
  ]

  revoke_where-RevokesRows :
      (s : Session) (db : Database) → RevokesRows IsIn s.now db (revoke_where s matches db)
  unfolding revoke_where
  revoke_where-RevokesRows s db = record {
    report = ltb 0 (count_rows matches db.refresh_tokens);
    answered = refl;
    reports = count_rows-Reports db.refresh_tokens;
    revokes = update_rows-RevokesOnly s.now db.refresh_tokens;
    codes = refl;
    clients = refl;
    consents = refl;
  }

-- A row that is revoked already is not in question, so none is left.
pub RevokesOnly-none_left :
    (IsIn : RefreshRow → Type 0) (now : ℕ) (rows rows' : List RefreshRow)
    → ((r : RefreshRow) → IsIn r → r.revoked_at ≡ none)
    → RevokesOnly IsIn now rows rows'
    → All (λ r. ¬ IsIn r) rows'
RevokesOnly-none_left IsIn now [] [] unrevoked end = tt
RevokesOnly-none_left IsIn now [] (_ ∷ rows') unrevoked impossible = elim impossible [ ]
RevokesOnly-none_left IsIn now (_ ∷ rows) [] unrevoked impossible = elim impossible [ ]
RevokesOnly-none_left IsIn now (_ ∷ rows) (_ ∷ rows') unrevoked (revoked r is_in rest) = (
  λ again. absurd (ground (arith, unrevoked (record r { revoked_at = some now }) again)),
  RevokesOnly-none_left IsIn now rows rows' unrevoked rest,
)
RevokesOnly-none_left IsIn now (_ ∷ rows) (_ ∷ rows') unrevoked (kept r out rest) =
    (out, RevokesOnly-none_left IsIn now rows rows' unrevoked rest)

not_revoked_sound : (r : RefreshRow) → not_revoked r ≡ true → r.revoked_at ≡ none
unfolding not_revoked
not_revoked_sound r h = elim (Option-cases r.revoked_at) [
  | inl e ↦ e
  | inr (t, e) ↦ absurd (ground arith)
]

sql_eq_sound : (column : Option String) (v : String) → sql_eq column v ≡ true → column ≡ some v
unfolding sql_eq
sql_eq_sound none v h = absurd (ground arith)
sql_eq_sound (some u) v h = ap some ((eq_iff u v).0 h)

same_auth_code_sound :
    (code column : Option String) → same_auth_code code column ≡ true → column ≡ code
unfolding same_auth_code
same_auth_code_sound none none h = refl
same_auth_code_sound none (some u) h = absurd (ground arith)
same_auth_code_sound (some v) column h = sql_eq_sound column v h

same_auth_code_refl : (code : Option String) → same_auth_code code code ≡ true
unfolding same_auth_code sql_eq
same_auth_code_refl none = refl
same_auth_code_refl (some v) = eq_refl v

of_family-Takes :
    (container client_id user_id : String) (auth_code_hash : Option String)
    → Takes
        (of_family container client_id user_id auth_code_hash)
        (InFamily container client_id user_id auth_code_hash)
unfolding of_family
of_family-Takes container client_id user_id auth_code_hash = record {
  sound = λ r h. (
    (eq_iff r.container_db_key container).0 (ground arith),
    (eq_iff r.client_id client_id).0 (ground arith),
    (eq_iff r.user_id user_id).0 (ground arith),
    same_auth_code_sound auth_code_hash r.auth_code_hash (ground arith),
    not_revoked_sound r (ground arith),
  );
  complete = λ r (own, client, user, code, unrevoked).
      unfold not_revoked in
      ground (
        arith,
        (eq_iff r.container_db_key container).1 own,
        (eq_iff r.client_id client_id).1 client,
        (eq_iff r.user_id user_id).1 user,
        code,
        same_auth_code_refl auth_code_hash,
        unrevoked,
      );
  unrevoked = λ r h. h.4;
}

of_auth_code-Takes :
    (container hash : String) → Takes (of_auth_code container hash) (FromCode container hash)
unfolding of_auth_code
of_auth_code-Takes container hash = record {
  sound = λ r h. (
    (eq_iff r.container_db_key container).0 (ground arith),
    sql_eq_sound r.auth_code_hash hash (ground arith),
    not_revoked_sound r (ground arith),
  );
  complete = λ r (own, code, unrevoked).
      unfold not_revoked in
      unfold sql_eq in
      ground (arith, (eq_iff r.container_db_key container).1 own, code, eq_refl hash, unrevoked);
  unrevoked = λ r h. h.2;
}

of_user_client-Takes :
    (container user_id client_id : String)
    → Takes (of_user_client container user_id client_id) (OfUserClient container user_id client_id)
unfolding of_user_client
of_user_client-Takes container user_id client_id = record {
  sound = λ r h. (
    (eq_iff r.container_db_key container).0 (ground arith),
    (eq_iff r.user_id user_id).0 (ground arith),
    (eq_iff r.client_id client_id).0 (ground arith),
    not_revoked_sound r (ground arith),
  );
  complete = λ r (own, user, client, unrevoked).
      unfold not_revoked in
      ground (
        arith,
        (eq_iff r.container_db_key container).1 own,
        (eq_iff r.user_id user_id).1 user,
        (eq_iff r.client_id client_id).1 client,
        unrevoked,
      );
  unrevoked = λ r h. h.3;
}

-- Revoking a grant's family reports whether the table holds an unrevoked token of this container, client,
-- user and authorization code, or of no code if the grant has none. It revokes exactly those rows, at
-- `now`, and leaves every other row, every other column and every other table as it was.
pub revoke_refresh_family-RevokesRows :
    (s : Session) (client_id user_id : String) (auth_code_hash : Option String) (db : Database)
    → RevokesRows
        (InFamily s.container_db_key client_id user_id auth_code_hash)
        s.now
        db
        (revoke_refresh_family s client_id user_id auth_code_hash db)
unfolding revoke_refresh_family
revoke_refresh_family-RevokesRows s client_id user_id auth_code_hash db =
    revoke_where-RevokesRows _ _
      (of_family-Takes s.container_db_key client_id user_id auth_code_hash) s db

pub revoke_refresh_tokens_by_auth_code-RevokesRows :
    (s : Session) (hash : String) (db : Database)
    → RevokesRows
        (FromCode s.container_db_key hash)
        s.now
        db
        (revoke_refresh_tokens_by_auth_code s hash db)
unfolding revoke_refresh_tokens_by_auth_code
revoke_refresh_tokens_by_auth_code-RevokesRows s hash db =
    revoke_where-RevokesRows _ _ (of_auth_code-Takes s.container_db_key hash) s db

pub revoke_user_client_refresh_tokens-RevokesRows :
    (s : Session) (user_id client_id : String) (db : Database)
    → RevokesRows
        (OfUserClient s.container_db_key user_id client_id)
        s.now
        db
        (revoke_user_client_refresh_tokens s user_id client_id db)
unfolding revoke_user_client_refresh_tokens
revoke_user_client_refresh_tokens-RevokesRows s user_id client_id db =
    revoke_where-RevokesRows _ _ (of_user_client-Takes s.container_db_key user_id client_id) s db
