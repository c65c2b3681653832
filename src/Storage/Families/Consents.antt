-- ===== src/Storage/Families/Consents.antt =====
-- storage/pg/repository.py: the consents that `delete_consent` takes, row by row.
use guillotina_oauth_server.Prelude.{
  String, ◌≡◌, true, some, List, [], ◌∷◌, arith, eq_iff, inl, inr, Bool-cases,
}
use guillotina_oauth_server.Sql.{delete_rows}
use guillotina_oauth_server.Storage.Rows.{ConsentRow, Database, Session}
use guillotina_oauth_server.Storage.Repository.Consents.{consent_deletable, delete_consent}

-- A consent of a user under a key
abbrev pub ConsentOf : String → String → String → ConsentRow → Type 0
ConsentOf container key user_id r =
    (r.container_db_key ≡ container) × (r.consent_key ≡ key) × (r.user_id ≡ user_id)

-- Two tables, the second of which lacks the rows in question and holds the others in order.
pub data DeletesOnly (IsIn : ConsentRow → Type 0) : List ConsentRow → List ConsentRow → Type 0 where
  end : DeletesOnly IsIn [] []
  deleted :
      (r : ConsentRow) {rows rows' : List ConsentRow}
      → IsIn r
      → DeletesOnly IsIn rows rows'
      → DeletesOnly IsIn (r ∷ rows) rows'
  kept :
      (r : ConsentRow) {rows rows' : List ConsentRow}
      → ¬ IsIn r
      → DeletesOnly IsIn rows rows'
      → DeletesOnly IsIn (r ∷ rows) (r ∷ rows')

consent_deletable_sound :
    (container key user_id : String) (r : ConsentRow)
    → consent_deletable container key (some user_id) r ≡ true
    → ConsentOf container key user_id r
unfolding consent_deletable
consent_deletable_sound container key user_id r h = (
  (eq_iff r.container_db_key container).0 (ground arith),
  (eq_iff r.consent_key key).0 (ground arith),
  (eq_iff r.user_id user_id).0 (ground arith),
)

consent_deletable_complete :
    (container key user_id : String) (r : ConsentRow)
    → ConsentOf container key user_id r
    → consent_deletable container key (some user_id) r ≡ true
unfolding consent_deletable
consent_deletable_complete container key user_id r (own, named, user) = ground (
  arith,
  (eq_iff r.container_db_key container).1 own,
  (eq_iff r.consent_key key).1 named,
  (eq_iff r.user_id user_id).1 user,
)

deletes_only :
    (container key user_id : String) (rows : List ConsentRow)
    → DeletesOnly
        (ConsentOf container key user_id)
        rows
        (delete_rows (consent_deletable container key (some user_id)) rows)
unfolding delete_rows
deletes_only container key user_id [] = end
deletes_only container key user_id (r ∷ rows) =
    elim (Bool-cases (consent_deletable container key (some user_id) r)) [
      | inl e ↦ rw e (
          deleted r (consent_deletable_sound container key user_id r e)
            (deletes_only container key user_id rows))
      | inr e ↦ rw e (
          kept r
            (λ is_in.
              absurd (ground (arith, consent_deletable_complete container key user_id r is_in)))
            (deletes_only container key user_id rows))
    ]

pub delete_consent-DeletesOnly :
    (s : Session) (key user_id : String) (db : Database)
    → DeletesOnly
        (ConsentOf s.container_db_key key user_id)
        db.consents
        (delete_consent s key (some user_id) db).1.consents
unfolding delete_consent
delete_consent-DeletesOnly s key user_id db =
    deletes_only s.container_db_key key user_id db.consents
