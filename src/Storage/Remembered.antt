-- ===== src/Storage/Remembered.antt =====
-- storage/pg/repository.py: what a remembered consent answers after it was given or withdrawn.
use guillotina_oauth_server.Prelude.{
  zero, suc, ◌+◌, ◌-◌, ◌*◌, ℤ, pos, negsuc, ltb, second, add_seconds, ℕ, String, ◌≡◌, ◌≢◌, refl, ap,
  ◌∙◌, Bool, true, false, ◌&&◌, none, some, List, [], ◌∷◌, arith, ◌==◌, eq_iff, eq_refl, inl, inr,
  Option-cases, Bool-cases, if◌then◌else◌, is_some,
}
use guillotina_oauth_server.Exec.{ok}
use guillotina_oauth_server.Sql.{select_row, update_rows, delete_rows}
use guillotina_oauth_server.Sql.Keys.{IsUnique}
use guillotina_oauth_server.Sql.Select.{
  select_row-append, select_row-weaken, select_row-update_rows_same, select_row-delete_rows_keeps,
  select_row_sound, count_rows-select_row,
}
use guillotina_oauth_server.Storage.Rows.{ConsentRow, Database, Session}
use guillotina_oauth_server.Storage.PrimaryKeys.{IsWellFormed, same_consent}
use guillotina_oauth_server.Storage.Repository.Consents.{
  consent_key_is, consent_active, not_expired, has_consent, consent_expiry, consent_row,
  refresh_consent, upsert_consent, create_consent, consent_deletable, delete_consent,
}

module _ (container key : String) (later : ℕ) (row : ConsentRow) where
  active_after_refresh :
      (rows : List ConsentRow)
      → is_some (
          select_row
            (consent_active container key later)
            (update_rows (consent_key_is container key) (refresh_consent row) rows))
        ≡ (is_some (select_row (consent_key_is container key) rows)
            && not_expired row.expires_at later)
  unfolding select_row update_rows consent_active refresh_consent
  active_after_refresh [] = refl
  active_after_refresh (r ∷ rows) = ground (arith, active_after_refresh rows)

  active_after_upsert :
      (rows : List ConsentRow)
      → consent_key_is container key row ≡ true
      → is_some
          (select_row (consent_active container key later) (upsert_consent container key row rows))
        ≡ not_expired row.expires_at later
  unfolding upsert_consent
  active_after_upsert rows own =
      elim (Option-cases (select_row (consent_key_is container key) rows)) [
        | inr (r, e) ↦ rw e (active_after_refresh rows ∙ rw e)
        | inl e ↦
            let inactive =
              select_row-weaken (consent_active container key later) (consent_key_is container key)
                (λ r h. unfold consent_active in ground arith) rows e in
            rw (e, select_row-append (consent_active container key later) rows row, inactive)
              (unfold consent_active in ground arith)
      ]

  other_after_upsert :
      (other : String) (rows : List ConsentRow)
      → key == other ≡ false
      → consent_key_is container key row ≡ true
      → select_row (consent_active container other later) (upsert_consent container key row rows)
        ≡ select_row (consent_active container other later) rows
  unfolding upsert_consent
  other_after_upsert other rows apart own = ground (
    arith,
    select_row-append (consent_active container other later) rows row,
    hidden row own,
    select_row-update_rows_same (consent_active container other later)
        (consent_key_is container key) (refresh_consent row)
        (λ r h.
          (hidden r h, hidden (refresh_consent row r) (unfold consent_key_is refresh_consent in h)))
        rows,
  )
    where
      hidden :
          (r : ConsentRow)
          → consent_key_is container key r ≡ true
          → consent_active container other later r ≡ false
      hidden r h =
          unfold consent_key_is consent_active in
          ground (arith, eq_iff r.consent_key key, eq_iff r.consent_key other, eq_iff key other)

-- Whether a consent that is given at `now` is in force at a later time: for ever if `consent_ttl` is 0, and
-- otherwise before `now` and `consent_ttl` seconds.
abbrev pub lasts : ℕ → ℤ → ℕ → Bool
lasts now (pos zero) later = true
lasts now (pos (suc n)) later = ltb later (now + suc n * second)
lasts now (negsuc n) later = ltb later (now - suc n * second)

lasts_expiry :
    (now later : ℕ) (ttl : ℤ) → not_expired (consent_expiry now ttl) later ≡ lasts now ttl later
unfolding not_expired consent_expiry add_seconds
lasts_expiry now later (pos zero) = refl
lasts_expiry now later (pos (suc n)) = refl
lasts_expiry now later (negsuc n) = refl

-- After `create_consent`, new or again, the consent is there at any time exactly while it lasts: for ever
-- if `consent_ttl` is 0, and otherwise as long as fewer than `consent_ttl` seconds have passed since `now`. No
-- other key of the container is affected.
pub has_consent-create_consent :
    (s : Session) (key user_id client_id : String) (scope resource : List String) (later : ℕ)
    (other : String) (db : Database)
    → key ≢ other
    → let db' = (create_consent s key user_id client_id scope resource db).1 in
      ((has_consent (record s { now = later }) key db').0
        ≡ ok (lasts s.now s.settings.consent_ttl later))
      × ((has_consent (record s { now = later }) other db').0
          ≡ (has_consent (record s { now = later }) other db).0)
unfolding has_consent create_consent
has_consent-create_consent s key user_id client_id scope resource later other db apart =
    let row : ConsentRow = consent_row s key user_id client_id scope resource in
    let own : consent_key_is s.container_db_key key row ≡ true =
      (unfold consent_key_is consent_row in
        ground (arith, eq_refl s.container_db_key, eq_refl key)) in
    let differ : key == other ≡ false = ground (arith, eq_iff key other) in
    (
      ap ok (
          active_after_upsert s.container_db_key key later row db.consents own
          ∙ (unfold consent_row in lasts_expiry s.now later s.settings.consent_ttl)),
      ap (λ r. ok (is_some r))
          (other_after_upsert s.container_db_key key later row other db.consents differ own),
    )

rest_by_key :
    (container key : String) (q : ConsentRow → Bool) (r : ConsentRow) (rows : List ConsentRow)
    → ((x : ConsentRow) → q x ≡ true → consent_key_is container key x ≡ true)
    → consent_key_is container key r ≡ true
    → select_row (same_consent r) rows ≡ none
    → select_row q rows ≡ none
rest_by_key container key q r rows implies e =
    select_row-weaken q (same_consent r)
      (λ x h.
        unfold consent_key_is in
        ground (
          arith,
          implies x h,
          eq_iff r.container_db_key container,
          eq_iff x.container_db_key container,
          eq_iff r.consent_key key,
          eq_iff x.consent_key key,
          eq_iff x.container_db_key r.container_db_key,
          eq_iff x.consent_key r.consent_key,
        ))
      rows

-- A row with a key is the only one, so a test that implies the key takes that row or none.
select_by_key :
    (container key : String) (q : ConsentRow → Bool) (rows : List ConsentRow) (row : ConsentRow)
    → ((r : ConsentRow) → q r ≡ true → consent_key_is container key r ≡ true)
    → IsUnique same_consent rows
    → select_row (consent_key_is container key) rows ≡ some row
    → select_row q rows ≡ (if q row then some row else none)
unfolding select_row
select_by_key container key q [] row implies u found = absurd (ground arith)
select_by_key container key q (r ∷ rows) row implies u found =
    elim (Bool-cases (consent_key_is container key r)) [
      | inr e ↦ ground (arith, implies r, select_by_key container key q rows row implies u.1)
      | inl e ↦ let rest = rest_by_key container key q r rows implies e u.0 in ground arith
    ]

select_by_key_deleted :
    (container key : String) (q d : ConsentRow → Bool) (rows : List ConsentRow) (row : ConsentRow)
    → ((r : ConsentRow) → q r ≡ true → consent_key_is container key r ≡ true)
    → ((r : ConsentRow) → d r ≡ true → consent_key_is container key r ≡ true)
    → IsUnique same_consent rows
    → select_row (consent_key_is container key) rows ≡ some row
    → select_row q (delete_rows d rows) ≡ (if d row then none else if q row then some row else none)
unfolding select_row delete_rows
select_by_key_deleted container key q d [] row implies_q implies_d u found = absurd (ground arith)
select_by_key_deleted container key q d (r ∷ rows) row implies_q implies_d u found =
    elim (Bool-cases (consent_key_is container key r)) [
      | inr e ↦ ground (
        arith,
        implies_q r,
        implies_d r,
        select_by_key_deleted container key q d rows row implies_q implies_d u.1,
      )
      | inl e ↦
          let rest =
            select_row-delete_rows_keeps q d rows
              (rest_by_key container key q r rows implies_q e u.0) in
          ground arith
    ]

-- Withdrawing a consent in a user's name removes it, and reports so, exactly if it is that user's: a
-- consent of another user under the same key stays as it was.
pub has_consent-delete_consent :
    (s : Session) (key user_id : String) (row : ConsentRow) (db : Database)
    → IsWellFormed db
    → select_row (consent_key_is s.container_db_key key) db.consents ≡ some row
    → ((delete_consent s key (some user_id) db).0 ≡ ok (row.user_id == user_id))
      × ((has_consent s key (delete_consent s key (some user_id) db).1).0
          ≡ ok (if row.user_id == user_id then false else not_expired row.expires_at s.now))
unfolding has_consent delete_consent
has_consent-delete_consent s key user_id row db v found =
    let deletable = consent_deletable s.container_db_key key (some user_id) in
    let implies : (r : ConsentRow)
        → deletable r ≡ true
        → consent_key_is s.container_db_key key r ≡ true =
      (λ r h. unfold consent_deletable in ground arith) in
    let own = select_row_sound (consent_key_is s.container_db_key key) db.consents found in
    let counted =
      select_by_key s.container_db_key key deletable db.consents row implies v.consents found in
    let kept =
      select_by_key_deleted s.container_db_key key (consent_active s.container_db_key key s.now)
        deletable db.consents row (λ r h. unfold consent_active in ground arith) implies v.consents
        found in
    (
      ap ok (count_rows-select_row deletable db.consents)
          ∙ ap (λ o. ok (is_some o)) counted
          ∙ (unfold consent_deletable in ground arith),
      ap (λ o. ok (is_some o)) kept ∙ (unfold consent_deletable consent_active in ground arith),
    )
