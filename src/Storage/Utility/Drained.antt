-- ===== src/Storage/Utility/Drained.antt =====
-- storage/utility.py: the cleanup runs get through what has expired.
use guillotina_oauth_server.Prelude.{
  ℕ, ◌+◌, ◌≤◌, ◌≡◌, Bool, true, none, List, [], ◌∷◌, ◌⊎◌, length, All,
}
use guillotina_oauth_server.Sql.{select_row}
use guillotina_oauth_server.Storage.Rows.{Database}
use guillotina_oauth_server.Storage.Repository.Containers.{
  code_expired, refresh_expired, consent_expired,
}
use guillotina_oauth_server.Storage.Utility.Startup.{Entry, is_served}
use guillotina_oauth_server.Storage.Utility.Rounds.{Tick, elapsed, failed, changed}

module _ {R : Type 0} (q p : R → Bool) (narrower : (r : R) → q r ≡ true → p r ≡ true) where
  -- A table of which nothing has expired, or which holds so many rows at most.
  abbrev pub Within : ℕ → List R → Type 0
  Within budget rows = (select_row q rows ≡ none) ⊎ (length rows ≤ budget)

  -- A change of a table that adds so many rows at most, and none where nothing has expired that has.
  pub record Adds (n : ℕ) (rows rows' : List R) : Type 0 where
    pub at_most : length rows' ≤ length rows + n
    pub none_expired : select_row q rows ≡ none → select_row q rows' ≡ none

module _ (batch_size t : ℕ) where
  -- The rows of an entry: each table holds nothing that had expired at `t`, or so many rows at most.
  pub record RowsWithin (budget : ℕ) (db : Database) : Type 0 where
    pub codes : Within (code_expired t) (code_expired t) (λ r h. h) budget db.codes
    pub tokens : Within (refresh_expired t) (refresh_expired t) (λ r h. h) budget db.refresh_tokens
    pub consents : Within (consent_expired t) (consent_expired t) (λ r h. h) budget db.consents

  -- A database that holds nothing which had expired at `t`.
  pub record IsDrained (db : Database) : Type 0 where
    pub codes : select_row (code_expired t) db.codes ≡ none
    pub tokens : select_row (refresh_expired t) db.refresh_tokens ≡ none
    pub consents : select_row (consent_expired t) db.consents ≡ none

  -- A change of an entry, which serves no database that it did not serve before, and adds so many rows to a table
  -- at most: none that had expired at `t`, where there was none.
  pub record Changes (n : ℕ) (change : Entry → Entry) : Type 0 where
    pub serves : (e : Entry) → is_served (change e) ≡ true → is_served e ≡ true
    pub codes :
        (e : Entry)
        → Adds (code_expired t) (code_expired t) (λ r h. h) n e.rows.codes (change e).rows.codes
    pub tokens :
        (e : Entry)
        → Adds
            (refresh_expired t)
            (refresh_expired t)
            (λ r h. h)
            n
            e.rows.refresh_tokens
            (change e).rows.refresh_tokens
    pub consents :
        (e : Entry)
        → Adds
            (consent_expired t)
            (consent_expired t)
            (λ r h. h)
            n
            e.rows.consents
            (change e).rows.consents

  abbrev pub EntriesWithin : ℕ → List Entry → Type 0
  EntriesWithin budget entries = All (λ e. is_served e ≡ true → RowsWithin budget e.rows) entries

  abbrev pub EntriesDrained : List Entry → Type 0
  EntriesDrained entries = All (λ e. is_served e ≡ true → IsDrained e.rows) entries

  -- Ticks of a loop that is not cancelled, with all its runs at `t` or later, by the rows that they can account
  -- for: each run that does not fail takes a batch off the count, and each change adds its rows to it.
  pub data Runs : ℕ → List Tick → Type 0 where
    done : Runs 0 []
    run :
        {budget : ℕ} {ticks : List Tick} (now : ℕ)
        → t ≤ now
        → Runs budget ticks
        → Runs (budget + batch_size) (elapsed now ∷ ticks)
    fails :
        {budget : ℕ} {ticks : List Tick} (n now : ℕ)
        → t ≤ now
        → Runs budget ticks
        → Runs budget (failed n now ∷ ticks)
    changes :
        {budget : ℕ} {ticks : List Tick} (n : ℕ) (change : Entry → Entry)
        → Changes n change
        → Runs (budget + n) ticks
        → Runs budget (changed change ∷ ticks)
