-- ===== src/Storage/Utility/Rounds.antt =====
-- storage/utility.py: the cleanup runs.
use guillotina_oauth_server.Prelude.{ℕ, zero, suc, List, [], ◌∷◌, map, if◌then◌else◌}
use guillotina_oauth_server.Storage.Repository.Containers.{cleanup_expired}
use guillotina_oauth_server.Storage.Utility.Startup.{Entry, is_served}

-- The run on one entry of the root, at the `now()` of its transaction.
unfoldable pub clean_entry : ℕ → ℕ → Entry → Entry
unfolding is_served
clean_entry batch_size now entry =
    if is_served entry
    then record entry { rows = (cleanup_expired now batch_size entry.rows).1 }
    else entry

-- `run_cleanup`
unfoldable pub run_cleanup : ℕ → ℕ → List Entry → List Entry
run_cleanup batch_size now entries = map (clean_entry batch_size now) entries

-- A run that raises after some of the entries: those before are cleaned, and the others stay.
unfoldable pub run_cleanup_failed : ℕ → ℕ → ℕ → List Entry → List Entry
run_cleanup_failed batch_size zero now entries = entries
run_cleanup_failed batch_size (suc n) now [] = []
run_cleanup_failed batch_size (suc n) now (entry ∷ entries) =
    clean_entry batch_size now entry ∷ run_cleanup_failed batch_size n now entries

-- What happens in `_cleanup_loop`: the time is up and the run is at a time; it raises after a number of entries,
-- which is logged; the task is cancelled, as `finalize` does; or, during a sleep, anyone else changes the
-- entries, as stores and other processes do.
pub data Tick : Type 0 where
  elapsed : ℕ → Tick
  failed : ℕ → ℕ → Tick
  cancelled : Tick
  changed : (Entry → Entry) → Tick

-- `_cleanup_loop`
unfoldable pub cleanup_loop : ℕ → List Tick → List Entry → List Entry
unfolding run_cleanup run_cleanup_failed
cleanup_loop batch_size [] entries = entries
cleanup_loop batch_size (elapsed now ∷ ticks) entries =
    cleanup_loop batch_size ticks (run_cleanup batch_size now entries)
cleanup_loop batch_size (failed n now ∷ ticks) entries =
    cleanup_loop batch_size ticks (run_cleanup_failed batch_size n now entries)
cleanup_loop batch_size (cancelled ∷ ticks) entries = entries
cleanup_loop batch_size (changed change ∷ ticks) entries =
    cleanup_loop batch_size ticks (map change entries)
