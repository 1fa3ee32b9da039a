-- ===== src/Snapshots.antt =====
-- The store of crates/warp-gateway/src/infra/store.rs and its copy in crates/wist-center/src/infra/
-- store.rs: a JSON file that every update reads and writes back whole under a lock, so that the updates
-- of all requests form one sequence. `S` is what the file holds.
use warp_insight.Prelude.Text.{Text}
use warp_insight.Prelude.Results.{Result, ok, err}

-- What the file system does to one access, with the text of its error: the lock or the reading
-- fails; the new file is not put in place; it is, and setting its mode or syncing the directory fails.
pub data Disk : Type 0 where
  works : Disk
  load_fails save_fails sync_fails : Text → Disk

unfoldable pub load : {S : Type 0} → Disk → S → Result Text S
load works s = ok s
load (load_fails e) s = err e
load (save_fails e) s = ok s
load (sync_fails e) s = ok s

unfoldable pub update : {S T : Type 0} → Disk → (S → S × T) → S → S × Result Text T
update works mutate s = let (s', output) = mutate s in (s', ok output)
update (load_fails e) mutate s = (s, err e)
update (save_fails e) mutate s = (s, err e)
update (sync_fails e) mutate s = let (s', output) = mutate s in (s', err e)

-- Here the closure's `Err` leaves the file alone, so its changes are not part of it.
abbrev pub save_result :
    {S T : Type 0} → Disk → S → Result Text (S × T) → S × Result Text (Result Text T)
save_result disk s (err e) = (s, ok (err e))
save_result works s (ok (s', output)) = (s', ok (ok output))
save_result (load_fails e) s (ok (s', output)) = (s, err e)
save_result (save_fails e) s (ok (s', output)) = (s, err e)
save_result (sync_fails e) s (ok (s', output)) = (s', err e)

unfoldable pub update_result :
    {S T : Type 0} → Disk → (S → Result Text (S × T)) → S → S × Result Text (Result Text T)
update_result works mutate s = save_result works s (mutate s)
update_result (load_fails e) mutate s = (s, err e)
update_result (save_fails e) mutate s = save_result (save_fails e) s (mutate s)
update_result (sync_fails e) mutate s = save_result (sync_fails e) s (mutate s)
