-- ===== src/Delivery/Watermark.antt =====
-- crates/wist-delivery/src/watermark.rs: the loss detector of one agent's stream. A `BTreeSet` is a
-- list without repetition, a `BTreeMap` a list of entries by ascending key.
pub mod Ranges
pub mod SeqSet
pub mod Settle
pub mod Loop
pub mod Observe
pub mod History
pub mod Leak
use warp_insight.Prelude.{
  ℕ, zero, suc, ◌+◌, ◌-◌, ◌||◌, List, [], ◌∷◌, ltb, if◌then◌else◌, length, max, none, some,
}
use warp_insight.Prelude.Words.{add_u64}
use Ranges.{RangeMap, holding_entry, remove_entry, insert_dropped_range, is_in_dropped_range}
use SeqSet.{contains, insert, remove}

pub data ObserveOutcome : Type 0 where
  new_record duplicate : ObserveOutcome

pub record ObserveResult : Type 0 where
  pub outcome : ObserveOutcome
  pub lost : List ℕ

pub record Tracker : Type 0 where
  pub lag : ℕ  -- u64, as the other numbers
  pub committed : ℕ
  pub observed : List ℕ
  pub high : ℕ
  pub dropped_ranges : RangeMap

unfoldable pub new : ℕ → Tracker
new lag = record { lag = lag; committed = 0; observed = []; high = 0; dropped_ranges = [] }

unfoldable pub with_committed : ℕ → ℕ → Tracker
with_committed lag committed = record {
  lag = lag;
  committed = committed;
  observed = [];
  high = committed;
  dropped_ranges = [];
}

-- `while self.observed.remove(&self.committed)`; each round takes a member out, so its length is
-- fuel enough.
unfoldable pub drain_prefix : ℕ → List ℕ → ℕ → List ℕ × ℕ
unfolding contains remove
drain_prefix zero observed committed = (observed, committed)
drain_prefix (suc fuel) observed committed =
    let rest = drain_prefix fuel (remove committed observed) (add_u64 committed 1) in
    if contains committed observed then rest else (observed, committed)

-- One round of the `loop` of `settle`: a range is skipped, a number is lost, or the loop breaks.
pub data Round : Type 0 where
  skipped : Tracker → Round
  missing : ℕ → Tracker → Round
  broke : Tracker → Round

unfoldable pub drained : Tracker → Tracker
unfolding drain_prefix
drained t =
    let (observed, committed) = drain_prefix (length t.observed) t.observed t.committed in
    record t { observed = observed; committed = committed }

unfoldable pub skip_or_lose : Tracker → Round
unfolding holding_entry remove_entry
skip_or_lose t = elim (holding_entry t.committed t.dropped_ranges) [
  | some (start, stop) ↦ skipped (record t {
    dropped_ranges = remove_entry start t.dropped_ranges;
    committed = add_u64 stop 1;
  })
  | none ↦
      if ltb t.lag (t.high - t.committed)
      then missing t.committed (record t { committed = add_u64 t.committed 1 })
      else broke t
]

unfoldable pub settle_loop : ℕ → Tracker → Tracker × List ℕ
settle_loop zero t = (t, [])
settle_loop (suc fuel) t = elim (skip_or_lose (drained t)) [
  | skipped t' ↦ settle_loop fuel t'
  | missing n t' ↦ let (t'', lost) = settle_loop fuel t' in (t'', n ∷ lost)
  | broke t' ↦ (t', [])
]

-- Each round but the last moves `committed` on, and it stays within `high + 1`.
unfoldable pub settle : Tracker → Tracker × List ℕ
unfolding settle_loop drained skip_or_lose
settle t = settle_loop (t.high + 2 - t.committed) t

unfoldable pub observe : ℕ → Tracker → Tracker × ObserveResult
unfolding settle contains insert is_in_dropped_range
observe seq t =
    if ltb seq t.committed
    then (t, refused)
    else if contains seq t.observed
    then (t, refused)
    else if is_in_dropped_range seq t.dropped_ranges
    then (t, refused)
    else (let (t', lost) =
          settle (record t { observed = insert seq t.observed; high = max t.high seq }) in
        (t', record { outcome = new_record; lost = lost }))
  where
    refused : ObserveResult
    refused = record { outcome = duplicate; lost = [] }

unfoldable pub commit_range : ℕ → ℕ → Tracker → Tracker × List ℕ
unfolding settle insert_dropped_range
commit_range start stop t =
    if ltb stop start || ltb stop t.committed
    then (t, [])
    else settle (record t {
      dropped_ranges = insert_dropped_range (max start t.committed) stop t.dropped_ranges;
      high = max t.high stop;
    })

unfoldable pub pending_count : Tracker → ℕ
pending_count t = length t.observed

unfoldable pub pending_ranges : Tracker → ℕ
pending_ranges t = length t.dropped_ranges
