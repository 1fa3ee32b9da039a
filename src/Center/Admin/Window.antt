-- ===== src/Center/Admin/Window.antt =====
-- The range of a query of the history.
use warp_insight.Prelude.{ℕ, ◌+◌, ◌*◌, ◌%◌, ◌≤◌, ◌<◌, ◌≡◌, some, arith, Bool-cases, inl, inr}
use warp_insight.Prelude.Text.{Text, text, text_eq}
use warp_insight.Center.Admin.History.{history_window_config, history_range}

-- The range starts and ends at multiples of the step, is as long as the window, and ends at the latest
-- such multiple that the clock has reached; the window has 60 to 96 steps.
abbrev pub Aligned : (now window_seconds step_seconds : ℕ) → Type 0
Aligned now window_seconds step_seconds =
    let (start, end) = history_range now window_seconds step_seconds in
    (start + window_seconds ≡ end)
    × (start % step_seconds ≡ 0)
    × (end % step_seconds ≡ 0)
    × (end ≤ now)
    × (now < end + step_seconds)
    × (60 * step_seconds ≤ window_seconds)
    × (window_seconds ≤ 96 * step_seconds)

hour : (now : ℕ) → 172_800 ≤ now → Aligned now 3600 60
unfolding history_range
hour now enough =
    (omega arith, omega arith, omega arith, omega arith, omega arith, omega arith, omega arith)

six_hours : (now : ℕ) → 172_800 ≤ now → Aligned now 21_600 300
unfolding history_range
six_hours now enough =
    (omega arith, omega arith, omega arith, omega arith, omega arith, omega arith, omega arith)

day : (now : ℕ) → 172_800 ≤ now → Aligned now 86_400 900
unfolding history_range
day now enough =
    (omega arith, omega arith, omega arith, omega arith, omega arith, omega arith, omega arith)

-- For each window that is served, the range that is queried is as long as the window, starts and ends
-- at multiples of the step, and ends at the latest one that the clock has reached; the window is
-- between 60 and 96 steps long. The clock reads at least two days.
history_range-Aligned :
    (now : ℕ) (window : Text) (window_seconds step_seconds : ℕ)
    → history_window_config window ≡ some (window_seconds, step_seconds)
    → 172_800 ≤ now
    → Aligned now window_seconds step_seconds
unfolding history_window_config
history_range-Aligned now window window_seconds step_seconds h enough =
    elim (Bool-cases (text_eq window (text "1h"))) [
      | inl a ↦
          let w : window_seconds ≡ 3600 = ground arith in
          let s : step_seconds ≡ 60 = ground arith in rw (w, s) (hour now enough)
      | inr n ↦ elim (Bool-cases (text_eq window (text "6h"))) [
        | inl a ↦
            let w : window_seconds ≡ 21_600 = ground arith in
            let s : step_seconds ≡ 300 = ground arith in rw (w, s) (six_hours now enough)
        | inr k ↦
            let w : window_seconds ≡ 86_400 = ground arith in
            let s : step_seconds ≡ 900 = ground arith in rw (w, s) (day now enough)
      ]
    ]
