-- ===== src/Tests.antt =====
-- Runs on concrete data of what the crates share.
use warp_insight.Prelude.{◌≡◌, ◌↔◌, true}
use warp_insight.Prelude.Text.{text}
use warp_insight.Secret.{constant_time_eq, constant_time_eq_iff}

constant_time_eq_iff_example :
    (constant_time_eq (text "ab") (text "abc") ≡ true) ↔ (text "ab" ≡ text "abc")
constant_time_eq_iff_example = constant_time_eq_iff (text "ab") (text "abc")
