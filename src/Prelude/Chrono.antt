-- ===== src/Prelude/Chrono.antt =====
-- What the program uses of the `chrono` library: instants, here nanoseconds, and their text.
use Prim.Native.Nat.{ℕ}
use mathlib.Core.Path.{◌≡◌}
use mathlib.Core.Option.{Option, some}
use warp_insight.Prelude.Text.{Text}

pub record Chrono : Type 0 where
  pub parse_from_rfc3339 : Text → Option ℕ
  pub to_rfc3339 : ℕ → Text

-- chrono's documentation: a text that `to_rfc3339` wrote parses to the same instant.
abbrev pub RoundTrips : Chrono → Type 0
RoundTrips chrono = (t : ℕ) → chrono.parse_from_rfc3339 (chrono.to_rfc3339 t) ≡ some t
