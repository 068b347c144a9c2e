-- ===== src/Providers/Limiter.antt =====
-- `rateLimiter` of internal/proxy/local/local.go: the failed logins of each client address, over a
-- window that starts at the first of them. Each method runs under the mutex, so it is one step; the
-- clock's readings are arguments.
pub mod Bounds
use pg_tool_box.Common.{
  ℕ, ◌+◌, ◌*◌, Bool, true, List, [], ◌∷◌, Option, none, some, Text, text_eq, ltb, if◌then◌else◌,
}
use pg_tool_box.Common.Dict
use pg_tool_box.Common.Int.{ℤ, pos, ◌-ℤ◌, leb_ℤ}
use pg_tool_box.Config.{second}

abbrev pub max_failures : ℕ
max_failures = 10

-- `time.Minute`
abbrev pub window : ℤ
window = pos (60 * second)

-- `rateEntry`
pub record RateEntry : Type 0 where
  pub window_start : ℤ
  pub count : ℕ

abbrev pub Failures : Type 0
Failures = List (Text × RateEntry)

-- `rl.now().Sub(e.windowStart) >= window`
abbrev pub is_over : ℤ → RateEntry → Bool
is_over now e = leb_ℤ window (now -ℤ e.window_start)

unfoldable pub allow : ℤ → Text → Failures → Bool
allow now ip m = elim (Dict.lookup ip m) [
  | none ↦ true
  | some e ↦ if is_over now e then true else ltb e.count max_failures
]

abbrev pub first_failure : ℤ → RateEntry
first_failure now = record { window_start = now; count = 1 }

-- The clock is read twice: for the test, and for the start of a new window.
unfoldable pub fail : ℤ → ℤ → Text → Failures → Failures
fail now start ip m = elim (Dict.lookup ip m) [
  | none ↦ Dict.insert ip (first_failure start) m
  | some e ↦
      if is_over now e
      then Dict.insert ip (first_failure start) m
      else Dict.insert ip (record e { count = e.count + 1 }) m
]

unfoldable pub reset : Text → Failures → Failures
reset ip m = Dict.remove ip m
