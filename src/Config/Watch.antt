-- ===== src/Config/Watch.antt =====
-- The configuration watcher, internal/proxy/config/watch.go: the loop of `Run` as a state machine. An
-- event is what the `select` receives; fsnotify and the timers of package time are its environment.
pub mod Reachable
pub mod Debounce
use pg_tool_box.Common.{
  ℕ, ◌+◌, ◌≤◌, Bool, true, false, Option, none, some, List, [], ◌∷◌, ◌≡◌, Text, codes, ◌==◌,
  text_eq, nat_eq, if◌then◌else◌, ◌||◌, before,
}
use mathlib.Core.List.{reverse}
use pg_tool_box.Config.{Config, second, is_empty}
use pg_tool_box.Config.Validate.{Checks, Parsed, unreadable, malformed, invalid, parsed, load}

-- Nanoseconds.
abbrev pub debounce_delay : ℕ
debounce_delay = second

unfoldable pub drop_slashes : Text → Text
drop_slashes [] = []
drop_slashes (c ∷ s) = let rest = drop_slashes s in if c == b'/' then rest else c ∷ s

-- `filepath.Base`
unfoldable pub base : Text → Text
base path =
    let stem = drop_slashes (reverse path) in
    if is_empty path
    then codes "."
    else if is_empty stem
    then codes "/"
    else reverse (before b'/' stem)

-- `relevant`, of the event's name.
unfoldable pub relevant : Text → Text → Bool
relevant path name = base name == base path || base name == codes "..data"

-- `Load`'s file is what it holds when the timer fires; `none` where it cannot be read.
pub data Event : Type 0 where
  fs_event : Text → Event
  fs_error : Event
  timer_fires : Option Text → Event
  cancelled events_closed errors_closed : Event

-- `due` is when the channel in `timerC` delivers, `none` where it is nil or never will. `applied` lists
-- the configurations handed to `apply`, the newest first.
pub record Watcher : Type 0 where
  pub due : Option ℕ
  pub applied : List Config

pub data Status : Type 0 where
  running : Watcher → Status
  -- nil, and the error of a closed channel
  stopped failed : Watcher → Status

unfoldable pub schedule : ℕ → Watcher → Watcher
schedule now w = record w { due = some (now + debounce_delay) }

module _ (k : Checks) (unmarshal : Text → Option Config) where
  unfoldable pub reload : Option Text → Watcher → Watcher
  reload contents w = elim (load k unmarshal contents) [
    | parsed c warnings ↦ record w { applied = c ∷ w.applied }
    | invalid problems ↦ w
    | malformed ↦ w
    | unreadable ↦ w
  ]

module _ (k : Checks) (unmarshal : Text → Option Config) (path : Text) where
  -- One round of the loop, at the time `now`.
  unfoldable pub step : ℕ → Event → Watcher → Status
  step now (fs_event name) w = if relevant path name then running (schedule now w) else running w
  step now fs_error w = running w
  step now (timer_fires contents) w =
      running (reload k unmarshal contents (record w { due = none }))
  step now cancelled w = stopped w
  step now events_closed w = failed w
  step now errors_closed w = failed w

  -- What the environment can send: a timer delivers once, no earlier than it is due.
  abbrev pub Possible : ℕ → Event → Watcher → Type 0
  Possible now (timer_fires contents) w = (d : ℕ) × (w.due ≡ some d) × (d ≤ now)
  Possible now _ w = Unit

  -- The runs of the loop: the events so far, the newest first, and the watcher that they leave.
  pub data Run (start : Watcher) : List (ℕ × Event) → Watcher → Type 0 where
    started : Run start [] start
    received :
        {events : List (ℕ × Event)} {w next : Watcher}
        → (now : ℕ) → (event : Event) → Run start events w
        → Possible now event w
        → step now event w ≡ running next
        → Run start ((now, event) ∷ events) next
