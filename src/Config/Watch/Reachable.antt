-- ===== src/Config/Watch/Reachable.antt =====
-- What any run of the watcher keeps.
use mathlib.Core.List.{append_assoc}
use pg_tool_box.Common.{
  ℕ, ◌+◌, ◌≤◌, Option, none, some, List, [], ◌∷◌, ◌++◌, ◌≡◌, inl, inr, refl, arith, Text,
  if◌then◌else◌, All, All-append, Bool-cases,
}
use pg_tool_box.Config.{Config, set_defaults, is_empty}
use pg_tool_box.Config.Accepts.{IsValid, validate_iff}
use pg_tool_box.Config.Validate.{
  Checks, Warning, validate, load, parse, Parsed, parsed, invalid, malformed, unreadable,
}
use pg_tool_box.Config.Watch.{
  Event, fs_event, fs_error, timer_fires, cancelled, events_closed, errors_closed, Watcher, running,
  schedule, reload, step, relevant, Possible, Run, started, received,
}

module _ (k : Checks) (unmarshal : Text → Option Config) where
  load-IsValid :
      (contents : Option Text) (c : Config) (w : List Warning)
      → load k unmarshal contents ≡ parsed c w
      → IsValid k c
  unfolding load parse
  load-IsValid none c w h = absurd (ground arith)
  load-IsValid (some raw) c w h = go (unmarshal raw) refl
    where
      go : (o : Option Config) → unmarshal raw ≡ o → IsValid k c
      go none e = absurd (ground arith)
      go (some d) e = elim (Bool-cases (is_empty (validate k (set_defaults d)))) [
        | inl f ↦ ground (arith, validate_iff k c)
        | inr f ↦ absurd (ground arith)
      ]

  -- A list that `l` was extended to by valid configurations.
  abbrev pub Extends : List Config → List Config → Type 0
  Extends l m = (new : List Config) × (m ≡ new ++ l) × All (IsValid k) new

  reload-Extends :
      (contents : Option Text) (w : Watcher)
      → Extends w.applied (reload k unmarshal contents w).applied
  unfolding reload
  reload-Extends contents w = go (load k unmarshal contents) refl
    where
      go :
          (o : Parsed)
          → load k unmarshal contents ≡ o
          → Extends w.applied (reload k unmarshal contents w).applied
      go (parsed c ws) e = (c ∷ [], ground arith, (load-IsValid contents c ws e, tt))
      go (invalid ps) e = ([], ground arith, tt)
      go malformed e = ([], ground arith, tt)
      go unreadable e = ([], ground arith, tt)

  step-Extends :
      (path : Text) (now : ℕ) (event : Event) (w next : Watcher)
      → step k unmarshal path now event w ≡ running next
      → Extends w.applied next.applied
  unfolding step schedule
  step-Extends path now (fs_event name) w next h = ([], ground arith, tt)
  step-Extends path now fs_error w next h = ([], ground arith, tt)
  step-Extends path now (timer_fires contents) w next h =
      let (new, e, valid) = reload-Extends contents (record w { due = none }) in
      (new, ground arith, valid)
  step-Extends path now cancelled w next h = absurd (ground arith)
  step-Extends path now events_closed w next h = absurd (ground arith)
  step-Extends path now errors_closed w next h = absurd (ground arith)

  -- However the events arrive, the watcher hands on valid configurations only, and what it handed on
  -- before stays: a reload that fails keeps the previous configuration.
  pub Run-applies :
      (path : Text) (start w : Watcher) (events : List (ℕ × Event))
      → Run k unmarshal path start events w
      → Extends start.applied w.applied
  Run-applies path start w [] started = ([], refl, tt)
  Run-applies path start w (e ∷ events) (received {w = v} now event r possible h) =
      let (old, p, old_valid) = Run-applies path start v events r in
      let (new, q, new_valid) = step-Extends path now event v w h in
      (
        new ++ old,
        ground (arith, append_assoc new old start.applied),
        All-append (IsValid k) new old new_valid old_valid,
      )

-- The reloads that a run made, and the events that ask for one.
abbrev pub reloads_of : Event → ℕ
reloads_of (timer_fires contents) = 1
reloads_of _ = 0

abbrev pub reloads : List (ℕ × Event) → ℕ
reloads [] = 0
reloads ((now, event) ∷ events) = reloads_of event + reloads events

abbrev pub requests_of : Text → Event → ℕ
requests_of path (fs_event name) = if relevant path name then 1 else 0
requests_of path _ = 0

abbrev pub requests : Text → List (ℕ × Event) → ℕ
requests path [] = 0
requests path ((now, event) ∷ events) = requests_of path event + requests path events

-- 1 while a timer is running
abbrev pub pending : Watcher → ℕ
pending w = elim w.due [ none ↦ 0 | some d ↦ 1 ]

module _ (k : Checks) (unmarshal : Text → Option Config) (path : Text) where
  pub reload_due :
      (contents : Option Text) (w : Watcher) → (reload k unmarshal contents w).due ≡ w.due
  unfolding reload
  reload_due contents w = ground arith

  step_bounded :
      (now : ℕ) (event : Event) (w next : Watcher)
      → Possible k unmarshal path now event w
      → step k unmarshal path now event w ≡ running next
      → reloads_of event + pending next ≤ requests_of path event + pending w
  unfolding step schedule
  step_bounded now (fs_event name) w next possible h = ground arith
  step_bounded now fs_error w next possible h = ground arith
  step_bounded now (timer_fires contents) w next (d, due, late) h =
      ground (arith, reload_due contents (record w { due = none }))
  step_bounded now cancelled w next possible h = absurd (ground arith)
  step_bounded now events_closed w next possible h = absurd (ground arith)
  step_bounded now errors_closed w next possible h = absurd (ground arith)

-- A burst of events makes one reload at most: a run never makes more reloads than it got relevant
-- events, one more if a timer was running at its start.
pub reloads_bounded :
    (k : Checks) (unmarshal : Text → Option Config) (path : Text) (start w : Watcher)
    (events : List (ℕ × Event))
    → Run k unmarshal path start events w
    → reloads events + pending w ≤ requests path events + pending start
reloads_bounded k unmarshal path start w [] started = omega arith
reloads_bounded k unmarshal path start w (e ∷ events) (received {w = v} now event r possible h) =
    omega (
      arith,
      step_bounded k unmarshal path now event v w possible h,
      reloads_bounded k unmarshal path start v events r,
    )
