-- ===== src/Config/Watch/Debounce.antt =====
-- When the watcher reloads.
use pg_tool_box.Common.{
  ℕ, ◌+◌, ◌≤◌, true, Option, none, some, List, [], ◌∷◌, ◌++◌, ◌≡◌, ◌⊎◌, inr, arith, Text,
}
use pg_tool_box.Config.{Config}
use pg_tool_box.Config.Validate.{Checks, Warning, load, parsed}
use pg_tool_box.Config.Watch.{
  Event, fs_event, fs_error, timer_fires, cancelled, events_closed, errors_closed, Watcher, running,
  debounce_delay, schedule, reload, step, relevant, Possible, Run, received,
}
use pg_tool_box.Config.Watch.Reachable.{reloads, requests, reloads_of, requests_of, reload_due}

module _ (k : Checks) (unmarshal : Text → Option Config) (path : Text) where
  -- A timer that was set at `t` and has not fired, or has fired.
  abbrev IsSetAt : ℕ → ℕ → Watcher → Type 0
  IsSetAt t fired w = (w.due ≡ some (t + debounce_delay)) ⊎ ((w.due ≡ none) × (1 ≤ fired))

  step_quiet :
      (t fired now : ℕ) (event : Event) (w next : Watcher)
      → IsSetAt t fired w
      → requests_of path event ≡ 0
      → step k unmarshal path now event w ≡ running next
      → IsSetAt t (reloads_of event + fired) next
  unfolding step schedule
  step_quiet t fired now (fs_event name) w next set quiet h = ground arith
  step_quiet t fired now fs_error w next set quiet h = ground arith
  step_quiet t fired now (timer_fires contents) w next set quiet h =
      inr (
        ground (arith, reload_due k unmarshal path contents (record w { due = none })),
        omega arith,
      )
  step_quiet t fired now cancelled w next set quiet h = absurd (ground arith)
  step_quiet t fired now events_closed w next set quiet h = absurd (ground arith)
  step_quiet t fired now errors_closed w next set quiet h = absurd (ground arith)

  step_sets :
      (t : ℕ) (name : Text) (w next : Watcher)
      → relevant path name ≡ true
      → step k unmarshal path t (fs_event name) w ≡ running next
      → IsSetAt t 0 next
  unfolding step schedule
  step_sets t name w next asks h = ground arith

  Run-set :
      (start w : Watcher) (t : ℕ) (name : Text) (quiet earlier : List (ℕ × Event))
      → relevant path name ≡ true
      → requests path quiet ≡ 0
      → Run k unmarshal path start (quiet ++ (t, fs_event name) ∷ earlier) w
      → IsSetAt t (reloads quiet) w
  Run-set start w t name [] earlier asks q (received {w = v} now event r possible h) =
      step_sets t name v w asks h
  Run-set start w t name (e ∷ quiet) earlier asks q (received {w = v} now event r possible h) =
      step_quiet t (reloads quiet) now event v w
        (Run-set start v t name quiet earlier asks (ground arith) r) (ground arith) h

  -- Between the last relevant event and a reload there is at least one second.
  pub reload_debounced :
      (start w : Watcher) (t now : ℕ) (name : Text) (contents : Option Text)
      (quiet earlier : List (ℕ × Event))
      → relevant path name ≡ true
      → requests path quiet ≡ 0
      → Run k unmarshal path start
          ((now, timer_fires contents) ∷ (quiet ++ (t, fs_event name) ∷ earlier))
          w
      → t + debounce_delay ≤ now
  reload_debounced start w t now name contents quiet earlier asks q
        (received {w = v} moment event r (d, due, late) h) =
      ground (arith, Run-set start v t name quiet earlier asks q r)

  -- Once a relevant event is followed by none for a second, and by no reload yet, the timer can fire
  -- at any time; if the file then loads, what it holds is applied on top of what was applied before.
  pub reload_comes :
      (start w : Watcher) (t now : ℕ) (name : Text) (contents : Option Text)
      (quiet earlier : List (ℕ × Event)) (c : Config) (ws : List Warning)
      → relevant path name ≡ true
      → requests path quiet ≡ 0
      → reloads quiet ≡ 0
      → Run k unmarshal path start (quiet ++ (t, fs_event name) ∷ earlier) w
      → t + debounce_delay ≤ now
      → load k unmarshal contents ≡ parsed c ws
      → Possible k unmarshal path now (timer_fires contents) w
        × (step k unmarshal path now (timer_fires contents) w
            ≡ running (record { due = none; applied = c ∷ w.applied }))
  unfolding step reload
  reload_comes start w t now name contents quiet earlier c ws asks q none_yet r late loads =
      let set = Run-set start w t name quiet earlier asks q r in
      ((t + debounce_delay, ground arith, late), ground arith)
