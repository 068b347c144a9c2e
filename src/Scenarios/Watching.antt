-- ===== src/Scenarios/Watching.antt =====
-- A volume swap that sends two events, and the reload behind them.
use pg_tool_box.Common.{
  ℕ, ◌+◌, true, Option, none, some, List, [], ◌∷◌, ◌≡◌, refl, arith, Text, codes, text_eq, text_beq,
  before,
}
use pg_tool_box.Config.{Config, set_defaults}
use pg_tool_box.Config.Validate.{load, parse, parsed, warnings}
use pg_tool_box.Config.Watch.{
  Event, fs_event, timer_fires, Watcher, Run, started, received, relevant, step, running,
  debounce_delay, Possible, reload, schedule, base, drop_slashes,
}
use pg_tool_box.Config.Watch.Debounce.{reload_comes}
use pg_tool_box.Config.Watch.Reachable.{Extends, Run-applies}
use pg_tool_box.Scenarios.ProxyConfig.{sample_accepted}
use pg_tool_box.Scenarios.Sample.{sample_checks, sample_config}

abbrev unmarshal : Text → Option Config
unmarshal raw = some sample_config

abbrev path : Text
path = codes "/etc/pgtoolbox-proxy/config.yaml"

abbrev swapped_link : Text
swapped_link = codes "/etc/pgtoolbox-proxy/..data"

abbrev idle : Watcher
idle = record { due = none; applied = [] }

abbrev at : ℕ → Watcher
at d = record { due = some d; applied = [] }

abbrev loaded : Watcher
loaded = record { due = none; applied = set_defaults sample_config ∷ [] }

swap_relevant : relevant path swapped_link ≡ true
unfolding relevant base drop_slashes text_beq before
swap_relevant = refl

file_loads :
    load sample_checks unmarshal (some [])
    ≡ parsed (set_defaults sample_config) (warnings sample_checks (set_defaults sample_config))
unfolding load parse set_defaults
file_loads = ground (arith, sample_accepted)

abbrev burst : List (ℕ × Event)
burst = (1, fs_event swapped_link) ∷ (0, fs_event swapped_link) ∷ []

burst-Run : Run sample_checks unmarshal path idle burst (at (1 + debounce_delay))
unfolding step schedule
burst-Run =
    received 1 (fs_event swapped_link)
      (received {next = at debounce_delay} 0 (fs_event swapped_link) started tt
        (ground (arith, swap_relevant)))
      tt (ground (arith, swap_relevant))

abbrev events : List (ℕ × Event)
events = (2000000000, timer_fires (some [])) ∷ burst

full-Run : Run sample_checks unmarshal path idle events loaded
unfolding step reload
full-Run =
    received 2000000000 (timer_fires (some [])) burst-Run (1 + debounce_delay, refl, omega arith)
      (ground (arith, file_loads))

Run-applies_example : Extends sample_checks unmarshal [] (set_defaults sample_config ∷ [])
Run-applies_example = Run-applies sample_checks unmarshal path idle loaded events full-Run

reload_comes_example :
    Possible sample_checks unmarshal path 2000000000
      (timer_fires (some []))
      (at (1 + debounce_delay))
    × (step sample_checks unmarshal path 2000000000
          (timer_fires (some []))
          (at (1 + debounce_delay))
        ≡ running (record { due = none; applied = set_defaults sample_config ∷ [] }))
reload_comes_example =
    reload_comes sample_checks unmarshal path idle (at (1 + debounce_delay)) 1 2000000000
      swapped_link (some []) [] ((0, fs_event swapped_link) ∷ []) (set_defaults sample_config)
      (warnings sample_checks (set_defaults sample_config)) swap_relevant refl refl burst-Run
      (omega arith) file_loads
