-- ===== src/Scenarios/Serving.antt =====
-- The sample console, from its users to the runtime of the proxy.
use pg_tool_box.Common.{some, List, [], ◌≡◌, inr, refl, arith, codes, to_lower}
use pg_tool_box.Config.{User, Config, set_defaults, level_dba}
use pg_tool_box.Config.Validate.{Warning, load, parsed}
use pg_tool_box.Console.Bootstrap.{creates_user}
use pg_tool_box.Console.Bootstrap.Namespace.{users_of}
use pg_tool_box.Console.ProxyConfig.{Yaml, rendered, render_proxy_config, pg_admin_enabled}
use pg_tool_box.Console.ProxyConfig.Served.{
  IsServable, served_config, served-IsValid, console_served, first_admin_is_dba,
}
use pg_tool_box.Console.Users.{proxy_users}
use pg_tool_box.Scenarios.Consoles.{
  console, reader, api, items, resolved, resolves, with_admin, creates, resolved_alone,
  resolves_alone, reads_hash,
}
use pg_tool_box.Scenarios.Rendering.{digest_of, console-IsRenderable, dba_level}
use pg_tool_box.Scenarios.Sample.{sample_checks, sample_crypto, sample_env, secret_text}
use pg_tool_box.Server.Runtime.{Env, Runtime, build_runtime, built, lookup_user}
use pg_tool_box.Server.Runtime.Built.{IsBuilt, build_runtime_total}

both_servable : IsServable digest_of reader console secret_text items resolved
both_servable = record {
  renderable = console-IsRenderable;
  level_valid = λ e. dba_level;
  named = (λ e. ground arith, (λ e. ground arith, tt));
  resolves = resolves;
}

abbrev yaml : Yaml
yaml = record {
  marshal = λ c. some (codes "file");
  unmarshal = λ raw. some (served_config digest_of reader console secret_text resolved);
}

console_served_example :
    (render_proxy_config yaml sample_checks digest_of console secret_text
        (pg_admin_enabled console)
        (proxy_users resolved)
      ≡ rendered (codes "file"))
    × (w : List Warning) × (load sample_checks yaml.unmarshal (some (codes "file"))
        ≡ parsed (set_defaults (served_config digest_of reader console secret_text resolved)) w)
console_served_example =
    console_served digest_of reader console secret_text items resolved yaml (codes "file")
      both_servable (refl, refl)

alone_servable :
    IsServable digest_of reader console secret_text (users_of with_admin) resolved_alone
alone_servable = record {
  renderable = console-IsRenderable;
  level_valid = λ e. dba_level;
  named = (λ e. ground arith, tt);
  resolves = resolves_alone;
}

abbrev configured : Config
configured = set_defaults (served_config digest_of reader console secret_text resolved_alone)

built_runtime :
    (rt : Runtime) × (build_runtime sample_checks sample_crypto configured ≡ built rt)
    × IsBuilt sample_checks configured rt
built_runtime = build_runtime_total sample_checks sample_crypto configured (
    served-IsValid digest_of reader console secret_text (users_of with_admin) resolved_alone
      alone_servable)

abbrev served_env : Env
served_env = record sample_env { runtime = built_runtime.0 }

any_letters : to_lower (codes "Jane@corp.example") ≡ to_lower (codes "jane@corp.example")
unfolding to_lower
any_letters = refl

first_admin_is_dba_example :
    (u : User) × (lookup_user served_env (codes "Jane@corp.example") ≡ some u)
    × (u.level ≡ level_dba)
first_admin_is_dba_example =
    first_admin_is_dba digest_of reader console secret_text api [] with_admin creates_user
      resolved_alone served_env (codes "Jane@corp.example") tt (λ e. ground arith) creates
      (inr (codes "$2x", reads_hash)) alone_servable built_runtime.2 any_letters
