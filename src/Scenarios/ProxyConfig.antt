-- ===== src/Scenarios/ProxyConfig.antt =====
-- The configuration of the sample.
use pg_tool_box.Common.{◌≡◌, refl, [], ◌∷◌, codes, text_beq, starts_with, contains, to_lower, ◌↔◌}
use pg_tool_box.Common.Int.{pos, negsuc}
use pg_tool_box.Config.{rank, is_valid_level, local_enabled}
use pg_tool_box.Config.Accepts.{IsValid, validate_iff}
use pg_tool_box.Config.Validate.{
  validate, validate_session, validate_server, validate_provider, validate_users, validate_routes,
  validate_access_request, secret_problems, is_cookie_byte, is_cookie_name_valid, check_modes,
  oidc_problems, openshift_problems, users_problems, user_problems, routes_problems, route_problems,
  prefix_problems, reserved_problems, collides, is_rooted, is_absolute_url, user_subject_duplicate,
}
use pg_tool_box.Common.Dict
use pg_tool_box.Server.Routing.{sort_routes, sort_rounds, swap_pass}
use pg_tool_box.Server.Runtime.{index_users}
use pg_tool_box.Server.Runtime.Built.{IsBuilt}
use pg_tool_box.Scenarios.Sample.{
  root_route, pgadmin_route, sample_env, sample_checks, sample_config, sample_parse, jane_user,
}

levels_ordered :
    (rank (codes "view") ≡ pos 1)
    × (rank (codes "poweruser") ≡ pos 2)
    × (rank (codes "dba") ≡ pos 3)
    × (rank (codes "root") ≡ negsuc 0)
unfolding rank text_beq
levels_ordered = (refl, refl, refl, refl)

pub sample_accepted : validate sample_checks sample_config ≡ []
unfolding validate validate_session validate_server validate_provider validate_users validate_routes
    validate_access_request secret_problems is_cookie_byte is_cookie_name_valid check_modes
    oidc_problems openshift_problems users_problems user_problems routes_problems route_problems
    prefix_problems reserved_problems collides is_rooted is_absolute_url sample_parse starts_with
    contains to_lower text_beq is_valid_level local_enabled
sample_accepted = refl

pub sample_IsValid : IsValid sample_checks sample_config
sample_IsValid = (validate_iff sample_checks sample_config).0 sample_accepted

-- The same user a second time, with other letter case.
twice_refused :
    validate_users sample_checks (record sample_config { users = jane_user ∷ jane_user ∷ [] })
    ≡ user_subject_duplicate 1 ∷ []
unfolding validate_users users_problems user_problems starts_with to_lower text_beq is_valid_level
    local_enabled
twice_refused = refl

validate_iff_example :
    (validate sample_checks sample_config ≡ []) ↔ IsValid sample_checks sample_config
validate_iff_example = validate_iff sample_checks sample_config

sample_IsBuilt : IsBuilt sample_checks sample_config sample_env.runtime
unfolding sample_parse starts_with sort_routes sort_rounds swap_pass index_users to_lower
    Dict.insert Dict.remove
sample_IsBuilt = record {
  same_config = refl;
  compiled_routes = root_route ∷ pgadmin_route ∷ [];
  compiles = ((refl, refl, refl), ((refl, refl, refl), tt));
  sorted = refl;
  indexed = refl;
}

same_letters : to_lower (codes "JANE@corp.example") ≡ to_lower jane_user.subject
unfolding to_lower
same_letters = refl
