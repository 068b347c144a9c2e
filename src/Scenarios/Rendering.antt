-- ===== src/Scenarios/Rendering.antt =====
-- The configuration of the sample console, its Secret and its checksum.
use pg_tool_box.Common.{
  ◌<◌, ◌↔◌, true, none, some, List, [], ◌∷◌, ◌≡◌, ◌≢◌, inr, refl, arith, Text, codes, text_eq,
  text_beq, starts_with, length, sym, ap, ◌∙◌,
}
use pg_tool_box.Common.Dict
use pg_tool_box.Config.{Config, is_valid_level}
use pg_tool_box.Console.Objects.{PgConsole, created}
use pg_tool_box.Console.ProxyConfig.{
  Yaml, RenderError, rendered, render_proxy_config, config_of, build_config, built, render_modes,
  access_level, ConfigSecret, Api, issue, render_issue, checksum_of, reconcile_proxy_config_secret,
  render_and_write, choose_key, write_config_secret, check_oidc_client_secret, config_file_name,
  session_key_name, pg_admin_enabled,
}
use pg_tool_box.Console.ProxyConfig.Key.{key_of_secret, IsKept, reconcile_keeps_key}
use pg_tool_box.Console.ProxyConfig.Parts.{IsRenderable}
use pg_tool_box.Console.ProxyConfig.Refused.{DecodesOwn, unexposed_openshift_stuck, short_key_stuck}
use pg_tool_box.Console.ProxyConfig.Rendering.{routes_of, render_loads}
use pg_tool_box.Console.ProxyConfig.Settles.{IsRenderedAs, Holds, reconcile_settles}
use pg_tool_box.Render.{canonical, checksum}
use pg_tool_box.Render.Canonical.{IsFileMap, SameFiles, canonical_iff}
use pg_tool_box.Scenarios.Consoles.{console, reader}
use pg_tool_box.Scenarios.Sample.{sample_checks, sample_parse, secret_text}

abbrev pub digest_of : Text → Text
digest_of t = codes "deadbeef"

-- The configuration that is encoded, and the only file that the stand-in for YAML knows.
abbrev sample : Config
sample =
    config_of digest_of console secret_text
      (routes_of digest_of sample_checks console secret_text true) []

abbrev yaml : Yaml
yaml = record { marshal = λ c. some (codes "file"); unmarshal = λ raw. some sample }

pub console-IsRenderable : IsRenderable sample_checks console secret_text
unfolding sample_parse starts_with render_modes
console-IsRenderable = record {
  named = λ e. ground arith;
  placed = λ e. ground arith;
  keyed = omega arith;
  enables = λ e. ground arith;
  issuer = tt;
  exposed = λ e. absurd (ground arith);
  console_parses = (inr refl, λ e. ground arith);
  pg_admin_parses = (inr refl, λ e. ground arith);
}

pub dba_level : is_valid_level (access_level console) ≡ true
unfolding is_valid_level access_level text_beq
dba_level = refl

file_rendered :
    render_proxy_config yaml sample_checks digest_of console secret_text true []
    ≡ rendered (codes "file")
file_rendered =
    (render_loads digest_of sample_checks console secret_text yaml true [] (codes "file")
      console-IsRenderable (λ e. dba_level) tt tt (refl, refl)).0

built_inj : {c d : Config} → built c ≡ built d → c ≡ d
built_inj h = cc

sample_built : build_config digest_of console secret_text true [] ≡ built sample
unfolding build_config render_modes is_valid_level access_level text_beq
sample_built = refl

decodes_own : DecodesOwn yaml digest_of console secret_text true []
decodes_own c raw e m = ap some (built_inj (sym sample_built ∙ e))

abbrev api : Api
api = record { reads = true; random_key = some secret_text; updates = true; creates = created }

-- A Secret with a key and no file.
abbrev keyed : ConfigSecret
keyed = record { entries = (session_key_name, secret_text) ∷ []; owner = some (codes "u1") }

keyed_holds : key_of_secret keyed ≢ []
unfolding Dict.value_at Dict.lookup text_beq
keyed_holds e = ground arith

reconcile_keeps_key_example :
    IsKept yaml digest_of digest_of reader api console [] keyed
      (reconcile_proxy_config_secret yaml digest_of digest_of reader api console [] (some keyed)).1
reconcile_keeps_key_example =
    reconcile_keeps_key yaml digest_of digest_of reader api console [] keyed keyed_holds

abbrev written : ConfigSecret
written = record {
  entries = (config_file_name, codes "file") ∷ (session_key_name, secret_text) ∷ [];
  owner = some (codes "u1");
}

first_reconcile :
    reconcile_proxy_config_secret yaml digest_of digest_of reader api console [] none
    ≡ (checksum_of (codes "deadbeef"), some written)
unfolding reconcile_proxy_config_secret check_oidc_client_secret render_and_write choose_key
    write_config_secret checksum pg_admin_enabled
first_reconcile = ground (arith, file_rendered)

random_long : (k : Text) → api.random_key ≡ some k → k ≢ []
random_long k h e = ground arith

reconcile_settles_example :
    (s : ConfigSecret) × (key : Text) × (raw : Text) × (some written ≡ some s)
    × IsRenderedAs yaml digest_of digest_of reader console [] key raw
    × Holds console raw key s
    × (codes "deadbeef" ≡ checksum digest_of ((config_file_name, raw) ∷ []))
    × ((later : Api)
        → later.reads ≡ true
        → reconcile_proxy_config_secret yaml digest_of digest_of reader later console []
            (some written)
          ≡ (checksum_of (codes "deadbeef"), some written))
reconcile_settles_example =
    reconcile_settles yaml digest_of digest_of reader console [] api none (some written)
      (codes "deadbeef") random_long first_reconcile

-- A console that signs in with OpenShift, inside the cluster only.
abbrev unexposed : PgConsole
unexposed = record console {
  authentication = record console.authentication { openshift = true };
  hostname = [];
}

abbrev unexposed_sample : Config
unexposed_sample =
    config_of digest_of unexposed secret_text
      (routes_of digest_of sample_checks unexposed secret_text true) []

abbrev unexposed_yaml : Yaml
unexposed_yaml = record {
  marshal = λ c. some (codes "file");
  unmarshal = λ raw. some unexposed_sample;
}

unexposed_decodes :
    DecodesOwn unexposed_yaml digest_of unexposed secret_text (pg_admin_enabled unexposed) []
unfolding build_config render_modes is_valid_level access_level text_beq pg_admin_enabled
unexposed_decodes c raw e m = ap some (built_inj e)

unexposed_oidc : check_oidc_client_secret reader unexposed ≡ none
unfolding check_oidc_client_secret
unexposed_oidc = refl

unexposed_key : choose_key api none ≡ some secret_text
unfolding choose_key
unexposed_key = refl

unexposed_openshift_stuck_example :
    (e : RenderError) × (reconcile_proxy_config_secret unexposed_yaml digest_of digest_of reader api
        unexposed [] none
      ≡ (issue (render_issue e), none))
unexposed_openshift_stuck_example =
    unexposed_openshift_stuck unexposed_yaml digest_of digest_of reader api unexposed [] none
      secret_text unexposed_decodes refl unexposed_oidc unexposed_key refl refl

-- A Secret whose key has five bytes.
abbrev short : ConfigSecret
short = record { entries = (session_key_name, codes "short") ∷ []; owner = some (codes "u1") }

abbrev short_sample : Config
short_sample =
    config_of digest_of console (codes "short")
      (routes_of digest_of sample_checks console (codes "short") true) []

abbrev short_yaml : Yaml
short_yaml = record { marshal = λ c. some (codes "file"); unmarshal = λ raw. some short_sample }

short_decodes :
    DecodesOwn short_yaml digest_of console (key_of_secret short) (pg_admin_enabled console) []
unfolding build_config render_modes is_valid_level access_level text_beq pg_admin_enabled
    Dict.value_at Dict.lookup
short_decodes c raw e m = ap some (built_inj e)

short_oidc : check_oidc_client_secret reader console ≡ none
unfolding check_oidc_client_secret
short_oidc = refl

short_holds : key_of_secret short ≢ []
unfolding Dict.value_at Dict.lookup text_beq
short_holds e = ground arith

short_length : length (key_of_secret short) < 16
unfolding Dict.value_at Dict.lookup text_beq
short_length = omega arith

short_key_stuck_example :
    (e : RenderError) × (reconcile_proxy_config_secret short_yaml digest_of digest_of reader api
        console []
        (some short)
      ≡ (issue (render_issue e), some short))
short_key_stuck_example =
    short_key_stuck short_yaml digest_of digest_of reader api console [] short short_decodes refl
      short_oidc short_holds short_length

abbrev two_files : List (Text × Text)
two_files = (codes "b", codes "2") ∷ (codes "a", codes "1") ∷ []

abbrev same_files : List (Text × Text)
same_files = (codes "a", codes "1") ∷ (codes "b", codes "2") ∷ []

two-IsFileMap : IsFileMap two_files
unfolding Dict.value_at Dict.lookup text_beq
two-IsFileMap = record {
  distinct = ((λ e. ground arith, tt), (tt, tt));
  few = omega arith;
  short = ((omega arith, omega arith), ((omega arith, omega arith), tt));
}

same-IsFileMap : IsFileMap same_files
unfolding Dict.value_at Dict.lookup text_beq
same-IsFileMap = record {
  distinct = ((λ e. ground arith, tt), (tt, tt));
  few = omega arith;
  short = ((omega arith, omega arith), ((omega arith, omega arith), tt));
}

canonical_iff_example :
    (canonical two_files ≡ canonical same_files) ↔ SameFiles two_files same_files
canonical_iff_example = canonical_iff two_files same_files two-IsFileMap same-IsFileMap
