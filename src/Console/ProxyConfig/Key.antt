-- ===== src/Console/ProxyConfig/Key.antt =====
-- The session key and the rest of the configuration's Secret, over reconciles.
use mathlib.Core.Path.{subst}
use pg_tool_box.Common.{
  ◌⊎◌, Option, none, some, List, [], ◌≡◌, ◌≢◌, inl, inr, refl, arith, Text, text_eq, text_beq, sym,
  ◌∙◌,
}
use pg_tool_box.Common.Dict
use pg_tool_box.Config.{User}
use pg_tool_box.Console.Objects.{PgConsole}
use pg_tool_box.Console.ProxyConfig.{
  Yaml, RenderError, Rendered, rendered, render_failed, render_proxy_config, pg_admin_enabled,
  ConfigSecret, Api, config_file_name, session_key_name, choose_key, write_entries_of,
  write_config_secret, render_and_write, reconcile_proxy_config_secret,
}
use pg_tool_box.Console.Users.{Reader}

abbrev pub key_of_secret : ConfigSecret → Text
key_of_secret s = Dict.value_at session_key_name s.entries

abbrev pub file_of_secret : ConfigSecret → Text
file_of_secret s = Dict.value_at config_file_name s.entries

pub written_key :
    (raw key : Text) (s : ConfigSecret) → key_of_secret (write_entries_of raw key s) ≡ key
unfolding write_entries_of text_beq
written_key raw key s =
    Dict.value_at-insert session_key_name session_key_name key
      (Dict.insert config_file_name raw s.entries)

pub written_file :
    (raw key : Text) (s : ConfigSecret) → file_of_secret (write_entries_of raw key s) ≡ raw
unfolding write_entries_of text_beq
written_file raw key s =
    Dict.value_at-insert session_key_name config_file_name key
      (Dict.insert config_file_name raw s.entries)
    ∙ Dict.value_at-insert config_file_name config_file_name raw s.entries

pub written_owner :
    (raw key : Text) (s : ConfigSecret) → (write_entries_of raw key s).owner ≡ s.owner
unfolding write_entries_of
written_owner raw key s = refl

pub Rendered-cases :
    (o : Rendered)
    → ((e : RenderError) × (o ≡ render_failed e)) ⊎ ((raw : Text) × (o ≡ rendered raw))
Rendered-cases (rendered raw) = inr (raw, refl)
Rendered-cases (render_failed e) = inl (e, refl)

module _ (yaml : Yaml) (short_digest hex_digest : Text → Text) (r : Reader) (api : Api)
    (console : PgConsole) (users : List User) where
  -- A Secret that keeps its owner and its session key.
  abbrev pub IsKept : ConfigSecret → Option ConfigSecret → Type 0
  IsKept s none = ⊥
  IsKept s (some after) = (key_of_secret after ≡ key_of_secret s) × (after.owner ≡ s.owner)

  write-cases :
      (raw key : Text) (s : ConfigSecret)
      → ((write_config_secret hex_digest api console raw key (some s)).1 ≡ some s)
        ⊎ ((write_config_secret hex_digest api console raw key (some s)).1
            ≡ some (write_entries_of raw key s))
  unfolding write_config_secret
  write-cases raw key s = ground arith

  write_keeps :
      (raw key : Text) (s : ConfigSecret)
      → key ≡ key_of_secret s
      → IsKept s (write_config_secret hex_digest api console raw key (some s)).1
  write_keeps raw key s same = elim (write-cases raw key s) [
    | inl e ↦ subst (IsKept s) (sym e) (refl, refl)
    | inr e ↦ subst (IsKept s) (sym e) (written_key raw key s ∙ same, written_owner raw key s)
  ]

  render_keeps :
      (s : ConfigSecret)
      → key_of_secret s ≢ []
      → IsKept s (render_and_write yaml short_digest hex_digest r api console users (some s)).1
  unfolding render_and_write choose_key
  render_keeps s held =
      elim (Rendered-cases (
        render_proxy_config yaml r.checks short_digest console (key_of_secret s)
          (pg_admin_enabled console) users)) [
            | inl (e, h) ↦ subst (IsKept s) {x = some s} (ground arith) (refl, refl)
            | inr (raw, h) ↦
                subst (IsKept s) (ground arith) (write_keeps raw (key_of_secret s) s refl)
          ]

  -- Whatever the outcome of a reconcile, a session key that the Secret holds stays, and so does the
  -- Secret's owner.
  pub reconcile_keeps_key :
      (s : ConfigSecret)
      → key_of_secret s ≢ []
      → IsKept s
          (reconcile_proxy_config_secret yaml short_digest hex_digest r api console users
            (some s)).1
  unfolding reconcile_proxy_config_secret
  reconcile_keeps_key s held = ground (arith, render_keeps s held)
