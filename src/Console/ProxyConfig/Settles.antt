-- ===== src/Console/ProxyConfig/Settles.antt =====
-- A reconcile of the configuration's Secret that succeeds leaves nothing to do.
use mathlib.Core.Path.{subst}
use pg_tool_box.Common.{
  true, Option, none, some, List, [], ◌∷◌, ◌≡◌, ◌≢◌, inl, inr, refl, arith, Text, text_eq, text_beq,
  text_beq_iff, ◌==◌, Bool-cases, Option-cases, ◌∙◌,
}
use pg_tool_box.Common.Dict
use pg_tool_box.Config.{User, is_empty}
use pg_tool_box.Console.Objects.{PgConsole}
use pg_tool_box.Console.ProxyConfig.{
  Yaml, rendered, render_proxy_config, pg_admin_enabled, ConfigSecret, Api, checksum_of,
  check_oidc_client_secret, config_file_name, session_key_name, owned_by, choose_key,
  write_entries_of, write_config_secret, render_and_write, reconcile_proxy_config_secret,
}
use pg_tool_box.Console.ProxyConfig.Key.{
  key_of_secret, file_of_secret, written_key, written_file, written_owner, Rendered-cases,
}
use pg_tool_box.Console.Users.{Reader}
use pg_tool_box.Render.{checksum}

-- The console's Secret holds the file and the key.
pub record Holds (console : PgConsole) (raw key : Text) (s : ConfigSecret) : Type 0 where
  pub file : file_of_secret s ≡ raw
  pub session : key_of_secret s ≡ key
  pub own : s.owner ≡ some console.uid

module _ (hex_digest : Text → Text) (api : Api) (console : PgConsole) where
  created-Holds :
      (raw key : Text)
      → Holds console raw key (record {
        entries = (config_file_name, raw) ∷ (session_key_name, key) ∷ [];
        owner = some console.uid;
      })
  unfolding Dict.value_at Dict.lookup text_beq
  created-Holds raw key = record { file = refl; session = refl; own = refl }

  owned_by_sound :
      (s : ConfigSecret) → owned_by s.owner console.uid ≡ true → s.owner ≡ some console.uid
  owned_by_sound s h = go s.owner h
    where
      go : (o : Option Text) → owned_by o console.uid ≡ true → o ≡ some console.uid
      go none e = absurd (ground arith)
      go (some owner) e = ground (arith, text_beq_iff owner console.uid)

  updated-Holds :
      (raw key sum : Text) (s after : ConfigSecret)
      → write_config_secret hex_digest api console raw key (some s) ≡ (checksum_of sum, some after)
      → Holds console raw key after
  unfolding write_config_secret
  updated-Holds raw key sum s after h = elim (Bool-cases (owned_by s.owner console.uid)) [
    | inr off ↦ absurd (ground arith)
    | inl mine ↦
        let own = owned_by_sound s mine in
        elim (Bool-cases (file_of_secret s == raw)) [
          | inl f ↦ elim (Bool-cases (key_of_secret s == key)) [
            | inl k ↦ subst (Holds console raw key) {x = s} (ground arith) (record {
              file = (text_beq_iff (file_of_secret s) raw).0 f;
              session = (text_beq_iff (key_of_secret s) key).0 k;
              own = own;
            })
            | inr k ↦
                subst (Holds console raw key) {x = write_entries_of raw key s} (ground arith)
                  (rewritten own)
          ]
          | inr f ↦
              subst (Holds console raw key) {x = write_entries_of raw key s} (ground arith)
                (rewritten own)
        ]
  ]
    where
      rewritten : s.owner ≡ some console.uid → Holds console raw key (write_entries_of raw key s)
      rewritten own = record {
        file = written_file raw key s;
        session = written_key raw key s;
        own = written_owner raw key s ∙ own;
      }

  write-Holds :
      (raw key sum : Text) (existing after : Option ConfigSecret)
      → write_config_secret hex_digest api console raw key existing ≡ (checksum_of sum, after)
      → (s : ConfigSecret) × (after ≡ some s)
        × Holds console raw key s
        × (sum ≡ checksum hex_digest ((config_file_name, raw) ∷ []))
  unfolding write_config_secret
  write-Holds raw key sum none after h = (
    record {
      entries = (config_file_name, raw) ∷ (session_key_name, key) ∷ [];
      owner = some console.uid;
    },
    ground arith,
    created-Holds raw key,
    ground arith,
  )
  write-Holds raw key sum (some s) none h =
      absurd (ground (arith, Bool-cases (owned_by s.owner console.uid)))
  write-Holds raw key sum (some s) (some t) h =
      (t, refl, updated-Holds raw key sum s t h, ground arith)

  write_rests :
      (raw key : Text) (s : ConfigSecret)
      → Holds console raw key s
      → write_config_secret hex_digest api console raw key (some s)
        ≡ (checksum_of (checksum hex_digest ((config_file_name, raw) ∷ [])), some s)
  unfolding write_config_secret
  write_rests raw key s h =
      let mine : owned_by s.owner console.uid ≡ true =
        rw h.own ((text_beq_iff console.uid console.uid).1 refl) in
      ground (
        arith,
        mine,
        (text_beq_iff (file_of_secret s) raw).1 h.file,
        (text_beq_iff (key_of_secret s) key).1 h.session,
      )

module _ (yaml : Yaml) (short_digest hex_digest : Text → Text) (r : Reader) (console : PgConsole)
    (users : List User) where
  reused :
      (api : Api) (key : Text) (s : ConfigSecret)
      → key ≢ []
      → key_of_secret s ≡ key
      → choose_key api (some s) ≡ some key
  unfolding choose_key
  reused api key s some_key h = ground arith

  -- The file that the operator renders with this key.
  abbrev pub IsRenderedAs : Text → Text → Type 0
  IsRenderedAs key raw =
      render_proxy_config yaml r.checks short_digest console key (pg_admin_enabled console) users
      ≡ rendered raw

  rests :
      (api : Api) (raw key : Text) (s : ConfigSecret)
      → api.reads ≡ true
      → check_oidc_client_secret r console ≡ none
      → IsRenderedAs key raw
      → key ≢ []
      → Holds console raw key s
      → reconcile_proxy_config_secret yaml short_digest hex_digest r api console users (some s)
        ≡ (checksum_of (checksum hex_digest ((config_file_name, raw) ∷ [])), some s)
  unfolding reconcile_proxy_config_secret render_and_write
  rests api raw key s reads oidc renders some_key h =
      ground
        (arith, reused api key s some_key h.session, write_rests hex_digest api console raw key s h)

  succeeded :
      (api : Api) (existing after : Option ConfigSecret) (sum : Text)
      → reconcile_proxy_config_secret yaml short_digest hex_digest r api console users existing
        ≡ (checksum_of sum, after)
      → (key : Text) × (raw : Text) × (check_oidc_client_secret r console ≡ none)
        × (choose_key api existing ≡ some key)
        × IsRenderedAs key raw
        × (write_config_secret hex_digest api console raw key existing ≡ (checksum_of sum, after))
  unfolding reconcile_proxy_config_secret render_and_write
  succeeded api existing after sum h = elim (Option-cases (check_oidc_client_secret r console)) [
    | inr (i, e) ↦ absurd (ground arith)
    | inl e ↦ elim (Option-cases (choose_key api existing)) [
      | inl c ↦ absurd (ground arith)
      | inr (key, c) ↦
          elim (Rendered-cases (
            render_proxy_config yaml r.checks short_digest console key (pg_admin_enabled console)
              users)) [
                | inl (x, p) ↦ absurd (ground arith)
                | inr (raw, p) ↦ (key, raw, e, c, p, ground arith)
              ]
    ]
  ]

  choose_key-some :
      (api : Api) (existing : Option ConfigSecret) (key : Text)
      → ((k : Text) → api.random_key ≡ some k → k ≢ [])
      → choose_key api existing ≡ some key
      → key ≢ []
  unfolding choose_key
  choose_key-some api none key random h = random key h
  choose_key-some api (some s) key random h = elim (Bool-cases (is_empty (key_of_secret s))) [
    | inl e ↦ random key (ground arith)
    | inr e ↦ λ p. absurd (ground arith)
  ]

  -- A reconcile that reports a checksum leaves a Secret of the console that holds a session key and
  -- the file rendered with it, and reports the checksum of that file. Until an input changes, every
  -- later reconcile that can read reports the same and writes nothing, whether or not it could. The
  -- random source gives no empty key.
  pub reconcile_settles :
      (api : Api) (existing after : Option ConfigSecret) (sum : Text)
      → ((k : Text) → api.random_key ≡ some k → k ≢ [])
      → reconcile_proxy_config_secret yaml short_digest hex_digest r api console users existing
        ≡ (checksum_of sum, after)
      → (s : ConfigSecret) × (key : Text) × (raw : Text) × (after ≡ some s)
        × IsRenderedAs key raw
        × Holds console raw key s
        × (sum ≡ checksum hex_digest ((config_file_name, raw) ∷ []))
        × ((later : Api)
            → later.reads ≡ true
            → reconcile_proxy_config_secret yaml short_digest hex_digest r later console users after
              ≡ (checksum_of sum, after))
  reconcile_settles api existing after sum random h =
      let (key, raw, oidc, chosen, renders, written) = succeeded api existing after sum h in
      let (s, e, holds, same) =
        write-Holds hex_digest api console raw key sum existing after written in
      (
        s,
        key,
        raw,
        e,
        renders,
        holds,
        same,
        λ later reads.
            rw (e, same)
              (rests later raw key s reads oidc renders
                (choose_key-some api existing key random chosen) holds),
      )
