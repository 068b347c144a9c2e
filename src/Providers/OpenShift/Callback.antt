-- ===== src/Providers/OpenShift/Callback.antt =====
-- Whom the OpenShift callback admits.
use pg_tool_box.Common.{
  ◌≡◌, ◌≢◌, inl, inr, arith, false, List, [], ◌∷◌, Option-cases, Option, some, Text, codes,
  text_beq_iff, text_eq, refl, nat_beq_iff, nat_eq, ◌==◌, Bool-cases, trim_space,
}
use pg_tool_box.Common.Dict
use pg_tool_box.Common.Int.{ℤ}
use pg_tool_box.Config.{mode_openshift}
use pg_tool_box.Config.Validate.{Checks}
use pg_tool_box.Providers.Flow.{transient_cookie_name, finish, level_of, cleared}
use pg_tool_box.Providers.OpenShift.{
  Transient, Answer, Exchanged, failed, token, Cluster, fetch_user, read_secret_file, is_spent,
  read_transient, with_token, with_code, handle_callback,
}
use pg_tool_box.Server.Handlers.{Request, issue_session, redirect, value_of}
use pg_tool_box.Server.Redirect.{safe_redirect}
use pg_tool_box.Server.Runtime.{Env}
use pg_tool_box.Session.{Crypto, Json, Data, Cookie, opened, open_sealed, unix}
use pg_tool_box.Session.Lifetime.{Before}
use pg_tool_box.Session.Rotation.{IsAuthentic, open_sealed_sound}

module _ (k : Crypto) (jt : Json Transient) (c : Checks) (cl : Cluster) (e : Env) where
  -- The request carries an unexpired transient cookie that a configured key decrypts.
  pub record IsOngoing (now : ℤ) (r : Request) (t : Transient) : Type 0 where
    pub value : Text
    pub is_sent : Dict.lookup (transient_cookie_name e) r.cookies ≡ some value
    pub is_authentic : IsAuthentic k jt e.runtime.codec value t
    pub is_unexpired : Before (unix now) t.expiry
    pub has_state : t.state ≢ []
    pub has_verifier : t.verifier ≢ []

  -- The secret is the text of the mounted file, and not empty.
  abbrev pub IsMounted : Text → Type 0
  IsMounted secret =
      (raw : Text) × (cl.secret_file ≡ some raw) × (secret ≡ trim_space raw) × (secret ≢ [])

  -- The current-user endpoint answered the access token with status 200 and this name.
  abbrev pub IsNamed : Text → Text → Type 0
  IsNamed access subject =
      (a : Answer Text) × (cl.user_info access ≡ some a)
      × (a.status ≡ 200)
      × (a.body ≡ some subject)
      × (subject ≢ [])

  fresh_of :
      (now : ℤ) (t : Transient)
      → is_spent k jt c cl e now t ≡ false
      → Before (unix now) t.expiry × (t.state ≢ []) × (t.verifier ≢ [])
  unfolding is_spent
  fresh_of now t h = (ground arith, ground arith, ground arith)

  read_transient_sound :
      (now : ℤ) (r : Request) (t : Transient)
      → read_transient k jt c cl e now r ≡ some t
      → IsOngoing now r t
  unfolding read_transient
  read_transient_sound now r t h =
      elim (Option-cases (Dict.lookup (transient_cookie_name e) r.cookies)) [
        | inl n ↦ absurd (ground arith)
        | inr (value, sent) ↦
            let o : open_sealed k jt e.runtime.codec value ≡ opened t = ground arith in
            let (a, b, v) = fresh_of now t (ground arith) in
            record {
              value = value;
              is_sent = sent;
              is_authentic = open_sealed_sound k jt e.runtime.codec value t o;
              is_unexpired = a;
              has_state = b;
              has_verifier = v;
            }
      ]

  module _ (j : Json Data) (issued_at : ℤ) (nonce : Option Text) where
    -- A callback that is entitled to the session of the cookie: its state is that of the ongoing
    -- flow, its code was exchanged with the flow's verifier and the secret of the mounted file, and
    -- the API names the subject for the access token.
    pub record IsLogin (now : ℤ) (r : Request) (target : Text) (cookies : List Cookie)
        : Type 0 where
      pub flow : Transient
      pub is_ongoing : IsOngoing now r flow
      pub same_state : value_of r.query (codes "state") ≡ flow.state
      pub has_code : value_of r.query (codes "code") ≢ []
      pub secret : Text
      pub is_secret : IsMounted secret
      pub access : Text
      pub has_access : access ≢ []
      pub is_exchanged :
          cl.exchange secret (value_of r.query (codes "code")) flow.verifier ≡ token access
      pub subject : Text
      pub is_named : IsNamed access subject
      pub cookie : Cookie
      pub is_issued :
          issue_session k j e issued_at nonce subject (level_of e subject) mode_openshift
          ≡ some cookie
      pub are_set : cookies ≡ cookie ∷ cleared e ∷ []
      pub is_kept : target ≡ safe_redirect c flow.redirect_to

    finish_sound :
        (subject rd target : Text)
        → let answer = finish k j c e issued_at nonce mode_openshift subject rd in
          answer.body ≡ redirect target
          → (cookie : Cookie) × (issue_session k j e issued_at nonce subject
                (level_of e subject)
                mode_openshift
              ≡ some cookie)
            × (answer.cookies ≡ cookie ∷ cleared e ∷ [])
            × (target ≡ safe_redirect c rd)
    unfolding finish
    finish_sound subject rd target h =
        elim (Option-cases
          (issue_session k j e issued_at nonce subject (level_of e subject) mode_openshift)) [
            | inl n ↦ absurd (ground arith)
            | inr (x, n) ↦ (x, n, ground arith, ground arith)
          ]

    IsNamed-sound :
        (access subject : Text) → fetch_user cl access ≡ some subject → IsNamed access subject
    unfolding fetch_user
    IsNamed-sound access subject h = elim (Option-cases (cl.user_info access)) [
      | inl n ↦ absurd (ground arith)
      | inr (a, n) ↦ elim (Bool-cases (a.status == 200)) [
        | inr other ↦ absurd (ground arith)
        | inl ok ↦ elim (Option-cases a.body) [
          | inl e ↦ absurd (ground arith)
          | inr (name, e) ↦ (a, n, (nat_beq_iff a.status 200).0 ok, ground arith, ground arith)
        ]
      ]
    ]

    IsMounted-sound : (secret : Text) → read_secret_file cl ≡ some secret → IsMounted secret
    unfolding read_secret_file
    IsMounted-sound secret h = elim (Option-cases cl.secret_file) [
      | inl n ↦ absurd (ground arith)
      | inr (raw, n) ↦ (raw, n, ground arith, ground arith)
    ]

    token_inv :
        (t : Transient) (x : Exchanged) (target : Text)
        → let answer = with_token k jt c cl e j issued_at nonce t x in
          answer.body ≡ redirect target
          → (access subject : Text) × (x ≡ token access)
            × (access ≢ [])
            × (fetch_user cl access ≡ some subject)
            × (answer ≡ finish k j c e issued_at nonce mode_openshift subject t.redirect_to)
    unfolding with_token
    token_inv t (failed f) target h = absurd (ground arith)
    token_inv t (token access) target h = elim (Option-cases (fetch_user cl access)) [
      | inl n ↦ absurd (ground arith)
      | inr (subject, n) ↦ (access, subject, refl, ground arith, n, ground arith)
    ]

    code_inv :
        (t : Transient) (code target : Text)
        → let answer = with_code k jt c cl e j issued_at nonce t code in
          answer.body ≡ redirect target
          → (secret : Text) × (code ≢ [])
            × (read_secret_file cl ≡ some secret)
            × (answer
                ≡ with_token k jt c cl e j issued_at nonce t (cl.exchange secret code t.verifier))
    unfolding with_code
    code_inv t code target h = elim (Option-cases (read_secret_file cl)) [
      | inl n ↦ absurd (ground arith)
      | inr (secret, n) ↦ (secret, ground arith, n, ground arith)
    ]

    callback_inv :
        (now : ℤ) (r : Request) (target : Text)
        → let answer = handle_callback k jt c cl e j issued_at nonce now r in
          answer.body ≡ redirect target
          → (t : Transient) × (read_transient k jt c cl e now r ≡ some t)
            × (value_of r.query (codes "state") ≡ t.state)
            × (answer ≡ with_code k jt c cl e j issued_at nonce t (value_of r.query (codes "code")))
    unfolding handle_callback
    callback_inv now r target h = elim (Option-cases (read_transient k jt c cl e now r)) [
      | inl n ↦ absurd (ground arith)
      | inr (t, n) ↦ (
        t,
        n,
        ground (arith, text_beq_iff (value_of r.query (codes "state")) t.state),
        ground arith,
      )
    ]

    -- The callback redirects only if it is entitled to a session: it carries the unexpired sealed
    -- cookie of a flow whose state it states, its code was exchanged with the text of the mounted
    -- secret, and the current-user endpoint answered the access token with status 200 and a name.
    -- Its answer sets the session of that name, written as the API writes it, at the level that the
    -- runtime gives it or none, and clears the flow's cookie.
    pub handle_callback_admits :
        (now : ℤ) (r : Request) (target : Text)
        → (handle_callback k jt c cl e j issued_at nonce now r).body ≡ redirect target
        → IsLogin now r target (handle_callback k jt c cl e j issued_at nonce now r).cookies
    handle_callback_admits now r target h =
        let (t, read, states, e1) = callback_inv now r target h in
        let (secret, coded, mounted, e2) = code_inv t _ target (rw (← e1) h) in
        let (access, subject, exchanged, granted, named, e3) =
          token_inv t _ target (rw (← e2, ← e1) h) in
        let (cookie, issued, set, kept) =
          finish_sound subject t.redirect_to target (rw (← e3, ← e2, ← e1) h) in
        record {
          flow = t;
          is_ongoing = read_transient_sound now r t read;
          same_state = states;
          has_code = coded;
          secret = secret;
          is_secret = IsMounted-sound secret mounted;
          access = access;
          has_access = granted;
          is_exchanged = exchanged;
          subject = subject;
          is_named = IsNamed-sound access subject named;
          cookie = cookie;
          is_issued = issued;
          are_set = rw (e1, e2, e3) set;
          is_kept = kept;
        }
