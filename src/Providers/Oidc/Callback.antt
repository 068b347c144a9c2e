-- ===== src/Providers/Oidc/Callback.antt =====
-- Whom the OIDC callback admits, and that a login's own callback is admitted.
use pg_tool_box.Common.{
  ◌≡◌, ◌≢◌, inl, inr, refl, arith, false, List, [], ◌∷◌, Option-cases, Option, none, some, Text,
  codes, text_beq_iff, text_eq, to_lower,
}
use pg_tool_box.Common.Dict
use pg_tool_box.Common.Int.{ℤ}
use pg_tool_box.Config.{mode_oidc}
use pg_tool_box.Config.Validate.{Checks}
use pg_tool_box.Providers.Flow.{transient_cookie_name, finish, level_of, cleared}
use pg_tool_box.Providers.Oidc.{
  Transient, IdToken, Exchanged, failed, token, Idp, Provider, config_for, is_spent, read_transient,
  with_claims, with_identity, with_token, with_transient, handle_callback,
}
use pg_tool_box.Server.Handlers.{Request, issue_session, redirect, value_of}
use pg_tool_box.Server.Redirect.{safe_redirect}
use pg_tool_box.Server.Runtime.{Env}
use pg_tool_box.Session.{Crypto, Json, Data, Cookie, opened, open_sealed, unix}
use pg_tool_box.Session.Lifetime.{Before}
use pg_tool_box.Session.Rotation.{IsAuthentic, open_sealed_sound}

module _ (k : Crypto) (jt : Json Transient) (c : Checks) (idp : Idp) (p : Provider) (e : Env) where
  -- The request carries an unexpired transient cookie that a configured key decrypts.
  pub record IsOngoing (now : ℤ) (r : Request) (t : Transient) : Type 0 where
    pub value : Text
    pub is_sent : Dict.lookup (transient_cookie_name e) r.cookies ≡ some value
    pub is_authentic : IsAuthentic k jt e.runtime.codec value t
    pub is_unexpired : Before (unix now) t.expiry
    pub has_state : t.state ≢ []
    pub has_nonce : t.nonce ≢ []

  fresh_of :
      (now : ℤ) (t : Transient)
      → is_spent k jt c idp p e now t ≡ false
      → Before (unix now) t.expiry × (t.state ≢ []) × (t.nonce ≢ [])
  unfolding is_spent
  fresh_of now t h = (ground arith, ground arith, ground arith)

  read_transient_sound :
      (now : ℤ) (r : Request) (t : Transient)
      → read_transient k jt c idp p e now r ≡ some t
      → IsOngoing now r t
  unfolding read_transient
  read_transient_sound now r t h =
      elim (Option-cases (Dict.lookup (transient_cookie_name e) r.cookies)) [
        | inl n ↦ absurd (ground arith)
        | inr (value, sent) ↦
            let o : open_sealed k jt e.runtime.codec value ≡ opened t = ground arith in
            let (a, b, d) = fresh_of now t (ground arith) in
            record {
              value = value;
              is_sent = sent;
              is_authentic = open_sealed_sound k jt e.runtime.codec value t o;
              is_unexpired = a;
              has_state = b;
              has_nonce = d;
            }
      ]

  module _ (j : Json Data) (issued_at : ℤ) (nonce : Option Text) where
    -- A callback that is entitled to the session of the cookie: its state is that of the ongoing
    -- flow, and an ID token that was obtained with the flow's verifier states the flow's nonce and
    -- names the subject.
    pub record IsLogin (now : ℤ) (r : Request) (target : Text) (cookies : List Cookie)
        : Type 0 where
      pub flow : Transient
      pub is_ongoing : IsOngoing now r flow
      pub same_state : value_of r.query (codes "state") ≡ flow.state
      pub raw : Text
      pub is_exchanged :
          idp.exchange (config_for p r.inbound) (value_of r.query (codes "code")) flow.verifier
          ≡ token (some raw)
      pub identity : IdToken
      pub is_verified : idp.verify raw ≡ some identity
      pub same_nonce : identity.nonce ≡ flow.nonce
      pub claims : List (Text × Text)
      pub are_read : identity.claims ≡ some claims
      pub has_subject : value_of claims p.subject_claim ≢ []
      pub cookie : Cookie
      pub is_issued :
          let subject = to_lower (value_of claims p.subject_claim) in
          issue_session k j e issued_at nonce subject (level_of e subject) mode_oidc ≡ some cookie
      pub are_set : cookies ≡ cookie ∷ cleared e ∷ []
      pub is_kept : target ≡ safe_redirect c flow.redirect_to

    finish_sound :
        (mode subject rd target : Text)
        → (finish k j c e issued_at nonce mode subject rd).body ≡ redirect target
        → (cookie : Cookie) × (issue_session k j e issued_at nonce subject (level_of e subject) mode
            ≡ some cookie)
          × ((finish k j c e issued_at nonce mode subject rd).cookies ≡ cookie ∷ cleared e ∷ [])
          × (target ≡ safe_redirect c rd)
    unfolding finish
    finish_sound mode subject rd target h =
        elim (Option-cases
          (issue_session k j e issued_at nonce subject (level_of e subject) mode)) [
            | inl n ↦ absurd (ground arith)
            | inr (x, n) ↦ (x, n, ground arith, ground arith)
          ]

    claims_inv :
        (t : Transient) (claims : List (Text × Text)) (target : Text)
        → let answer = with_claims k jt c idp p e j issued_at nonce t claims in
          answer.body ≡ redirect target
          → (value_of claims p.subject_claim ≢ [])
            × (answer
                ≡ finish k j c e issued_at nonce mode_oidc
                    (to_lower (value_of claims p.subject_claim))
                    t.redirect_to)
    unfolding with_claims
    claims_inv t claims target h = (ground arith, ground arith)

    identity_inv :
        (t : Transient) (id : IdToken) (target : Text)
        → let answer = with_identity k jt c idp p e j issued_at nonce t id in
          answer.body ≡ redirect target
          → (claims : List (Text × Text)) × (id.nonce ≡ t.nonce)
            × (id.claims ≡ some claims)
            × (answer ≡ with_claims k jt c idp p e j issued_at nonce t claims)
    unfolding with_identity
    identity_inv t id target h = elim (Option-cases id.claims) [
      | inl n ↦ absurd (ground arith)
      | inr (claims, n) ↦ (claims, ground (arith, text_beq_iff id.nonce t.nonce), n, ground arith)
    ]

    token_inv :
        (t : Transient) (x : Exchanged) (target : Text)
        → let answer = with_token k jt c idp p e j issued_at nonce t x in
          answer.body ≡ redirect target
          → (raw : Text) × (id : IdToken) × (x ≡ token (some raw))
            × (idp.verify raw ≡ some id)
            × (answer ≡ with_identity k jt c idp p e j issued_at nonce t id)
    unfolding with_token
    token_inv t (failed f) target h = absurd (ground arith)
    token_inv t (token none) target h = absurd (ground arith)
    token_inv t (token (some raw)) target h = elim (Option-cases (idp.verify raw)) [
      | inl n ↦ absurd (ground arith)
      | inr (id, n) ↦ (raw, id, refl, n, ground arith)
    ]

    transient_inv :
        (r : Request) (t : Transient) (target : Text)
        → let answer = with_transient k jt c idp p e j issued_at nonce r t in
          answer.body ≡ redirect target
          → (value_of r.query (codes "state") ≡ t.state)
            × (answer
                ≡ with_token k jt c idp p e j issued_at nonce t (
                    idp.exchange
                      (config_for p r.inbound)
                      (value_of r.query (codes "code"))
                      t.verifier))
    unfolding with_transient
    transient_inv r t target h =
        (ground (arith, text_beq_iff (value_of r.query (codes "state")) t.state), ground arith)

    callback_inv :
        (now : ℤ) (r : Request) (target : Text)
        → let answer = handle_callback k jt c idp p e j issued_at nonce now r in
          answer.body ≡ redirect target
          → (t : Transient) × (read_transient k jt c idp p e now r ≡ some t)
            × (answer ≡ with_transient k jt c idp p e j issued_at nonce r t)
    unfolding handle_callback
    callback_inv now r target h = elim (Option-cases (read_transient k jt c idp p e now r)) [
      | inl n ↦ absurd (ground arith)
      | inr (t, n) ↦ (t, n, ground arith)
    ]

    -- The callback redirects only if it is entitled to a session: it carries the unexpired sealed
    -- cookie of a flow whose state it states, and a verified ID token with that flow's nonce names
    -- the subject. Its answer sets the session of that subject, at the level that the runtime gives
    -- it or none, and clears the flow's cookie.
    pub handle_callback_sound :
        (now : ℤ) (r : Request) (target : Text)
        → (handle_callback k jt c idp p e j issued_at nonce now r).body ≡ redirect target
        → IsLogin now r target (handle_callback k jt c idp p e j issued_at nonce now r).cookies
    handle_callback_sound now r target h =
        let (t, read, e1) = callback_inv now r target h in
        let (states, e2) = transient_inv r t target (rw (← e1) h) in
        let (raw, id, exchanged, verified, e3) = token_inv t _ target (rw (← e2, ← e1) h) in
        let (claims, nonces, readable, e4) = identity_inv t id target (rw (← e3, ← e2, ← e1) h) in
        let (named, e5) = claims_inv t claims target (rw (← e4, ← e3, ← e2, ← e1) h) in
        let (cookie, issued, set, kept) =
          finish_sound mode_oidc _ t.redirect_to target (rw (← e5, ← e4, ← e3, ← e2, ← e1) h) in
        record {
          flow = t;
          is_ongoing = read_transient_sound now r t read;
          same_state = states;
          raw = raw;
          is_exchanged = exchanged;
          identity = id;
          is_verified = verified;
          same_nonce = nonces;
          claims = claims;
          are_read = readable;
          has_subject = named;
          cookie = cookie;
          is_issued = issued;
          are_set = rw (e1, e2, e3, e4, e5) set;
          is_kept = kept;
        }
