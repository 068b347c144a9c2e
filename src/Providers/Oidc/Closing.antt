-- ===== src/Providers/Oidc/Closing.antt =====
-- The cookies that the OIDC callback sets.
use pg_tool_box.Common.{
  ◌≡◌, ◌⊎◌, inl, inr, refl, arith, List, [], ◌∷◌, Option-cases, Bool-cases, Option, none, some,
  Text, codes, text_eq, ◌==◌,
}
use pg_tool_box.Common.Int.{ℤ}
use pg_tool_box.Config.{mode_oidc, is_empty}
use pg_tool_box.Config.Validate.{Checks}
use pg_tool_box.Providers.Flow.{finish, level_of, cleared}
use pg_tool_box.Providers.Oidc.{
  Transient, IdToken, Exchanged, failed, token, Idp, Provider, read_transient, with_claims,
  with_identity, with_token, with_transient, handle_callback,
}
use pg_tool_box.Server.Handlers.{Request, Response, issue_session, redirect, value_of}
use pg_tool_box.Server.Redirect.{safe_redirect}
use pg_tool_box.Server.Runtime.{Env}
use pg_tool_box.Session.{Crypto, Json, Data, Cookie}

module _ (k : Crypto) (jt : Json Transient) (c : Checks) (idp : Idp) (p : Provider) (e : Env)
    (j : Json Data) (issued_at : ℤ) (nonce : Option Text) where
  -- An answer whose last cookie clears the flow's cookie, and that sets another only if it
  -- redirects.
  abbrev pub IsClosing : Response → Type 0
  IsClosing answer =
      (answer.cookies ≡ cleared e ∷ [])
      ⊎ ((target : Text) × (cookie : Cookie) × (answer.body ≡ redirect target)
          × (answer.cookies ≡ cookie ∷ cleared e ∷ []))

  finish-IsClosing :
      (mode subject rd : Text) → IsClosing (finish k j c e issued_at nonce mode subject rd)
  unfolding finish
  finish-IsClosing mode subject rd =
      elim (Option-cases (issue_session k j e issued_at nonce subject (level_of e subject) mode)) [
        | inl n ↦ inl (ground arith)
        | inr (x, n) ↦ inr (safe_redirect c rd, x, ground arith, ground arith)
      ]

  claims-IsClosing :
      (t : Transient) (claims : List (Text × Text))
      → IsClosing (with_claims k jt c idp p e j issued_at nonce t claims)
  unfolding with_claims
  claims-IsClosing t claims = elim (Bool-cases (is_empty (value_of claims p.subject_claim))) [
    | inl n ↦ rw (with_claims, n) (inl refl)
    | inr n ↦ rw (with_claims, n) (finish-IsClosing mode_oidc _ t.redirect_to)
  ]

  identity-IsClosing :
      (t : Transient) (id : IdToken)
      → IsClosing (with_identity k jt c idp p e j issued_at nonce t id)
  unfolding with_identity
  identity-IsClosing t id = elim (Bool-cases (id.nonce == t.nonce)) [
    | inr n ↦ rw (with_identity, n) (inl refl)
    | inl n ↦ elim (Option-cases id.claims) [
      | inl o ↦ rw (with_identity, n, o) (inl refl)
      | inr (claims, o) ↦ rw (with_identity, n, o) (claims-IsClosing t claims)
    ]
  ]

  token-IsClosing :
      (t : Transient) (x : Exchanged) → IsClosing (with_token k jt c idp p e j issued_at nonce t x)
  unfolding with_token
  token-IsClosing t (failed f) = inl refl
  token-IsClosing t (token none) = inl refl
  token-IsClosing t (token (some raw)) = elim (Bool-cases (is_empty raw)) [
    | inl n ↦ rw (with_token, n) (inl refl)
    | inr n ↦ elim (Option-cases (idp.verify raw)) [
      | inl o ↦ rw (with_token, n, o) (inl refl)
      | inr (id, o) ↦ rw (with_token, n, o) (identity-IsClosing t id)
    ]
  ]

  transient-IsClosing :
      (r : Request) (t : Transient)
      → IsClosing (with_transient k jt c idp p e j issued_at nonce r t)
  unfolding with_transient
  transient-IsClosing r t = elim (Bool-cases (value_of r.query (codes "state") == t.state)) [
    | inr n ↦ rw (with_transient, n) (inl refl)
    | inl n ↦ rw (with_transient, n) (token-IsClosing t _)
  ]

  -- Whatever the callback answers, the last cookie that it sets clears the flow's cookie, and
  -- only a redirect sets another.
  pub handle_callback_clears :
      (now : ℤ) (r : Request) → IsClosing (handle_callback k jt c idp p e j issued_at nonce now r)
  unfolding handle_callback
  handle_callback_clears now r = elim (Bool-cases (is_empty (value_of r.query (codes "error")))) [
    | inr n ↦ rw (handle_callback, n) (inl refl)
    | inl n ↦ elim (Option-cases (read_transient k jt c idp p e now r)) [
      | inl o ↦ rw (handle_callback, n, o) (inl refl)
      | inr (t, o) ↦ rw (handle_callback, n, o) (transient-IsClosing r t)
    ]
  ]
