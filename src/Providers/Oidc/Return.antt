-- ===== src/Providers/Oidc/Return.antt =====
-- A login and its own callback.
use pg_tool_box.Common.{
  ◌≡◌, ◌≢◌, inl, inr, refl, arith, List, [], ◌∷◌, Option-cases, Option, some, Text, codes,
  text_beq_iff, text_eq, to_lower, length,
}
use pg_tool_box.Common.Dict
use pg_tool_box.Common.Int.{ℤ, ◌+ℤ◌}
use pg_tool_box.Config.{mode_oidc}
use pg_tool_box.Config.Validate.{Checks}
use pg_tool_box.Providers.Flow.{
  transient_max_age, transient_cookie_name, transient_cookie, finish, level_of, cleared,
}
use pg_tool_box.Providers.Oidc.{
  Transient, IdToken, token, Idp, Provider, Start, start_flow, config_for, handle_login, is_spent,
  read_transient, with_claims, with_identity, with_token, with_transient, handle_callback,
}
use pg_tool_box.Server.Handlers.{Request, issue_session, redirect, value_of}
use pg_tool_box.Server.Redirect.{safe_redirect}
use pg_tool_box.Server.Redirect.Origin.{safe_redirect_idem}
use pg_tool_box.Server.Runtime.{Env}
use pg_tool_box.Session.{Crypto, Json, Data, Cookie, seal, unix, session_cookie}
use pg_tool_box.Session.Lifetime.{Before}
use pg_tool_box.Session.Rotation.{SealLaws, open_sealed-seal}

module _ (k : Crypto) (jt : Json Transient) (c : Checks) (idp : Idp) (p : Provider) (e : Env)
    (j : Json Data) (issued_at : ℤ) (nonce : Option Text) where
  module _ (s : Start) (seal_nonce value raw : Text) (claims : List (Text × Text))
      (cookie : Cookie) where
    -- A browser that comes back from the login that `s` started.
    pub record IsReturn (login r : Request) (now : ℤ) (id : IdToken) : Type 0 where
      pub is_started : (handle_login k jt c idp p e s login).cookies ≡ transient_cookie e value ∷ []
      pub is_sealed : s.seal_nonce ≡ some seal_nonce
      pub others : List (Text × Text)
      pub sends : r.cookies ≡ (transient_cookie_name e, value) ∷ others
      pub has_no_error : value_of r.query (codes "error") ≡ []
      pub has_state : value_of r.query (codes "state") ≡ s.state
      pub is_in_time : Before (unix now) (unix (s.time +ℤ transient_max_age))
      pub is_random : (s.state ≢ []) × (s.nonce ≢ []) × (s.verifier ≢ [])
      pub is_exchanged :
          idp.exchange (config_for p r.inbound) (value_of r.query (codes "code")) s.verifier
          ≡ token (some raw)
      pub has_token : raw ≢ []
      pub is_verified : idp.verify raw ≡ some id
      pub has_nonce : id.nonce ≡ s.nonce
      pub are_read : id.claims ≡ some claims
      pub has_subject : value_of claims p.subject_claim ≢ []
      pub is_issued :
          let subject = to_lower (value_of claims p.subject_claim) in
          issue_session k j e issued_at nonce subject (level_of e subject) mode_oidc ≡ some cookie

    abbrev flow_of : Request → Transient
    flow_of login = start_flow s (safe_redirect c (value_of login.query (codes "rd")))

    sealed_flow :
        (login r : Request) (now : ℤ) (id : IdToken)
        → IsReturn login r now id
        → seal k jt e.runtime.codec (some seal_nonce) (flow_of login) ≡ some value
    unfolding handle_login transient_cookie session_cookie
    sealed_flow login r now id x =
        elim (Option-cases (seal k jt e.runtime.codec (some seal_nonce) (flow_of login))) [
          | inl n ↦ absurd (ground (arith, x.is_started, x.is_sealed))
          | inr (v, n) ↦ ground (arith, x.is_started, x.is_sealed)
        ]

    read_back :
        (login r : Request) (now : ℤ) (id : IdToken)
        → SealLaws k
        → jt.unmarshal (jt.marshal (flow_of login)) ≡ some (flow_of login)
        → length seal_nonce ≡ k.nonce_size
        → IsReturn login r now id
        → read_transient k jt c idp p e now r ≡ some (flow_of login)
    unfolding read_transient Dict.lookup is_spent start_flow
    read_back login r now id laws json sized x =
        let back =
          open_sealed-seal k jt e.runtime.codec e.runtime.codec seal_nonce (flow_of login) value []
            e.runtime.codec.others laws json sized refl tt (sealed_flow login r now id x) in
        rw (x.sends) (
          ground (
            arith,
            text_beq_iff (transient_cookie_name e) (transient_cookie_name e),
            back,
            x.is_in_time,
            x.is_random,
          ))

    -- A browser that returns to the callback within the ten minutes of the flow's cookie, with the
    -- state of its own login and a verified ID token that states the login's nonce and a subject, is
    -- given that subject's session and sent to the sanitised target that it asked for at the login.
    pub handle_callback-handle_login :
        (login r : Request) (now : ℤ) (id : IdToken)
        → SealLaws k
        → jt.unmarshal (jt.marshal (flow_of login)) ≡ some (flow_of login)
        → length seal_nonce ≡ k.nonce_size
        → IsReturn login r now id
        → handle_callback k jt c idp p e j issued_at nonce now r ≡ record {
          cookies = cookie ∷ cleared e ∷ [];
          body = redirect (safe_redirect c (value_of login.query (codes "rd")));
        }
    unfolding handle_callback with_transient with_token with_identity with_claims finish start_flow
    handle_callback-handle_login login r now id laws json sized x = ground (
      arith,
      read_back login r now id laws json sized x,
      safe_redirect_idem c (value_of login.query (codes "rd")),
      text_beq_iff (value_of r.query (codes "state")) s.state,
      text_beq_iff id.nonce s.nonce,
      x.has_no_error,
      x.has_state,
      x.is_exchanged,
      x.has_token,
      x.is_verified,
      x.has_nonce,
      x.are_read,
      x.has_subject,
      x.is_issued,
    )
