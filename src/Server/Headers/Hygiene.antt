-- ===== src/Server/Headers/Hygiene.antt =====
-- Which identity an upstream is told.
use pg_tool_box.Common.{
  ◌≡◌, ◌≢◌, ◌⊎◌, inl, inr, Option-cases, arith, none, some, [], ◌∷◌, Text, codes, if◌then◌else◌,
  text_eq, text_beq_iff, text_beq, ◌==◌,
}
use pg_tool_box.Common.Dict
use pg_tool_box.Config.Validate.{Url}
use pg_tool_box.Server.Headers.{
  Headers, header_user, header_level, header_groups, Inbound, rewrite, strip, stripped_headers,
  set_identity, set_header, set_proto, set_x_forwarded, forwarded_for, forwarded_host,
  forwarded_proto_name,
}
use pg_tool_box.Server.Headers.{get_header}
use pg_tool_box.Server.Redirect.{forwarded_proto}
use pg_tool_box.Server.Redirect.Origin.{forwarded_proto_cases}
use pg_tool_box.Session.{Data}

lookup-strip :
    (h : Headers) (name : Text)
    → Dict.lookup name (strip stripped_headers h) ≡ (
        if header_groups == name
        then none
        else if header_level == name
        then none
        else if header_user == name
        then none
        else Dict.lookup name h)
unfolding strip
lookup-strip h name = rw (
  Dict.lookup-remove header_groups name _,
  Dict.lookup-remove header_level name _,
  Dict.lookup-remove header_user name h,
)

lookup-set_identity :
    (s : Data) (h : Headers) (name : Text)
    → Dict.lookup name (set_identity (some s) h) ≡ (
        if header_level == name
        then some (s.level ∷ [])
        else if header_user == name
        then some (s.subject ∷ [])
        else Dict.lookup name h)
unfolding set_identity
lookup-set_identity s h name =
    rw (Dict.lookup-insert header_level name _ _, Dict.lookup-insert header_user name _ h)

-- Whatever headers the client sent, the upstream is told the subject and the level of the verified
-- session, each once, and no group.
pub rewrite_identity :
    (target : Url) (i : Inbound) (out : Headers) (s : Data)
    → let h = (rewrite target i out (some s)).headers in
      (Dict.lookup header_user h ≡ some (s.subject ∷ []))
      × (Dict.lookup header_level h ≡ some (s.level ∷ []))
      × (Dict.lookup header_groups h ≡ none)
unfolding rewrite text_beq
rewrite_identity target i out s = (
  rw (lookup-set_identity s _ header_user),
  rw (lookup-set_identity s _ header_level),
  rw (lookup-set_identity s _ header_groups, lookup-strip _ header_groups),
)

-- Without a session the upstream is told no identity at all.
pub rewrite_anonymous :
    (target : Url) (i : Inbound) (out : Headers)
    → let h = (rewrite target i out none).headers in
      (Dict.lookup header_user h ≡ none)
      × (Dict.lookup header_level h ≡ none)
      × (Dict.lookup header_groups h ≡ none)
unfolding rewrite text_beq set_identity
rewrite_anonymous target i out = (
  rw (set_identity, lookup-strip _ header_user),
  rw (set_identity, lookup-strip _ header_level),
  rw (set_identity, lookup-strip _ header_groups),
)

lookup-set_header :
    (h : Headers) (k v name : Text)
    → Dict.lookup name (set_header h k v)
      ≡ (if k == name then some (v ∷ []) else Dict.lookup name h)
unfolding set_header
lookup-set_header h k v name = Dict.lookup-insert k name (v ∷ []) h

lookup-set_x_forwarded_proto :
    (i : Inbound) (h : Headers)
    → Dict.lookup forwarded_proto_name (set_x_forwarded i h)
      ≡ some ((if i.tls then codes "https" else codes "http") ∷ [])
unfolding set_x_forwarded text_beq
lookup-set_x_forwarded_proto i h =
    rw (set_x_forwarded, lookup-set_header _ forwarded_proto_name _ forwarded_proto_name)

lookup-set_x_forwarded_other :
    (i : Inbound) (h : Headers) (name : Text)
    → name ≢ forwarded_for
    → name ≢ forwarded_host
    → name ≢ forwarded_proto_name
    → Dict.lookup name (set_x_forwarded i h) ≡ Dict.lookup name h
unfolding set_x_forwarded
lookup-set_x_forwarded_other i h name a b c = elim (Option-cases i.client_ip) [
  | inl e ↦ ground (
    arith,
    lookup-set_header (set_header (Dict.remove forwarded_for h) forwarded_host i.host)
        forwarded_proto_name (if i.tls then codes "https" else codes "http") name,
    lookup-set_header (Dict.remove forwarded_for h) forwarded_host i.host name,
    Dict.lookup-remove forwarded_for name h,
    text_beq_iff forwarded_for name,
    text_beq_iff forwarded_host name,
    text_beq_iff forwarded_proto_name name,
  )
  | inr (ip, e) ↦ ground (
    arith,
    lookup-set_header (set_header (set_header h forwarded_for ip) forwarded_host i.host)
        forwarded_proto_name (if i.tls then codes "https" else codes "http") name,
    lookup-set_header (set_header h forwarded_for ip) forwarded_host i.host name,
    lookup-set_header h forwarded_for ip name,
    text_beq_iff forwarded_for name,
    text_beq_iff forwarded_host name,
    text_beq_iff forwarded_proto_name name,
  )
]

-- What `set_proto` states, given what stood there.
lookup-set_proto_cases :
    (i : Inbound) (h : Headers) (name : Text)
    → (Dict.lookup name (set_proto i h) ≡ Dict.lookup name h)
      ⊎ ((name ≡ forwarded_proto_name)
          × ((Dict.lookup name (set_proto i h) ≡ some (codes "http" ∷ []))
              ⊎ (Dict.lookup name (set_proto i h) ≡ some (codes "https" ∷ []))))
unfolding set_proto
lookup-set_proto_cases i h name = ground (
  arith,
  forwarded_proto_cases (get_header i.headers forwarded_proto_name),
  lookup-set_header h forwarded_proto_name
      (forwarded_proto (get_header i.headers forwarded_proto_name)) name,
  text_beq_iff forwarded_proto_name name,
)

-- The scheme that the upstream is told is "http" or "https", whatever the client or the edge wrote.
pub rewrite_proto :
    (target : Url) (i : Inbound) (out : Headers) (s : Data)
    → let h = (rewrite target i out (some s)).headers in
      (Dict.lookup forwarded_proto_name h ≡ some (codes "http" ∷ []))
      ⊎ (Dict.lookup forwarded_proto_name h ≡ some (codes "https" ∷ []))
unfolding rewrite text_beq
rewrite_proto target i out s =
    rw (lookup-set_identity s _ forwarded_proto_name, lookup-strip _ forwarded_proto_name)
      (ground (
        arith,
        lookup-set_x_forwarded_proto i out,
        lookup-set_proto_cases i (set_x_forwarded i out) forwarded_proto_name,
      ))

-- A header that the proxy states itself.
abbrev pub IsProxyHeader : Text → Type 0
IsProxyHeader name =
    (name ≡ header_user)
    ⊎ (name ≡ header_level)
    ⊎ (name ≡ header_groups)
    ⊎ (name ≡ forwarded_for)
    ⊎ (name ≡ forwarded_host)
    ⊎ (name ≡ forwarded_proto_name)

-- Any header but the six that the proxy states itself reaches the upstream as it was.
pub rewrite_others :
    (target : Url) (i : Inbound) (out : Headers) (s : Data) (name : Text)
    → ¬ IsProxyHeader name
    → Dict.lookup name (rewrite target i out (some s)).headers ≡ Dict.lookup name out
unfolding rewrite
rewrite_others target i out s name other =
    rw (lookup-set_identity s _ name, lookup-strip _ name)
      (ground (
        arith,
        lookup-set_proto_cases i (set_x_forwarded i out) name,
        lookup-set_x_forwarded_other i out name,
        text_beq_iff header_user name,
        text_beq_iff header_level name,
        text_beq_iff header_groups name,
      ))
