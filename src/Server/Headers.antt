-- ===== src/Server/Headers.antt =====
-- The `Rewrite` function of the reverse proxies, internal/proxy/server/server.go. Header names are
-- keys in their canonical form, as net/http keeps them. `Outbound.headers` is what the reverse
-- proxy hands to `Rewrite`, and the client's headers are in `Inbound`.
pub mod Hygiene
use pg_tool_box.Common.{
  Bool, true, false, Option, none, some, List, [], ◌∷◌, Text, codes, if◌then◌else◌, text_eq,
}
use pg_tool_box.Common.Dict
use pg_tool_box.Config.{is_empty}
use pg_tool_box.Config.Validate.{Url}
use pg_tool_box.Server.Redirect.{forwarded_proto}
use pg_tool_box.Session.{Data}

abbrev pub Headers : Type 0
Headers = List (Text × List Text)

abbrev pub header_user : Text
header_user = codes "X-Forwarded-User"

abbrev pub header_level : Text
header_level = codes "X-Pgtoolbox-Level"

abbrev pub header_groups : Text
header_groups = codes "X-Forwarded-Groups"

abbrev pub forwarded_for : Text
forwarded_for = codes "X-Forwarded-For"

abbrev pub forwarded_host : Text
forwarded_host = codes "X-Forwarded-Host"

abbrev pub forwarded_proto_name : Text
forwarded_proto_name = codes "X-Forwarded-Proto"

abbrev pub stripped_headers : List Text
stripped_headers = header_user ∷ header_level ∷ header_groups ∷ []

-- `Header.Get`: the first value, or the empty text.
abbrev pub first_value : Option (List Text) → Text
first_value (some (v ∷ vs)) = v
first_value _ = []

unfoldable pub get_header : Headers → Text → Text
get_header h name = first_value (Dict.lookup name h)

-- `Header.Set`
unfoldable pub set_header : Headers → Text → Text → Headers
set_header h name v = Dict.insert name (v ∷ []) h

-- The request as it came in: `client_ip` is the host of the remote address, if it has one.
pub record Inbound : Type 0 where
  pub host : Text
  pub tls : Bool
  pub client_ip : Option Text
  pub headers : Headers

pub record Outbound : Type 0 where
  pub target : Url
  pub host : Text
  pub headers : Headers

-- `SetXForwarded`, on headers that carry no X-Forwarded-For: `Rewrite` is called without it.
unfoldable pub set_x_forwarded : Inbound → Headers → Headers
unfolding set_header
set_x_forwarded i h =
    let h' : Headers = elim i.client_ip [
      | none ↦ Dict.remove forwarded_for h
      | some ip ↦ set_header h forwarded_for ip
    ] in
    set_header (set_header h' forwarded_host i.host) forwarded_proto_name
      (if i.tls then codes "https" else codes "http")

unfoldable pub set_proto : Inbound → Headers → Headers
unfolding set_header get_header
set_proto i h =
    let proto = forwarded_proto (get_header i.headers forwarded_proto_name) in
    if is_empty proto then h else set_header h forwarded_proto_name proto

-- The loop over `strippedHeaders`.
unfoldable pub strip : List Text → Headers → Headers
strip [] h = h
strip (name ∷ rest) h = strip rest (Dict.remove name h)

unfoldable pub set_identity : Option Data → Headers → Headers
unfolding set_header
set_identity none h = h
set_identity (some s) h = set_header (set_header h header_user s.subject) header_level s.level

-- `out` holds the headers that the reverse proxy copied; `sess` is the session of the context.
unfoldable pub rewrite : Url → Inbound → Headers → Option Data → Outbound
rewrite target i out sess = record {
  target = target;
  host = i.host;
  headers = set_identity sess (strip stripped_headers (set_proto i (set_x_forwarded i out)));
}
