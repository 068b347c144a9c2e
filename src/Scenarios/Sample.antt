-- ===== src/Scenarios/Sample.antt =====
-- A small console: its configuration, its runtime, and stand-ins for the cryptography, `url.Parse` and
-- JSON, simple enough to be evaluated.
use pg_tool_box.Common.{
  ◌*◌, true, false, Option, none, some, [], ◌∷◌, ◌++◌, ◌≡◌, refl, arith, Text, codes, if◌then◌else◌,
  starts_with, ◌==◌, nat_eq,
}
use pg_tool_box.Common.Int.{pos}
use pg_tool_box.Config.{Config, User, second}
use pg_tool_box.Config.Validate.{Checks, Url}
use pg_tool_box.Server.Handlers.{Request}
use pg_tool_box.Server.Routing.{Route}
use pg_tool_box.Server.Runtime.{Env}
use pg_tool_box.Session.{Crypto, Json, Data, Codec}
use pg_tool_box.Session.Rotation.{SealLaws}

abbrev no_url : Url
no_url = record { scheme = []; host = []; opaque = []; hostname = [] }

abbrev pub local_url : Url
local_url = record {
  scheme = codes "http";
  host = codes "127.0.0.1:8081";
  opaque = [];
  hostname = codes "127.0.0.1";
}

unfoldable pub sample_parse : Text → Option Url
unfolding starts_with
sample_parse s =
    if starts_with s (codes "http://")
    then some local_url
    else if starts_with s (codes "https://")
    then some (record local_url { scheme = codes "https" })
    else if starts_with s (codes "/")
    then some no_url
    else none

abbrev pub sample_checks : Checks
sample_checks = record {
  parse_url = sample_parse;
  is_bcrypt_hash = λ h. starts_with h (codes "$2");
  is_loopback_ip = λ h. starts_with h (codes "127.");
}

-- `t` behind the prefix `p`
unfoldable pub strip_prefix : Text → Text → Option Text
strip_prefix [] t = some t
strip_prefix (c ∷ p) [] = none
strip_prefix (c ∷ p) (d ∷ t) = if c == d then strip_prefix p t else none

abbrev pub sample_crypto : Crypto
sample_crypto = record {
  digest = λ s. s;
  nonce_size = 2;
  aead_seal = λ key nonce plain. key ++ plain;
  aead_open = λ key nonce ct. strip_prefix key ct;
  encode = λ t. t;
  decode = λ t. some t;
  mac = λ key message. key ++ message;
  to_hex = λ t. t;
  from_hex = λ t. some t;
}

strip_prefix-append : (p t : Text) → strip_prefix p (p ++ t) ≡ some t
unfolding strip_prefix
strip_prefix-append [] t = refl
strip_prefix-append (c ∷ p) t = ground (arith, strip_prefix-append p t)

pub sample_laws : SealLaws sample_crypto
sample_laws = record {
  decode-encode = λ t. refl;
  opens_own = λ key nonce plain. strip_prefix-append key plain;
}

abbrev pub jane : Text
jane = codes "jane@corp.example"

abbrev pub jane_data : Data
jane_data = record {
  subject = jane;
  level = codes "dba";
  expiry = pos 1000;
  provider_mode = codes "local";
}

-- A payload that carries the subject only; the rest is Jane's.
abbrev pub sample_json : Json Data
sample_json = record {
  marshal = λ d. d.subject;
  unmarshal = λ t. some (record jane_data { subject = t });
}

abbrev pub secret_text : Text
secret_text = codes "0123456789abcdef"

abbrev pub sample_codec : Codec
sample_codec = record { primary = secret_text; others = [] }

abbrev pub rotated_codec : Codec
rotated_codec = record { primary = codes "fedcba9876543210"; others = secret_text ∷ [] }

abbrev pub jane_user : User
jane_user = record {
  subject = codes "Jane@corp.example";
  level = codes "dba";
  local_password_bcrypt = codes "$2x";
}

abbrev pub sample_config : Config
sample_config = record {
  session = record {
    cookie_name = codes "s";
    cookie_secrets = secret_text ∷ [];
    max_age = pos (8 * 3600 * second);
    secure = none;
  };
  server = record {
    listen = codes ":8080";
    upstream_dial_timeout = pos (10 * second);
    upstream_response_header_timeout = pos (30 * second);
  };
  provider = record { modes = codes "local" ∷ []; oidc = none; openshift = none };
  users = jane_user ∷ [];
  routes =
      record {
        path_prefix = codes "/";
        upstream = codes "http://127.0.0.1:8081";
        min_level = codes "view";
      }
      ∷ record {
        path_prefix = codes "/pgadmin";
        upstream = codes "http://127.0.0.1:8082";
        min_level = codes "dba";
      }
      ∷ [];
  access_request = record { enabled = true; console_name = codes "main"; namespace = codes "db" };
}

abbrev pub root_route : Route
root_route = record { prefix = codes "/"; min_level = codes "view"; target = local_url }

abbrev pub pgadmin_route : Route
pgadmin_route = record { prefix = codes "/pgadmin"; min_level = codes "dba"; target = local_url }

abbrev pub sample_env : Env
sample_env = record {
  runtime = record {
    config = sample_config;
    codec = sample_codec;
    users = (jane, jane_user) ∷ [];
    routes = pgadmin_route ∷ root_route ∷ [];
  };
  access_requests = true;
  available = [];
}

abbrev pub jane_cookie : Text
jane_cookie = codes "nn" ++ (secret_text ++ jane)

abbrev pub sample_request : Request
sample_request = record {
  method = codes "GET";
  path = codes "/pgadmin/browser";
  uri = codes "/pgadmin/browser";
  query = [];
  cookies = (codes "s", jane_cookie) ∷ [];
  form = some (
      (codes "csrf", secret_text ++ (jane ++ codes "|1000"))
      ∷ (codes "message", codes "please")
      ∷ []);
  inbound = record { host = codes "console"; tls = false; client_ip = none; headers = [] };
  forwarded =
      (codes "X-Forwarded-User", codes "forged" ∷ []) ∷ (codes "Accept", codes "*/*" ∷ []) ∷ [];
}
