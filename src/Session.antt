-- ===== src/Session.antt =====
-- The sealed session cookies, internal/proxy/session/session.go. Package crypto, base64 and json are
-- parameters. `aes.NewCipher` and `cipher.NewGCM` fail only for a key of a wrong length, and every
-- key is a SHA-256 digest, so these two errors have no case here. The clock is an argument in
-- nanoseconds since the epoch, and the random nonce is an argument too.
pub mod Rotation
pub mod Csrf
pub mod Lifetime
use pg_tool_box.Common.{
  ℕ, zero, suc, Bool, true, false, Option, none, some, List, [], ◌∷◌, ◌++◌, map, Text, codes, ◌==◌,
  not, ◌&&◌, ltb, if◌then◌else◌, text_eq, length, ◌≡◌,
}
use pg_tool_box.Common.Dict
use pg_tool_box.Common.Decimal.{format_int}
use pg_tool_box.Common.Int.{ℤ, pos, negsuc, ◌+ℤ◌, ltb_ℤ, floor_div, trunc_div}
use pg_tool_box.Config.{Duration, second, is_empty}

pub record Crypto : Type 0 where
  -- sha256.Sum256
  pub digest : Text → Text
  pub nonce_size : ℕ
  -- gcm.Seal and gcm.Open, for the key, the nonce and the text
  pub aead_seal : Text → Text → Text → Text
  pub aead_open : Text → Text → Text → Option Text
  -- base64.RawURLEncoding
  pub encode : Text → Text
  pub decode : Text → Option Text
  -- hmac.New(sha256.New, key)
  pub mac : Text → Text → Text
  -- package hex
  pub to_hex : Text → Text
  pub from_hex : Text → Option Text

-- json.Marshal and json.Unmarshal at one type of payload.
pub record Json (V : Type 0) : Type 0 where
  pub marshal : V → Text
  pub unmarshal : Text → Option V

-- `Data`
pub record Data : Type 0 where
  pub subject : Text
  pub level : Text
  pub expiry : ℤ
  pub provider_mode : Text

-- `Codec`: `keys[0]`, and the other keys. `NewCodec` makes no codec without a key.
pub record Codec : Type 0 where
  pub primary : Text
  pub others : List Text

pub data NewCodec : Type 0 where
  no_secrets : NewCodec
  empty_secret : ℕ → NewCodec
  made : Codec → NewCodec

pub data OpenError : Type 0 where
  not_base64 too_short bad_payload no_key : OpenError

pub data Opened (V : Type 0) : Type 0 where
  opened : V → Opened V
  refused : OpenError → Opened V

pub data Read : Type 0 where
  no_cookie expired : Read
  unreadable : OpenError → Read
  session : Data → Read

-- The attributes of http.Cookie that the code sets; SameSite is Lax and HttpOnly true in each.
pub record Cookie : Type 0 where
  pub name : Text
  pub value : Text
  pub path : Text
  pub max_age : ℤ
  pub http_only : Bool
  pub secure : Bool
  pub same_site_lax : Bool

-- The first empty secret, if any: the loop of `NewCodec` stops there.
unfoldable pub first_empty : ℕ → List Text → Option ℕ
first_empty i [] = none
first_empty i (s ∷ rest) = if is_empty s then some i else first_empty (suc i) rest

-- `raw[:n], raw[n:]`, where `raw` has that many bytes
unfoldable pub cut_at : ℕ → Text → Option (Text × Text)
cut_at zero raw = some ([], raw)
cut_at (suc n) [] = none
cut_at (suc n) (c ∷ raw) = elim (cut_at n raw) [ none ↦ none | some (a, b) ↦ some (c ∷ a, b) ]

abbrev pub keys : Codec → List Text
keys c = c.primary ∷ c.others

module _ (k : Crypto) where
  unfoldable pub new_codec : List Text → NewCodec
  unfolding first_empty
  new_codec [] = no_secrets
  new_codec (s ∷ rest) = elim (first_empty 0 (s ∷ rest)) [
    | some i ↦ empty_secret i
    | none ↦ made (record { primary = k.digest s; others = map k.digest rest })
  ]

  module _ {V : Type 0} (j : Json V) where
    -- `Seal`; `none` is its error, and `nonce` what `rand.Read` gives.
    unfoldable pub seal : Codec → Option Text → V → Option Text
    seal c none v = none
    seal c (some nonce) v = some (k.encode (nonce ++ k.aead_seal c.primary nonce (j.marshal v)))

    unfoldable pub open_payload : Text → Opened V
    open_payload plain = elim (j.unmarshal plain) [ none ↦ refused bad_payload | some v ↦ opened v ]

    -- The loop over the keys. `nonce_ct` cuts `raw`, `none` where it is shorter than a nonce.
    unfoldable pub try_keys : Option (Text × Text) → List Text → Opened V
    unfolding open_payload
    try_keys nonce_ct [] = refused no_key
    try_keys none (key ∷ rest) = refused too_short
    try_keys (some (nonce, ct)) (key ∷ rest) =
        let next = try_keys (some (nonce, ct)) rest in
        elim (k.aead_open key nonce ct) [ none ↦ next | some plain ↦ open_payload plain ]

    unfoldable pub open_sealed : Codec → Text → Opened V
    unfolding try_keys
    open_sealed c s = elim (k.decode s) [
      | none ↦ refused not_base64
      | some raw ↦ try_keys (cut_at k.nonce_size raw) (keys c)
    ]

abbrev pub unix : ℤ → ℤ
unix now = floor_div now second

unfoldable pub new_data : ℤ → Text → Text → Text → Duration → Data
new_data now subject level provider_mode max_age = record {
  subject = subject;
  level = level;
  expiry = unix (now +ℤ max_age);
  provider_mode = provider_mode;
}

-- `Valid`
unfoldable pub is_valid : ℤ → Data → Bool
is_valid now d = not (is_empty d.subject) && ltb_ℤ (unix now) d.expiry

unfoldable pub session_cookie : Text → Bool → Duration → Text → Cookie
session_cookie name secure max_age value = record {
  name = name;
  value = value;
  path = codes "/";
  max_age = trunc_div max_age second;
  http_only = true;
  secure = secure;
  same_site_lax = true;
}

-- `ClearCookie`
unfoldable pub clear_cookie : Text → Bool → Cookie
clear_cookie name secure = record {
  name = name;
  value = [];
  path = codes "/";
  max_age = negsuc 0;
  http_only = true;
  secure = secure;
  same_site_lax = true;
}

-- `"%s|%d"`, the text that `CSRFToken` authenticates
unfoldable pub csrf_message : Data → Text
csrf_message d = d.subject ++ b'|' ∷ format_int d.expiry

module _ (k : Crypto) (j : Json Data) where
  -- `SetCookie`; `none` is its error, after which no cookie is set.
  unfoldable pub set_cookie : Codec → Option Text → Text → Bool → Duration → Data → Option Cookie
  unfolding seal session_cookie
  set_cookie c nonce name secure max_age d = elim (seal k j c nonce d) [
    | none ↦ none
    | some value ↦ some (session_cookie name secure max_age value)
  ]

  -- `ReadCookie` of a request whose cookies are the pairs of a name and a value.
  unfoldable pub read_cookie : Codec → ℤ → List (Text × Text) → Text → Read
  read_cookie c now cookies name = elim (Dict.lookup name cookies) [
    | none ↦ no_cookie
    | some value ↦ elim (open_sealed k j c value) [
      | refused e ↦ unreadable e
      | opened d ↦ if is_valid now d then session d else expired
    ]
  ]

module _ (k : Crypto) where
  -- `CSRFToken`
  unfoldable pub csrf_token : Codec → Data → Text
  csrf_token c d = k.to_hex (k.mac c.primary (csrf_message d))

  -- `ValidCSRF`; `hmac.Equal` compares the bytes.
  unfoldable pub is_valid_csrf : Codec → Data → Text → Bool
  unfolding csrf_token
  is_valid_csrf c d token = elim (k.from_hex (csrf_token c d)) [
    | none ↦ false
    | some want ↦ elim (k.from_hex token) [ none ↦ false | some got ↦ want == got ]
  ]
