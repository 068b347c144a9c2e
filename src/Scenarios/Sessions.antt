-- ===== src/Scenarios/Sessions.antt =====
-- Sealing, rotation and form tokens at the sample's session.
use pg_tool_box.Common.{◌*◌, ◌≡◌, ◌↔◌, refl, true, none, some, [], ◌∷◌, ◌++◌, codes, if◌then◌else◌}
use pg_tool_box.Common.Int.{pos, ltb_ℤ, trunc_div}
use pg_tool_box.Config.{second}
use pg_tool_box.Scenarios.Sample.{
  sample_crypto, sample_json, sample_laws, sample_codec, rotated_codec, jane_data, jane_cookie,
  secret_text, jane, strip_prefix,
}
use pg_tool_box.Session.{
  Cookie, session, expired, opened, seal, open_sealed, set_cookie, read_cookie, csrf_token,
  is_valid_csrf, unix,
}
use pg_tool_box.Session.Rotation.{open_sealed-seal}
use pg_tool_box.Session.Lifetime.{set_cookie_lifetime}
use pg_tool_box.Session.Csrf.{csrf_binds_session}

foreign_key : strip_prefix (codes "fedcba9876543210") (secret_text ++ jane) ≡ none
unfolding strip_prefix
foreign_key = refl

sealed :
    seal sample_crypto sample_json sample_codec (some (codes "nn")) jane_data ≡ some jane_cookie
unfolding seal
sealed = refl

open_sealed-seal_example :
    open_sealed sample_crypto sample_json rotated_codec jane_cookie ≡ opened jane_data
open_sealed-seal_example =
    open_sealed-seal sample_crypto sample_json sample_codec rotated_codec (codes "nn") jane_data
      jane_cookie (codes "fedcba9876543210" ∷ []) [] sample_laws refl refl refl (foreign_key, tt)
      sealed

abbrev issued : Cookie
issued = record {
  name = codes "s";
  value = jane_cookie;
  path = codes "/";
  max_age = pos 60;
  http_only = true;
  secure = true;
  same_site_lax = true;
}

issued_lem :
    set_cookie sample_crypto sample_json sample_codec
      (some (codes "nn"))
      (codes "s")
      true
      (pos (60 * second))
      jane_data
    ≡ some issued
unfolding set_cookie trunc_div
issued_lem = refl

set_cookie_lifetime_example :
    read_cookie sample_crypto sample_json sample_codec
      (pos (999 * second))
      ((issued.name, issued.value) ∷ [])
      (codes "s")
    ≡ (if ltb_ℤ (unix (pos (999 * second))) jane_data.expiry then session jane_data else expired)
set_cookie_lifetime_example =
    set_cookie_lifetime sample_crypto sample_json sample_codec (codes "nn") (codes "s") true
      (pos (60 * second)) jane_data issued (pos (999 * second)) [] sample_laws refl refl (λ e. cc)
      issued_lem

csrf_binds_session_example :
    (is_valid_csrf sample_crypto sample_codec jane_data
        (csrf_token sample_crypto sample_codec jane_data)
      ≡ true)
    ↔ ((jane_data.subject ≡ jane_data.subject) × (jane_data.expiry ≡ jane_data.expiry))
csrf_binds_session_example =
    csrf_binds_session sample_crypto sample_codec jane_data jane_data (λ t. refl) (λ e. refl)
