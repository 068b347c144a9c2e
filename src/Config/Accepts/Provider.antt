-- ===== src/Config/Accepts/Provider.antt =====
-- The provider modes and the settings that belong to them.
use pg_tool_box.Common.{
  Bool, true, false, List, [], ◌∷◌, ◌≡◌, ◌≢◌, ◌⊎◌, ◌↔◌, refl, arith, Text, codes, Option, none,
  some, All, Distinct, text_beq_iff, text_beq, starts_with, ◌||◌, text_eq,
}
use pg_tool_box.Config.{
  OidcConfig, OpenShiftConfig, ProviderConfig, mode_oidc, mode_local, mode_openshift,
}
use pg_tool_box.Config.Accepts.Routes.{IsWebUrl, is_absolute_url_iff}
use pg_tool_box.Config.Accepts.Seen.{is_seen-eq-false_iff, IsFresh, IsFresh-cons, IsFresh-nil}
use pg_tool_box.Config.Validate.{
  Checks, Url, is_https_url, check_modes, is_known_mode, is_seen, validate_oidc, validate_openshift,
  oidc_problems, openshift_problems, validate_provider,
}

abbrev pub IsMode : Text → Type 0
IsMode m = (m ≡ mode_oidc) ⊎ (m ≡ mode_local) ⊎ (m ≡ mode_openshift)

abbrev pub IsHttpsUrl : Option Url → Type 0
IsHttpsUrl none = ⊥
IsHttpsUrl (some u) = (u.scheme ≡ codes "https") × (u.host ≢ [])

pub record IsValidOidc (k : Checks) (o : OidcConfig) : Type 0 where
  pub issuer_named : o.issuer_url ≢ []
  pub issuer_https : IsHttpsUrl (k.parse_url o.issuer_url)
  pub client_named : o.client_id ≢ []
  pub secret_named : o.client_secret_file ≢ []
  pub redirect_web : o.redirect_url ≢ [] → IsWebUrl (k.parse_url o.redirect_url)
  pub scoped : o.scopes ≢ []
  pub claim_named : o.subject_claim ≢ []

pub record IsValidOpenShift (k : Checks) (o : OpenShiftConfig) : Type 0 where
  pub client_named : o.client_id ≢ []
  pub secret_named : o.client_secret_file ≢ []
  pub redirect_named : o.redirect_url ≢ []
  pub redirect_web : IsWebUrl (k.parse_url o.redirect_url)
  pub discovery_web : o.discovery_url ≢ [] → IsWebUrl (k.parse_url o.discovery_url)
  pub api_web : o.api_url ≢ [] → IsWebUrl (k.parse_url o.api_url)
  pub scoped : o.scopes ≢ []
  pub info_rooted : o.user_info_path ≢ [] → starts_with o.user_info_path (codes "/") ≡ true

known_iff : (m : Text) → (is_known_mode m ≡ true) ↔ IsMode m
known_iff m =
    ground
      (arith, text_beq_iff m mode_oidc, text_beq_iff m mode_local, text_beq_iff m mode_openshift)

modes_iff :
    (ms seen : List Text)
    → ((check_modes ms seen).0 ≡ []) ↔ (All IsMode ms × Distinct ms × IsFresh seen ms)
unfolding check_modes
modes_iff [] seen = (λ _. (tt, tt, tt), λ _. refl)
modes_iff (m ∷ ms) seen = ground (
  arith,
  known_iff m,
  is_seen-eq-false_iff m seen,
  modes_iff ms (m ∷ seen),
  modes_iff ms seen,
  IsFresh-cons m seen ms,
)

-- The set after the loop holds the modes that were listed.
seen_modes :
    (m : Text) (ms seen : List Text)
    → is_known_mode m ≡ true
    → is_seen m (check_modes ms seen).1 ≡ (is_seen m ms || is_seen m seen)
unfolding check_modes
seen_modes m [] seen h = refl
seen_modes m (x ∷ ms) seen h =
    ground (arith, text_beq_iff x m, seen_modes m ms (x ∷ seen) h, seen_modes m ms seen h)

https_iff : (k : Checks) (s : Text) → (is_https_url k s ≡ true) ↔ IsHttpsUrl (k.parse_url s)
unfolding is_https_url
https_iff k s = go (k.parse_url s) refl
  where
    go : (o : Option Url) → k.parse_url s ≡ o → (is_https_url k s ≡ true) ↔ IsHttpsUrl o
    go none e = ground arith
    go (some u) e = ground (arith, text_beq_iff u.scheme (codes "https"))

oidc_iff : (k : Checks) (o : OidcConfig) → (validate_oidc k o ≡ []) ↔ IsValidOidc k o
unfolding validate_oidc
oidc_iff k o = ground (arith, https_iff k o.issuer_url, is_absolute_url_iff k o.redirect_url)

openshift_iff :
    (k : Checks) (o : OpenShiftConfig) → (validate_openshift k o ≡ []) ↔ IsValidOpenShift k o
unfolding validate_openshift
openshift_iff k o = ground (
  arith,
  is_absolute_url_iff k o.redirect_url,
  is_absolute_url_iff k o.discovery_url,
  is_absolute_url_iff k o.api_url,
)

-- A provider's settings are present and valid exactly when the provider is listed.
abbrev pub Belongs : {A : Type 0} → (A → Type 0) → Bool → Option A → Type 0
Belongs P listed none = listed ≡ false
Belongs P listed (some a) = (listed ≡ true) × P a

pub record IsValidProvider (k : Checks) (p : ProviderConfig) : Type 0 where
  pub some_mode : p.modes ≢ []
  pub modes_known : All IsMode p.modes
  pub modes_distinct : Distinct p.modes
  pub oidc_belongs : Belongs (IsValidOidc k) (is_seen mode_oidc p.modes) p.oidc
  pub openshift_belongs : Belongs (IsValidOpenShift k) (is_seen mode_openshift p.modes) p.openshift

oidc_problems_iff :
    (k : Checks) (b : Bool) (o : Option OidcConfig)
    → (oidc_problems k b o ≡ []) ↔ Belongs (IsValidOidc k) b o
unfolding oidc_problems
oidc_problems_iff k true (some o) = ground (arith, oidc_iff k o)
oidc_problems_iff k false (some o) = ground arith
oidc_problems_iff k b none = ground arith

openshift_problems_iff :
    (k : Checks) (b : Bool) (o : Option OpenShiftConfig)
    → (openshift_problems k b o ≡ []) ↔ Belongs (IsValidOpenShift k) b o
unfolding openshift_problems
openshift_problems_iff k true (some o) = ground (arith, openshift_iff k o)
openshift_problems_iff k false (some o) = ground arith
openshift_problems_iff k b none = ground arith

pub provider_iff :
    (k : Checks) (p : ProviderConfig) → (validate_provider k p ≡ []) ↔ IsValidProvider k p
unfolding validate_provider text_beq
provider_iff k p =
    rw (seen_modes mode_oidc p.modes [] refl, seen_modes mode_openshift p.modes [] refl)
      (ground (
        arith,
        modes_iff p.modes [],
        IsFresh-nil p.modes,
        oidc_problems_iff k (is_seen mode_oidc p.modes || false) p.oidc,
        openshift_problems_iff k (is_seen mode_openshift p.modes || false) p.openshift,
      ))
