-- ===== src/Console/Objects.antt =====
-- The objects that the controllers read and write, from api/v1alpha1: the fields of a console and of
-- a user on which the code decides, and what the API server answers. A pointer that may be nil is an
-- `Option`, a pointer to an empty struct a Boolean.
use pg_tool_box.Common.{Bool, if◌then◌else◌, Option, none, some, List, Text, text_eq}
use pg_tool_box.Common.Dict
use pg_tool_box.Config.{Level}

pub record SecretKeyReference : Type 0 where
  pub name : Text
  pub key : Text

pub record BootstrapAdmin : Type 0 where
  pub subject : Text
  pub password_secret_ref : Option SecretKeyReference

pub record OidcAuthentication : Type 0 where
  pub issuer_url : Text
  pub client_id : Text
  pub client_secret_ref : SecretKeyReference

-- `local` and `openshift` tell whether their pointers are set.
pub record Authentication : Type 0 where
  pub bootstrap_admin : BootstrapAdmin
  pub local : Bool
  pub oidc : Option OidcAuthentication
  pub openshift : Bool

pub record PgAdmin : Type 0 where
  pub enabled : Option Bool
  pub access_min_level : Text

pub record PgConsole : Type 0 where
  pub name : Text
  pub namespace : Text
  pub uid : Text
  pub authentication : Authentication
  pub pg_admin : PgAdmin
  -- `Spec.Exposure.Hostname`
  pub hostname : Text

pub record UserSpec : Type 0 where
  pub console_ref : Text
  pub subject : Text
  pub level : Level
  pub local_password_secret_ref : Option SecretKeyReference

-- `owner` is the UID of the object's controller.
pub record PgToolBoxUser : Type 0 where
  pub name : Text
  pub labels : List (Text × Text)
  pub owner : Option Text
  pub spec : UserSpec

-- What `Get` answers: `missing` is the error that `IsNotFound` recognises, `unavailable` any other.
pub data Fetched {ℓ} (A : Type ℓ) : Type ℓ where
  found : A → Fetched A
  missing unavailable : Fetched A

-- What `Create` answers for an object that the caller did not find.
pub data Created : Type 0 where
  created already_exists not_created : Created

abbrev pub fetched {ℓ} : {A : Type ℓ} → Option A → Fetched A
fetched none = missing
fetched (some a) = found a

-- `Get` by name; without `reads` it fails.
unfoldable pub get {ℓ} : {A : Type ℓ} → Bool → Text → List (Text × A) → Fetched A
get reads name objects = if reads then fetched (Dict.lookup name objects) else unavailable
