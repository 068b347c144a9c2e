-- ===== src/Server/Handlers/Requests.antt =====
-- Which access requests reach the Kubernetes API.
use pg_tool_box.Common.{
  ℕ, ◌≡◌, ◌≢◌, refl, arith, true, Option, none, some, List, [], ◌∷◌, Text, codes, ◌≤◌, length,
  length-take,
}
use pg_tool_box.Common.Int.{ℤ}
use pg_tool_box.Server.Handlers.{
  Request, confirmation, AccessRequest, access_request_of, Created, created_response, submit_form,
  request_access, handle_access_request, value_of, truncate_runes, max_message_runes, read_session,
}
use pg_tool_box.Server.Runtime.{Env}
use pg_tool_box.Session.{Crypto, Json, Data, Read, session, is_valid_csrf}

truncate_runes_bound : (s : Text) (n : ℕ) → length (truncate_runes s n) ≤ n
unfolding truncate_runes
truncate_runes_bound s n = ground (arith, length-take n s)

-- Why an object was created: the feature is on, and a verified session posted its own form token.
pub record IsEntitled (k : Crypto) (j : Json Data) (e : Env) (now : ℤ) (r : Request)
    (x : AccessRequest) : Type 0 where
  pub user : Data
  pub read : read_session k j e now r ≡ session user
  pub enabled : e.runtime.config.access_request.enabled ≡ true
  pub wired : e.access_requests ≡ true
  pub form : List (Text × Text)
  pub posted : r.form ≡ some form
  pub token_valid : is_valid_csrf k e.runtime.codec user (value_of form (codes "csrf")) ≡ true
  pub own_subject : x.subject ≡ user.subject
  pub own_console : x.console ≡ e.runtime.config.access_request.console_name
  pub own_namespace : x.namespace ≡ e.runtime.config.access_request.namespace
  pub bounded : length x.message ≤ max_message_runes

module _ (k : Crypto) (create : AccessRequest → Created) (e : Env) where
  submit_form_sound :
      (s : Data) (form : Option (List (Text × Text))) (x : AccessRequest) (xs : List AccessRequest)
      → (submit_form k create e s form).1 ≡ x ∷ xs
      → (f : List (Text × Text)) × (form ≡ some f)
        × (is_valid_csrf k e.runtime.codec s (value_of f (codes "csrf")) ≡ true)
        × (x.subject ≡ s.subject)
        × (x.console ≡ e.runtime.config.access_request.console_name)
        × (x.namespace ≡ e.runtime.config.access_request.namespace)
        × (length x.message ≤ max_message_runes)
        × (xs ≡ [])
  unfolding submit_form
  submit_form_sound s none x xs h = absurd (ground arith)
  submit_form_sound s (some f) x xs h = (
    f,
    refl,
    ground arith,
    ground arith,
    ground arith,
    ground arith,
    ground (arith, truncate_runes_bound (value_of f (codes "message")) max_message_runes),
    ground arith,
  )

  request_access_sound :
      (r : Request) (y : Read) (x : AccessRequest) (xs : List AccessRequest)
      → (request_access k create e r y).1 ≡ x ∷ xs
      → (s : Data) × (y ≡ session s)
        × (e.runtime.config.access_request.enabled ≡ true)
        × (e.access_requests ≡ true)
        × ((submit_form k create e s r.form).1 ≡ x ∷ xs)
  unfolding request_access
  request_access_sound r (session s) x xs h = (s, refl, ground arith, ground arith, ground arith)
  request_access_sound r _ x xs h = absurd (ground arith)

-- At most one object is created for a POST, and only for a verified session that sent its own form
-- token while the feature is on; it names the session's subject, the configured console and
-- namespace, and a message of at most 1024 characters.
pub handle_access_request_sound :
    (k : Crypto) (j : Json Data) (create : AccessRequest → Created) (e : Env) (now : ℤ)
    (r : Request) (x : AccessRequest) (xs : List AccessRequest)
    → (handle_access_request k j create e now r).1 ≡ x ∷ xs
    → IsEntitled k j e now r x × (xs ≡ [])
unfolding handle_access_request
handle_access_request_sound k j create e now r x xs h =
    let (s, read, enabled, wired, sent) =
      request_access_sound k create e r (read_session k j e now r) x xs h in
    let (f, posted, valid, subject, console, namespace, bounded, single) =
      submit_form_sound k create e s r.form x xs sent in
    (
      record {
        user = s;
        read = read;
        enabled = enabled;
        wired = wired;
        form = f;
        posted = posted;
        token_valid = valid;
        own_subject = subject;
        own_console = console;
        own_namespace = namespace;
        bounded = bounded;
      },
      single,
    )

confirmed :
    (y : Created) (s t : Text)
    → (created_response s y).body ≡ confirmation t
    → (y ≢ Created.failed) × (s ≡ t)
confirmed Created.failed s t h = cc
confirmed _ s t h = (λ e. cc, cc)

submit_form_confirms :
    (k : Crypto) (create : AccessRequest → Created) (e : Env) (s : Data)
    (form : Option (List (Text × Text))) (subject : Text)
    → (submit_form k create e s form).0.body ≡ confirmation subject
    → (x : AccessRequest) × ((submit_form k create e s form).1 ≡ x ∷ [])
      × (create x ≢ Created.failed)
      × (x.subject ≡ subject)
unfolding submit_form
submit_form_confirms k create e s none subject h = absurd (ground arith)
submit_form_confirms k create e s (some f) subject h =
    let x = access_request_of e s f in
    let c : (created_response s.subject (create x)).body ≡ confirmation subject = ground arith in
    let (ok, same) = confirmed (create x) s.subject subject c in (x, ground arith, ok, same)

request_access_confirms :
    (k : Crypto) (create : AccessRequest → Created) (e : Env) (r : Request) (y : Read)
    (subject : Text)
    → (request_access k create e r y).0.body ≡ confirmation subject
    → (x : AccessRequest) × ((request_access k create e r y).1 ≡ x ∷ [])
      × (create x ≢ Created.failed)
      × (x.subject ≡ subject)
unfolding request_access
request_access_confirms k create e r (session s) subject h =
    let (x, made, ok, same) = submit_form_confirms k create e s r.form subject (ground arith) in
    (x, ground arith, ok, same)
request_access_confirms k create e r _ subject h = absurd (ground arith)

-- The page that confirms a request is shown only after an object was asked for and the API server
-- created it or said that one is already there.
pub handle_access_request_confirms :
    (k : Crypto) (j : Json Data) (create : AccessRequest → Created) (e : Env) (now : ℤ)
    (r : Request) (subject : Text)
    → (handle_access_request k j create e now r).0.body ≡ confirmation subject
    → (x : AccessRequest) × ((handle_access_request k j create e now r).1 ≡ x ∷ [])
      × (create x ≢ Created.failed)
      × (x.subject ≡ subject)
unfolding handle_access_request
handle_access_request_confirms k j create e now r subject h =
    request_access_confirms k create e r (read_session k j e now r) subject h
