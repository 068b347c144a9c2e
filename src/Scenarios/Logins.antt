-- ===== src/Scenarios/Logins.antt =====
-- Logins of the sample's users.
use pg_tool_box.Common.{
  ◌≤◌, ◌≡◌, ◌≢◌, ◌++◌, inr, refl, arith, true, false, none, some, List, [], ◌∷◌, Text, codes,
  text_beq, text_eq, to_lower, trim_space, trim_left,
}
use pg_tool_box.Common.Dict
use pg_tool_box.Common.Int.{pos, floor_div, trunc_div, ◌+ℤ◌, ◌-ℤ◌}
use pg_tool_box.Config.{User, mode_local, cookie_secure}
use pg_tool_box.Providers.Limiter.{allow}
use pg_tool_box.Providers.Limiter.Bounds.{IsTimely}
use pg_tool_box.Providers.Local.Guessing.{Submission, times_of, IsGuess, tried, tried_bound}
use pg_tool_box.Providers.Local.{World, client_ip, hash_of, subject_of, admit, handle_submit}
use pg_tool_box.Providers.Local.Login.{IsLogin, handle_submit_sound, handle_submit_without_hash}
use pg_tool_box.Scenarios.Sample.{
  sample_crypto, sample_json, sample_checks, sample_env, jane, jane_user, secret_text,
}
use pg_tool_box.Server.Handlers.{issue_session, value_of}
use pg_tool_box.Server.Runtime.{Env, lookup_user}
use pg_tool_box.Session.{Cookie, new_data, set_cookie, seal, session_cookie}

abbrev peer : Text
peer = codes "10.0.0.7"

peer_is_other : peer ≢ codes "10.0.0.8"
peer_is_other h = ground arith

-- A stand-in for bcrypt: the hash is the password behind a mark.
abbrev world : World
world = record {
  compare_hash = λ hash password. text_beq hash (codes "$2" ++ password);
  split_host_port = λ address. none;
  allow_time = pos 1;
  fail_time = pos 2;
  start_time = pos 3;
  session_time = pos 4;
  nonce = some (codes "nn");
}

abbrev dummy : Text
dummy = codes "$2pgtoolbox-dummy-password"

abbrev form_of : Text → List (Text × Text)
form_of password =
    (codes "username", codes " Jane@corp.example") ∷ (codes "password", password) ∷ []

abbrev guess : Submission
guess = record { world = world; remote_addr = peer; form = form_of (codes "y") }

guess-IsTimely : IsTimely (pos 1) (times_of guess)
unfolding ◌-ℤ◌
guess-IsTimely = ((omega arith, refl), (omega arith, refl), (omega arith, refl), omega arith)

guess_wrong :
    world.compare_hash
      (hash_of dummy (lookup_user sample_env (subject_of guess.form)))
      (value_of guess.form (codes "password"))
    ≡ false
unfolding hash_of lookup_user to_lower trim_space trim_left value_of Dict.lookup text_beq
guess_wrong = refl

guess_from : client_ip world peer ≡ peer
unfolding client_ip
guess_from = refl

guess-IsGuess : IsGuess sample_crypto sample_json sample_checks dummy sample_env (pos 1) peer guess
guess-IsGuess = record { from = guess_from; timely = guess-IsTimely; wrong = inr guess_wrong }

tried_bound_example :
    tried sample_crypto sample_json sample_checks dummy sample_env (guess ∷ guess ∷ []) [] ≤ 20
tried_bound_example =
    tried_bound sample_crypto sample_json sample_checks dummy sample_env (pos 1) peer
      (guess ∷ guess ∷ []) [] (guess-IsGuess, (guess-IsGuess, tt))

-- The cookie of Jane's session.
abbrev given : Cookie
given = record {
  name = codes "s";
  value = codes "nn" ++ (secret_text ++ jane);
  path = codes "/";
  max_age = pos 28800;
  http_only = true;
  secure = true;
  same_site_lax = true;
}

jane_issued :
    issue_session sample_crypto sample_json sample_env
      (pos 4)
      (some (codes "nn"))
      (subject_of (form_of (codes "x")))
      (codes "dba")
      mode_local
    ≡ some given
unfolding issue_session set_cookie seal session_cookie cookie_secure new_data floor_div trunc_div
    ◌+ℤ◌ to_lower trim_space trim_left value_of Dict.lookup text_beq
jane_issued = refl

jane_submits :
    (handle_submit sample_crypto sample_json sample_checks world dummy sample_env peer
      (some (form_of (codes "x")))
      []).0.cookies
    ≡ given ∷ []
unfolding handle_submit client_ip allow Dict.lookup lookup_user hash_of admit issue_session
    set_cookie cookie_secure seal session_cookie new_data floor_div trunc_div ◌+ℤ◌ to_lower
    trim_space trim_left value_of text_beq
jane_submits = refl

handle_submit_sound_example :
    IsLogin sample_crypto sample_json sample_checks world dummy sample_env peer
      (some (form_of (codes "x")))
      []
      given
    × (◌≡◌ {A = List Cookie} [] [])
handle_submit_sound_example =
    handle_submit_sound sample_crypto sample_json sample_checks world dummy sample_env peer
      (some (form_of (codes "x"))) [] given [] jane_submits

-- Jane signs in with the identity provider: no hash is rendered for her.
abbrev jane_without_hash : User
jane_without_hash = record jane_user { local_password_bcrypt = [] }

abbrev bare_env : Env
bare_env = record sample_env {
  runtime = record sample_env.runtime { users = (jane, jane_without_hash) ∷ [] };
}

abbrev dummy_form : List (Text × Text)
dummy_form = form_of (codes "pgtoolbox-dummy-password")

jane_is_known : lookup_user bare_env (subject_of dummy_form) ≡ some jane_without_hash
unfolding lookup_user to_lower trim_space trim_left value_of Dict.lookup text_beq
jane_is_known = refl

dummy_matches : world.compare_hash dummy (value_of dummy_form (codes "password")) ≡ true
unfolding value_of Dict.lookup text_beq
dummy_matches = refl

bare_issued :
    issue_session sample_crypto sample_json bare_env
      (pos 4)
      (some (codes "nn"))
      (subject_of dummy_form)
      (codes "dba")
      mode_local
    ≡ some given
unfolding issue_session set_cookie seal session_cookie cookie_secure new_data floor_div trunc_div
    ◌+ℤ◌ to_lower trim_space trim_left value_of Dict.lookup text_beq
bare_issued = refl

peer_allowed : allow (pos 1) (client_ip world peer) [] ≡ true
unfolding allow client_ip Dict.lookup
peer_allowed = refl

handle_submit_without_hash_example :
    (handle_submit sample_crypto sample_json sample_checks world dummy bare_env peer
      (some dummy_form)
      []).0.cookies
    ≡ given ∷ []
handle_submit_without_hash_example =
    handle_submit_without_hash sample_crypto sample_json sample_checks world dummy bare_env peer
      dummy_form [] jane_without_hash given peer_allowed jane_is_known refl dummy_matches
      bare_issued

abbrev stranger_form : List (Text × Text)
stranger_form = (codes "username", codes "joe") ∷ (codes "password", codes "x") ∷ []

stranger_unknown : lookup_user sample_env (subject_of stranger_form) ≡ none
unfolding lookup_user to_lower trim_space trim_left value_of Dict.lookup text_beq
stranger_unknown = refl

jane_mistaken :
    world.compare_hash
      (hash_of dummy (lookup_user sample_env (subject_of (form_of (codes "y")))))
      (value_of (form_of (codes "y")) (codes "password"))
    ≡ false
unfolding hash_of lookup_user to_lower trim_space trim_left value_of Dict.lookup text_beq
jane_mistaken = refl

same_target : value_of stranger_form (codes "rd") ≡ value_of (form_of (codes "y")) (codes "rd")
unfolding value_of Dict.lookup text_beq
same_target = refl
