-- ===== src/Providers/Local/Login.antt =====
-- Who the login form admits.
use pg_tool_box.Common.{
  ◌≡◌, inl, inr, refl, arith, true, false, List, [], ◌∷◌, Option-cases, Bool-cases, Option, none,
  some, Text, codes,
}
use pg_tool_box.Config.{User, mode_local}
use pg_tool_box.Config.Validate.{Checks}
use pg_tool_box.Providers.Limiter.{Failures, allow}
use pg_tool_box.Providers.Local.{World, client_ip, hash_of, subject_of, admit, handle_submit}
use pg_tool_box.Server.Handlers.{issue_session, value_of}
use pg_tool_box.Server.Redirect.{safe_redirect}
use pg_tool_box.Server.Runtime.{Env, lookup_user}
use pg_tool_box.Session.{Crypto, Json, Data, Cookie}

module _ (k : Crypto) (j : Json Data) (c : Checks) (w : World) (dummy : Text) (e : Env) where
  -- A login that is entitled to the session of the cookie.
  pub record IsLogin (remote_addr : Text) (parsed : Option (List (Text × Text))) (m : Failures)
      (cookie : Cookie) : Type 0 where
    pub form : List (Text × Text)
    pub user : User
    pub is_parsed : parsed ≡ some form
    pub is_allowed : allow w.allow_time (client_ip w remote_addr) m ≡ true
    pub is_known : lookup_user e (subject_of form) ≡ some user
    pub is_matched :
        w.compare_hash (hash_of dummy (some user)) (value_of form (codes "password")) ≡ true
    pub is_issued :
        issue_session k j e w.session_time w.nonce (subject_of form) user.level mode_local
        ≡ some cookie

  admit_issued :
      (rd subject : Text) (u : User) (cookie : Cookie) (cs : List Cookie)
      → (admit k j w e rd subject u).cookies ≡ cookie ∷ cs
      → (issue_session k j e w.session_time w.nonce subject u.level mode_local ≡ some cookie)
        × (cs ≡ [])
  unfolding admit
  admit_issued rd subject u cookie cs h =
      elim (Option-cases (issue_session k j e w.session_time w.nonce subject u.level mode_local)) [
        | inl n ↦ ground arith
        | inr (x, n) ↦ ground arith
      ]

  -- A submission sets a cookie only for a user of the runtime, at that user's level, while the
  -- limiter allows its address, with a password that matches the hash it is compared with: the
  -- user's own one, or the dummy hash where the user has none.
  pub handle_submit_sound :
      (remote_addr : Text) (parsed : Option (List (Text × Text))) (m : Failures) (cookie : Cookie)
      (cs : List Cookie)
      → (handle_submit k j c w dummy e remote_addr parsed m).0.cookies ≡ cookie ∷ cs
      → IsLogin remote_addr parsed m cookie × (cs ≡ [])
  unfolding handle_submit
  handle_submit_sound remote_addr none m cookie cs h = ground arith
  handle_submit_sound remote_addr (some form) m cookie cs h =
      elim (Bool-cases (allow w.allow_time (client_ip w remote_addr) m)) [
        | inr denied ↦ ground arith
        | inl fine ↦ elim (Option-cases (lookup_user e (subject_of form))) [
          | inl unknown ↦ ground arith
          | inr (u, known) ↦
              elim (Bool-cases
                (w.compare_hash (hash_of dummy (some u)) (value_of form (codes "password")))) [
                  | inr wrong ↦ ground arith
                  | inl right ↦
                      let issued =
                        admit_issued (safe_redirect c (value_of form (codes "rd")))
                          (subject_of form) u cookie cs (ground arith) in
                      (
                        record {
                          form = form;
                          user = u;
                          is_parsed = refl;
                          is_allowed = fine;
                          is_known = known;
                          is_matched = right;
                          is_issued = issued.0;
                        },
                        issued.1,
                      )
                ]
        ]
      ]

  -- A password that the dummy hash accepts logs in every known user that has no hash of its own,
  -- as long as the limiter allows the address and the session can be sealed.
  pub handle_submit_without_hash :
      (remote_addr : Text) (form : List (Text × Text)) (m : Failures) (u : User) (cookie : Cookie)
      → allow w.allow_time (client_ip w remote_addr) m ≡ true
      → lookup_user e (subject_of form) ≡ some u
      → u.local_password_bcrypt ≡ []
      → w.compare_hash dummy (value_of form (codes "password")) ≡ true
      → issue_session k j e w.session_time w.nonce (subject_of form) u.level mode_local
        ≡ some cookie
      → (handle_submit k j c w dummy e remote_addr (some form) m).0.cookies ≡ cookie ∷ []
  unfolding handle_submit hash_of admit
  handle_submit_without_hash remote_addr form m u cookie fine known bare right issued = ground arith

  -- An identity that is unknown and one whose password is wrong get the same answer and leave the
  -- same record, if both forms name the same redirect target.
  pub handle_submit_uniform :
      (remote_addr : Text) (f g : List (Text × Text)) (m : Failures)
      → value_of f (codes "rd") ≡ value_of g (codes "rd")
      → lookup_user e (subject_of f) ≡ none
      → w.compare_hash
          (hash_of dummy (lookup_user e (subject_of g)))
          (value_of g (codes "password"))
        ≡ false
      → handle_submit k j c w dummy e remote_addr (some f) m
        ≡ handle_submit k j c w dummy e remote_addr (some g) m
  unfolding handle_submit
  handle_submit_uniform remote_addr f g m same unknown wrong =
      elim (Option-cases (lookup_user e (subject_of g))) [
        | inl n ↦ ground arith
        | inr (u, n) ↦ ground arith
      ]
