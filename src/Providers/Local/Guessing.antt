-- ===== src/Providers/Local/Guessing.antt =====
-- How many passwords a client can try.
use mathlib.Core.Path.{subst}
use pg_tool_box.Common.{
  ℕ, ◌+◌, ◌≤◌, ◌≡◌, ◌⊎◌, inl, inr, refl, arith, Bool, true, false, none, some, List, [], ◌∷◌, map,
  Text, codes, All, Bool-cases, Option-cases, ◌==◌, nat_eq, if◌then◌else◌, ap, sym,
}
use pg_tool_box.Common.Int.{ℤ}
use pg_tool_box.Config.Validate.{Checks}
use pg_tool_box.Providers.Limiter.{Failures, allow, fail}
use pg_tool_box.Providers.Limiter.Bounds.{Times, IsTimely, compared, compared_bound}
use pg_tool_box.Providers.Local.{World, client_ip, hash_of, subject_of, handle_submit, refuse}
use pg_tool_box.Server.Handlers.{Body, error_page, respond, value_of}
use pg_tool_box.Server.Redirect.{safe_redirect}
use pg_tool_box.Server.Runtime.{Env, lookup_user}
use pg_tool_box.Session.{Crypto, Json, Data}

-- A submitted form, with the answers that its handling meets.
pub record Submission : Type 0 where
  pub world : World
  pub remote_addr : Text
  pub form : List (Text × Text)

-- The answer to a client that is over the limit.
abbrev pub is_too_many : Body → Bool
is_too_many (error_page status) = status == 429
is_too_many _ = false

abbrev pub times_of : Submission → Times
times_of x = record {
  allowed = x.world.allow_time;
  failed = x.world.fail_time;
  started = x.world.start_time;
}

module _ (k : Crypto) (j : Json Data) (c : Checks) (dummy : Text) (e : Env) where
  -- Of submissions that are handled one after another, the number of those that pass the limiter.
  abbrev pub tried : List Submission → Failures → ℕ
  tried [] m = 0
  tried (x ∷ xs) m =
      let (answer, next) = handle_submit k j c x.world dummy e x.remote_addr (some x.form) m in
      (if is_too_many answer.body then 0 else 1) + tried xs next

  -- A wrong guess from `ip` within a minute from `base`: the user is not known, or the password does
  -- not match the hash that it is compared with.
  pub record IsGuess (base : ℤ) (ip : Text) (x : Submission) : Type 0 where
    pub from : client_ip x.world x.remote_addr ≡ ip
    pub timely : IsTimely base (times_of x)
    pub wrong :
        (lookup_user e (subject_of x.form) ≡ none)
        ⊎ (x.world.compare_hash
              (hash_of dummy (lookup_user e (subject_of x.form)))
              (value_of x.form (codes "password"))
            ≡ false)

  limited_lem :
      (x : Submission) (m : Failures)
      → allow x.world.allow_time (client_ip x.world x.remote_addr) m ≡ false
      → handle_submit k j c x.world dummy e x.remote_addr (some x.form) m
        ≡ (respond (error_page 429), m)
  unfolding handle_submit
  limited_lem x m h = ground arith

  refused_lem :
      (x : Submission) (m : Failures)
      → allow x.world.allow_time (client_ip x.world x.remote_addr) m ≡ true
      → (lookup_user e (subject_of x.form) ≡ none)
        ⊎ (x.world.compare_hash
              (hash_of dummy (lookup_user e (subject_of x.form)))
              (value_of x.form (codes "password"))
            ≡ false)
      → handle_submit k j c x.world dummy e x.remote_addr (some x.form) m
        ≡ refuse x.world e
            (client_ip x.world x.remote_addr)
            (safe_redirect c (value_of x.form (codes "rd")))
            m
  unfolding handle_submit
  refused_lem x m h wrong = elim (Option-cases (lookup_user e (subject_of x.form))) [
    | inl unknown ↦ rw (handle_submit, h, unknown) refl
    | inr (u, known) ↦ elim wrong [ inl n ↦ absurd (ground arith) | inr w ↦ ground arith ]
  ]

  tried-compared :
      (base : ℤ) (ip : Text) (xs : List Submission) (m : Failures)
      → All (IsGuess base ip) xs
      → tried xs m ≡ compared ip (map times_of xs) m
  unfolding compared
  tried-compared base ip [] m h = refl
  tried-compared base ip (x ∷ xs) m h =
      let own = client_ip x.world x.remote_addr in
      let next = fail x.world.fail_time x.world.start_time own m in
      let later : (n : Failures) → tried xs n ≡ compared own (map times_of xs) n = λ n.
        subst (λ i. tried xs n ≡ compared i (map times_of xs) n) (sym h.0.from)
          (tried-compared base ip xs n h.1) in
      subst (λ i. tried (x ∷ xs) m ≡ compared i (map times_of (x ∷ xs)) m) h.0.from
        (elim (Bool-cases (allow x.world.allow_time own m)) [
          | inl fine ↦
              rw (compared, refused_lem x m fine h.0.wrong, fine) (ap (λ n. 1 + n) (later next))
          | inr over ↦ rw (compared, limited_lem x m over, over) (ap (λ n. 0 + n) (later m))
        ])

  all-IsTimely :
      (base : ℤ) (ip : Text) (xs : List Submission)
      → All (IsGuess base ip) xs
      → All (IsTimely base) (map times_of xs)
  all-IsTimely base ip [] h = tt
  all-IsTimely base ip (x ∷ xs) h = (h.0.timely, all-IsTimely base ip xs h.1)

  -- Of wrong guesses from one client address that are handled one after another within a minute, at
  -- most twenty pass the limiter and have a password compared, whatever failures were recorded
  -- before; each other one is answered with status 429. The clock does not run backwards within a
  -- submission.
  pub tried_bound :
      (base : ℤ) (ip : Text) (xs : List Submission) (m : Failures)
      → All (IsGuess base ip) xs
      → tried xs m ≤ 20
  tried_bound base ip xs m h =
      rw (tried-compared base ip xs m h)
        (compared_bound base ip (map times_of xs) m (all-IsTimely base ip xs h))
