-- ===== src/Console/Users/Subjects.antt =====
-- The rejection of duplicate subjects.
use pg_tool_box.Common.{
  true, false, List, [], ◌∷◌, ◌≡◌, ◌≢◌, inl, inr, arith, Text, map, text_eq, text_beq_iff, ◌==◌,
  All, Distinct, Member, head, tail, Bool-cases, to_lower, All-mono, All-Member, sym, beq→ne,
}
use pg_tool_box.Config.Accepts.Users.{user_key}
use pg_tool_box.Config.Validate.{is_seen}
use pg_tool_box.Console.Users.{
  ResolvedConsoleUser, proxy_included, key_of, claim, mark_duplicate, reject_duplicates,
  proxy_users,
}
use pg_tool_box.Console.Users.Order.{IsLed}

-- A user that is rendered has a subject outside `seen`.
abbrev IsFreshFor : List Text → ResolvedConsoleUser → Type 0
IsFreshFor seen u = proxy_included u ≡ true → is_seen (key_of u) seen ≡ false

-- A user that is not excluded is rendered under its own subject.
abbrev pub IsFaithful : ResolvedConsoleUser → Type 0
IsFaithful u = proxy_included u ≡ true → u.proxy_user.subject ≡ u.user.spec.subject

module _ (bootstrap : Text) where
  claim_stays :
      (key : Text) (seen : List Text) (u : ResolvedConsoleUser)
      → is_seen key seen ≡ true
      → is_seen key (claim bootstrap seen u) ≡ true
  unfolding claim
  claim_stays key seen u h = ground arith

  claim_own :
      (seen : List Text) (u : ResolvedConsoleUser)
      → proxy_included u ≡ true
      → is_seen (key_of u) (claim bootstrap seen u) ≡ true
  unfolding claim
  claim_own seen u h = ground (arith, text_beq_iff (key_of u) (key_of u))

  claim_marked :
      (seen : List Text) (u : ResolvedConsoleUser)
      → proxy_included (mark_duplicate seen u) ≡ true
      → is_seen (key_of (mark_duplicate seen u)) (claim bootstrap seen u) ≡ true
  unfolding mark_duplicate proxy_included
  claim_marked seen u h = ground (arith, claim_own seen u)

  -- The subject of the bootstrap admin is claimed, whether or not it is rendered.
  claim_bootstrap :
      (seen : List Text) (u : ResolvedConsoleUser)
      → u.user.name ≡ bootstrap
      → IsFaithful u
      → is_seen (to_lower u.user.spec.subject) (claim bootstrap seen u) ≡ true
  unfolding claim
  claim_bootstrap seen u n h = ground (
    arith,
    text_beq_iff u.user.name bootstrap,
    text_beq_iff (to_lower u.user.spec.subject) (to_lower u.user.spec.subject),
  )

  mark_user : (seen : List Text) (u : ResolvedConsoleUser) → (mark_duplicate seen u).user ≡ u.user
  unfolding mark_duplicate
  mark_user seen u = ground arith

  mark_duplicate-IsFreshFor :
      (seen : List Text) (u : ResolvedConsoleUser) → IsFreshFor seen (mark_duplicate seen u)
  unfolding mark_duplicate proxy_included
  mark_duplicate-IsFreshFor seen u h = ground arith

  reject_duplicates-IsFreshFor :
      (key : Text) (seen : List Text) (l : List ResolvedConsoleUser)
      → is_seen key seen ≡ true
      → All (λ u. proxy_included u ≡ true → key ≢ key_of u) (reject_duplicates bootstrap seen l)
  unfolding reject_duplicates
  reject_duplicates-IsFreshFor key seen [] h = tt
  reject_duplicates-IsFreshFor key seen (u ∷ l) h = (
    λ i e. absurd (cc (mark_duplicate-IsFreshFor seen u i, h, e)),
    reject_duplicates-IsFreshFor key (claim bootstrap seen u) l (claim_stays key seen u h),
  )

  -- What is rendered of a list keeps off the keys that its users keep off.
  proxy_users-avoid :
      (key : Text) (l : List ResolvedConsoleUser)
      → All (λ u. proxy_included u ≡ true → key ≢ key_of u) l
      → All (λ k. key ≢ k) (map user_key (proxy_users l))
  unfolding proxy_users
  proxy_users-avoid key [] h = tt
  proxy_users-avoid key (u ∷ l) h = elim (Bool-cases (proxy_included u)) [
    | inl e ↦ rw e (h.0 e, proxy_users-avoid key l h.1)
    | inr e ↦ rw e (proxy_users-avoid key l h.1)
  ]

  pub reject_duplicates-Distinct :
      (seen : List Text) (l : List ResolvedConsoleUser)
      → Distinct (map user_key (proxy_users (reject_duplicates bootstrap seen l)))
  unfolding reject_duplicates proxy_users
  reject_duplicates-Distinct seen [] = tt
  reject_duplicates-Distinct seen (u ∷ l) =
      let rest = reject_duplicates-Distinct (claim bootstrap seen u) l in
      elim (Bool-cases (proxy_included (mark_duplicate seen u))) [
        | inr e ↦ rw e rest
        | inl e ↦ rw e (
          proxy_users-avoid (key_of (mark_duplicate seen u))
              (reject_duplicates bootstrap (claim bootstrap seen u) l)
              (reject_duplicates-IsFreshFor (key_of (mark_duplicate seen u))
                (claim bootstrap seen u) l (claim_marked seen u e)),
          rest,
        )
      ]

  -- No user but the bootstrap admin is rendered under the subject of the bootstrap admin.
  pub bootstrap_subject :
      (seen : List Text) (l : List ResolvedConsoleUser) (v : ResolvedConsoleUser)
      → IsLed bootstrap l
      → All IsFaithful l
      → Member v l
      → v.user.name ≡ bootstrap
      → All
          (λ u.
            proxy_included u ≡ true
            → key_of u ≡ to_lower v.user.spec.subject
            → u.user.name ≡ bootstrap)
          (reject_duplicates bootstrap seen l)
  unfolding reject_duplicates
  bootstrap_subject seen [] v led faithful at name = tt
  bootstrap_subject seen (u ∷ l) v led faithful head name = (
    λ i e. cc (mark_user seen u, name),
    All-mono (λ w. proxy_included w ≡ true → to_lower v.user.spec.subject ≢ key_of w)
        (λ w.
          proxy_included w ≡ true
          → key_of w ≡ to_lower v.user.spec.subject
          → w.user.name ≡ bootstrap)
        (λ w off i e. absurd (off i (sym e)))
        (reject_duplicates bootstrap (claim bootstrap seen u) l)
        (reject_duplicates-IsFreshFor (to_lower v.user.spec.subject) (claim bootstrap seen u) l
          (claim_bootstrap seen u name faithful.0)),
  )
  bootstrap_subject seen (u ∷ l) v led faithful (tail at) name = (
    λ i e. elim (Bool-cases (u.user.name == bootstrap)) [
      | inl p ↦ cc (mark_user seen u, (text_beq_iff u.user.name bootstrap).0 p)
      | inr q ↦ absurd (
          All-Member (λ w. w.user.name ≢ bootstrap) l (led.0 (beq→ne u.user.name bootstrap q)) at
            name)
    ],
    bootstrap_subject (claim bootstrap seen u) l v led.1 faithful.1 at name,
  )
