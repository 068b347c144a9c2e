-- ===== src/Console/Tokens/Rotation.antt =====
-- What a reconcile does to the tokens.
use pg_tool_box.Common.{
  ℕ, zero, suc, ◌+◌, ◌^◌, ◌≤◌, ◌<◌, ◌≡◌, ◌≢◌, ◌⊎◌, inl, inr, refl, arith, true, none, some, Text,
  text_eq, nat_eq, text_beq_iff, Option-cases, Bool-cases, ltb, if◌then◌else◌,
}
use pg_tool_box.Common.Dict
use pg_tool_box.Console.Tokens.{
  Secret, Console, Store, Api, resolved, minted, is_rotation, name_of, create_evidence_token_secret,
  create_and_acknowledge, reuse, with_generation, reconcile_evidence_token,
  deployed_token_generation, token_generation,
}
use pg_tool_box.Console.Tokens.Generations.{Fits, token_generation-evidence_token_secret_name}

module _ (short_digest : Text → Text) (api : Api) (console : Console) where
  -- A Secret that is there stays as it is.
  abbrev pub Keeps : Store → Store → Type 0
  Keeps s s' =
      (n : Text) (x : Secret) → Dict.lookup n s.secrets ≡ some x → Dict.lookup n s'.secrets ≡ some x

  create-Keeps :
      (name : Text) (s s' : Store)
      → create_evidence_token_secret api console name s ≡ some s'
      → Keeps s s'
  unfolding create_evidence_token_secret
  create-Keeps name s s' h n x there = elim (Option-cases api.random_token) [
    | inl e ↦ absurd (ground arith)
    | inr (token, e) ↦ elim (Option-cases (Dict.lookup name s.secrets)) [
      | inr (old, o) ↦ ground arith
      | inl o ↦
          ground
            (arith, Dict.lookup-insert name n (minted console token) s.secrets, text_beq_iff name n)
    ]
  ]

  acknowledge-Keeps :
      (name : Text) (s : Store) → Keeps s (create_and_acknowledge api console name s).1
  unfolding create_and_acknowledge
  acknowledge-Keeps name s n x there =
      elim (Option-cases (create_evidence_token_secret api console name s)) [
        | inl e ↦ ground arith
        | inr (s', e) ↦ ground (arith, create-Keeps name s s' e n x there)
      ]

  with_generation-Keeps :
      (g : ℕ) (s : Store) → Keeps s (with_generation short_digest api console g s).1
  unfolding with_generation reuse
  with_generation-Keeps g s n x there = ground (
    arith,
    acknowledge-Keeps (name_of short_digest api console 1) s n x there,
    acknowledge-Keeps (name_of short_digest api console (g + 1)) s n x there,
  )

  -- Whatever its outcome, a reconcile changes no Secret that is there.
  pub reconcile_keeps :
      (s : Store) (n : Text) (x : Secret)
      → Dict.lookup n s.secrets ≡ some x
      → Dict.lookup n (reconcile_evidence_token short_digest api console s).1.secrets ≡ some x
  unfolding reconcile_evidence_token
  reconcile_keeps s n x there = elim (Option-cases (deployed_token_generation api s)) [
    | inl e ↦
        ground (arith, with_generation-Keeps (token_generation console.status_token) s n x there)
    | inr (d, e) ↦ ground (
      arith,
      with_generation-Keeps (token_generation console.status_token) s n x there,
      with_generation-Keeps d s n x there,
    )
  ]

  acknowledge-resolved :
      (name n : Text) (s : Store)
      → (create_and_acknowledge api console name s).0 ≡ resolved n
      → (n ≡ name)
        × (x : Secret) × (Dict.lookup n (create_and_acknowledge api console name s).1.secrets
            ≡ some x)
  unfolding create_and_acknowledge create_evidence_token_secret
  acknowledge-resolved name n s h = elim (Option-cases api.random_token) [
    | inl e ↦ absurd (ground arith)
    | inr (token, e) ↦ elim (Option-cases (Dict.lookup name s.secrets)) [
      | inr (old, o) ↦ (ground arith, old, ground arith)
      | inl o ↦ (
        ground arith,
        minted console token,
        ground (
          arith,
          Dict.lookup-insert name n (minted console token) s.secrets,
          text_beq_iff name n,
        ),
      )
    ]
  ]

  -- The generations that a switch at `g` can resolve.
  abbrev pub IsNext : ℕ → Text → Type 0
  IsNext g n =
      ((n ≡ name_of short_digest api console g) × (1 ≤ g))
      ⊎ (n ≡ name_of short_digest api console (g + 1))

  with_generation-resolved :
      (g : ℕ) (n : Text) (s : Store)
      → (with_generation short_digest api console g s).0 ≡ resolved n
      → IsNext g n
        × (x : Secret) × (Dict.lookup n (with_generation short_digest api console g s).1.secrets
            ≡ some x)
  unfolding with_generation reuse
  with_generation-resolved zero n s h =
      let (a, x, there) = acknowledge-resolved (name_of short_digest api console 1) n s h in
      (inr a, x, there)
  with_generation-resolved (suc g) n s h =
      let successor = name_of short_digest api console (suc g + 1) in
      elim (Bool-cases (is_rotation console)) [
        | inl r ↦
            let (a, x, there) = acknowledge-resolved successor n s (ground arith) in
            (inr a, x, ground arith)
        | inr r ↦
            elim (Option-cases (Dict.lookup (name_of short_digest api console (suc g)) s.secrets)) [
              | inl e ↦
                  let (a, x, there) = acknowledge-resolved successor n s (ground arith) in
                  (inr a, x, ground arith)
              | inr (x, e) ↦ (inl (ground arith, ground arith), x, ground arith)
            ]
      ]

  -- A rotation resolves the successor of the generation in the status, whatever the Deployment
  -- refers to.
  reconcile_rotates :
      (s : Store) (n : Text)
      → is_rotation console ≡ true
      → (reconcile_evidence_token short_digest api console s).0 ≡ resolved n
      → n ≡ name_of short_digest api console (token_generation console.status_token + 1)
  unfolding reconcile_evidence_token with_generation
  reconcile_rotates s n rotates h =
      let g = token_generation console.status_token in
      ground (
        arith,
        rotates,
        (acknowledge-resolved (name_of short_digest api console 1) n s),
        (acknowledge-resolved (name_of short_digest api console (g + 1)) n s),
      )

  -- What a reconcile resolves has a Secret. A rotation resolves the successor of the generation in the
  -- status, whatever the Deployment refers to. Otherwise the resolved generation is `g` or its
  -- successor, for a `g` no lower than that of the status and that of the Deployment.
  pub reconcile_resolves :
      (s : Store) (n : Text)
      → (reconcile_evidence_token short_digest api console s).0 ≡ resolved n
      → (g : ℕ) × (token_generation console.status_token ≤ g)
        × (((is_rotation console ≡ true)
              × (g ≡ token_generation console.status_token)
              × (n ≡ name_of short_digest api console (g + 1)))
            ⊎ ((d : ℕ) × (deployed_token_generation api s ≡ some d) × (d ≤ g)))
        × IsNext g n
        × (x : Secret) × (Dict.lookup n
              (reconcile_evidence_token short_digest api console s).1.secrets
            ≡ some x)
  unfolding reconcile_evidence_token
  reconcile_resolves s n h =
      let g = token_generation console.status_token in
      elim (Bool-cases (is_rotation console)) [
        | inl r ↦
            let (next, x, there) = with_generation-resolved g n s (ground arith) in
            (
              g,
              ground arith,
              inl (r, refl {a = g}, reconcile_rotates s n r h),
              next,
              x,
              ground arith,
            )
        | inr r ↦ elim (Option-cases (deployed_token_generation api s)) [
          | inl e ↦ absurd (ground arith)
          | inr (d, e) ↦
              let top = if ltb g d then d else g in
              let (next, x, there) = with_generation-resolved top n s (ground arith) in
              (top, ground arith, inr (d, e, ground arith), next, x, ground arith)
        ]
      ]

  -- The token of a console whose names are not truncated is replaced by a rotation: from the name
  -- of one generation in the status, the Secret that is resolved has another name.
  pub rotation_renews :
      (s : Store) (n : Text) (g : ℕ)
      → is_rotation console ≡ true
      → Fits console.name g
      → Fits console.name (g + 1)
      → g + 1 < 2 ^ 63
      → console.status_token ≡ name_of short_digest api console g
      → (reconcile_evidence_token short_digest api console s).0 ≡ resolved n
      → (token_generation n ≡ g + 1) × (n ≢ console.status_token)
  rotation_renews s n g rotates fits fits' small status h = ground (
    arith,
    reconcile_rotates s n rotates h,
    token_generation-evidence_token_secret_name short_digest console.name g,
    token_generation-evidence_token_secret_name short_digest console.name (g + 1),
  )

  -- Where the name of generation 1 is truncated, so that no generation can be read from it, a
  -- rotation acknowledges its annotation and resolves the Secret of the status, changing no Secret.
  pub rotation_of_truncated :
      (s : Store) (x : Secret) (token : Text)
      → is_rotation console ≡ true
      → token_generation (name_of short_digest api console 1) ≡ 0
      → console.status_token ≡ name_of short_digest api console 1
      → Dict.lookup (name_of short_digest api console 1) s.secrets ≡ some x
      → api.random_token ≡ some token
      → api.creates ≡ true
      → api.patches ≡ true
      → reconcile_evidence_token short_digest api console s
        ≡ (resolved console.status_token, record s { annotation = none })
  unfolding reconcile_evidence_token with_generation create_and_acknowledge
      create_evidence_token_secret
  rotation_of_truncated s x token rotates lost status there random creates patches = ground arith
