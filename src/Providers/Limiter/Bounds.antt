-- ===== src/Providers/Limiter/Bounds.antt =====
-- How many passwords a client can have compared.
use mathlib.Core.Bool.{true≢false}
use pg_tool_box.Common.{
  ℕ, ◌+◌, ◌-◌, ◌≤◌, ◌≡◌, ◌≢◌, inl, inr, arith, true, false, List, [], ◌∷◌, All, All-mono,
  Option-cases, Bool-cases, none, some, Text, text_eq, text_beq_iff, if◌then◌else◌, sym, ◌∙◌,
}
use pg_tool_box.Common.Dict
use pg_tool_box.Common.Int.{ℤ, pos, negsuc, ◌-ℤ◌, ◌≤ℤ◌, leb_ℤ}
use pg_tool_box.Providers.Limiter.{
  RateEntry, Failures, max_failures, window, is_over, allow, fail, reset, first_failure,
}

-- The clock's readings of one failing login: at the test, and at the record of the failure.
pub record Times : Type 0 where
  pub allowed : ℤ
  pub failed : ℤ
  pub started : ℤ

-- A login that fails, if it is allowed.
abbrev pub attempt : Times → Text → Failures → Failures
attempt t ip m = if allow t.allowed ip m then fail t.failed t.started ip m else m

-- Of failing logins from `ip` at the given times, the number of those that are allowed.
unfoldable pub compared : Text → List Times → Failures → ℕ
compared ip [] m = 0
compared ip (t ∷ ts) m = (if allow t.allowed ip m then 1 else 0) + compared ip ts (attempt t ip m)

-- `t` is less than a minute later than `base`, in nanoseconds.
abbrev pub IsWithin : ℤ → ℤ → Type 0
IsWithin base t = (base ≤ℤ t) × (leb_ℤ (pos 60000000000) (t -ℤ base) ≡ false)

-- The readings come in their order, within a minute from `base`.
abbrev pub IsTimely : ℤ → Times → Type 0
IsTimely base t =
    IsWithin base t.allowed
    × IsWithin base t.failed
    × IsWithin base t.started
    × (t.allowed ≤ℤ t.failed)

over_later : (t t' : ℤ) (e : RateEntry) → t ≤ℤ t' → is_over t e ≡ true → is_over t' e ≡ true
unfolding ◌-ℤ◌
over_later t t' e later over = go t t' e.window_start later over
  where
    go :
        (t t' start : ℤ)
        → t ≤ℤ t'
        → leb_ℤ window (t -ℤ start) ≡ true
        → leb_ℤ window (t' -ℤ start) ≡ true
    go (pos a) (pos b) (pos c) h k = ground arith
    go (pos a) (pos b) (negsuc c) h k = ground arith
    go (pos a) (negsuc b) (pos c) h k = ground arith
    go (pos a) (negsuc b) (negsuc c) h k = ground arith
    go (negsuc a) (pos b) (pos c) h k = ground arith
    go (negsuc a) (pos b) (negsuc c) h k = ground arith
    go (negsuc a) (negsuc b) (pos c) h k = ground arith
    go (negsuc a) (negsuc b) (negsuc c) h k = ground arith

not_over_within :
    (base t t' : ℤ) (n : ℕ)
    → IsWithin base t
    → IsWithin base t'
    → is_over t' (record { window_start = t; count = n }) ≡ false
unfolding ◌-ℤ◌
not_over_within (pos a) (pos b) (pos c) n h k = ground arith
not_over_within (pos a) (pos b) (negsuc c) n h k = ground arith
not_over_within (pos a) (negsuc b) (pos c) n h k = ground arith
not_over_within (pos a) (negsuc b) (negsuc c) n h k = ground arith
not_over_within (negsuc a) (pos b) (pos c) n h k = ground arith
not_over_within (negsuc a) (pos b) (negsuc c) n h k = ground arith
not_over_within (negsuc a) (negsuc b) (pos c) n h k = ground arith
not_over_within (negsuc a) (negsuc b) (negsuc c) n h k = ground arith

lookup-fail_new :
    (now start : ℤ) (ip : Text) (m : Failures)
    → Dict.lookup ip m ≡ none
    → Dict.lookup ip (fail now start ip m) ≡ some (first_failure start)
unfolding fail
lookup-fail_new now start ip m h =
    ground (arith, Dict.lookup-insert ip ip (first_failure start) m, text_beq_iff ip ip)

lookup-fail_over :
    (now start : ℤ) (ip : Text) (m : Failures) (e : RateEntry)
    → Dict.lookup ip m ≡ some e
    → is_over now e ≡ true
    → Dict.lookup ip (fail now start ip m) ≡ some (first_failure start)
unfolding fail
lookup-fail_over now start ip m e h o =
    ground (arith, Dict.lookup-insert ip ip (first_failure start) m, text_beq_iff ip ip)

lookup-fail_within :
    (now start : ℤ) (ip : Text) (m : Failures) (e : RateEntry)
    → Dict.lookup ip m ≡ some e
    → is_over now e ≡ false
    → Dict.lookup ip (fail now start ip m) ≡ some (record e { count = e.count + 1 })
unfolding fail
lookup-fail_within now start ip m e h o =
    ground
      (arith, Dict.lookup-insert ip ip (record e { count = e.count + 1 }) m, text_beq_iff ip ip)

-- Neither reading is past the window of the entry.
abbrev IsInside : RateEntry → Times → Type 0
IsInside e t = (is_over t.allowed e ≡ false) × (is_over t.failed e ≡ false)

-- Inside the window of the entry, the failures that it still allows.
compared_window :
    (ip : Text) (ts : List Times) (m : Failures) (e : RateEntry)
    → Dict.lookup ip m ≡ some e
    → All (IsInside e) ts
    → compared ip ts m ≤ max_failures - e.count
unfolding compared allow
compared_window ip [] m e h w = ground arith
compared_window ip (t ∷ ts) m e h w = ground (
  arith,
  lookup-fail_within t.failed t.started ip m e h w.0.1,
  compared_window ip ts m e h w.1,
  compared_window ip ts (fail t.failed t.started ip m) (record e { count = e.count + 1 }),
)

-- A new window at `start`, and every later login of the list inside it.
compared_fresh :
    (base start : ℤ) (ip : Text) (ts : List Times) (m : Failures)
    → IsWithin base start
    → All (IsTimely base) ts
    → Dict.lookup ip m ≡ some (first_failure start)
    → compared ip ts m ≤ max_failures - 1
compared_fresh base start ip ts m h w e = compared_window ip ts m (first_failure start) e (
    All-mono (IsTimely base) (IsInside (first_failure start))
      (λ t k.
        (not_over_within base start t.allowed 1 h k.0, not_over_within base start t.failed 1 h k.1))
      ts w)

compared_old :
    (base : ℤ) (ip : Text) (ts : List Times) (m : Failures) (e : RateEntry)
    → Dict.lookup ip m ≡ some e
    → All (IsTimely base) ts
    → compared ip ts m ≤ max_failures - e.count + max_failures
unfolding compared allow
compared_old base ip [] m e h w = ground arith
compared_old base ip (t ∷ ts) m e h w =
    let next = fail t.failed t.started ip m in
    elim (Bool-cases (is_over t.failed e)) [
      | inl o ↦ ground (
        arith,
        compared_old base ip ts m e h w.1,
        compared_fresh base t.started ip ts next w.0.2 w.1
            (lookup-fail_over t.failed t.started ip m e h o),
      )
      | inr o ↦ elim (Bool-cases (is_over t.allowed e)) [
        | inl early ↦ absurd (true≢false (sym (over_later t.allowed t.failed e w.0.3 early) ∙ o))
        | inr fine ↦ ground (
          arith,
          lookup-fail_within t.failed t.started ip m e h o,
          compared_old base ip ts m e h w.1,
          compared_old base ip ts next (record e { count = e.count + 1 }),
        )
      ]
    ]

compared_new :
    (base : ℤ) (ip : Text) (ts : List Times) (m : Failures)
    → Dict.lookup ip m ≡ none
    → All (IsTimely base) ts
    → compared ip ts m ≤ max_failures
unfolding compared allow
compared_new base ip [] m h w = ground arith
compared_new base ip (t ∷ ts) m h w = ground (
  arith,
  compared_fresh base t.started ip ts (fail t.failed t.started ip m) w.0.2 w.1
      (lookup-fail_new t.failed t.started ip m h),
)

-- Of failing logins from one address that follow one another, at most twenty are allowed within a
-- minute, whatever failures were recorded before.
pub compared_bound :
    (base : ℤ) (ip : Text) (ts : List Times) (m : Failures)
    → All (IsTimely base) ts
    → compared ip ts m ≤ 20
compared_bound base ip ts m w = elim (Option-cases (Dict.lookup ip m)) [
  | inl h ↦ ground (arith, compared_new base ip ts m h w)
  | inr (e, h) ↦ ground (arith, compared_old base ip ts m e h w)
]

-- A failure of one address changes nothing for another, and a success clears the address's own
-- record only.
pub allow_separate :
    (now t s : ℤ) (ip other : Text) (m : Failures)
    → ip ≢ other
    → (allow now other (fail t s ip m) ≡ allow now other m)
      × (allow now other (reset ip m) ≡ allow now other m)
      × (allow now ip (reset ip m) ≡ true)
unfolding allow fail reset
allow_separate now t s ip other m apart = (
  elim (Option-cases (Dict.lookup ip m)) [
    | inl h ↦ ground (arith, text_beq_iff ip other, Dict.lookup-insert ip other (first_failure s) m)
    | inr (e, h) ↦ ground (
      arith,
      text_beq_iff ip other,
      Dict.lookup-insert ip other (first_failure s) m,
      Dict.lookup-insert ip other (record e { count = e.count + 1 }) m,
    )
  ],
  ground (arith, text_beq_iff ip other, Dict.lookup-remove ip other m),
  ground (arith, text_beq_iff ip ip, Dict.lookup-remove ip ip m),
)
