-- ===== src/Common/Separators.antt =====
-- Texts joined by a separator: the parts can be recovered if one of them lacks the separator.
use mathlib.Core.Path.{◌≡◌, refl, sym}
use mathlib.Core.Logic.{◌≢◌}
use mathlib.Core.List.{[], ◌∷◌, ◌++◌}
use Prim.Native.Nat.{ℕ}
use pg_tool_box.Common.Lists.{All}
use pg_tool_box.Common.Strings.{Text}

abbrev pub Lacks : ℕ → Text → Type 0
Lacks d = All (λ c. c ≢ d)

not-Lacks : (d : ℕ) (xs ys : Text) → Lacks d (xs ++ d ∷ ys) → ⊥
not-Lacks d [] ys h = h.0 refl
not-Lacks d (x ∷ xs) ys h = not-Lacks d xs ys h.1

tail_eq : {x y : ℕ} {xs ys : Text} → x ∷ xs ≡ y ∷ ys → (x ≡ y) × (xs ≡ ys)
tail_eq e = (cc, cc)

-- The separator between the parts is the last one.
pub split_last_unique :
    (d : ℕ) (xs xs' ys ys' : Text)
    → Lacks d ys
    → Lacks d ys'
    → xs ++ d ∷ ys ≡ xs' ++ d ∷ ys'
    → (xs ≡ xs') × (ys ≡ ys')
split_last_unique d [] [] ys ys' h h' e = (refl, (tail_eq e).1)
split_last_unique d [] (x ∷ xs') ys ys' h h' e =
    absurd (not-Lacks d xs' ys' (rw ((tail_eq e).1) at h))
split_last_unique d (x ∷ xs) [] ys ys' h h' e =
    absurd (not-Lacks d xs ys (rw (← (tail_eq e).1) at h'))
split_last_unique d (x ∷ xs) (y ∷ xs') ys ys' h h' e =
    let (p, q) = split_last_unique d xs xs' ys ys' h h' (tail_eq e).1 in (cc (p, (tail_eq e).0), q)

-- The separator between the parts is the first one.
pub split_first_unique :
    (d : ℕ) (xs xs' ys ys' : Text)
    → Lacks d xs
    → Lacks d xs'
    → xs ++ d ∷ ys ≡ xs' ++ d ∷ ys'
    → (xs ≡ xs') × (ys ≡ ys')
split_first_unique d [] [] ys ys' h h' e = (refl, (tail_eq e).1)
split_first_unique d [] (x ∷ xs') ys ys' h h' e = absurd (h'.0 (sym (tail_eq e).0))
split_first_unique d (x ∷ xs) [] ys ys' h h' e = absurd (h.0 (tail_eq e).0)
split_first_unique d (x ∷ xs) (y ∷ xs') ys ys' h h' e =
    let (p, q) = split_first_unique d xs xs' ys ys' h.1 h'.1 (tail_eq e).1 in
    (cc (p, (tail_eq e).0), q)
