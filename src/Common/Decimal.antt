-- ===== src/Common/Decimal.antt =====
-- Decimal numerals: `%d` of package fmt, `strconv.Itoa` and `strconv.Atoi`.
use Prim.Native.Nat.{ℕ, zero, suc, ◌+◌, ◌-◌, ◌*◌, ◌/◌, ◌%◌, ◌^◌, ◌<◌}
use mathlib.Core.Path.{◌≡◌, refl, sym, ap, ◌∙◌}
use mathlib.Core.Logic.{◌≢◌, inl, inr}
use mathlib.Core.Bool.{Bool, true, false, ◌&&◌}
use mathlib.Core.Option.{Option, none, some}
use mathlib.Core.List.{[], ◌∷◌, ◌++◌}
use native.Mathlib.Omega.{arith}
use pg_tool_box.Common.Tests.{ltb, leb, if◌then◌else◌, ◌==◌, nat_eq, Bool-cases}
use pg_tool_box.Common.Lists.{All, All-append, All-mono}
use pg_tool_box.Common.Strings.{Text}
use pg_tool_box.Common.Int.{ℤ, pos, negsuc}

-- The digits of `n`, most significant first. The fuel `suc n` is enough, since `n / 10 < n`.
unfoldable pub format_fuel : ℕ → ℕ → Text
format_fuel zero n = []
format_fuel (suc f) n =
    let rest = format_fuel f (n / 10) in (if ltb n 10 then [] else rest) ++ (b'0' + n % 10) ∷ []

unfoldable pub format : ℕ → Text
unfolding format_fuel
format n = format_fuel (suc n) n

unfoldable pub format_int : ℤ → Text
unfolding format
format_int (pos n) = format n
format_int (negsuc n) = b'-' ∷ format (suc n)

unfoldable pub is_digit : ℕ → Bool
is_digit c = leb b'0' c && leb c b'9'

unfoldable pub scan : Text → ℕ → Option ℕ
unfolding is_digit
scan [] n = some n
scan (c ∷ s) n = let rest = scan s (n * 10 + (c - b'0')) in if is_digit c then rest else none

-- The digits of a numeral without a sign: at least one.
unfoldable pub parse_digits : Text → Option ℕ
unfolding scan
parse_digits [] = none
parse_digits (c ∷ s) = scan (c ∷ s) 0

abbrev pub bounded : ℕ → (ℕ → ℤ) → Option ℕ → Option ℤ
bounded limit sign none = none
bounded limit sign (some n) = if ltb limit n then none else some (sign n)

abbrev pub negate : ℕ → ℤ
negate zero = pos 0
negate (suc n) = negsuc n

-- `strconv.Atoi` for a 64-bit int; `none` is its error.
unfoldable pub atoi : Text → Option ℤ
unfolding parse_digits
atoi [] = none
atoi (c ∷ s) =
    if c == b'-'
    then bounded (2 ^ 63) negate (parse_digits s)
    else if c == b'+'
    then bounded (2 ^ 63 - 1) pos (parse_digits s)
    else bounded (2 ^ 63 - 1) pos (parse_digits (c ∷ s))

abbrev pub IsDigit : ℕ → Type 0
IsDigit c = is_digit c ≡ true

format_fuel-IsDigit : (f n : ℕ) → All IsDigit (format_fuel f n)
unfolding format_fuel is_digit
format_fuel-IsDigit zero n = tt
format_fuel-IsDigit (suc f) n = elim (Bool-cases (ltb n 10)) [
  | inl p ↦ rw p (ground arith, tt)
  | inr q ↦ rw q (
      All-append IsDigit (format_fuel f (n / 10)) _ (format_fuel-IsDigit f (n / 10))
        (ground arith, tt))
]

pub format-IsDigit : (n : ℕ) → All IsDigit (format n)
unfolding format
format-IsDigit n = format_fuel-IsDigit (suc n) n

abbrev then_digit : ℕ → Option ℕ → Option ℕ
then_digit d none = none
then_digit d (some v) = some (v * 10 + d)

scan-concat :
    (s : Text) (n d : ℕ) → d < 10 → scan (s ++ (b'0' + d) ∷ []) n ≡ then_digit d (scan s n)
unfolding scan
scan-concat [] n d h = ground arith
scan-concat (c ∷ s) n d h = ground (arith, scan-concat s (n * 10 + (c - b'0')) d h)

scan-format_fuel : (f n : ℕ) → n < f → scan (format_fuel f n) 0 ≡ some n
unfolding format_fuel
scan-format_fuel zero n h = elim h [ ]
scan-format_fuel (suc f) n h = elim (Bool-cases (ltb n 10)) [
  | inl p ↦ rw (p, scan-concat [] 0 (n % 10) (omega arith)) (unfold scan in ground arith)
  | inr q ↦
      rw (q, scan-concat (format_fuel f (n / 10)) 0 (n % 10) (omega arith))
        (ground (arith, scan-format_fuel f (n / 10)))
]

parse_digits-concat : (s : Text) (c : ℕ) → parse_digits (s ++ c ∷ []) ≡ scan (s ++ c ∷ []) 0
unfolding parse_digits
parse_digits-concat [] c = refl
parse_digits-concat (d ∷ s) c = refl

-- Reading back what was printed gives the number.
pub parse_digits-format : (n : ℕ) → parse_digits (format n) ≡ some n
unfolding format
parse_digits-format n =
    parse_digits-concat (if ltb n 10 then [] else format_fuel n (n / 10)) (b'0' + n % 10)
    ∙ scan-format_fuel (suc n) n (omega arith)

pub format_injective : (m n : ℕ) → format m ≡ format n → m ≡ n
format_injective m n e = cc (parse_digits-format m, parse_digits-format n, ap parse_digits e)

minus-IsDigit : (s : Text) (t : Text) → All IsDigit s → s ≢ b'-' ∷ t
unfolding is_digit
minus-IsDigit [] t h e = cc
minus-IsDigit (c ∷ s) t h e = ground arith

pub format_int_injective : (a b : ℤ) → format_int a ≡ format_int b → a ≡ b
unfolding format_int
format_int_injective (pos m) (pos n) e = ap pos (format_injective m n e)
format_int_injective (pos m) (negsuc n) e =
    absurd (minus-IsDigit (format m) (format (suc n)) (format-IsDigit m) e)
format_int_injective (negsuc m) (pos n) e =
    absurd (minus-IsDigit (format n) (format (suc m)) (format-IsDigit n) (sym e))
format_int_injective (negsuc m) (negsuc n) e =
    let p : format (suc m) ≡ format (suc n) = cc in
    let q : suc m ≡ suc n = format_injective (suc m) (suc n) p in ap negsuc (omega arith)

-- A numeral holds no character but digits and the sign.
pub format_int-Lacks :
    (a : ℤ) (d : ℕ) → is_digit d ≡ false → d ≢ b'-' → All (λ c. c ≢ d) (format_int a)
unfolding format_int
format_int-Lacks (pos n) d h m =
    All-mono IsDigit (λ c. c ≢ d) (λ c p e. cc) (format n) (format-IsDigit n)
format_int-Lacks (negsuc n) d h m = (
  λ e. m (sym e),
  All-mono IsDigit (λ c. c ≢ d) (λ c p e. cc) (format (suc n)) (format-IsDigit (suc n)),
)
