-- ===== src/Console/Tokens/Generations.antt =====
-- The counter in the name of a token's Secret can be read back.
use pg_tool_box.Common.{
  ℕ, ◌^◌, ◌≤◌, ◌<◌, ◌≡◌, refl, arith, false, none, some, [], ◌∷◌, ◌++◌, Text, ◌==◌, nat_eq,
  starts_with, All, length,
}
use pg_tool_box.Common.Decimal.{
  format, atoi, parse_digits, parse_digits-format, IsDigit, format-IsDigit, is_digit,
}
use pg_tool_box.Common.Int.{pos}
use pg_tool_box.Console.Names.{
  resource_name, bounded_name, resource_infix, max_resource_name_length,
}
use pg_tool_box.Console.Tokens.{
  evidence_token_suffix, drop, after_suffix, token_generation, evidence_token_secret_name,
}

atoi_digits :
    (s : Text) (n : ℕ)
    → All IsDigit s
    → parse_digits s ≡ some n
    → n < 2 ^ 63
    → atoi s ≡ some (pos n)
unfolding atoi
atoi_digits [] n h p b = absurd (ground (arith, parse_digits))
atoi_digits (c ∷ s) n h p b = ground (arith, h.0)

atoi-format : (n : ℕ) → n < 2 ^ 63 → atoi (format n) ≡ some (pos n)
atoi-format n b = atoi_digits (format n) n (format-IsDigit n) (parse_digits-format n) b

not_dash : (c : ℕ) → IsDigit c → (c == b'-') ≡ false
unfolding is_digit
not_dash c h = ground arith

digit_no_suffix : (c : ℕ) (d : Text) → IsDigit c → starts_with (c ∷ d) evidence_token_suffix ≡ false
unfolding starts_with
digit_no_suffix c d h = rw (starts_with, not_dash c h)

after_suffix-digits : (d : Text) → All IsDigit d → after_suffix d ≡ none
unfolding after_suffix
after_suffix-digits [] h = refl
after_suffix-digits (c ∷ d) h =
    rw (after_suffix, after_suffix-digits d h.1, digit_no_suffix c d h.0)

after_suffix-suffix :
    (d : Text) → All IsDigit d → after_suffix (evidence_token_suffix ++ d) ≡ some d
unfolding after_suffix starts_with drop
after_suffix-suffix d h = ground (arith, after_suffix-digits d h)

after_suffix-append : (p t d : Text) → after_suffix t ≡ some d → after_suffix (p ++ t) ≡ some d
unfolding after_suffix
after_suffix-append [] t d h = h
after_suffix-append (c ∷ p) t d h = rw (after_suffix, after_suffix-append p t d h)

-- The name of the console's Secret of generation `n` is short enough to be kept as it is.
abbrev pub Fits : Text → ℕ → Type 0
Fits console_name n =
    length (console_name ++ (resource_infix ++ (evidence_token_suffix ++ format n)))
    ≤ max_resource_name_length

name_kept :
    (short_digest : Text → Text) (console_name : Text) (n : ℕ)
    → Fits console_name n
    → evidence_token_secret_name short_digest console_name n
      ≡ console_name ++ (resource_infix ++ (evidence_token_suffix ++ format n))
unfolding evidence_token_secret_name resource_name bounded_name
name_kept short_digest console_name n fits = ground arith

-- The generation that is read from the name of a Secret is the one that the name was made for, as
-- long as the name is not truncated and the counter is below 2^63.
pub token_generation-evidence_token_secret_name :
    (short_digest : Text → Text) (console_name : Text) (n : ℕ)
    → n < 2 ^ 63
    → Fits console_name n
    → token_generation (evidence_token_secret_name short_digest console_name n) ≡ n
unfolding token_generation
token_generation-evidence_token_secret_name short_digest console_name n small fits =
    let digits = after_suffix-suffix (format n) (format-IsDigit n) in
    let found =
      after_suffix-append console_name (resource_infix ++ (evidence_token_suffix ++ format n))
        (format n)
        (after_suffix-append resource_infix (evidence_token_suffix ++ format n) (format n)
          digits) in
    rw (name_kept short_digest console_name n fits, token_generation, found, atoi-format n small)
