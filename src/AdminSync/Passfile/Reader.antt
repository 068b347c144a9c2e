-- ===== src/AdminSync/Passfile/Reader.antt =====
-- What libpq reads from a line.
use mathlib.Core.Path.{subst}
use pg_tool_box.Common.{
  ℕ, ◌≡◌, ◌≢◌, refl, arith, Option, none, some, List, [], ◌∷◌, ◌++◌, Text, ◌==◌, nat_eq,
  nat_beq_iff, if◌then◌else◌, ap, sym, Bool-cases, inl, inr, zero, suc,
}
use pg_tool_box.Common.Decimal.{format_int, format_int-Lacks, is_digit}
use pg_tool_box.Common.Int.{ℤ}
use pg_tool_box.Common.Separators.{Lacks}
use pg_tool_box.AdminSync.Passfile.{replace_byte, pgpass_escape, pgpass_line}

-- The first field of a line, and what follows its colon, if there is one: a backslash stands for the
-- byte behind it.
unfoldable pub read_field : Text → Text × Option Text
read_field [] = ([], none)
read_field (c ∷ []) = if c == b':' then ([], some []) else (c ∷ [], none)
read_field (c ∷ d ∷ s) =
    let after_next = read_field s in
    let after_this = read_field (d ∷ s) in
    if c == b':'
    then ([], some (d ∷ s))
    else if c == b'\\'
    then (d ∷ after_next.0, after_next.1)
    else (c ∷ after_this.0, after_this.1)

pgpass_escape-cons :
    (c : ℕ) (s : Text)
    → pgpass_escape (c ∷ s) ≡ (
        if c == b'\\'
        then b'\\' ∷ b'\\' ∷ pgpass_escape s
        else if c == b':'
        then b'\\' ∷ b':' ∷ pgpass_escape s
        else c ∷ pgpass_escape s)
unfolding pgpass_escape replace_byte
pgpass_escape-cons c s = ground arith

read_field-nil : read_field [] ≡ ([], none)
unfolding read_field
read_field-nil = refl

read_field-colon : (t : Text) → read_field (b':' ∷ t) ≡ ([], some t)
unfolding read_field
read_field-colon [] = refl
read_field-colon (c ∷ t) = refl

read_field-escaped :
    (d : ℕ) (t : Text) → read_field (b'\\' ∷ d ∷ t) ≡ (d ∷ (read_field t).0, (read_field t).1)
unfolding read_field
read_field-escaped d t = refl

read_field-plain :
    (c : ℕ) (t : Text) (f : Text) (r : Option Text)
    → c ≢ b':'
    → c ≢ b'\\'
    → read_field t ≡ (f, r)
    → read_field (c ∷ t) ≡ (c ∷ f, r)
unfolding read_field
read_field-plain c [] f r x y h = ground (arith, nat_beq_iff c b':')
read_field-plain c (d ∷ t) f r x y h = ground (arith, nat_beq_iff c b':', nat_beq_iff c b'\\')

-- Escaping is undone by the reader, before a colon and at the end of the line alike.
escaped_then :
    (s t : Text) (r : Option Text)
    → read_field t ≡ ([], r)
    → read_field (pgpass_escape s ++ t) ≡ (s, r)
unfolding pgpass_escape replace_byte
escaped_then [] t r h = h
escaped_then (c ∷ s) t r h =
    let ih = escaped_then s t r h in
    rw (pgpass_escape-cons c s) (elim (Bool-cases (c == b'\\')) [
      | inl e ↦
          rw (e, read_field-escaped b'\\' (pgpass_escape s ++ t), ih)
            (ap (λ x. (x ∷ s, r)) (sym ((nat_beq_iff c b'\\').0 e)))
      | inr e ↦ elim (Bool-cases (c == b':')) [
        | inl f ↦
            rw (e, f, read_field-escaped b':' (pgpass_escape s ++ t), ih)
              (ap (λ x. (x ∷ s, r)) (sym ((nat_beq_iff c b':').0 f)))
        | inr f ↦
            rw (e, f)
              (read_field-plain c (pgpass_escape s ++ t) s r
                (λ p. ground (arith, nat_beq_iff c b':')) (λ p. ground (arith, nat_beq_iff c b'\\'))
                ih)
      ]
    ])

plain_then :
    (s t : Text) (r : Option Text)
    → Lacks b':' s
    → Lacks b'\\' s
    → read_field t ≡ ([], r)
    → read_field (s ++ t) ≡ (s, r)
plain_then [] t r a b h = h
plain_then (c ∷ s) t r a b h = read_field-plain c (s ++ t) s r a.0 b.0 (plain_then s t r a.1 b.1 h)

-- The first `n` fields of a line, as far as it has them.
unfoldable pub read_fields : ℕ → Text → List Text
read_fields zero t = []
read_fields (suc n) t =
    let (field, rest) = read_field t in field ∷ elim rest [ none ↦ [] | some u ↦ read_fields n u ]

read_fields-step :
    (n : ℕ) (t f u : Text)
    → read_field t ≡ (f, some u)
    → read_fields (suc n) t ≡ f ∷ read_fields n u
unfolding read_fields
read_fields-step n t f u h = rw (read_fields, h)

append_nil : (t : Text) → t ++ [] ≡ t
append_nil [] = refl
append_nil (c ∷ t) = ap (λ u. c ∷ u) (append_nil t)

read_fields-last : (s : Text) → read_fields 1 (pgpass_escape s) ≡ s ∷ []
unfolding read_fields
read_fields-last s =
    let h : read_field (pgpass_escape s) ≡ (s, none) =
      subst (λ u. read_field u ≡ (s, none)) (append_nil (pgpass_escape s))
        (escaped_then s [] none (read_field-nil)) in
    rw (read_fields, h)

read_fields-escaped :
    (n : ℕ) (s t : Text) → read_fields (suc n) (pgpass_escape s ++ b':' ∷ t) ≡ s ∷ read_fields n t
read_fields-escaped n s t =
    read_fields-step n _ s t (escaped_then s (b':' ∷ t) (some t) (read_field-colon t))

read_fields-port :
    (n : ℕ) (a : ℤ) (t : Text)
    → read_fields (suc n) (format_int a ++ b':' ∷ t) ≡ format_int a ∷ read_fields n t
unfolding is_digit
read_fields-port n a t = read_fields-step n _ (format_int a) t (
    plain_then (format_int a) (b':' ∷ t) (some t) (format_int-Lacks a b':' refl (λ p. ground arith))
      (format_int-Lacks a b'\\' refl (λ p. ground arith)) (read_field-colon t))

-- A line that is rendered for a server is read back, field by field, as the host, the port, the
-- database, the user name and the password, whatever colons and backslashes they contain.
pub read_fields-pgpass_line :
    (host : Text) (port : ℤ) (database username password : Text)
    → read_fields 5 (pgpass_line host port database username password)
      ≡ host ∷ format_int port ∷ database ∷ username ∷ password ∷ []
unfolding pgpass_line
read_fields-pgpass_line host port database username password = rw (
  pgpass_line,
  read_fields-escaped 4 host _,
  read_fields-port 3 port _,
  read_fields-escaped 2 database _,
  read_fields-escaped 1 username _,
  read_fields-last password,
)
