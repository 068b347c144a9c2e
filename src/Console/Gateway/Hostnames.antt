-- ===== src/Console/Gateway/Hostnames.antt =====
-- Which hostnames of routes a listener covers.
use pg_tool_box.Common.{
  ◌<◌, true, [], ◌∷◌, ◌++◌, ◌≡◌, ◌≢◌, ◌↔◌, ◌⊎◌, inl, inr, refl, arith, Text, codes, text_eq,
  text_beq_iff, ◌==◌, Bool-cases, length, length-append, starts_with_sound, starts_with-append, ap,
  ◌∙◌,
}
use pg_tool_box.Console.Gateway.{gateway_hostname_matches, ends_with, rest_of}

pub ends_with_sound : (s t : Text) → ends_with s t ≡ true → (p : Text) × (s ≡ p ++ t)
unfolding ends_with
ends_with_sound [] [] h = ([], refl)
ends_with_sound [] (d ∷ t) h = absurd (ground arith)
ends_with_sound (c ∷ s) t h = elim (Bool-cases ((c ∷ s) == t)) [
  | inl e ↦ ([], (text_beq_iff (c ∷ s) t).0 e)
  | inr n ↦ let (p, e) = ends_with_sound s t (ground arith) in (c ∷ p, ap (λ x. c ∷ x) e)
]

pub ends_with-append : (p t : Text) → ends_with (p ++ t) t ≡ true
unfolding ends_with
ends_with-append [] [] = refl
ends_with-append [] (d ∷ t) = ground (arith, text_beq_iff (d ∷ t) (d ∷ t))
ends_with-append (c ∷ p) t = ground (arith, ends_with-append p t)

-- The listener has the name itself, or a wildcard for the names that end in it.
abbrev pub Covers : Text → Text → Type 0
Covers listener route =
    (listener ≡ route)
    ⊎ ((domain : Text) × (label : Text) × (listener ≡ codes "*." ++ domain)
        × (label ≢ [])
        × (route ≡ label ++ (codes "." ++ domain)))

longer_label :
    (route label suffix : Text)
    → route ≡ label ++ suffix
    → length suffix < length route
    → label ≢ []
longer_label route label suffix e longer none = absurd (ground (arith, length-append label suffix))

wildcard_sound :
    (listener domain route label : Text)
    → listener ≡ codes "*." ++ domain
    → route ≡ label ++ rest_of listener
    → length (rest_of listener) < length route
    → Covers listener route
wildcard_sound listener domain route label e f longer = inr (
  domain,
  label,
  e,
  longer_label route label (rest_of listener) f longer,
  f ∙ ap (λ l. label ++ rest_of l) e,
)

wildcard_matches :
    (domain label : Text)
    → label ≢ []
    → gateway_hostname_matches (codes "*." ++ domain) (label ++ (codes "." ++ domain)) ≡ true
unfolding gateway_hostname_matches
wildcard_matches domain [] n = absurd (n refl)
wildcard_matches domain (c ∷ label) n = ground (
  arith,
  ends_with-append (c ∷ label) (codes "." ++ domain),
  length-append label (codes "." ++ domain),
  starts_with-append (codes "*.") domain,
)

pub gateway_hostname_matches_iff :
    (listener route : Text)
    → (gateway_hostname_matches listener route ≡ true) ↔ Covers listener route
unfolding gateway_hostname_matches
gateway_hostname_matches_iff listener route = (
  λ h. elim (Bool-cases (listener == route)) [
    | inl e ↦ inl ((text_beq_iff listener route).0 e)
    | inr n ↦
        let (domain, e) = starts_with_sound listener (codes "*.") (ground arith) in
        let (label, f) = ends_with_sound route (rest_of listener) (ground arith) in
        wildcard_sound listener domain route label e f (ground arith)
  ],
  λ h. elim h [
    | inl e ↦ ground (arith, text_beq_iff listener route)
    | inr (domain, label, e, some_label, f) ↦ rw (e, f) (wildcard_matches domain label some_label)
  ],
)
