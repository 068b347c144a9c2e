-- ===== src/Config/Accepts/Seen.antt =====
-- The set `seen` that each table of the configuration is checked for duplicates with.
use pg_tool_box.Common.{
  false, List, [], ◌∷◌, ◌≡◌, ◌≢◌, ◌↔◌, refl, arith, Text, All, All-×, text_beq_iff,
}
use pg_tool_box.Config.Validate.{is_seen}

pub is_seen-eq-false_iff :
    (key : Text) (seen : List Text) → (is_seen key seen ≡ false) ↔ All (λ s. s ≢ key) seen
is_seen-eq-false_iff key [] = (λ _. tt, λ _. refl)
is_seen-eq-false_iff key (s ∷ seen) =
    ground (arith, is_seen-eq-false_iff key seen, text_beq_iff s key)

-- No key stands in `seen`.
abbrev pub IsFresh : List Text → List Text → Type 0
IsFresh seen keys = All (λ key. All (λ s. s ≢ key) seen) keys

pub IsFresh-cons :
    (x : Text) (seen keys : List Text)
    → IsFresh (x ∷ seen) keys ↔ (All (λ y. x ≢ y) keys × IsFresh seen keys)
IsFresh-cons x seen keys = All-× (λ y. x ≢ y) (λ key. All (λ s. s ≢ key) seen) keys

pub IsFresh-nil : (keys : List Text) → IsFresh [] keys
IsFresh-nil [] = tt
IsFresh-nil (x ∷ keys) = (tt, IsFresh-nil keys)
