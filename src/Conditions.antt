-- ===== src/Conditions.antt =====
-- Status conditions, internal/conditions/conditions.go. `meta.SetStatusCondition` is a parameter; a
-- condition is what the code gives it, without the time of its last transition.
use pg_tool_box.Common.{
  ℕ, Bool, true, false, Option, none, some, List, [], ◌∷◌, ◌≡◌, ◌≢◌, ◌↔◌, arith, Text, codes, ◌==◌,
  text_eq, text_beq_iff, nat_eq, ◌&&◌, if◌then◌else◌, find?,
}
use pg_tool_box.Config.Validate.{is_seen}

pub data ConditionStatus : Type 0 where
  condition_true condition_false condition_unknown : ConditionStatus

pub record Condition : Type 0 where
  pub kind : Text
  pub status : ConditionStatus
  pub observed_generation : ℕ
  pub reason : Text
  pub message : Text

-- The condition of a type.
abbrev pub condition_at : Text → List Condition → Option Condition
condition_at kind cs = find? (λ c. c.kind == kind) cs

-- `meta.SetStatusCondition`: it replaces the condition of the same type, or adds it, and leaves alone
-- the conditions of other types and a condition that is there already.
pub record SetsConditions : Type 0 where
  pub set : List Condition → Condition → List Condition
  pub sets : (cs : List Condition) (c : Condition) → condition_at c.kind (set cs c) ≡ some c
  pub keeps :
      (cs : List Condition) (c : Condition) (kind : Text)
      → kind ≢ c.kind
      → condition_at kind (set cs c) ≡ condition_at kind cs
  pub rests :
      (cs : List Condition) (c : Condition) → condition_at c.kind cs ≡ some c → set cs c ≡ cs

abbrev pub known_reasons : List Text
known_reasons =
    codes "AsExpected"
    ∷ codes "Reconciling"
    ∷ codes "ReconciliationSkipped"
    ∷ codes "RolloutInProgress"
    ∷ codes "RolloutStuck"
    ∷ codes "ConfigurationInvalid"
    ∷ codes "SecretNotFound"
    ∷ codes "SecretKeyMissing"
    ∷ codes "SecretFormatInvalid"
    ∷ codes "RenderFailed"
    ∷ codes "NotAdmitted"
    ∷ codes "NotAccepted"
    ∷ codes "GatewayNotFound"
    ∷ codes "HostnameConflict"
    ∷ codes "NotRequested"
    ∷ codes "AllApplied"
    ∷ codes "SomeDegraded"
    ∷ codes "NoneConfigured"
    ∷ codes "PgConsoleNotFound"
    ∷ codes "ClusterNotFound"
    ∷ codes "ClusterNotReady"
    ∷ codes "RoleNotFound"
    ∷ codes "CredentialLost"
    ∷ codes "DatabaseRolePending"
    ∷ codes "DatabaseRoleFailed"
    ∷ codes "PendingRollout"
    ∷ codes "SyncFailed"
    ∷ codes "CNPGAPIMissing"
    ∷ codes "DatabaseRoleAPIMissing"
    ∷ codes "Pending"
    ∷ codes "Approved"
    ∷ codes "Denied"
    ∷ codes "EvidenceDisabled"
    ∷ codes "ImageRequired"
    ∷ codes "ObjectStoreNotFound"
    ∷ codes "UnsupportedCredentialMode"
    ∷ codes "UnsupportedAuthMode"
    ∷ []

unfoldable pub is_known_reason : Text → Bool
is_known_reason reason = is_seen reason known_reasons

-- `mark`, for an object of the given generation; `none` is its panic.
unfoldable pub mark :
    SetsConditions
    → ℕ
    → Text
    → ConditionStatus
    → Text
    → Text
    → List Condition
    → Option (List Condition)
mark setter generation kind status reason message cs =
    if is_known_reason reason
    then some (
        setter.set cs (record {
          kind = kind;
          status = status;
          observed_generation = generation;
          reason = reason;
          message = message;
        }))
    else none

-- The equality of conditions, part of `apiequality.Semantic.DeepEqual` of two statuses.
abbrev status_beq : ConditionStatus → ConditionStatus → Bool
status_beq condition_true condition_true = true
status_beq condition_false condition_false = true
status_beq condition_unknown condition_unknown = true
status_beq _ _ = false

unfoldable pub conditions_beq : List Condition → List Condition → Bool
conditions_beq [] [] = true
conditions_beq (c ∷ cs) (d ∷ ds) =
    let rest = conditions_beq cs ds in
    c.kind == d.kind
    && status_beq c.status d.status
    && c.observed_generation == d.observed_generation
    && c.reason == d.reason
    && c.message == d.message
    && rest
conditions_beq _ _ = false

status_beq_iff : (s t : ConditionStatus) → (status_beq s t ≡ true) ↔ (s ≡ t)
status_beq_iff condition_true condition_true = ground arith
status_beq_iff condition_true condition_false = ground arith
status_beq_iff condition_true condition_unknown = ground arith
status_beq_iff condition_false condition_true = ground arith
status_beq_iff condition_false condition_false = ground arith
status_beq_iff condition_false condition_unknown = ground arith
status_beq_iff condition_unknown condition_true = ground arith
status_beq_iff condition_unknown condition_false = ground arith
status_beq_iff condition_unknown condition_unknown = ground arith

pub conditions_beq_iff : (cs ds : List Condition) → (conditions_beq cs ds ≡ true) ↔ (cs ≡ ds)
unfolding conditions_beq
conditions_beq_iff [] [] = ground arith
conditions_beq_iff [] (d ∷ ds) = ground arith
conditions_beq_iff (c ∷ cs) [] = ground arith
conditions_beq_iff (c ∷ cs) (d ∷ ds) = ground (
  arith,
  text_beq_iff c.kind d.kind,
  status_beq_iff c.status d.status,
  text_beq_iff c.reason d.reason,
  text_beq_iff c.message d.message,
  conditions_beq_iff cs ds,
)
