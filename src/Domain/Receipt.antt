-- ===== src/Domain/Receipt.antt =====
-- Decision receipts of domain.py.
use nest_authz.Prelude.{
  Bool, true, false, Option, none, some, List, [], ◌∷◌, Eq, ◌==◌, ◌!=◌, any, differ, if◌then◌else◌,
  Result, ok, ◌>>=◌, ◌>>◌, raise_if, value_error, string_discrete, ℤ_discrete,
}
use nest_authz.Domain.Status.{Outcome, outcome_eq}
use nest_authz.Domain.Value.{Sha256Digest, sha256_digest_eq}
use nest_authz.Domain.Policy.{ApprovalRequirement}
use nest_authz.Domain.Policy.Canonical.{is_nonempty, canonical_approval_requirements}

pub record DecisionReceipt : Type 0 where
  pub request_digest : Sha256Digest
  pub policy_bundle_digest : Sha256Digest
  pub validated_authority_digest : Option Sha256Digest
  pub delegation_chain_digest : Option Sha256Digest
  pub authorization_state_digest : Option Sha256Digest
  pub subject_principal_binding_evidence_digest : Option Sha256Digest
  pub authority_applicability_evidence_digest : Option Sha256Digest
  pub decision_digest : Sha256Digest
  pub outcome : Outcome
  pub approval_requirements : List ApprovalRequirement

instance unfoldable pub decision_receipt_eq : Eq DecisionReceipt
unfolding string_discrete ℤ_discrete sha256_digest_eq
decision_receipt_eq = record { dec = hlevel (string_discrete, ℤ_discrete, sha256_digest_eq.dec) }

abbrev pub is_none {ℓ} : {A : Type ℓ} → Option A → Bool
is_none none = true
is_none (some _) = false

-- The tests on which digests are present.
unfoldable pub check_digests : DecisionReceipt → Result (Unit {0})
check_digests r = do
  raise_if
      (if is_none r.subject_principal_binding_evidence_digest
        then false
        else is_none r.validated_authority_digest)
      (value_error "binding evidence requires validated authority identity")
  raise_if
      (if is_none r.authority_applicability_evidence_digest
        then false
        else any is_none (
            r.validated_authority_digest ∷ r.delegation_chain_digest ∷ r.authorization_state_digest
            ∷ []))
      (value_error "applicability evidence requires authority, chain, and state identity")
  raise_if
      (if r.outcome != Outcome.deny
        then any is_none (
            r.validated_authority_digest ∷ r.delegation_chain_digest ∷ r.authorization_state_digest
            ∷ r.subject_principal_binding_evidence_digest
            ∷ r.authority_applicability_evidence_digest ∷ [])
        else false)
      (value_error "non-deny receipts require complete successful authority evidence")

-- `DecisionReceipt._from_evaluation`.
unfoldable pub decision_receipt_from_evaluation : DecisionReceipt → Result DecisionReceipt
decision_receipt_from_evaluation r = do
  requirements ← canonical_approval_requirements r.approval_requirements
  raise_if (differ (r.outcome == Outcome.approval_required) (is_nonempty requirements)) (
      value_error "receipt approval requirements must be present exactly when approval is required")
  check_digests r
  ok (record r { approval_requirements = requirements })
