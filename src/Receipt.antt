-- ===== src/Receipt.antt =====
-- receipt.py: the receipt that binds a decision to the identities it was made from.
pub mod Binds
use nest_authz.Prelude.{Option, none, some, Result}
use nest_authz.Domain.Value.{Sha256Digest}
use nest_authz.Domain.Evidence.{SubjectAuthorityBindingResult, AuthorityApplicabilityResult}
use nest_authz.Domain.Decision.{Decision}
use nest_authz.Domain.Receipt.{DecisionReceipt, decision_receipt_from_evaluation}
use nest_authz.Digests.{Digests}

-- `f(x) if x is not None else None`
abbrev pub when_present {ℓ κ} : {A : Type ℓ} {B : Type κ} → (A → B) → Option A → Option B
when_present f none = none
when_present f (some x) = some (f x)

unfoldable pub validated_authority_digest :
    Option AuthorityApplicabilityResult → Option SubjectAuthorityBindingResult → Option Sha256Digest
validated_authority_digest (some applicability) _ = some applicability.authority_digest
validated_authority_digest none (some binding) = some binding.authority_digest
validated_authority_digest none none = none

unfoldable pub create_decision_receipt : Digests → Decision → Result DecisionReceipt
unfolding validated_authority_digest
create_decision_receipt digests decision =
    let evidence = decision.evidence in
    let applicability = evidence.authority_applicability in
    let binding = evidence.subject_authority_binding in
    decision_receipt_from_evaluation (record {
      request_digest = evidence.request_digest;
      policy_bundle_digest = evidence.policy_bundle_digest;
      validated_authority_digest = validated_authority_digest applicability binding;
      delegation_chain_digest = when_present (λ a. a.chain_digest) applicability;
      authorization_state_digest = when_present (λ a. a.state_digest) applicability;
      subject_principal_binding_evidence_digest = when_present digests.binding_digest binding;
      authority_applicability_evidence_digest =
          when_present digests.applicability_digest applicability;
      decision_digest = digests.decision_digest decision;
      outcome = decision.outcome;
      approval_requirements = decision.approval_requirements;
    })
