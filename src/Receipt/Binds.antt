-- ===== src/Receipt/Binds.antt =====
-- What a receipt of `create_decision_receipt` binds.
use mathlib.Core.Logic.{◌≢◌}
use nest_authz.Prelude.{
  ◌≡◌, refl, Bool, false, Option, none, some, List, Result, ok, arith, then_returns,
  raise_if-passed, subst, ap, err, Error, ◌>>=◌, ◌>>◌, raise_if, differ, ◌==◌, value_error,
}
use nest_authz.Domain.Status.{Outcome, outcome_eq}
use nest_authz.Domain.Evidence.{SubjectAuthorityBindingResult, AuthorityApplicabilityResult}
use nest_authz.Domain.Policy.{ApprovalRequirement}
use nest_authz.Domain.Policy.Canonical.{is_nonempty, canonical_approval_requirements}
use nest_authz.Domain.Decision.{Decision}
use nest_authz.Domain.Receipt.{
  DecisionReceipt, is_none, check_digests, decision_receipt_from_evaluation,
}
use nest_authz.Digests.{Digests}
use nest_authz.Receipt.{validated_authority_digest, create_decision_receipt, when_present}

complete :
    (r : DecisionReceipt) {u : Unit {0}}
    → r.outcome ≢ Outcome.deny
    → check_digests r ≡ ok u
    → (is_none r.subject_principal_binding_evidence_digest ≡ false)
      × (is_none r.authority_applicability_evidence_digest ≡ false)
unfolding check_digests
complete r allowed h = (ground arith, ground arith)

-- The complete evidence that a receipt binds.
pub record Binds (digests : Digests) (d : Decision) (r : DecisionReceipt)
    (a : AuthorityApplicabilityResult) (b : SubjectAuthorityBindingResult) : Type 0 where
  pub applicability : d.evidence.authority_applicability ≡ some a
  pub holder : d.evidence.subject_authority_binding ≡ some b
  pub authority_digest : r.validated_authority_digest ≡ some a.authority_digest
  pub chain_digest : r.delegation_chain_digest ≡ some a.chain_digest
  pub state_digest : r.authorization_state_digest ≡ some a.state_digest
  pub applicability_digest :
      r.authority_applicability_evidence_digest ≡ some (digests.applicability_digest a)
  pub holder_digest : r.subject_principal_binding_evidence_digest ≡ some (digests.binding_digest b)
  pub decision_digest : r.decision_digest ≡ digests.decision_digest d
  pub outcome : r.outcome ≡ d.outcome

present_parts :
    (a : Option AuthorityApplicabilityResult) (b : Option SubjectAuthorityBindingResult)
    (digests : Digests)
    → is_none (when_present digests.binding_digest b) ≡ false
    → is_none (when_present digests.applicability_digest a) ≡ false
    → (x : AuthorityApplicabilityResult) × (y : SubjectAuthorityBindingResult) × (a ≡ some x)
      × (b ≡ some y)
present_parts none b digests h k = cc
present_parts (some x) none digests h k = cc
present_parts (some x) (some y) digests h k = (x, y, refl, refl)

receipt_ok : {x y : DecisionReceipt} → ok x ≡ ok y → x ≡ y
receipt_ok h = cc

staged-ok :
    (t r : DecisionReceipt) (canonical : Result (List ApprovalRequirement))
    (test : List ApprovalRequirement → Bool) (e : Error)
    → (do
      requirements ← canonical
      raise_if (test requirements) e
      check_digests t
      ok (record t { approval_requirements = requirements }))
      ≡ ok r
    → (requirements : List ApprovalRequirement) × (check_digests t ≡ ok tt)
      × (record t { approval_requirements = requirements } ≡ r)
staged-ok t r (err raised) test e h = cc
staged-ok t r (ok requirements) test e h =
    let (_, h1) = raise_if-passed (test requirements) e _ h in
    let ((u, checked), h2) = then_returns (check_digests t) _ h1 in
    (requirements, checked, receipt_ok h2)

from_evaluation-ok :
    (t r : DecisionReceipt)
    → decision_receipt_from_evaluation t ≡ ok r
    → (requirements : List ApprovalRequirement) × (check_digests t ≡ ok tt)
      × (record t { approval_requirements = requirements } ≡ r)
unfolding decision_receipt_from_evaluation
from_evaluation-ok t r h =
    staged-ok t r (canonical_approval_requirements t.approval_requirements)
      (λ q. differ (t.outcome == Outcome.approval_required) (is_nonempty q))
      (value_error
        "receipt approval requirements must be present exactly when approval is required")
      h

abbrev unchecked : Digests → Decision → DecisionReceipt
unchecked digests d = record {
  request_digest = d.evidence.request_digest;
  policy_bundle_digest = d.evidence.policy_bundle_digest;
  validated_authority_digest =
      validated_authority_digest d.evidence.authority_applicability
        d.evidence.subject_authority_binding;
  delegation_chain_digest = when_present (λ a. a.chain_digest) d.evidence.authority_applicability;
  authorization_state_digest =
      when_present (λ a. a.state_digest) d.evidence.authority_applicability;
  subject_principal_binding_evidence_digest =
      when_present digests.binding_digest d.evidence.subject_authority_binding;
  authority_applicability_evidence_digest =
      when_present digests.applicability_digest d.evidence.authority_applicability;
  decision_digest = digests.decision_digest d;
  outcome = d.outcome;
  approval_requirements = d.approval_requirements;
}

-- The receipt of a decision that is not DENY binds the decision, and the authority, chain and state
-- of both an applicability and a holder result, which the decision's evidence contains.
pub create_decision_receipt-Binds :
    (digests : Digests) (d : Decision) (r : DecisionReceipt)
    → create_decision_receipt digests d ≡ ok r
    → d.outcome ≢ Outcome.deny
    → (a : AuthorityApplicabilityResult) × (b : SubjectAuthorityBindingResult) × Binds digests d r a
        b
unfolding create_decision_receipt validated_authority_digest
create_decision_receipt-Binds digests d r h allowed =
    let t = unchecked digests d in
    let (requirements, checked, same) = from_evaluation-ok t r h in
    let (holder, applied) = complete t allowed checked in
    let (a, b, e, f) =
      present_parts d.evidence.authority_applicability d.evidence.subject_authority_binding digests
        holder applied in
    (
      a,
      b,
      subst (λ x. Binds digests d x a b) same
          (record {
            applicability = e;
            holder = f;
            authority_digest =
                ap (λ x. validated_authority_digest x d.evidence.subject_authority_binding) e;
            chain_digest = ap (when_present (λ x. x.chain_digest)) e;
            state_digest = ap (when_present (λ x. x.state_digest)) e;
            applicability_digest = ap (when_present digests.applicability_digest) e;
            holder_digest = ap (when_present digests.binding_digest) f;
            decision_digest = refl;
            outcome = refl;
          }),
    )
