-- ===== src/Examples.antt =====
-- A concrete world for the tests: a payment that bob makes under authority delegated by alice, and
-- that dave must approve.
pub mod Runs
pub mod Memory
pub mod Outages
use Prim.Native.Nat.{◌%◌}
use nest_authz.Prelude.{
  length, ℕ, List, ℤ, pos, String, Option, none, some, [], ◌∷◌, Result, ok, err,
}
use nest_authz.Domain.Status.{
  ApprovalStatus, ApproverAuthorizationStatus, AuthorityValidationStatus, ConditionOperator,
  ExecutionAuthorizationStatus, FieldNamespace, Outcome, RuleEffect,
}
use nest_authz.Domain.Value.{Scalar, Sha256Digest}
use nest_authz.Domain.Identity.{Principal, SubjectPrincipalBinding}
use nest_authz.Domain.Authority.{
  AuthorityScope, AuthorityGrant, DelegationChain, AuthorizationState, VerifiedAuthority,
  AuthorityValidationResult,
}
use nest_authz.Domain.Policy.{ApprovalRequirement, Rule, PolicyBundle}
use nest_authz.Domain.Request.{AuthorizationRequest}
use nest_authz.Domain.Decision.{Decision}
use nest_authz.Domain.Receipt.{DecisionReceipt}
use nest_authz.Domain.Approval.{ApproverAuthorizationResult, PendingApproval}
use nest_authz.Domain.Execution.{ExecutionPermit, ExecutionAuthorizationResult}
use nest_authz.Digests.{Digests}
use nest_authz.Applicability.Laws.{applicability_result}
use nest_authz.Binding.Laws.{binding_result}
use nest_authz.Evaluator.Decide.{evaluate}
use nest_authz.Approval.{create_pending_approval, approve_requirement, consume_approval}
use nest_authz.Execution.{revalidate_for_execution}

abbrev pub ok_or {ℓ} : {A : Type ℓ} → A → Result A → A
ok_or a (ok b) = b
ok_or a (err e) = a

-- 31 bytes.
abbrev pub zeros : List ℕ
zeros =
    0 ∷ 0 ∷ 0 ∷ 0 ∷ 0 ∷ 0 ∷ 0 ∷ 0 ∷ 0 ∷ 0 ∷ 0 ∷ 0 ∷ 0 ∷ 0 ∷ 0 ∷ 0 ∷ 0 ∷ 0 ∷ 0 ∷ 0 ∷ 0 ∷ 0 ∷ 0 ∷ 0
    ∷ 0 ∷ 0 ∷ 0 ∷ 0 ∷ 0 ∷ 0 ∷ 0 ∷ []

-- A toy hash, of 32 bytes.
abbrev pub checksum : List ℕ → List ℕ
checksum bytes = (length bytes % 256) ∷ zeros

abbrev digest : ℤ → Sha256Digest
digest (pos n) = record { value = n ∷ zeros }
digest _ = record { value = [] }

-- One digest for each type.
abbrev pub digests : Digests
digests = record {
  chain_digest = λ _. digest (pos 1);
  state_digest = λ _. digest (pos 2);
  authority_digest = λ _. digest (pos 3);
  request_digest = λ _. digest (pos 4);
  bundle_digest = λ _. digest (pos 5);
  binding_digest = λ _. digest (pos 6);
  applicability_digest = λ _. digest (pos 7);
  decision_digest = λ _. digest (pos 8);
  receipt_digest = λ _. digest (pos 9);
  approval_digest = λ _. digest (pos 10);
  permit_digest = λ _. digest (pos 11);
}

abbrev principal : String → Principal
principal name = record { identifier = name }

abbrev pub scope_up_to : ℤ → AuthorityScope
scope_up_to limit = record {
  action = record { name = "pay" };
  resource = record { identifier = "account" };
  context_upper_bounds = ("amount", limit) ∷ [];
}

abbrev pub root_grant : AuthorityGrant
root_grant = record {
  identifier = "g1";
  grantor = principal "root";
  grantee = principal "alice";
  scope = scope_up_to (pos 100);
  parent_grant_id = none;
  valid_from = pos 0;
  valid_until = pos 10;
}

abbrev pub leaf_grant : AuthorityGrant
leaf_grant = record {
  identifier = "g2";
  grantor = principal "alice";
  grantee = principal "bob";
  scope = scope_up_to (pos 50);
  parent_grant_id = some "g1";
  valid_from = pos 0;
  valid_until = pos 10;
}

abbrev pub chain : DelegationChain
chain = record { grants = root_grant ∷ leaf_grant ∷ [] }

abbrev pub state : AuthorizationState
state = record { logical_time = pos 5; revocations = record { grant_ids = [] } }

abbrev pub authority : VerifiedAuthority
authority = record {
  grant_id = "g2";
  principal = principal "bob";
  scope = scope_up_to (pos 50);
  validated_at = pos 5;
  chain_digest = digest (pos 1);
  state_digest = digest (pos 2);
}

abbrev pub validation : AuthorityValidationResult
validation = record {
  status = AuthorityValidationStatus.valid;
  chain_digest = digest (pos 1);
  state_digest = digest (pos 2);
  offending_grant_id = none;
  verified_authority = some authority;
}

abbrev pub request : AuthorizationRequest
request = record {
  subject = record { identifier = "agent" };
  action = record { name = "pay" };
  resource = record { identifier = "account" };
  context = record { attributes = ("amount", Scalar.int (pos 20)) ∷ [] };
  authority_context = none;
}

abbrev pub subject_binding : SubjectPrincipalBinding
subject_binding = record { subject = record { identifier = "agent" }; principal = principal "bob" }

abbrev pub requirement : ApprovalRequirement
requirement = record {
  code = "manager";
  allowed_principals = principal "dave" ∷ [];
  parameters = [];
}

abbrev rule : Rule
rule = record {
  identifier = "r1";
  effect = RuleEffect.approval_required;
  conditions =
      record {
        identifier = "c1";
        field = record { namespace = FieldNamespace.context; name = "amount" };
        operator = ConditionOperator.integer_less_than;
        value = Scalar.int (pos 30);
      }
      ∷ [];
  obligations = [];
  approval_requirements = requirement ∷ [];
}

abbrev pub bundle : PolicyBundle
bundle = record { policies = record { identifier = "p1"; rules = rule ∷ [] } ∷ [] }

abbrev nothing_decided : Decision
nothing_decided = record {
  outcome = Outcome.deny;
  reasons = [];
  evidence = record {
    policy_bundle_digest = digest (pos 0);
    request_digest = digest (pos 0);
    rule_evaluations = [];
    authority_applicability = none;
    subject_authority_binding = none;
  };
  obligations = [];
  approval_requirements = [];
}

abbrev pub decision : Decision
decision =
    ok_or nothing_decided (evaluate digests request bundle (some authority) (some subject_binding))

abbrev pub receipt : DecisionReceipt
receipt = record {
  request_digest = digest (pos 4);
  policy_bundle_digest = digest (pos 5);
  validated_authority_digest = some (digest (pos 3));
  delegation_chain_digest = some (digest (pos 1));
  authorization_state_digest = some (digest (pos 2));
  subject_principal_binding_evidence_digest = some (digest (pos 6));
  authority_applicability_evidence_digest = some (digest (pos 7));
  decision_digest = digest (pos 8);
  outcome = Outcome.approval_required;
  approval_requirements = requirement ∷ [];
}

abbrev nothing_pending : PendingApproval
nothing_pending = record {
  receipt = receipt;
  receipt_digest = digest (pos 0);
  requirement_states = [];
  logical_time = pos 0;
  consumed_at = none;
  execution_permit_digest = none;
  status = ApprovalStatus.pending;
}

abbrev pub pending : PendingApproval
pending = ok_or nothing_pending (create_pending_approval digests receipt (pos 5))

abbrev pub approver_evidence : ApproverAuthorizationResult
approver_evidence = record {
  status = ApproverAuthorizationStatus.authorized;
  actor = record { identifier = "dave_agent" };
  binding = record { subject = record { identifier = "dave_agent" }; principal = principal "dave" };
  required_requirement = requirement;
  attempted_requirement = requirement;
}

abbrev pub approved : PendingApproval
approved = ok_or nothing_pending (approve_requirement pending requirement approver_evidence (pos 6))

abbrev nothing_authorized : ExecutionAuthorizationResult
nothing_authorized = record {
  status = ExecutionAuthorizationStatus.policy_denied;
  original_receipt_digest = digest (pos 0);
  approved_state_digest = digest (pos 0);
  current_request_digest = digest (pos 0);
  current_policy_bundle_digest = digest (pos 0);
  current_delegation_chain_digest = digest (pos 0);
  current_authorization_state_digest = digest (pos 0);
  authority_validation = validation;
  subject_authority_binding = none;
  authority_applicability = none;
  decision = decision;
  execution_permit = none;
}

abbrev pub revalidated : ExecutionAuthorizationResult
revalidated =
    ok_or nothing_authorized
      (revalidate_for_execution digests receipt approved request bundle chain state subject_binding)

abbrev no_permit : ExecutionPermit
no_permit = record {
  original_receipt_digest = digest (pos 0);
  approved_state_digest = digest (pos 0);
  current_request_digest = digest (pos 0);
  current_policy_bundle_digest = digest (pos 0);
  current_delegation_chain_digest = digest (pos 0);
  current_authorization_state_digest = digest (pos 0);
  current_validated_authority_digest = digest (pos 0);
  subject_authority_binding = binding_result digests request subject_binding authority;
  authority_applicability = applicability_result digests request authority;
  decision = decision;
}

abbrev permit_or : ExecutionPermit → Option ExecutionPermit → ExecutionPermit
permit_or p none = p
permit_or p (some q) = q

abbrev pub permit : ExecutionPermit
permit = permit_or no_permit revalidated.execution_permit

abbrev pub consumed : PendingApproval
consumed = ok_or nothing_pending (consume_approval digests approved permit (pos 7))
