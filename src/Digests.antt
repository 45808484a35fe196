-- ===== src/Digests.antt =====
-- `sha256_digest` of canonical.py at each type that the other modules hash: the interface between
-- canonical.py and the rest of the program.
use nest_authz.Domain.Value.{Sha256Digest}
use nest_authz.Domain.Authority.{DelegationChain, AuthorizationState, VerifiedAuthority}
use nest_authz.Domain.Policy.{PolicyBundle}
use nest_authz.Domain.Request.{AuthorizationRequest}
use nest_authz.Domain.Evidence.{SubjectAuthorityBindingResult, AuthorityApplicabilityResult}
use nest_authz.Domain.Decision.{Decision}
use nest_authz.Domain.Receipt.{DecisionReceipt}
use nest_authz.Domain.Approval.{PendingApproval}
use nest_authz.Domain.Execution.{ExecutionPermit}

pub record Digests : Type 0 where
  pub chain_digest : DelegationChain → Sha256Digest
  pub state_digest : AuthorizationState → Sha256Digest
  pub authority_digest : VerifiedAuthority → Sha256Digest
  pub request_digest : AuthorizationRequest → Sha256Digest
  pub bundle_digest : PolicyBundle → Sha256Digest
  pub binding_digest : SubjectAuthorityBindingResult → Sha256Digest
  pub applicability_digest : AuthorityApplicabilityResult → Sha256Digest
  pub decision_digest : Decision → Sha256Digest
  pub receipt_digest : DecisionReceipt → Sha256Digest
  pub approval_digest : PendingApproval → Sha256Digest
  pub permit_digest : ExecutionPermit → Sha256Digest
