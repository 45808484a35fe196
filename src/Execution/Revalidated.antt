-- ===== src/Execution/Revalidated.antt =====
-- The result of `revalidate_for_execution`.
use nest_authz.Prelude.{
  ◌≡◌, sym, ap, ◌∙◌, ◌↔◌, Bool, true, false, not, Option, none, some, ◌==◌, differ, if◌then◌else◌,
  Result, ok, err, ◌>>=◌, arith, bind_returns, subst,
}
use nest_authz.Domain.Status.{ExecutionAuthorizationStatus, execution_authorization_status_eq}
use nest_authz.Domain.Identity.{SubjectPrincipalBinding}
use nest_authz.Domain.Authority.{
  DelegationChain, AuthorizationState, VerifiedAuthority, AuthorityValidationResult,
}
use nest_authz.Domain.Policy.{PolicyBundle}
use nest_authz.Domain.Request.{AuthorizationRequest}
use nest_authz.Domain.Decision.{Decision}
use nest_authz.Domain.Receipt.{DecisionReceipt, is_none}
use nest_authz.Domain.Approval.{PendingApproval}
use nest_authz.Domain.Execution.{
  ExecutionPermit, ExecutionAuthorizationResult, execution_authorization_result_from_revalidation,
}
use nest_authz.Digests.{Digests}
use nest_authz.Delegation.{validate_authority}
use nest_authz.Evaluator.Decide.{evaluate}
use nest_authz.Execution.{permit_for, finish_revalidation, current, revalidate_for_execution}
use nest_authz.Execution.Authorized.{StillAuthorized, revalidation_status_iff}

-- A permit is present exactly for AUTHORIZED.
abbrev pub PermitIffAuthorized : ExecutionAuthorizationResult → Type 0
PermitIffAuthorized r =
    is_none r.execution_permit ≡ not (r.status == ExecutionAuthorizationStatus.authorized)

differ-not : (a b : Bool) → differ a (not b) ≡ false → b ≡ not a
differ-not true b h = ground arith
differ-not false b h = ground arith

result_ok : {a b : ExecutionAuthorizationResult} → ok a ≡ ok b → a ≡ b
result_ok h = cc

from_revalidation-ok :
    (r q : ExecutionAuthorizationResult)
    → execution_authorization_result_from_revalidation r ≡ ok q
    → (r ≡ q)
      × (differ
            (r.status == ExecutionAuthorizationStatus.authorized)
            (not (is_none r.execution_permit))
          ≡ false)
unfolding execution_authorization_result_from_revalidation
from_revalidation-ok r q h = (ground arith, ground arith)

finish-ok :
    (r q : ExecutionAuthorizationResult) (permit : Result (Option ExecutionPermit))
    → (do
      p ← permit
      execution_authorization_result_from_revalidation (record r { execution_permit = p }))
      ≡ ok q
    → (q.status ≡ r.status) × PermitIffAuthorized q
finish-ok r q (err e) h = cc
finish-ok r q (ok p) h =
    let (same, present) = from_revalidation-ok (record r { execution_permit = p }) q h in
    (sym (ap (λ x. x.status) same), subst PermitIffAuthorized same (differ-not _ _ present))

finish_revalidation-ok :
    (digests : Digests) (r q : ExecutionAuthorizationResult) (authority : Option VerifiedAuthority)
    → finish_revalidation digests r authority ≡ ok q
    → (q.status ≡ r.status) × PermitIffAuthorized q
unfolding finish_revalidation
finish_revalidation-ok digests r q authority h =
    finish-ok r q
      (if r.status == ExecutionAuthorizationStatus.authorized
        then permit_for digests r authority r.subject_authority_binding r.authority_applicability
        else ok none)
      h

-- A revalidation that returns is AUTHORIZED exactly if the approval is APPROVED and its receipt,
-- request, chain, requirements and policy bundle are those of the original receipt, the current
-- chain is VALID, the holder is BOUND, the authority APPLICABLE, and a fresh evaluation again asks
-- for approval; and it carries a permit exactly then.
pub revalidate_for_execution-authorized :
    (digests : Digests) (receipt : DecisionReceipt) (approved : PendingApproval)
    (request : AuthorizationRequest) (bundle : PolicyBundle) (chain : DelegationChain)
    (state : AuthorizationState) (binding : SubjectPrincipalBinding)
    (r : ExecutionAuthorizationResult)
    → revalidate_for_execution digests receipt approved request bundle chain state binding ≡ ok r
    → (v : AuthorityValidationResult) × (d : Decision) × (validate_authority digests chain state
        ≡ ok v)
      × (evaluate digests request bundle v.verified_authority (some binding) ≡ ok d)
      × ((r.status ≡ ExecutionAuthorizationStatus.authorized)
          ↔ StillAuthorized receipt approved
              (current digests receipt approved request bundle chain state v d))
      × PermitIffAuthorized r
unfolding revalidate_for_execution
revalidate_for_execution-authorized digests receipt approved request bundle chain state binding r
      h =
    let (v, validated, h1) = bind_returns _ _ h in
    let (d, evaluated, h2) = bind_returns _ _ h1 in
    let (same, present) = finish_revalidation-ok digests _ r _ h2 in
    let iff =
      revalidation_status_iff receipt approved
        (current digests receipt approved request bundle chain state v d) in
    (v, d, validated, evaluated, (λ e. iff.0 (sym same ∙ e), λ s. same ∙ iff.1 s), present)
