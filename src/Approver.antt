-- ===== src/Approver.antt =====
-- approver.py: authorization of an approval actor for one requirement.
pub mod Decides
use nest_authz.Prelude.{◌!=◌, contains, if◌then◌else◌, Result}
use nest_authz.Domain.Status.{ApproverAuthorizationStatus}
use nest_authz.Domain.Identity.{Subject, ApproverSubjectPrincipalBinding, subject_eq, principal_eq}
use nest_authz.Domain.Policy.{ApprovalRequirement, approval_requirement_eq}
use nest_authz.Domain.Approval.{
  ApproverAuthorizationResult, approver_authorization_result_post_init,
}

unfoldable pub approver_status :
    Subject
    → ApproverSubjectPrincipalBinding
    → ApprovalRequirement
    → ApprovalRequirement
    → ApproverAuthorizationStatus
approver_status actor binding required attempted =
    if required != attempted
    then ApproverAuthorizationStatus.requirement_mismatch
    else if actor != binding.subject
    then ApproverAuthorizationStatus.subject_mismatch
    else if contains binding.principal required.allowed_principals
    then ApproverAuthorizationStatus.authorized
    else ApproverAuthorizationStatus.principal_not_allowed

unfoldable pub check_approver_authorization :
    Subject
    → ApproverSubjectPrincipalBinding
    → ApprovalRequirement
    → ApprovalRequirement
    → Result ApproverAuthorizationResult
check_approver_authorization actor binding required attempted =
    approver_authorization_result_post_init (record {
      status = approver_status actor binding required attempted;
      actor = actor;
      binding = binding;
      required_requirement = required;
      attempted_requirement = attempted;
    })
