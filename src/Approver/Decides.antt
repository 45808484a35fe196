-- ===== src/Approver/Decides.antt =====
-- The result of `check_approver_authorization`.
use nest_authz.Prelude.{◌≡◌, refl, ◌↔◌, true, contains, arith, ok}
use nest_authz.Domain.Status.{ApproverAuthorizationStatus, approver_authorization_status_eq}
use nest_authz.Domain.Identity.{Subject, ApproverSubjectPrincipalBinding, subject_eq, principal_eq}
use nest_authz.Domain.Policy.{ApprovalRequirement, approval_requirement_eq}
use nest_authz.Domain.Approval.{
  ApproverAuthorizationResult, expected_approver_status, approver_authorization_result_post_init,
}
use nest_authz.Approver.{approver_status, check_approver_authorization}

module _ (actor : Subject) (binding : ApproverSubjectPrincipalBinding)
    (required attempted : ApprovalRequirement) where
  abbrev approver_result : ApproverAuthorizationResult
  approver_result = record {
    status = approver_status actor binding required attempted;
    actor = actor;
    binding = binding;
    required_requirement = required;
    attempted_requirement = attempted;
  }

  approver_status-expected :
      approver_status actor binding required attempted ≡ expected_approver_status approver_result
  unfolding approver_status expected_approver_status
  approver_status-expected = refl

  approver_status_iff :
      (approver_status actor binding required attempted ≡ ApproverAuthorizationStatus.authorized)
      ↔ (required ≡ attempted)
        × (actor ≡ binding.subject)
        × (contains binding.principal required.allowed_principals ≡ true)
  unfolding approver_status
  approver_status_iff = (λ h. (ground arith, ground arith, ground arith), λ h. ground arith)

  check_approver_authorization-ok :
      check_approver_authorization actor binding required attempted ≡ ok approver_result
  unfolding check_approver_authorization approver_authorization_result_post_init
  check_approver_authorization-ok = ground (arith, approver_status-expected)

  -- The check returns on all inputs, with a result that names the binding and both requirements. It
  -- is AUTHORIZED exactly if the requirement attempted is the one required, the actor is the
  -- binding's subject, and the binding's principal is one that the requirement allows.
  pub check_approver_authorization_decides :
      (r : ApproverAuthorizationResult) × (check_approver_authorization actor binding required
          attempted
        ≡ ok r)
      × (r.binding ≡ binding)
      × (r.required_requirement ≡ required)
      × (r.attempted_requirement ≡ attempted)
      × ((r.status ≡ ApproverAuthorizationStatus.authorized)
          ↔ (required ≡ attempted)
            × (actor ≡ binding.subject)
            × (contains binding.principal required.allowed_principals ≡ true))
  check_approver_authorization_decides =
      (approver_result, check_approver_authorization-ok, refl, refl, refl, approver_status_iff)
