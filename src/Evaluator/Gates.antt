-- ===== src/Evaluator/Gates.antt =====
-- The two authority gates of `evaluate`: what a decision that is not DENY says of the request.
use mathlib.Core.Logic.{◌≢◌}
use nest_authz.Prelude.{◌≡◌, refl, subst, Bool, true, false, Option, some, if◌then◌else◌, ok, arith}
use nest_authz.Domain.Status.{
  Outcome, SubjectAuthorityBindingStatus, subject_authority_binding_status_eq,
  AuthorityApplicabilityStatus, authority_applicability_status_eq,
}
use nest_authz.Domain.Value.{is_blank}
use nest_authz.Domain.Identity.{SubjectPrincipalBinding}
use nest_authz.Domain.Authority.{VerifiedAuthority}
use nest_authz.Domain.Policy.{PolicyBundle}
use nest_authz.Domain.Request.{AuthorizationRequest}
use nest_authz.Domain.Evidence.{SubjectAuthorityBindingResult, AuthorityApplicabilityResult}
use nest_authz.Domain.Decision.{Decision}
use nest_authz.Digests.{Digests}
use nest_authz.Applicability.{check_authority_applicability}
use nest_authz.Applicability.Laws.{WithinScope, HasNamedBounds}
use nest_authz.Applicability.Scope.{check_authority_applicability_decides}
use nest_authz.Binding.{check_subject_authority_binding}
use nest_authz.Binding.Laws.{binding_result, check_subject_authority_binding-ok, binding_status_iff}
use nest_authz.Evaluator.Decide.{applicability_of, holder_binding_of, evaluate}
use nest_authz.Evaluator.Combining.{gates_pass, outcome_at, strongest, evaluate-outcome}

gates_pass_of_not_deny :
    (b : Bool) (o : Outcome) {out : Outcome}
    → out ≡ (if b then o else Outcome.deny)
    → out ≢ Outcome.deny
    → b ≡ true
gates_pass_of_not_deny true o h allowed = refl
gates_pass_of_not_deny false o h allowed = elim (allowed h) [ ]

module _ (digests : Digests) (request : AuthorizationRequest) (a : VerifiedAuthority)
    (b : SubjectPrincipalBinding) where
  applicability_of-eq :
      (r : AuthorityApplicabilityResult)
      → check_authority_applicability digests request a ≡ ok r
      → (o : Option AuthorityApplicabilityResult) → applicability_of digests request (some a) ≡ ok o
      → o ≡ some r
  unfolding applicability_of
  applicability_of-eq r e o h = ground arith

  holder_binding_of-eq :
      (r : SubjectAuthorityBindingResult)
      → check_subject_authority_binding digests request b a ≡ ok r
      → (o : Option SubjectAuthorityBindingResult)
      → holder_binding_of digests request (some a) (some b) ≡ ok o
      → o ≡ some r
  unfolding holder_binding_of
  holder_binding_of-eq r e o h = ground arith

  -- If the decision is not DENY, the authority's grant identifier is not blank and its bounds have
  -- distinct, non-blank names, then the request is within the authority's scope, and the binding
  -- joins the request's subject to the authority's principal.
  pub evaluate-within_authority :
      (bundle : PolicyBundle) (d : Decision)
      → is_blank a.grant_id ≡ false
      → HasNamedBounds a.scope
      → evaluate digests request bundle (some a) (some b) ≡ ok d
      → d.outcome ≢ Outcome.deny
      → WithinScope request a.scope × (request.subject ≡ b.subject) × (b.principal ≡ a.principal)
  evaluate-within_authority bundle d named bounds returns allowed =
      let (es, o, p, _, e, f, outcome) =
        evaluate-outcome digests request bundle (some a) (some b) d returns in
      let (r, decided, iff) =
        check_authority_applicability_decides digests request a named bounds in
      let s = binding_result digests request b a in
      let passed =
        gates_pass_of_not_deny (gates_pass o p) (outcome_at (strongest es)) outcome allowed in
      let same_o = applicability_of-eq r decided o e in
      let same_p =
        holder_binding_of-eq s (check_subject_authority_binding-ok digests request b a named) p f in
      let both : gates_pass (some r) (some s) ≡ true =
        subst (λ x. gates_pass (some r) x ≡ true) same_p
          (subst (λ x. gates_pass x p ≡ true) same_o passed) in
      let (same_subject, holds) =
        (binding_status_iff digests request b a).0 (passes_bound r s both) in
      (iff.0 (passes_applicable r s both), same_subject, holds)
    where
      passes_applicable :
          (r : AuthorityApplicabilityResult) (s : SubjectAuthorityBindingResult)
          → gates_pass (some r) (some s) ≡ true
          → r.status ≡ AuthorityApplicabilityStatus.applicable
      passes_applicable r s h = ground arith

      passes_bound :
          (r : AuthorityApplicabilityResult) (s : SubjectAuthorityBindingResult)
          → gates_pass (some r) (some s) ≡ true
          → s.status ≡ SubjectAuthorityBindingStatus.bound
      passes_bound r s h = ground arith
