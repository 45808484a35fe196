-- ===== src/Tests/Canonical.antt =====
-- The theorems on canonical bytes and digests, at values of Examples.antt and with a toy hash.
use native.Mathlib.Decide.{ℕ_discrete}
use nest_authz.Prelude.{
  pos, ℤ, String, ◌≡◌, ◌⊎◌, refl, none, some, ok, err, Error, Result, List, true, arith, [], ◌∷◌,
  string_eq, nat_eq, sort_by, string_discrete,
}
use nest_authz.Domain.Hex.{IsDigest, sha256_digest_post_init, hex, hex_value}
use nest_authz.Domain.Value.{
  Sha256Digest, Scalar, Fields, repeats, text_lt, is_blank, non_blank, check_entries,
  canonical_entries as domain_entries, canonical_fields,
}
use nest_authz.Domain.Status.{AuthorityApplicabilityStatus, Outcome, SubjectAuthorityBindingStatus}
use nest_authz.Domain.Evidence.{SubjectAuthorityBindingResult}
use nest_authz.Domain.Decision.{Decision}
use nest_authz.Domain.Execution.{ExecutionPermit}
use nest_authz.Digests.{Digests}
use nest_authz.Canonical.Bytes.{Bytes, big_endian, bits, bit_length, utf8_char, utf8}
use nest_authz.Canonical.Encode.{
  frame, encode_null, encode_boolean, magnitude_bytes, encode_integer, encode_string, join_all,
  encode_sequence, bytes_lt, canonical_entries, join_entries, encode_map, evaluated, encode_record,
  encode_scalar, encode_scalar_map, encode_integer_map, encode_string_sequence, encode_optional,
}
use nest_authz.Canonical.Digest.{preamble, canonical_bytes, sha256_digest}
use nest_authz.Canonical.Schema.Authority.{
  encode_subject, encode_action, encode_resource, encode_sha256_digest, encode_principal,
  encode_subject_principal_binding, encode_approver_subject_principal_binding,
  encode_authority_scope, encode_authority_grant, encode_delegation_chain, encode_revocation_set,
  encode_authorization_state, encode_authority_validation_status, encode_verified_authority,
  encode_authority_validation_result,
}
use nest_authz.Canonical.Schema.Policy.{
  encode_field_namespace, encode_field_reference, encode_condition_operator, encode_condition,
  encode_obligation, encode_approval_requirement, encode_rule_effect, encode_rule, encode_policy,
  encode_policy_bundle,
}
use nest_authz.Canonical.Schema.Request.{
  encode_request_context, encode_authority_context, encode_authorization_request,
}
use nest_authz.Canonical.Schema.Evidence.{
  encode_authority_applicability_status, encode_authority_bound_evaluation,
  encode_authority_applicability_result, encode_subject_authority_binding_status,
  encode_subject_authority_binding_result,
}
use nest_authz.Canonical.Schema.Decision.{
  encode_outcome, encode_condition_status, encode_reason, encode_rule_evaluation_status,
  encode_rule_evaluation, encode_decision_evidence, encode_decision,
}
use nest_authz.Canonical.Schema.Approval.{
  encode_approver_authorization_status, encode_approver_authorization_result,
  encode_approval_requirement_status, encode_approval_status, encode_approval_requirement_state,
  encode_decision_receipt, encode_pending_approval,
}
use nest_authz.Canonical.Schema.Execution.{
  encode_execution_authorization_status, encode_execution_permit,
  encode_execution_authorization_result, encode_execution_id, encode_execution_status,
  encode_execution_record, encode_execution_reservation_status, encode_execution_reservation_result,
}
use nest_authz.Canonical.Records.{names, encode_record-same_type}
use nest_authz.Canonical.Bounds.{encode_map_rejects_repeats}
use nest_authz.Canonical.Order.{bytes_lt-utf8}
use nest_authz.Canonical.Sorted.{canonical_fields-IsSortedMap}
use nest_authz.Canonical.Primitives.{Any}
use nest_authz.Canonical.Containers.{IsSortedMap}
use nest_authz.Canonical.ReadBack.Authority.{IsCanonicalDelegationChain, IsCanonicalAuthorityScope}
use nest_authz.Canonical.ReadBack.Request.{IsCanonicalAuthorizationRequest}
use nest_authz.Canonical.ReadBack.Policy.{IsCanonicalPolicyBundle, IsCanonicalApprovalRequirement}
use nest_authz.Canonical.ReadBack.Evidence.{IsCanonicalSubjectAuthorityBindingResult}
use nest_authz.Canonical.ReadBack.Execution.{IsCanonicalExecutionPermit}
use nest_authz.Canonical.Binding.{
  Collision, chain_digest_binds, request_digest_binds, bundle_digest_binds, execution_id_binds,
}
use nest_authz.Examples.{
  checksum, ok_or, zeros, scope_up_to, digests, chain, request, bundle, subject_binding,
  requirement,
}

abbrev zero_digest : Sha256Digest
zero_digest = record { value = 0 ∷ zeros }

abbrev no_digest : Sha256Digest
no_digest = record { value = [] }

abbrev chain_digest : Sha256Digest
chain_digest = ok_or no_digest (sha256_digest checksum encode_delegation_chain chain)

abbrev request_digest : Sha256Digest
request_digest = ok_or no_digest (sha256_digest checksum encode_authorization_request request)

abbrev bundle_digest : Sha256Digest
bundle_digest = ok_or no_digest (sha256_digest checksum encode_policy_bundle bundle)

abbrev holder_evidence : SubjectAuthorityBindingResult
holder_evidence = record {
  status = SubjectAuthorityBindingStatus.bound;
  request_digest = zero_digest;
  authority_digest = zero_digest;
  request_subject = request.subject;
  binding = subject_binding;
  authority_principal = subject_binding.principal;
  effective_grant_id = "g2";
}

abbrev small_decision : Decision
small_decision = record {
  outcome = Outcome.approval_required;
  reasons = [];
  evidence = record {
    policy_bundle_digest = zero_digest;
    request_digest = zero_digest;
    rule_evaluations = [];
    authority_applicability = none;
    subject_authority_binding = some holder_evidence;
  };
  obligations = [];
  approval_requirements = requirement ∷ [];
}

abbrev small_permit : ExecutionPermit
small_permit = record {
  original_receipt_digest = zero_digest;
  approved_state_digest = zero_digest;
  current_request_digest = zero_digest;
  current_policy_bundle_digest = zero_digest;
  current_delegation_chain_digest = zero_digest;
  current_authorization_state_digest = zero_digest;
  current_validated_authority_digest = zero_digest;
  subject_authority_binding = holder_evidence;
  authority_applicability = record {
    status = AuthorityApplicabilityStatus.applicable;
    request_digest = zero_digest;
    authority_digest = zero_digest;
    chain_digest = zero_digest;
    state_digest = zero_digest;
    effective_grant_id = "g2";
    expected_action = request.action;
    request_action = request.action;
    action_matches = true;
    expected_resource = request.resource;
    request_resource = request.resource;
    resource_matches = true;
    bound_evaluations = [];
  };
  decision = small_decision;
}

abbrev hashing : Digests
hashing = record digests {
  permit_digest = λ p. ok_or no_digest (sha256_digest checksum encode_execution_permit p);
}

abbrev action_type : String
action_type = "nest-authz/action@1"

abbrev name_fields : List (String × Result Bytes)
name_fields = ("name", encode_string "pay") ∷ []

abbrev name_record : Bytes
name_record = ok_or [] (encode_record "nest-authz/action@1" name_fields)

-- The digests and encodings that the values of the examples have, by computing them.
record Hashes : Type 0 where
  chain_is_hashed : sha256_digest checksum encode_delegation_chain chain ≡ ok chain_digest
  request_is_hashed :
      sha256_digest checksum encode_authorization_request request ≡ ok request_digest
  bundle_is_hashed : sha256_digest checksum encode_policy_bundle bundle ≡ ok bundle_digest
  permit_is_hashed :
      sha256_digest checksum encode_execution_permit small_permit
      ≡ ok (hashing.permit_digest small_permit)
  name_is_encoded : encode_record "nest-authz/action@1" name_fields ≡ ok name_record

hashes : Hashes
unfolding big_endian bits bit_length utf8_char utf8 frame encode_null encode_boolean magnitude_bytes
    encode_integer encode_string join_all encode_sequence bytes_lt canonical_entries join_entries
    encode_map evaluated encode_record encode_scalar encode_scalar_map encode_integer_map
    encode_string_sequence encode_optional preamble canonical_bytes sha256_digest encode_subject
    encode_action encode_resource encode_sha256_digest encode_principal
    encode_subject_principal_binding encode_approver_subject_principal_binding
    encode_authority_scope encode_authority_grant encode_delegation_chain encode_revocation_set
    encode_authorization_state encode_authority_validation_status encode_verified_authority
    encode_authority_validation_result encode_field_namespace encode_field_reference
    encode_condition_operator encode_condition encode_obligation encode_approval_requirement
    encode_rule_effect encode_rule encode_policy encode_policy_bundle encode_request_context
    encode_authority_context encode_authorization_request encode_authority_applicability_status
    encode_authority_bound_evaluation encode_authority_applicability_result
    encode_subject_authority_binding_status encode_subject_authority_binding_result encode_outcome
    encode_condition_status encode_reason encode_rule_evaluation_status encode_rule_evaluation
    encode_decision_evidence encode_decision encode_approver_authorization_status
    encode_approver_authorization_result encode_approval_requirement_status encode_approval_status
    encode_approval_requirement_state encode_decision_receipt encode_pending_approval
    encode_execution_authorization_status encode_execution_permit
    encode_execution_authorization_result encode_execution_id encode_execution_status
    encode_execution_record encode_execution_reservation_status encode_execution_reservation_result
    sha256_digest_post_init hex hex_value string_eq nat_eq sort_by string_discrete ℕ_discrete
hashes = record {
  chain_is_hashed = refl;
  request_is_hashed = refl;
  bundle_is_hashed = refl;
  permit_is_hashed = refl;
  name_is_encoded = refl;
}

chain-IsCanonicalDelegationChain : IsCanonicalDelegationChain chain
unfolding sort_by
chain-IsCanonicalDelegationChain =
    let scope_is : (limit : ℤ) → IsCanonicalAuthorityScope (scope_up_to limit) =
      λ limit. record { context_upper_bounds = record { is_sorted = refl; values = (tt, tt) } } in
    record {
      grants = (record { scope = scope_is (pos 100) }, (record { scope = scope_is (pos 50) }, tt));
    }

request-IsCanonicalAuthorizationRequest : IsCanonicalAuthorizationRequest request
unfolding sort_by
request-IsCanonicalAuthorizationRequest = record {
  context = record { attributes = record { is_sorted = refl; values = (tt, tt) } };
  authority_context = tt;
}

chain_digest_binds_example : (chain ≡ chain) ⊎ Collision checksum
chain_digest_binds_example =
    chain_digest_binds checksum chain chain chain_digest chain-IsCanonicalDelegationChain
      chain-IsCanonicalDelegationChain hashes.chain_is_hashed hashes.chain_is_hashed

request_digest_binds_example : (request ≡ request) ⊎ Collision checksum
request_digest_binds_example =
    request_digest_binds checksum request request request_digest
      request-IsCanonicalAuthorizationRequest request-IsCanonicalAuthorizationRequest
      hashes.request_is_hashed hashes.request_is_hashed

zero_digest-IsDigest : IsDigest zero_digest
zero_digest-IsDigest = record { bytes = ground arith; size = refl }

requirement-IsCanonicalApprovalRequirement : IsCanonicalApprovalRequirement requirement
unfolding sort_by
requirement-IsCanonicalApprovalRequirement = record {
  parameters = record { is_sorted = refl; values = tt };
}

bundle-IsCanonicalPolicyBundle : IsCanonicalPolicyBundle bundle
bundle-IsCanonicalPolicyBundle = record {
  policies = (
    record {
      rules = (
        record {
          obligations = tt;
          approval_requirements = (requirement-IsCanonicalApprovalRequirement, tt);
        },
        tt,
      );
    },
    tt,
  );
}

evidence_is_canonical : IsCanonicalSubjectAuthorityBindingResult holder_evidence
evidence_is_canonical = record {
  request_digest = zero_digest-IsDigest;
  authority_digest = zero_digest-IsDigest;
}

small_permit-IsCanonicalExecutionPermit : IsCanonicalExecutionPermit small_permit
small_permit-IsCanonicalExecutionPermit =
    let z = zero_digest-IsDigest in
    record {
      original_receipt_digest = z;
      approved_state_digest = z;
      current_request_digest = z;
      current_policy_bundle_digest = z;
      current_delegation_chain_digest = z;
      current_authorization_state_digest = z;
      current_validated_authority_digest = z;
      subject_authority_binding = evidence_is_canonical;
      authority_applicability = record {
        request_digest = z;
        authority_digest = z;
        chain_digest = z;
        state_digest = z;
      };
      decision = record {
        evidence = record {
          policy_bundle_digest = z;
          request_digest = z;
          rule_evaluations = tt;
          authority_applicability = tt;
          subject_authority_binding = evidence_is_canonical;
        };
        obligations = tt;
        approval_requirements = (requirement-IsCanonicalApprovalRequirement, tt);
      };
    }

bundle_digest_binds_example : (bundle ≡ bundle) ⊎ Collision checksum
bundle_digest_binds_example =
    bundle_digest_binds checksum bundle bundle bundle_digest bundle-IsCanonicalPolicyBundle
      bundle-IsCanonicalPolicyBundle hashes.bundle_is_hashed hashes.bundle_is_hashed

execution_id_binds_example : (small_permit ≡ small_permit) ⊎ Collision checksum
execution_id_binds_example =
    execution_id_binds checksum hashing small_permit small_permit
      small_permit-IsCanonicalExecutionPermit small_permit-IsCanonicalExecutionPermit
      hashes.permit_is_hashed hashes.permit_is_hashed refl

repeated_name :
    repeats [] (names (("name", encode_string "pay") ∷ ("name", encode_string "read") ∷ [])) ≡ true
unfolding repeats string_eq string_discrete
repeated_name = refl

abbrev parameters : Fields
parameters = ("currency", Scalar.str "EUR") ∷ ("amount", Scalar.int (pos 20)) ∷ []

abbrev sorted_parameters : Fields
sorted_parameters = ("amount", Scalar.int (pos 20)) ∷ ("currency", Scalar.str "EUR") ∷ []

parameters_are_sorted : canonical_fields parameters "parameters" ≡ ok sorted_parameters
unfolding canonical_fields domain_entries check_entries non_blank is_blank text_lt sort_by string_eq
    string_discrete
parameters_are_sorted = refl

encode_record-same_type_example :
    (action_type ≡ action_type)
    × ((body : Bytes) × (encode_map name_fields ≡ ok body) × (encode_map name_fields ≡ ok body))
encode_record-same_type_example =
    encode_record-same_type action_type action_type name_fields name_fields name_record
      hashes.name_is_encoded hashes.name_is_encoded

encode_map_rejects_repeats_example :
    (e : Error) × (encode_map (("name", encode_string "pay") ∷ ("name", encode_string "read") ∷ [])
      ≡ err e)
encode_map_rejects_repeats_example =
    encode_map_rejects_repeats (("name", encode_string "pay") ∷ ("name", encode_string "read") ∷ [])
      repeated_name

bytes_lt-utf8_example : bytes_lt (utf8 "amount") (utf8 "currency") ≡ text_lt "amount" "currency"
bytes_lt-utf8_example = bytes_lt-utf8 "amount" "currency"

canonical_fields-IsSortedMap_example : IsSortedMap Any sorted_parameters
canonical_fields-IsSortedMap_example =
    canonical_fields-IsSortedMap parameters sorted_parameters "parameters" parameters_are_sorted
