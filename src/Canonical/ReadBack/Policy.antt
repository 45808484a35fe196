-- ===== src/Canonical/ReadBack/Policy.antt =====
-- Values with the same encoding are equal: policies.
use nest_authz.Prelude.{All, refl, string_eq}
use nest_authz.Canonical.Join.{IsEncoder, same_values}
use nest_authz.Canonical.Records.{record-IsEncoder}
use nest_authz.Canonical.Primitives.{Any, string-IsEncoder, scalar-IsEncoder}
use nest_authz.Canonical.Containers.{
  IsSortedMap, sequence-IsEncoder, any_sequence-IsEncoder, scalar_map-IsEncoder,
}
use nest_authz.Domain.Policy.{Obligation, ApprovalRequirement, Rule, Policy, PolicyBundle}
use nest_authz.Canonical.ReadBack.Members.{
  field_namespace-IsEncoder, condition_operator-IsEncoder, rule_effect-IsEncoder,
}
use nest_authz.Canonical.Schema.Authority.{encode_principal}
use nest_authz.Canonical.ReadBack.Authority.{principal-IsEncoder}
use nest_authz.Canonical.Schema.Policy.{
  encode_field_reference, encode_condition, encode_obligation, encode_approval_requirement,
  encode_rule, encode_policy, encode_policy_bundle,
}

pub field_reference-IsEncoder : IsEncoder Any encode_field_reference
unfolding encode_field_reference
field_reference-IsEncoder =
    record-IsEncoder "nest-authz/field-reference@1" _ (λ a b. refl)
      (λ a. (field_namespace-IsEncoder.frames a.namespace, (string-IsEncoder.frames a.name, tt)))
      (λ a b v w e i. record {
        namespace = same_values field_namespace-IsEncoder tt tt e.0 i;
        name = same_values string-IsEncoder tt tt e.1.0 i;
      })

pub condition-IsEncoder : IsEncoder Any encode_condition
unfolding encode_condition
condition-IsEncoder =
    record-IsEncoder "nest-authz/condition@2" _ (λ a b. refl)
      (λ a. (
        string-IsEncoder.frames a.identifier,
        (
          field_reference-IsEncoder.frames a.field,
          (condition_operator-IsEncoder.frames a.operator, (scalar-IsEncoder.frames a.value, tt)),
        ),
      ))
      (λ a b v w e i. record {
        identifier = same_values string-IsEncoder tt tt e.0 i;
        field = same_values field_reference-IsEncoder tt tt e.1.0 i;
        operator = same_values condition_operator-IsEncoder tt tt e.1.1.0 i;
        value = same_values scalar-IsEncoder tt tt e.1.1.1.0 i;
      })

-- What the constructors of domain.py assure: digests of 32 bytes and sorted maps.
pub record IsCanonicalObligation (value : Obligation) : Type 0 where
  pub parameters : IsSortedMap Any value.parameters

pub obligation-IsEncoder : IsEncoder IsCanonicalObligation encode_obligation
unfolding encode_obligation
obligation-IsEncoder =
    record-IsEncoder "nest-authz/obligation@1" _ (λ a b. refl)
      (λ a. (string-IsEncoder.frames a.code, (scalar_map-IsEncoder.frames a.parameters, tt)))
      (λ a b v w e i. record {
        code = same_values string-IsEncoder tt tt e.0 i;
        parameters = same_values scalar_map-IsEncoder v.parameters w.parameters e.1.0 i;
      })

-- What the constructors of domain.py assure: digests of 32 bytes and sorted maps.
pub record IsCanonicalApprovalRequirement (value : ApprovalRequirement) : Type 0 where
  pub parameters : IsSortedMap Any value.parameters

pub approval_requirement-IsEncoder :
    IsEncoder IsCanonicalApprovalRequirement encode_approval_requirement
unfolding encode_approval_requirement
approval_requirement-IsEncoder =
    record-IsEncoder "nest-authz/approval-requirement@2" _ (λ a b. refl)
      (λ a. (
        string-IsEncoder.frames a.code,
        (
          (any_sequence-IsEncoder encode_principal principal-IsEncoder).frames a.allowed_principals,
          (scalar_map-IsEncoder.frames a.parameters, tt),
        ),
      ))
      (λ a b v w e i. record {
        code = same_values string-IsEncoder tt tt e.0 i;
        allowed_principals =
            same_values (any_sequence-IsEncoder encode_principal principal-IsEncoder) tt tt e.1.0 i;
        parameters = same_values scalar_map-IsEncoder v.parameters w.parameters e.1.1.0 i;
      })

-- What the constructors of domain.py assure: digests of 32 bytes and sorted maps.
pub record IsCanonicalRule (value : Rule) : Type 0 where
  pub obligations : All IsCanonicalObligation value.obligations
  pub approval_requirements : All IsCanonicalApprovalRequirement value.approval_requirements

pub rule-IsEncoder : IsEncoder IsCanonicalRule encode_rule
unfolding encode_rule
rule-IsEncoder =
    record-IsEncoder "nest-authz/rule@3" _ (λ a b. refl)
      (λ a. (
        string-IsEncoder.frames a.identifier,
        (
          rule_effect-IsEncoder.frames a.effect,
          (
            (any_sequence-IsEncoder encode_condition condition-IsEncoder).frames a.conditions,
            (
              (sequence-IsEncoder IsCanonicalObligation encode_obligation
                    obligation-IsEncoder).frames
                  a.obligations,
              (
                (sequence-IsEncoder IsCanonicalApprovalRequirement encode_approval_requirement
                      approval_requirement-IsEncoder).frames
                    a.approval_requirements,
                tt,
              ),
            ),
          ),
        ),
      ))
      (λ a b v w e i. record {
        identifier = same_values string-IsEncoder tt tt e.0 i;
        effect = same_values rule_effect-IsEncoder tt tt e.1.0 i;
        conditions =
            same_values (any_sequence-IsEncoder encode_condition condition-IsEncoder) tt tt e.1.1.0
              i;
        obligations =
            same_values
              (sequence-IsEncoder IsCanonicalObligation encode_obligation obligation-IsEncoder)
              v.obligations w.obligations e.1.1.1.0 i;
        approval_requirements =
            same_values
              (sequence-IsEncoder IsCanonicalApprovalRequirement encode_approval_requirement
                approval_requirement-IsEncoder)
              v.approval_requirements w.approval_requirements e.1.1.1.1.0 i;
      })

-- What the constructors of domain.py assure: digests of 32 bytes and sorted maps.
pub record IsCanonicalPolicy (value : Policy) : Type 0 where
  pub rules : All IsCanonicalRule value.rules

pub policy-IsEncoder : IsEncoder IsCanonicalPolicy encode_policy
unfolding encode_policy
policy-IsEncoder =
    record-IsEncoder "nest-authz/policy@3" _ (λ a b. refl)
      (λ a. (
        string-IsEncoder.frames a.identifier,
        ((sequence-IsEncoder IsCanonicalRule encode_rule rule-IsEncoder).frames a.rules, tt),
      ))
      (λ a b v w e i. record {
        identifier = same_values string-IsEncoder tt tt e.0 i;
        rules =
            same_values (sequence-IsEncoder IsCanonicalRule encode_rule rule-IsEncoder) v.rules
              w.rules e.1.0 i;
      })

-- What the constructors of domain.py assure: digests of 32 bytes and sorted maps.
pub record IsCanonicalPolicyBundle (value : PolicyBundle) : Type 0 where
  pub policies : All IsCanonicalPolicy value.policies

pub policy_bundle-IsEncoder : IsEncoder IsCanonicalPolicyBundle encode_policy_bundle
unfolding encode_policy_bundle
policy_bundle-IsEncoder =
    record-IsEncoder "nest-authz/policy-bundle@3" _ (λ a b. refl)
      (λ a. (
        string-IsEncoder.frames "DENY_OVERRIDES",
        (
          (sequence-IsEncoder IsCanonicalPolicy encode_policy policy-IsEncoder).frames a.policies,
          tt,
        ),
      ))
      (λ a b v w e i. record {
        policies =
            same_values (sequence-IsEncoder IsCanonicalPolicy encode_policy policy-IsEncoder)
              v.policies w.policies e.1.0 i;
      })
