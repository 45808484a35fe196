-- ===== src/Approval/Reach.antt =====
-- The life of an approval: sequences of transitions, and what holds along them.
use mathlib.Core.Logic.{◌≢◌}
use nest_authz.Prelude.{
  ℤ, ◌≤ℤ◌, ≤ℤ_trans, ◌≡◌, refl, sym, ap, subst, ◌∙◌, Option, none, List, [], ◌∷◌, All, In, NoDup,
  All-sort_by, In-sort_by, NoDup-sort_by, ok, arith, Result-cases, inl, inr, bind_returns,
}
use nest_authz.Domain.Status.{ApprovalRequirementStatus, ApprovalStatus}
use nest_authz.Domain.Policy.{ApprovalRequirement, approval_requirement_eq}
use nest_authz.Domain.Receipt.{DecisionReceipt}
use nest_authz.Domain.Approval.{
  ApproverAuthorizationResult, ApprovalRequirementState, PendingApproval, Transition,
  requirements_of, check_authorization, approval_requirement_state_post_init,
}
use nest_authz.Domain.Execution.{ExecutionPermit}
use nest_authz.Digests.{Digests}
use nest_authz.Approval.{
  create_pending_approval, approve_requirement, reject_requirement, expire_requirement,
  consume_approval, pending_states,
}
use nest_authz.Approval.Makes.{Makes, from_transition-ok}
use nest_authz.Approval.Checks.{
  Transitions, transition_requirement-ok, Consumes, consume_approval-ok, replacement,
}
use nest_authz.Approval.States.{
  Evidenced, NoDup-repeats, All-replace, In-replace_ne, selected_unique, IsApproved,
  lifecycle-consumed,
}

-- One call that returns.
pub data Step (digests : Digests) : PendingApproval → PendingApproval → Type 0 where
  approve :
      {p q : PendingApproval} (r : ApprovalRequirement) (a : ApproverAuthorizationResult) (t : ℤ)
      → approve_requirement p r a t ≡ ok q
      → Step digests p q
  reject :
      {p q : PendingApproval} (r : ApprovalRequirement) (a : ApproverAuthorizationResult) (t : ℤ)
      → reject_requirement p r a t ≡ ok q
      → Step digests p q
  expire :
      {p q : PendingApproval} (r : ApprovalRequirement) (t : ℤ)
      → expire_requirement p r t ≡ ok q
      → Step digests p q
  consume :
      {p q : PendingApproval} (permit : ExecutionPermit) (t : ℤ)
      → consume_approval digests p permit t ≡ ok q
      → Step digests p q

pub data Run (digests : Digests) : PendingApproval → PendingApproval → Type 0 where
  stop : {p : PendingApproval} → Run digests p p
  then_ : {p q r : PendingApproval} → Step digests p q → Run digests q r → Run digests p r

-- No requirement has two states, decided states carry their evidence, and a CONSUMED approval
-- has approved states alone.
pub record WellFormed (p : PendingApproval) : Type 0 where
  pub distinct : NoDup (requirements_of p.requirement_states)
  pub evidenced : All Evidenced p.requirement_states
  pub fully_approved : p.status ≡ ApprovalStatus.consumed → All IsApproved p.requirement_states

-- What one step keeps.
pub record Keeps (p q : PendingApproval) : Type 0 where
  pub same_receipt : q.receipt ≡ p.receipt
  pub same_digest : q.receipt_digest ≡ p.receipt_digest
  pub in_order : p.logical_time ≤ℤ q.logical_time
  pub decided :
      (s : ApprovalRequirementState)
      → In s p.requirement_states
      → s.status ≢ ApprovalRequirementStatus.pending
      → In s q.requirement_states

Keeps-trans : {p q r : PendingApproval} → Keeps p q → Keeps q r → Keeps p r
Keeps-trans {p} {q} {r} h k = record {
  same_receipt = k.same_receipt ∙ h.same_receipt;
  same_digest = k.same_digest ∙ h.same_digest;
  in_order = ≤ℤ_trans p.logical_time q.logical_time r.logical_time h.in_order k.in_order;
  decided = λ s i ne. k.decided s (h.decided s i ne) ne;
}

Makes-WellFormed :
    (t : Transition) (q : PendingApproval)
    → Makes t q
    → All Evidenced t.requirement_states
    → WellFormed q
Makes-WellFormed t q m evidenced = record {
  distinct =
      subst (λ x. NoDup (requirements_of x)) (sym m.sorted)
        (NoDup-sort_by (λ s. s.requirement) _ t.requirement_states (NoDup-repeats _ m.distinct));
  evidenced =
      subst (All Evidenced) (sym m.sorted) (All-sort_by Evidenced _ t.requirement_states evidenced);
  fully_approved = λ e.
      subst (All IsApproved) (sym m.sorted)
        (lifecycle-consumed _ _ _ _ (m.status_follows ∙ ap (λ x. ok x) e));
}

Transitions-WellFormed :
    {p : PendingApproval} {r : ApprovalRequirement} {status : ApprovalRequirementStatus}
    {a : Option ApproverAuthorizationResult} {t : ℤ} {q : PendingApproval}
    → WellFormed p
    → Transitions p r status a t q
    → WellFormed q
Transitions-WellFormed {p} {r} {status} {a} {t} {q} wf h = Makes-WellFormed _ q h.makes (
    All-replace Evidenced r (replacement r status a t) p.requirement_states h.authorized
      wf.evidenced)

Transitions-Keeps :
    {p : PendingApproval} {r : ApprovalRequirement} {status : ApprovalRequirementStatus}
    {a : Option ApproverAuthorizationResult} {t : ℤ} {q : PendingApproval}
    → WellFormed p
    → Transitions p r status a t q
    → Keeps p q
Transitions-Keeps {p} {r} {status} {a} {t} {q} wf h = record {
  same_receipt = h.makes.same_receipt;
  same_digest = h.makes.same_digest;
  in_order = subst (λ x. p.logical_time ≤ℤ x) (sym h.makes.same_time) h.in_order;
  decided = λ s i ne.
      let (u, selects, is_pending) = h.selected in
      subst (In s) (sym h.makes.sorted) (
        In-sort_by _ s _ (
          In-replace_ne r (replacement r status a t) s p.requirement_states
            (λ e. ne (
              ap (λ x. x.status)
                (selected_unique r s u p.requirement_states wf.distinct i e selects)
              ∙ is_pending))
            i));
}

Consumes-Keeps :
    {digests : Digests} {p : PendingApproval} {permit : ExecutionPermit} {t : ℤ}
    {q : PendingApproval}
    → Consumes digests p permit t q
    → Keeps p q
Consumes-Keeps {digests} {p} {permit} {t} {q} h = record {
  same_receipt = h.makes.same_receipt;
  same_digest = h.makes.same_digest;
  in_order = subst (λ x. p.logical_time ≤ℤ x) (sym h.makes.same_time) h.in_order;
  decided = λ s i ne. subst (In s) (sym h.makes.sorted) (In-sort_by _ s _ i);
}

Step-Keeps :
    {digests : Digests} {p q : PendingApproval}
    → WellFormed p
    → Step digests p q
    → WellFormed q × Keeps p q
unfolding approve_requirement reject_requirement expire_requirement
Step-Keeps wf (approve r a t h) =
    let c = transition_requirement-ok _ _ _ _ _ _ h in
    (Transitions-WellFormed wf c, Transitions-Keeps wf c)
Step-Keeps wf (reject r a t h) =
    let c = transition_requirement-ok _ _ _ _ _ _ h in
    (Transitions-WellFormed wf c, Transitions-Keeps wf c)
Step-Keeps wf (expire r t h) =
    let c = transition_requirement-ok _ _ _ _ _ _ h in
    (Transitions-WellFormed wf c, Transitions-Keeps wf c)
Step-Keeps wf (consume permit t h) =
    let c = consume_approval-ok _ _ _ _ _ h in
    (Makes-WellFormed _ _ c.makes wf.evidenced, Consumes-Keeps c)

-- Along any sequence of transitions from a well-formed approval, the receipt and its digest stay,
-- logical time does not go back, and every requirement state that is no longer PENDING stays as
-- it is; the approval stays well formed.
pub Run-Keeps :
    (digests : Digests) (p q : PendingApproval)
    → WellFormed p
    → Run digests p q
    → WellFormed q × Keeps p q
Run-Keeps digests p q wf stop = (
  wf,
  record { same_receipt = refl; same_digest = refl; in_order = omega arith; decided = λ s i ne. i },
)
Run-Keeps digests p q wf (then_ {q = m} step run) =
    let (wf_m, keeps) = Step-Keeps wf step in
    let (wf_q, keeps_rest) = Run-Keeps digests m q wf_m run in (wf_q, Keeps-trans keeps keeps_rest)

-- A CONSUMED approval is terminal: no transition of it returns.
pub consumed_is_terminal :
    (digests : Digests) (p q : PendingApproval)
    → p.status ≡ ApprovalStatus.consumed
    → ¬ Step digests p q
unfolding approve_requirement reject_requirement expire_requirement
consumed_is_terminal digests p q e (approve r a t h) =
    (transition_requirement-ok _ _ _ _ _ _ h).not_consumed e
consumed_is_terminal digests p q e (reject r a t h) =
    (transition_requirement-ok _ _ _ _ _ _ h).not_consumed e
consumed_is_terminal digests p q e (expire r t h) =
    (transition_requirement-ok _ _ _ _ _ _ h).not_consumed e
consumed_is_terminal digests p q e (consume permit t h) =
    (consume_approval-ok _ _ _ _ _ h).not_consumed e

ok_states : {a b : List ApprovalRequirementState} → ok a ≡ ok b → a ≡ b
ok_states h = cc

pending-Evidenced :
    (requirements : List ApprovalRequirement) (t : ℤ) (states : List ApprovalRequirementState)
    → pending_states requirements t ≡ ok states
    → All Evidenced states
unfolding pending_states approval_requirement_state_post_init check_authorization
pending-Evidenced [] t states h = subst (All Evidenced) (ok_states h) tt
pending-Evidenced (r ∷ requirements) t states h =
    elim (Result-cases (pending_states requirements t)) [
      | inl (e, f) ↦ ground arith
      | inr (rest, f) ↦
          let same : (replacement r ApprovalRequirementStatus.pending none t ∷ rest) ≡ states =
            ground arith in
          subst (All Evidenced) same ((λ e. ground arith), pending-Evidenced requirements t rest f)
    ]

-- The states are those of the receipt's requirements, one for each and in order.
abbrev pub CoversReceipt : PendingApproval → Type 0
CoversReceipt p = requirements_of p.requirement_states ≡ p.receipt.approval_requirements

Makes-CoversReceipt : (t : Transition) (p : PendingApproval) → Makes t p → CoversReceipt p
Makes-CoversReceipt t p m = m.covers ∙ ap (λ x. x.approval_requirements) (sym m.same_receipt)

Step-CoversReceipt :
    {digests : Digests} {p q : PendingApproval} → Step digests p q → CoversReceipt q
unfolding approve_requirement reject_requirement expire_requirement
Step-CoversReceipt (approve r a t h) =
    Makes-CoversReceipt _ _ (transition_requirement-ok _ _ _ _ _ _ h).makes
Step-CoversReceipt (reject r a t h) =
    Makes-CoversReceipt _ _ (transition_requirement-ok _ _ _ _ _ _ h).makes
Step-CoversReceipt (expire r t h) =
    Makes-CoversReceipt _ _ (transition_requirement-ok _ _ _ _ _ _ h).makes
Step-CoversReceipt (consume permit t h) =
    Makes-CoversReceipt _ _ (consume_approval-ok _ _ _ _ _ h).makes

Run-CoversReceipt :
    (digests : Digests) (p q : PendingApproval)
    → CoversReceipt p
    → Run digests p q
    → CoversReceipt q
Run-CoversReceipt digests p q covers stop = covers
Run-CoversReceipt digests p q covers (then_ {q = m} step run) =
    Run-CoversReceipt digests m q (Step-CoversReceipt step) run

-- An approval reached by any transitions from one that `create_pending_approval` made for a receipt
-- still holds that receipt and its digest; its states are those of the receipt's requirements, in
-- their order, one for each and no requirement twice; and every APPROVED or REJECTED state carries
-- AUTHORIZED evidence for its requirement. If it is CONSUMED, every state is APPROVED.
pub reachable-WellFormed :
    (digests : Digests) (receipt : DecisionReceipt) (t : ℤ) (p q : PendingApproval)
    → create_pending_approval digests receipt t ≡ ok p
    → Run digests p q
    → WellFormed q
      × (requirements_of q.requirement_states ≡ receipt.approval_requirements)
      × (q.receipt ≡ receipt)
      × (q.receipt_digest ≡ digests.receipt_digest receipt)
unfolding create_pending_approval
reachable-WellFormed digests receipt t p q created run =
    let (states, f, h) = bind_returns _ _ created in
    let m = from_transition-ok _ p h in
    let (wf, keeps) =
      Run-Keeps digests p q (Makes-WellFormed _ p m (pending-Evidenced _ t states f)) run in
    let covers = Run-CoversReceipt digests p q (Makes-CoversReceipt _ p m) run in
    let same = keeps.same_receipt ∙ m.same_receipt in
    (wf, covers ∙ ap (λ x. x.approval_requirements) same, same, keeps.same_digest ∙ m.same_digest)
