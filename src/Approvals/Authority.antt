-- ===== src/Approvals/Authority.antt =====
-- When `resume_sandbox_approval` of app/services/company_os_sandbox_approval_service.py acts on the
-- world, and what it does then.
use polsia_build.Common.{
  Option, ap, arith, false, inl, inr, none, not, some, subst, sym, ◌||◌, ◌∙◌, ◌≡◌,
}
use polsia_build.Approvals.Resume.{
  Reopened, Resume, after_capability, approved_intent, capability_found, check_binding,
  check_capability, effective, found, judge_resume, passed, resume_capability, resume_decision,
  resume_policy, resume_transition,
}
use polsia_build.Coordinator.Native.{CapabilityRequest, Native, read_native}
use polsia_build.Coordinator.Ruling.{trusted_intent, unfit}
use polsia_build.Integration.{IntegrationDecision, Registry, evaluate_registry}
use polsia_build.Policy.{Decimals, PolicyDecision, allow, evaluate_action_policy}
use polsia_build.Raises.{
  >>=-eq-ok, approval_error, attribute_error, err, ok, ok_injective, ok_or_err, or_raise,
  or_raise-some, raise_if-eq-ok, raised, text,
}
use polsia_build.Value.{Fields, Value, as_dict, eq, get, obj, str}
use polsia_build.Workflow.{WorkflowTransition}
use polsia_build.Workflow.Canonical.{granted}

module _ (intent : Fields) (t : Option WorkflowTransition) where
  after_capability-passed :
      (n m : Native) (u : Option WorkflowTransition)
      (q : Option (CapabilityRequest × IntegrationDecision)) (d : Option IntegrationDecision)
      → after_capability n intent t q ≡ passed m u d
      → (n ≡ m) × (d ≡ found q) × (check_capability intent q ≡ ok tt)
  after_capability-passed n m u q d h = elim (ok_or_err (check_capability intent q)) [
    | inr (e, a) ↦ absurd (ground arith)
    | inl (tt, a) ↦ elim (ok_or_err (check_binding intent t n.integration)) [
      | inr (e, b) ↦ absurd (ground arith)
      | inl (tt, b) ↦ (ground arith, ground arith, a)
    ]
  ]

-- A capability that passes is allowed in sandbox mode, where it is performed.
check_capability-fit :
    (intent : Fields) (q : CapabilityRequest) (d : IntegrationDecision)
    → check_capability intent (some (q, d)) ≡ ok tt
    → unfit d q.phase ≡ false
unfolding check_capability
check_capability-fit intent q d h = (raise_if-eq-ok (unfit d q.phase) approval_error _ _ h).0

capability_found-some :
    (r : Registry) (o : Option CapabilityRequest) (q : CapabilityRequest)
    (k : Option (CapabilityRequest × IntegrationDecision))
    → capability_found r o ≡ ok k
    → o ≡ some q
    → (d : IntegrationDecision) × (k ≡ some (q, d))
      × (evaluate_registry r q.name q.phase q.requested_use q.requested_scope ≡ ok d)
unfolding capability_found
capability_found-some r none q k h e = absurd (ground arith)
capability_found-some r (some p) q k h e =
    let (d, g, made) =
      >>=-eq-ok (evaluate_registry r p.name p.phase p.requested_use p.requested_scope) _ h in
    let same : p ≡ q = ground arith in
    (
      d,
      sym (ok_injective made) ∙ ap (λ (z : CapabilityRequest). some (z, d)) same,
      subst
          (λ (z : CapabilityRequest).
            evaluate_registry r z.name z.phase z.requested_use z.requested_scope ≡ ok d)
          same g,
    )

resume_capability-passed :
    (o : Reopened) (n m : Native) (intent : Fields) (t u : Option WorkflowTransition)
    (d : Option IntegrationDecision) (q : CapabilityRequest)
    → resume_capability o n intent t ≡ passed m u d
    → m.integration ≡ some q
    → (n ≡ m)
      × (k : IntegrationDecision) × (evaluate_registry o.registry q.name q.phase q.requested_use
            q.requested_scope
          ≡ ok k)
      × (unfit k q.phase ≡ false)
unfolding resume_capability
resume_capability-passed o n m intent t u d q h e =
    elim (ok_or_err (capability_found o.registry n.integration)) [
      | inr (x, a) ↦ absurd (ground arith)
      | inl (k, a) ↦
          let (same, _, fit) = after_capability-passed intent t n m u k d (ground arith) in
          let (found_d, is_k, granted) =
            capability_found-some o.registry n.integration q k a
              (ap (λ (z : Native). z.integration) same ∙ e) in
          (
            same,
            found_d,
            granted,
            check_capability-fit intent q found_d
                (subst (λ z. check_capability intent z ≡ ok tt) is_k fit),
          )
    ]

-- What the founder's approval lets through: a well-formed decision that the policy allows with it.
pub record IsAuthorizedResume (lib : Decimals) (o : Reopened) (c : Resume) (n : Native)
    : Type 0 where
  pub native : Fields
  pub decision : PolicyDecision
  pub is_native : as_dict (effective o.approval o.rows.request) ≡ some native
  pub read : read_native native o.definition.states c.canonical ≡ ok n
  pub evaluated :
      evaluate_action_policy lib (obj (approved_intent n o.approval.input_snapshot)) c.policy
      ≡ ok decision
  pub allowed : decision.disposition ≡ allow

resume_policy-allow :
    (lib : Decimals) (o : Reopened) (n : Native) (rules : Value) {d : PolicyDecision}
    → resume_policy lib o n rules ≡ ok d
    → (evaluate_action_policy lib (obj (approved_intent n o.approval.input_snapshot)) rules ≡ ok d)
      × (d.disposition ≡ allow)
unfolding resume_policy
resume_policy-allow lib o n rules h =
    let (_, h1) =
      raise_if-eq-ok
        (not (
            eq (get (trusted_intent n.policy_intent o.approval.input_snapshot) "action_type")
              (str n.action))
          || not (
              eq (get (trusted_intent n.policy_intent o.approval.input_snapshot) "risk_level")
                (str n.risk_level)))
        approval_error _ _ h in
    let (e, g, h2) =
      >>=-eq-ok
        (evaluate_action_policy lib (obj (approved_intent n o.approval.input_snapshot)) rules) _
        h1 in
    let same = allowed_only e h2 in (g ∙ ap ok same.0, same.1)
  where
    allowed_only :
        (e : PolicyDecision) {d : PolicyDecision}
        → (elim e.disposition [
          | allow ↦ ok e
          | _ ↦ err (raised approval_error (text "founder resolution cannot override policy block"))
        ])
          ≡ ok d
        → (e ≡ d) × (d.disposition ≡ allow)
    allowed_only e h = ground arith

resume_decision-IsAuthorizedResume :
    (lib : Decimals) (o : Reopened) (c : Resume) (n : Native) (t : Option WorkflowTransition)
    → resume_decision lib o c ≡ ok (n, t)
    → IsAuthorizedResume lib o c n
unfolding resume_decision
resume_decision-IsAuthorizedResume lib o c n t h =
    let (d, hd, h1) =
      >>=-eq-ok (or_raise (as_dict (effective o.approval o.rows.request)) attribute_error _) _ h in
    let (m, hm, h2) = >>=-eq-ok (read_native d o.definition.states c.canonical) _ h1 in
    let (u, hu, h3) = >>=-eq-ok (resume_transition o m) _ h2 in
    let (e, he, h4) = >>=-eq-ok (resume_policy lib o m c.policy) _ h3 in
    let same : m ≡ n = ap (λ (p : Native × Option WorkflowTransition). p.0) (ok_injective h4) in
    let (evaluated, allows) = resume_policy-allow lib o m c.policy he in
    record {
      native = d;
      decision = e;
      is_native = or_raise-some _ attribute_error _ hd;
      read = hm ∙ ap ok same;
      evaluated =
          subst
            (λ (z : Native).
              evaluate_action_policy lib (obj (approved_intent z o.approval.input_snapshot))
                c.policy
              ≡ ok e)
            same evaluated;
      allowed = allows;
    }

pub judge_resume-passed :
    (lib : Decimals) (o : Reopened) (c : Resume) (n : Native) (t : Option WorkflowTransition)
    (d : Option IntegrationDecision) (q : CapabilityRequest)
    → judge_resume lib o c ≡ passed n t d
    → n.integration ≡ some q
    → IsAuthorizedResume lib o c n
      × (k : IntegrationDecision) × (evaluate_registry o.registry q.name q.phase q.requested_use
            q.requested_scope
          ≡ ok k)
      × (unfit k q.phase ≡ false)
unfolding judge_resume
judge_resume-passed lib o c n t d q h e = elim (ok_or_err (resume_decision lib o c)) [
  | inr (x, a) ↦ absurd (ground arith)
  | inl ((m, u), a) ↦
      let (same, k, granted, fit) =
        resume_capability-passed o m n (approved_intent m o.approval.input_snapshot) u t d q
          (ground arith) e in
      (
        resume_decision-IsAuthorizedResume lib o c n u (a ∙ ap (λ (z : Native). ok (z, u)) same),
        k,
        granted,
        fit,
      )
]
