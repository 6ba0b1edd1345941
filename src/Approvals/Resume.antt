-- ===== src/Approvals/Resume.antt =====
-- The checks of `resume_sandbox_approval` of app/services/company_os_sandbox_approval_service.py: what
-- the founder authorized is checked again, with the approval in the place of the model's own.
use polsia_build.Common.{
  Bool, List, Option, String, [], any, if◌then◌else◌, is_nil, minus, none, not, some, ℕ, ◌&&◌, ◌++◌,
  ◌==◌, ◌||◌, ◌∷◌,
}
use polsia_build.Approvals.Binding.{Bound, refuse_if}
use polsia_build.Coordinator.Native.{Canonical, CapabilityRequest, Native, read_native}
use polsia_build.Coordinator.Ruling.{is_phase, request_name, trusted_intent, unfit}
use polsia_build.Integration.{IntegrationDecision, Registry, evaluate_registry}
use polsia_build.Policy.{Decimals, PolicyDecision, allow, evaluate_action_policy}
use polsia_build.Raises.{
  Exception, Result, approval_error, attribute_error, err, ok, or_raise, raise_if, raised, text,
  type_error, ◌>>=◌, ◌>>◌,
}
use polsia_build.Sandbox.{SandboxApproval, SandboxEvent}
use polsia_build.Value.{
  Fields, Value, arr, as_dict, eq, get, get_or, hashable, keys, nil, obj, optional, set_item, str,
  to_list, truthy,
}
use polsia_build.Workflow.{Definition, WorkflowTransition, find_transition}

pub record Resume : Type 0 where
  pub approval_id : ℕ
  pub workflow : Value
  pub policy : Value
  pub integration_registry : Value
  pub event_schema : Value
  pub canonical : Canonical
  pub retry : Bool

-- The rows and the inputs, once the checks outside the `try` have passed.
pub record Reopened : Type 0 where
  pub approval : SandboxApproval
  pub rows : Bound
  pub definition : Definition
  pub registry : Registry

-- The texts of one character that a text is made of
unfoldable pub characters : String → List String
characters String.[] = []
characters (String.◌∷◌ c s) = String.◌∷◌ c String.[] ∷ characters s

abbrev text_of : Value → List String
text_of (str s) = s ∷ []
text_of _ = []

all_texts : List Value → List String
all_texts [] = []
all_texts (v ∷ vs) = text_of v ++ all_texts vs

-- `set(v)`, as the texts among its members
unfoldable pub text_set : Value → Result (List String)
unfolding characters all_texts
text_set (str s) = ok (characters s)
text_set (obj d) = ok (keys d)
text_set (arr vs) =
    raise_if (any (λ v. not (hashable v)) (to_list vs)) type_error (text "unhashable type")
    >> ok (all_texts (to_list vs))
text_set _ = err (raised type_error (text "object is not iterable"))

-- The decision that is carried out: the founder's correction, or the model's.
abbrev pub effective : SandboxApproval → SandboxEvent → Value
effective a request =
    if a.status == "modified" then a.corrected_decision else request.native_decision

-- The transition that a change of state needs, with the requirements that were verified.
unfoldable pub resume_transition : Reopened → Native → Result (Option WorkflowTransition)
unfolding text_set
resume_transition o n =
    if eq (str n.state_after) o.rows.instance_row.current_state then ok none else do
      t ←
          find_transition o.definition o.rows.instance_row.current_state (str n.action)
            (str n.state_after) (str n.risk_level)
      verified ← text_set (get_or o.approval.input_snapshot "verified_requirements" (arr nil))
      refuse_if (not (is_nil (minus t.requirements verified)))
          "transition requirements lack frozen evidence"
      ok (some t)

-- The intent with what the founder and the frozen input verified.
abbrev pub approved_intent : Native → Fields → Fields
approved_intent n snapshot =
    set_item (trusted_intent n.policy_intent snapshot) "founder_approval_status" (str "approved")

unfoldable pub resume_policy : Decimals → Reopened → Native → Value → Result PolicyDecision
resume_policy lib o n rules = do
  let intent = trusted_intent n.policy_intent o.approval.input_snapshot
  refuse_if
      (not (eq (get intent "action_type") (str n.action))
        || not (eq (get intent "risk_level") (str n.risk_level)))
      "corrected policy intent mismatches action or risk"
  decision ← evaluate_action_policy lib (obj (approved_intent n o.approval.input_snapshot)) rules
  elim decision.disposition [
    | allow ↦ ok decision
    | _ ↦ err (raised approval_error (text "founder resolution cannot override policy block"))
  ]

-- The capability that is asked for.
unfoldable pub check_capability :
    Fields → Option (CapabilityRequest × IntegrationDecision) → Result (Unit {0})
check_capability intent none = ok tt
check_capability intent (some (q, d)) = do
  refuse_if (unfit d q.phase) "sandbox integration capability unavailable"
  refuse_if
      (q.phase == "execute"
        && (not (truthy (get intent "external_write"))
            || not (eq (get intent "integration_mode") (str d.mode))))
      "integration execution and policy intent disagree"

-- What binds the transition, the capability and the write together.
unfoldable pub check_binding :
    Fields → Option WorkflowTransition → Option CapabilityRequest → Result (Unit {0})
check_binding intent t q = do
  (elim t [
    | none ↦ ok tt
    | some u ↦ do
      refuse_if (not (eq (optional u.integration) (request_name q)))
          "transition integration differs from workflow"
      refuse_if (truthy (optional u.integration) && not (is_phase "execute" q))
          "integration transition requires sandbox execution"
  ])
  refuse_if (truthy (get intent "external_write") && not (is_phase "execute" q))
      "write requires registered sandbox execution"

-- What the `try` comes to before the adapter: a reason to stop, beside the capability that was found
-- by then, or a decision to carry out.
pub data Recheck : Type 0 where
  barred : Exception → Option IntegrationDecision → Recheck
  passed : Native → Option WorkflowTransition → Option IntegrationDecision → Recheck

abbrev pub found : Option (CapabilityRequest × IntegrationDecision) → Option IntegrationDecision
found none = none
found (some (q, d)) = some d

abbrev pub after_capability :
    Native
    → Fields
    → Option WorkflowTransition
    → Option (CapabilityRequest × IntegrationDecision)
    → Recheck
after_capability n intent t q =
    let d = found q in
    elim (check_capability intent q >> check_binding intent t n.integration) [
      | ok _ ↦ passed n t d
      | err e ↦ barred e d
    ]

-- The capability that is requested, evaluated.
unfoldable pub capability_found :
    Registry → Option CapabilityRequest → Result (Option (CapabilityRequest × IntegrationDecision))
capability_found r none = ok none
capability_found r (some q) =
    evaluate_registry r q.name q.phase q.requested_use q.requested_scope >>= λ d. ok (some (q, d))

unfoldable pub resume_capability : Reopened → Native → Fields → Option WorkflowTransition → Recheck
unfolding check_capability check_binding capability_found
resume_capability o n intent t = elim (capability_found o.registry n.integration) [
  | ok q ↦ after_capability n intent t q
  | err e ↦ barred e none
]

-- The checks before the capability.
unfoldable pub resume_decision :
    Decimals → Reopened → Resume → Result (Native × Option WorkflowTransition)
unfolding resume_transition resume_policy
resume_decision lib o c = do
  d ← or_raise (as_dict (effective o.approval o.rows.request)) attribute_error (text "keys")
  n ← read_native d o.definition.states c.canonical
  t ← resume_transition o n
  decision ← resume_policy lib o n c.policy
  ok (n, t)

unfoldable pub judge_resume : Decimals → Reopened → Resume → Recheck
unfolding resume_decision resume_capability
judge_resume lib o c = elim (resume_decision lib o c) [
  | err e ↦ barred e none
  | ok (n, t) ↦ resume_capability o n (approved_intent n o.approval.input_snapshot) t
]
