-- ===== src/Coordinator/Action.antt =====
-- `coordinate_sandbox_action` of app/services/company_os_sandbox_coordinator.py. The first part of a
-- result is what the call returns with the tables after it, the second the world of the provider and
-- the adapters, which no exception rolls back.
use polsia_build.Common.{
  Bool, Option, String, [], any, eqb, false, if◌then◌else◌, none, not, some, true, ◌&&◌, ◌==◌, ◌||◌,
  ◌∷◌,
}
use polsia_build.Coordinator.Inputs.{Inputs, Prepared, Runtime, is_sandbox_ref}
use polsia_build.Coordinator.Native.{
  CapabilityRequest, Category, Denial, Evidence, Native, Provided, failed, read_native, returned,
}
use polsia_build.Coordinator.Ruling.{Frozen, Ruling, rule_native}
use polsia_build.Integration.{IntegrationDecision}
use polsia_build.Policy.{Decimals, PolicyDecision, requires_founder}
use polsia_build.Raises.{Message, Result, err, format, ok, raised, text, type_error, ◌>>=◌}
use polsia_build.Sandbox.{Db, SandboxApproval, WorkflowInstance, is_open}
use polsia_build.Value.{Fields, Value, eq, get, str}
use polsia_build.Workflow.{as_nonempty}

-- What the checks of the decision come to: a denial with the capability that was found before it, or
-- a decision that may go on.
pub data Verdict : Type 0 where
  withheld : Denial → Option IntegrationDecision → Verdict
  cleared : Native → Ruling → Verdict

-- A request to the founder, or a verdict.
pub data Hearing : Type 0 where
  escalated : Native → Ruling → (approval_id : String) → Hearing
  heard : Verdict → Hearing

-- What the action came to.
pub data Outcome : Type 0 where
  stopped : Denial → Option IntegrationDecision → Outcome
  finished : Native → Ruling → (receipt : Option String) → Outcome

abbrev pub denial_text : Category → String → Denial
denial_text c m = record { category = c; reason = text m }

abbrev pub frozen_of : Inputs → Prepared → Value → Frozen
frozen_of x p rules = record {
  instance_state = p.instance_row.current_state;
  definition = p.definition;
  policy = rules;
  registry = p.registry;
  input = x.input;
  verified_requirements = x.verified_requirements;
}

abbrev pub verdict_of : Native → Ruling → Verdict
verdict_of n r = elim r.denial [ none ↦ cleared n r | some d ↦ withheld d r.integration ]

-- `if native is not None: ...`
unfoldable pub judge : Decimals → Inputs → Prepared → Value → Evidence → Result Verdict
judge lib x p rules e = elim e.native [
  | none ↦ elim e.denial [
    | some d ↦ ok (withheld d none)
    | none ↦ err (raised type_error (text "'NoneType' object is not subscriptable"))
  ]
  | some d ↦ elim (read_native d p.definition.states x.canonical) [
    | err f ↦ ok (withheld (record { category = Category.contract; reason = f.message }) none)
    | ok n ↦ rule_native lib (frozen_of x p rules) n >>= λ r. ok (verdict_of n r)
  ]
]

-- The `select` for a founder request that is not resumed.
abbrev pub has_open_request : WorkflowInstance → String → Db → Bool
has_open_request i action db =
    any
      (λ (a : SandboxApproval).
        eqb a.workflow_instance_id i.id && (eq a.action (str action) && is_open a))
      db.approvals

abbrev pub needs_founder : Option PolicyDecision → Bool
needs_founder none = false
needs_founder (some d) = elim d.disposition [ requires_founder ↦ true | _ ↦ false ]

unfoldable pub hear : Inputs → WorkflowInstance → Db → Verdict → Hearing
hear x i db (withheld d o) = heard (withheld d o)
hear x i db (cleared n r) =
    if not (needs_founder r.decision)
    then heard (cleared n r)
    else elim (as_nonempty (get x.input "approval_decision_id")) [
      | none ↦ heard (
          withheld (denial_text Category.approval "pending approval requires a decision ID")
            r.integration)
      | some approval_id ↦
          if has_open_request i n.action db
          then heard (
              withheld
                (denial_text Category.approval "action already has an unresolved founder request")
                r.integration)
          else escalated n r approval_id
    ]

-- The request whose phase is one of those that an adapter performs.
abbrev pub performed : Option CapabilityRequest → Option CapabilityRequest
performed none = none
performed (some q) = if q.phase == "read" || q.phase == "execute" then some q else none

abbrev failure_message : String → String → Message
failure_message class m = format "synthetic adapter failed: {}: {}" (str class ∷ str m ∷ [])

abbrev not_evidence : Denial
not_evidence = record {
  category = Category.integration;
  reason =
      failure_message "SandboxCoordinatorError" "synthetic adapter did not return sandbox evidence";
}

-- What the adapter returned, or how it failed.
unfoldable pub take_receipt : Native → Ruling → Provided → Outcome
take_receipt n r (returned (str s)) =
    if is_sandbox_ref s then finished n r (some s) else stopped not_evidence r.integration
take_receipt n r (returned v) = stopped not_evidence r.integration
take_receipt n r (failed class m raw) =
    stopped (record { category = Category.integration; reason = failure_message class m })
      r.integration

module _ {W : Type 0} (lib : Runtime W) where
  unfoldable pub perform : Fields → String → Verdict → W → Outcome × W
  unfolding take_receipt
  perform d key (withheld x o) w = (stopped x o, w)
  perform d key (cleared n r) w = elim (performed n.integration) [
    | none ↦ (finished n r none, w)
    | some q ↦ elim (lib.synthetic_adapters q.name) [
      | none ↦ (
        stopped (denial_text Category.integration "registered synthetic adapter is missing")
            r.integration,
        w,
      )
      | some execute ↦ let (x, w') = execute d key w in (take_receipt n r x, w')
    ]
  ]
