-- ===== src/Approvals/Binding.antt =====
-- What an approval is bound to: its workflow instance and the event that requested it, as
-- `resolve_sandbox_approval` and `resume_sandbox_approval` of
-- app/services/company_os_sandbox_approval_service.py check it. The row locks are left out.
use polsia_build.Common.{Bool, List, Option, String, [], none, not, some, ◌||◌, ◌∷◌}
use polsia_build.Raises.{
  Result, approval_error, attribute_error, err, item, ok, or_raise, raise_if, raised, text,
  type_error, ◌>>=◌, ◌>>◌,
}
use polsia_build.Sandbox.{
  Db, SandboxApproval, SandboxEvent, WorkflowInstance, event_by_id, instance_by_id,
}
use polsia_build.Value.{Value, as_dict, end, eq, field, get, get_or, is_null, obj, str}

abbrev pub statuses : List String
statuses =
    "approved" ∷ "rejected" ∷ "modified" ∷ "needs_more_evidence" ∷ "expired" ∷ "cancelled" ∷ []

abbrev pub executable : List String
executable = "approved" ∷ "modified" ∷ []

abbrev pub refuse_if : Bool → String → Result (Unit {0})
refuse_if b m = raise_if b approval_error (text m)

abbrev pub need {ℓ} : {A : Type ℓ} → Option A → String → Result A
need o m = or_raise o approval_error (text m)

-- `v[k]`, for a text `k`
abbrev pub subscript : Value → String → Result Value
subscript v k = elim (as_dict v) [
  | some d ↦ item d k
  | none ↦ err (raised type_error (text "indices"))
]

-- The rows that an approval names.
pub record Bound : Type 0 where
  pub instance_row : WorkflowInstance
  pub request : SandboxEvent

-- The checks that both operations make; `suits` is what each asks of the two rows before it reads
-- the payload, so that a resumption refuses a request with no decision there.
unfoldable pub bound_rows :
    SandboxApproval → (WorkflowInstance → SandboxEvent → Bool) → String → Db → Result Bound
bound_rows a suits m db = do
  i ← need (instance_by_id a.workflow_instance_id db) m
  request ← need (event_by_id a.request_event_id db) m
  refuse_if (not (suits i request)) m
  shown ← item request.payload "approval"
  decision_id ← subscript shown "decision_id"
  refuse_if (not (eq decision_id (str a.decision_id)) || is_null request.native_decision) m
  action ← subscript request.native_decision "action"
  refuse_if (not (eq action a.action)) m
  ok (record { instance_row = i; request = request })

-- `request.payload.get("metadata", {}).get("workflow_version")`
abbrev pub requested_version : SandboxEvent → Value → Result Value
requested_version request default =
    or_raise (as_dict (get_or request.payload "metadata" (obj end))) attribute_error (text "get")
    >>= λ d. ok (get_or d "workflow_version" default)

-- The `id` of a workflow that is a dict.
abbrev pub workflow_id_of : Value → Result Value
workflow_id_of w = or_raise (as_dict w) attribute_error (text "get") >>= λ d. ok (get d "id")

-- `approval={"decision_id": ..., "status": ...}`
abbrev pub shown_approval : SandboxApproval → String → Value
shown_approval a status =
    obj (field "decision_id" (str a.decision_id) (field "status" (str status) end))
