-- ===== src/Approvals/Resolve.antt =====
-- `resolve_sandbox_approval` of app/services/company_os_sandbox_approval_service.py. `db.get` of a
-- row that is not there is `none`.
use polsia_build.Common.{
  Bool, Option, String, contains, eq_bool, eqb, false, if◌then◌else◌, is_none, none, not, some,
  true, ℕ, ◌&&◌, ◌==◌, ◌||◌,
}
use polsia_build.Approvals.Binding.{
  Bound, bound_rows, executable, need, refuse_if, requested_version, shown_approval, statuses,
  workflow_id_of,
}
use polsia_build.Coordinator.Inputs.{Runtime, is_sandbox_ref}
use polsia_build.Coordinator.Payload.{Report, delivery_of}
use polsia_build.Raises.{Result, item, ok, ◌>>=◌, ◌>>◌}
use polsia_build.Sandbox.{
  Db, SandboxApproval, SandboxEvent, WorkflowInstance, approval_by_id, event_by_id, update_approval,
}
use polsia_build.Sandbox.Service.{append_sandbox_event}
use polsia_build.Value.{
  Fields, Value, as_dict, as_str, end, eq, field, int, is_null, null, num, str,
}
use polsia_build.Value.Json.{is_json}
use polsia_build.Workflow.{as_nonempty}

-- The keyword arguments; `None` is `null`.
pub record Resolution : Type 0 where
  pub approval_id : ℕ
  pub status : String
  pub founder_id : Value
  pub founder_minutes : Value
  pub resolution_key : Value
  pub event_schema : Value
  pub workflow : Value
  pub corrected_decision : Value
  pub manual_evidence_ref : Value

-- The arguments that are texts, read.
pub record Checked : Type 0 where
  pub founder_id : String
  pub resolution_key : String
  pub manual_evidence_ref : Option String

-- A number that is finite and not negative; a `bool` is none.
abbrev pub is_minutes : Value → Bool
is_minutes (num n) = eqb n.mantissa 0 || not n.negative
is_minutes _ = false

-- `None`, or the reference of something done by hand.
unfoldable pub read_manual : String → Value → Result (Option String)
read_manual status null = ok none
read_manual status v = do
  let m : String = "manual execution needs an executable resolution and sandbox evidence"
  refuse_if (not (contains executable status)) m
  s ← need (as_str v) m
  refuse_if (not (is_sandbox_ref s)) m
  ok (some s)

unfoldable pub read_resolution : Bool → Resolution → Result Checked
unfolding read_manual
read_resolution sandbox_mode c = do
  refuse_if (not sandbox_mode) "Stage 2 requires sandbox_mode"
  refuse_if (not (contains statuses c.status))
      "valid resolution status and founder identity are required"
  founder ←
      need (as_nonempty c.founder_id) "valid resolution status and founder identity are required"
  key ← need (as_nonempty c.resolution_key) "resolution idempotency key is required"
  refuse_if (not (is_minutes c.founder_minutes))
      "founder minutes must be a finite nonnegative number"
  refuse_if (not (eq_bool (c.status == "modified") (not (is_null c.corrected_decision))))
      "modified status requires a corrected decision, and only modified status permits one"
  refuse_if (not (is_null c.corrected_decision) && is_none (as_dict c.corrected_decision))
      "corrected decision must be an object"
  refuse_if (not (is_json c.corrected_decision)) "corrected decision is not JSON compatible"
  manual ← read_manual c.status c.manual_evidence_ref
  ok (record { founder_id = founder; resolution_key = key; manual_evidence_ref = manual })

abbrev pub same_text : Option String → Option String → Bool
same_text none none = true
same_text (some s) (some t) = s == t
same_text _ _ = false

-- The replay of the resolution that the row has.
unfoldable pub is_replay : Resolution → Checked → SandboxApproval → Bool
is_replay c x a =
    same_text a.resolution_key (some x.resolution_key)
    && (a.status == c.status
        && (same_text a.founder_id (some x.founder_id)
            && (eq a.founder_minutes c.founder_minutes
                && (eq a.corrected_decision c.corrected_decision
                    && same_text a.manual_evidence_ref x.manual_evidence_ref))))

abbrev pub event_at : Option ℕ → Db → Option SandboxEvent
event_at none db = none
event_at (some k) db = event_by_id k db

abbrev autonomy_class : Resolution → Checked → String
autonomy_class c x =
    if is_none x.manual_evidence_ref then (if c.status == "modified" then "A2" else "A1") else "A3"

abbrev correction : Value → Fields
correction null = end
correction v = field "corrected_decision" v end

unfoldable pub resolution_report : Resolution → Checked → SandboxApproval → Bound → Value → Report
resolution_report c x a b agent = record {
  event_type = "approval_resolved";
  result = if contains executable c.status then "observed" else "blocked";
  risk = "RED";
  action = a.action;
  agent = agent;
  classification = str "approval_queue";
  state_after = b.instance_row.current_state;
  approval = shown_approval a c.status;
  integration = none;
  category = "founder_resolution";
  error = null;
  autonomy_class = some (autonomy_class c x);
  founder_minutes = c.founder_minutes;
  metadata_extra = field "founder_id" (str x.founder_id) (correction c.corrected_decision);
}

-- The row after its resolution.
abbrev pub resolved_row : Resolution → Checked → SandboxApproval → SandboxEvent → SandboxApproval
resolved_row c x a e = record a {
  status = c.status;
  founder_id = some x.founder_id;
  founder_minutes = c.founder_minutes;
  autonomy_class = some (autonomy_class c x);
  corrected_decision = c.corrected_decision;
  manual_evidence_ref = x.manual_evidence_ref;
  resolution_key = some x.resolution_key;
  resolution_event_id = some e.id;
}

-- What the request's rows must be.
abbrev pub suits_resolution : SandboxApproval → WorkflowInstance → SandboxEvent → Bool
suits_resolution a i request =
    eq request.event_type (str "approval_requested")
    && (eqb i.sandbox_run_id a.sandbox_run_id
        && (eqb request.workflow_instance_id i.id && eqb request.sandbox_run_id a.sandbox_run_id))

-- The workflow is as it was when the founder was asked, and a correction corrects.
unfoldable pub check_unchanged : Resolution → Bound → Result (Unit {0})
check_unchanged c b = do
  let m : String = "approval workflow has changed since request"
  id ← workflow_id_of c.workflow
  refuse_if
      (not (eq id (str b.instance_row.workflow_id))
        || not (eq b.instance_row.current_state b.request.state_before))
      m
  version ← requested_version b.request null
  refuse_if (not (eq (int b.instance_row.version) version) || b.instance_row.terminal) m
  refuse_if (eq c.corrected_decision b.request.native_decision && c.status == "modified")
      "a modified resolution must contain an actual correction"

module _ {W : Type 0} (lib : Runtime W) where
  -- The resolution of a request that is pending.
  unfoldable pub resolve_pending :
      Resolution → Checked → SandboxApproval → Db → Result (Option SandboxEvent × Db)
  unfolding check_unchanged delivery_of resolution_report
  resolve_pending c x a db = do
    b ←
        bound_rows a (suits_resolution a) "approval is not bound to its original request and action"
          db
    check_unchanged c b
    refs ← item b.request.payload "evidence_refs"
    agent ← item b.request.payload "agent_type"
    (event, after) ←
        append_sandbox_event lib.invalid
          (delivery_of lib.event_id lib.occurred_at b.instance_row b.instance_row.version
            x.resolution_key c.event_schema c.workflow refs b.request.native_decision null
            (resolution_report c x a b agent))
          db
    done ← update_approval (resolved_row c x a event) after
    ok (some event, done)

  unfoldable pub resolve_sandbox_approval : Resolution → Db → Result (Option SandboxEvent × Db)
  unfolding resolve_pending
  resolve_sandbox_approval c db = do
    x ← read_resolution lib.sandbox_mode c
    a ← need (approval_by_id c.approval_id db) "approval does not exist"
    elim (a.status == "pending") [
      | true ↦ resolve_pending c x a db
      | false ↦ do
        refuse_if (not (is_replay c x a)) "only pending approval may be resolved"
        ok (event_at a.resolution_event_id db, db)
    ]
