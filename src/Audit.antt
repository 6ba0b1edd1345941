-- ===== src/Audit.antt =====
-- Immutable action records and their append-only events: app/services/company_os_audit_service.py, on
-- the tables of app/models/company_os_action.py. A row's `id` is its place in its table, from 1; the
-- time of creation and the links to tasks, runs and approval requests, which nothing reads, are left
-- out. An operation that raises has no new tables.
pub mod Lifecycle
use polsia_build.Common.{
  Bool, List, Option, String, [], contains, eqb, first, if◌then◌else◌, is_empty, length, none, not,
  select, some, suc, true, ℕ, ◌&&◌, ◌++◌, ◌==◌, ◌||◌, ◌∷◌,
}
use polsia_build.Raises.{
  Message, Result, audit_error, format, ok, or_raise, raise_if, text, ◌>>=◌, ◌>>◌,
}
use polsia_build.Sandbox.Service.{is_evidence}
use polsia_build.Value.{Value, is_null, str}

pub record ActionRecord : Type 0 where
  pub id : ℕ
  pub company_slug : String
  pub scenario_id : Value
  pub agent_type : String
  pub proposed_action : String
  pub decision_envelope : Value
  pub policy_decision : Value
  pub workflow_transition : Value
  pub approval_state : String
  pub integration_state : Value
  pub initial_execution_status : String

pub record ActionEvent : Type 0 where
  pub id : ℕ
  pub action_record_id : ℕ
  pub event_type : String
  pub execution_status : String
  pub approval_state : String
  pub details : Option String
  pub evidence : Value

pub record AuditDb : Type 0 where
  pub records : List ActionRecord
  pub events : List ActionEvent

abbrev initial_statuses : List String
initial_statuses =
    "not_attempted" ∷ "proposed" ∷ "blocked" ∷ "awaiting_approval" ∷ "authorized" ∷ []

abbrev approval_states : List String
approval_states =
    "not_required" ∷ "pending" ∷ "approved" ∷ "rejected" ∷ "modified" ∷ "needs_more_evidence"
    ∷ "expired" ∷ "cancelled" ∷ []

-- `ALLOWED_TRANSITIONS.get(previous, set())`
unfoldable pub allowed_transitions : String → List String
allowed_transitions s =
    if s == "not_attempted"
    then "proposed" ∷ "cancelled" ∷ []
    else if s == "proposed"
    then "awaiting_approval" ∷ "authorized" ∷ "blocked" ∷ "cancelled" ∷ []
    else if s == "awaiting_approval"
    then "authorized" ∷ "blocked" ∷ "cancelled" ∷ []
    else if s == "authorized"
    then "executing" ∷ "cancelled" ∷ []
    else if s == "executing"
    then "succeeded" ∷ "failed" ∷ []
    else if s == "failed"
    then "authorized" ∷ "cancelled" ∷ []
    else []

abbrev pub grants : String → Bool
grants approval_state = contains ("approved" ∷ "not_required" ∷ []) approval_state

abbrev refuse_if : Bool → Message → Result (Unit {0})
refuse_if b m = raise_if b audit_error m

-- The arguments that an operation passes on to the row; its `id` is not read.
unfoldable pub create_action_record : ActionRecord → AuditDb → Result (ActionRecord × AuditDb)
create_action_record r db = do
  refuse_if (is_empty r.company_slug || (is_empty r.agent_type || is_empty r.proposed_action))
      (text "company, agent, and proposed action are required")
  refuse_if (not (is_evidence r.decision_envelope))
      (text "the original decision envelope is required")
  refuse_if (not (contains approval_states r.approval_state))
      (format "invalid approval state: {}" (str r.approval_state ∷ []))
  refuse_if (not (contains initial_statuses r.initial_execution_status))
      (format "invalid initial execution status: {}" (str r.initial_execution_status ∷ []))
  refuse_if (r.initial_execution_status == "authorized" && not (grants r.approval_state))
      (text "authorization requires approved or unnecessary approval")
  let row = record r { id = suc (length db.records) }
  ok (row, record db { records = db.records ++ row ∷ [] })

unfoldable pub previous_status : String → List ActionEvent → String
previous_status s [] = s
previous_status s (e ∷ es) = previous_status e.execution_status es

abbrev pub events_of : ℕ → List ActionEvent → List ActionEvent
events_of k es = select (λ (e : ActionEvent). eqb e.action_record_id k) es

-- `list_action_events`: the rows stand in the order of their ids.
unfoldable pub list_action_events : ℕ → AuditDb → List ActionEvent
list_action_events k db = events_of k db.events

abbrev pub record_by_id : ℕ → List ActionRecord → Option ActionRecord
record_by_id k rs = first (λ (r : ActionRecord). eqb r.id k) rs

abbrev no_details : Option String → Bool
no_details none = true
no_details (some s) = is_empty s

-- The arguments that an operation passes on to the row; its `id` is not read.
unfoldable pub append_action_event : ActionEvent → AuditDb → Result (ActionEvent × AuditDb)
unfolding list_action_events
append_action_event e db = do
  r ←
      or_raise (record_by_id e.action_record_id db.records) audit_error
        (text "action record does not exist")
  refuse_if (is_empty e.event_type) (text "event type is required")
  refuse_if (not (contains approval_states e.approval_state))
      (format "invalid approval state: {}" (str e.approval_state ∷ []))
  let previous =
      previous_status r.initial_execution_status (list_action_events e.action_record_id db)
  refuse_if (not (contains (allowed_transitions previous) e.execution_status))
      (format "invalid execution transition: {} -> {}" (str previous ∷ str e.execution_status ∷ []))
  refuse_if
      (contains ("authorized" ∷ "executing" ∷ "succeeded" ∷ []) e.execution_status
        && not (grants e.approval_state))
      (format "{} requires approved or unnecessary approval" (str e.execution_status ∷ []))
  refuse_if (e.execution_status == "succeeded" && is_null e.evidence)
      (text "success requires execution evidence")
  refuse_if (e.execution_status == "failed" && no_details e.details)
      (text "failure requires details")
  let row = record e { id = suc (length db.events) }
  ok (row, record db { events = db.events ++ row ∷ [] })
