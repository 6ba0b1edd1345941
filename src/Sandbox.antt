-- ===== src/Sandbox.antt =====
-- The tables of the sandbox, with the constraints that the database checks when rows are flushed:
-- app/models/company_os_sandbox.py. A row's `id` is its place in its table, from 1: no row is ever
-- deleted. Timestamps and the columns that nothing sets are left out, and so are, of the other tables
-- than that of the events, the lengths of columns.
pub mod Columns
pub mod Service
pub mod Append
pub mod Log
pub mod Numbering
pub mod Constraints
pub mod Reachable
pub mod Once
pub mod Rows
pub mod Listing
use Prim.Native.Nat.{max}
use polsia_build.Common.{
  Bool, List, Option, String, [], any, contains, eq_bool, eqb, false, first, if◌then◌else◌, is_none,
  not, some, true, ℕ, ◌&&◌, ◌==◌, ◌||◌, ◌∷◌,
}
use polsia_build.Raises.{Result, integrity_error, ok, raise_if, text, ◌>>=◌, ◌>>◌}
use polsia_build.Sandbox.Columns.{check_boolean, check_optional_text, check_text}
use polsia_build.Value.{Fields, Value, eq, is_null, null, num, optional, str}

pub record SandboxRun : Type 0 where
  pub id : ℕ
  pub run_id : String
  pub company_slug : String
  pub protocol_version : String
  pub input_manifest : Value
  pub status : String

pub record WorkflowInstance : Type 0 where
  pub id : ℕ
  pub sandbox_run_id : ℕ
  pub workflow_id : String
  pub entity_type : String
  pub entity_id : String
  -- `None` or a text
  pub current_state : Value
  pub terminal : Bool
  pub version : ℕ

pub record SandboxEvent : Type 0 where
  pub id : ℕ
  pub sandbox_run_id : ℕ
  pub workflow_instance_id : ℕ
  pub event_id : String
  pub sequence : ℕ
  pub idempotency_key : String
  pub primary_classification : Value
  pub event_type : Value
  pub result : Value
  pub risk_level : Value
  pub state_before : Value
  pub state_after : Value
  pub external_side_effect : Value
  pub terminal_key : Option String
  pub payload : Fields
  pub native_decision : Value
  pub native_failure : Value

pub record SandboxApproval : Type 0 where
  pub id : ℕ
  pub sandbox_run_id : ℕ
  pub workflow_instance_id : ℕ
  pub request_event_id : ℕ
  pub decision_id : String
  pub action : Value
  pub input_snapshot : Fields
  pub status : String
  pub founder_id : Option String
  pub founder_minutes : Value
  pub autonomy_class : Option String
  pub corrected_decision : Value
  pub manual_evidence_ref : Option String
  pub resolution_event_id : Option ℕ
  pub resolution_key : Option String
  pub resume_event_id : Option ℕ
  pub resume_key : Option String
  pub last_failure_event_id : Option ℕ
  pub failure_attempt_count : ℕ

pub record Db : Type 0 where
  pub runs : List SandboxRun
  pub instances : List WorkflowInstance
  pub events : List SandboxEvent
  pub approvals : List SandboxApproval

abbrev pub empty_db : Db
empty_db = record { runs = []; instances = []; events = []; approvals = [] }

-- `db.get(...)`, and a `select` by the primary key
abbrev pub run_by_id : ℕ → Db → Option SandboxRun
run_by_id k db = first (λ r. eqb r.id k) db.runs

abbrev pub instance_by_id : ℕ → Db → Option WorkflowInstance
instance_by_id k db = first (λ i. eqb i.id k) db.instances

abbrev pub event_by_id : ℕ → Db → Option SandboxEvent
event_by_id k db = first (λ e. eqb e.id k) db.events

-- Writes the changed attributes of a row.
unfoldable pub save_instance : WorkflowInstance → List WorkflowInstance → List WorkflowInstance
save_instance x [] = []
save_instance x (i ∷ is) = (if eqb i.id x.id then x else i) ∷ save_instance x is

-- `select(func.max(sequence)).where(sandbox_run_id == run) or 0`
unfoldable pub max_sequence : ℕ → List SandboxEvent → ℕ
max_sequence run [] = 0
max_sequence run (e ∷ es) =
    let rest = max_sequence run es in if eqb e.sandbox_run_id run then max e.sequence rest else rest

abbrev pub violates : Bool → String → Result (Unit {0})
violates b name = raise_if b integrity_error (text name)

abbrev pub same_run : SandboxEvent → SandboxEvent → Bool
same_run e f = eqb f.sandbox_run_id e.sandbox_run_id

abbrev pub same_terminal_key : Option String → Option String → Bool
same_terminal_key (some s) (some t) = s == t
same_terminal_key _ _ = false

-- The columns of `company_os_sandbox_events` whose values the program does not choose itself.
unfoldable pub check_columns : SandboxEvent → Result (Unit {0})
unfolding check_boolean check_optional_text check_text
check_columns e = do
  check_boolean e.external_side_effect
  check_text 160 (str e.event_id)
  check_text 255 (str e.idempotency_key)
  check_text 100 e.primary_classification
  check_text 100 e.event_type
  check_text 100 e.result
  check_text 20 e.risk_level
  check_optional_text 160 e.state_before
  check_optional_text 160 e.state_after
  check_optional_text 32 (optional e.terminal_key)

-- The columns and the constraints of `company_os_sandbox_events`. In a unique constraint NULL equals nothing.
unfoldable pub check_event : SandboxEvent → List SandboxEvent → Result (Unit {0})
check_event e es = do
  check_columns e
  violates (eqb e.sequence 0) "ck_company_os_sandbox_event_sequence"
  violates (eq_bool (is_null e.native_decision) (is_null e.native_failure))
      "ck_company_os_sandbox_native_evidence"
  violates (any (λ f. same_run e f && f.event_id == e.event_id) es) "uq_company_os_sandbox_event_id"
  violates (any (λ f. same_run e f && eqb f.sequence e.sequence) es)
      "uq_company_os_sandbox_event_sequence"
  violates (any (λ f. same_run e f && f.idempotency_key == e.idempotency_key) es)
      "uq_company_os_sandbox_event_idempotency"
  violates
      (any
        (λ f.
          eqb f.workflow_instance_id e.workflow_instance_id
          && same_terminal_key f.terminal_key e.terminal_key)
        es)
      "uq_company_os_sandbox_terminal_action"

-- The unique constraint of `company_os_workflow_instances`.
abbrev pub same_identity : WorkflowInstance → WorkflowInstance → Bool
same_identity i j =
    eqb i.sandbox_run_id j.sandbox_run_id
    && (i.workflow_id == j.workflow_id
        && (i.entity_type == j.entity_type && i.entity_id == j.entity_id))

unfoldable pub check_instance : WorkflowInstance → List WorkflowInstance → Result (Unit {0})
check_instance i is = violates (any (same_identity i) is) "uq_company_os_workflow_instance_identity"

unfoldable pub check_run : SandboxRun → List SandboxRun → Result (Unit {0})
check_run r rs = violates (any (λ s. s.run_id == r.run_id) rs) "company_os_sandbox_runs_run_id_key"

open_statuses : List String
open_statuses = "pending" ∷ "approved" ∷ "modified" ∷ []

-- An approval that is neither resumed nor closed.
unfoldable pub is_open : SandboxApproval → Bool
unfolding open_statuses
is_open a = is_none a.resume_event_id && contains open_statuses a.status

-- The constraints of `company_os_sandbox_approvals` on a row that is neither resolved nor resumed.
unfoldable pub check_approval : SandboxApproval → List SandboxApproval → Result (Unit {0})
check_approval a as' = do
  violates
      (is_open a
        && any
            (λ b.
              is_open b
              && (eqb b.workflow_instance_id a.workflow_instance_id && eq b.action a.action))
            as')
      "uq_company_os_sandbox_approval_open_action"
  violates (any (λ b. eqb b.sandbox_run_id a.sandbox_run_id && b.decision_id == a.decision_id) as')
      "uq_company_os_sandbox_approval_decision"
  violates (any (λ b. eqb b.request_event_id a.request_event_id) as')
      "uq_company_os_sandbox_approval_request_event"

abbrev same_id : Option ℕ → Option ℕ → Bool
same_id (some a) (some b) = eqb a b
same_id _ _ = false

-- `founder_minutes IS NULL OR founder_minutes >= 0`
abbrev is_minutes : Value → Bool
is_minutes null = true
is_minutes (num n) = eqb n.mantissa 0 || not n.negative
is_minutes _ = false

-- The constraints on a row that is updated, against the other rows.
unfoldable pub check_update : SandboxApproval → List SandboxApproval → Result (Unit {0})
check_update a as' = do
  violates
      (is_open a
        && any
            (λ b.
              not (eqb b.id a.id)
              && (is_open b
                  && (eqb b.workflow_instance_id a.workflow_instance_id && eq b.action a.action)))
            as')
      "uq_company_os_sandbox_approval_open_action"
  violates
      (any (λ b. not (eqb b.id a.id) && same_id b.resolution_event_id a.resolution_event_id) as')
      "uq_company_os_sandbox_approval_resolution_event"
  violates (any (λ b. not (eqb b.id a.id) && same_id b.resume_event_id a.resume_event_id) as')
      "uq_company_os_sandbox_approval_resume_event"
  violates (not (is_minutes a.founder_minutes)) "ck_company_os_sandbox_approval_minutes"

abbrev pub approval_by_id : ℕ → Db → Option SandboxApproval
approval_by_id k db = first (λ a. eqb a.id k) db.approvals

-- Writes the changed attributes of a row.
unfoldable pub save_approval : SandboxApproval → List SandboxApproval → List SandboxApproval
save_approval x [] = []
save_approval x (a ∷ as') = (if eqb a.id x.id then x else a) ∷ save_approval x as'

-- An `UPDATE` of one approval
unfoldable pub update_approval : SandboxApproval → Db → Result Db
unfolding check_update save_approval
update_approval a db =
    check_update a db.approvals >> ok (record db { approvals = save_approval a db.approvals })
