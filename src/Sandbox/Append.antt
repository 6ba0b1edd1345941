-- ===== src/Sandbox/Append.antt =====
-- What a successful append has checked and done.
use mathlib.Core.Path.{subst, ap₂}
use polsia_build.Common.{
  Option, String, any, ap, arith, eqb, false, if◌then◌else◌, is_some, length, none, not, some, suc,
  sym, ℕ, ◌∙◌, ◌≡◌,
}
use polsia_build.Raises.{
  >>=-eq-ok, Message, conflict_error, ok, ok_injective, or_raise, persistence_error, raise_if-eq-ok,
}
use polsia_build.Sandbox.{Db, SandboxEvent, SandboxRun, WorkflowInstance, check_event, max_sequence}
use polsia_build.Sandbox.Service.{
  Delivery, append_to, bind_payload, build_event, check_identity, check_state, is_duplicate,
  is_terminal_outcome, raise_invalid, require_bound_identity, with_event,
}
use polsia_build.Value.{Fields, Value, get, int, obj}
use polsia_build.Workflow.{as_nonempty}

-- The event is the row of the payload, under the identities of its run and instance.
pub record IsRow (run : SandboxRun) (i : WorkflowInstance) (a : Delivery) (db : Db)
    (e : SandboxEvent) : Type 0 where
  pub id : e.id ≡ suc (length db.events)
  pub of_run : e.sandbox_run_id ≡ run.id
  pub of_instance : e.workflow_instance_id ≡ i.id
  pub sequence : e.sequence ≡ suc (max_sequence run.id db.events)
  pub key : e.idempotency_key ≡ a.idempotency_key
  pub payload : e.payload ≡ bind_payload run e.sequence a.event_payload
  pub before : e.state_before ≡ get e.payload "state_before"
  pub after : e.state_after ≡ get e.payload "state_after"
  pub terminal : is_some e.terminal_key ≡ is_terminal_outcome e.payload
  pub terminal_text :
      e.terminal_key ≡ (if is_terminal_outcome e.payload then some "terminal" else none)
  pub decision : e.native_decision ≡ a.native_decision
  pub failure : e.native_failure ≡ a.native_failure

build_event-IsRow :
    (run : SandboxRun) (i : WorkflowInstance) (a : Delivery) (event_id : String) (db : Db)
    {e : SandboxEvent}
    → build_event run i a event_id
        (suc (max_sequence run.id db.events))
        (bind_payload run (suc (max_sequence run.id db.events)) a.event_payload)
        db
      ≡ ok e
    → IsRow run i a db e × (e.event_id ≡ event_id)
unfolding build_event
build_event-IsRow run i a event_id db h = ground arith

-- What was checked of the rows, and what was done to the tables.
pub record IsAppended (run : SandboxRun) (i : WorkflowInstance) (a : Delivery) (db : Db)
    (e : SandboxEvent) (db' : Db) : Type 0 where
  pub row : IsRow run i a db e
  pub fresh_version : i.version ≡ a.expected_version
  pub not_duplicate : any (is_duplicate run.id e.event_id e.idempotency_key) db.events ≡ false
  pub state : check_state i a.workflow_definition e.payload ≡ ok tt
  pub constraints : check_event e db.events ≡ ok tt
  pub tables : db' ≡ with_event i e.payload db e

version_eq : (a b : ℕ) → not (eqb a b) ≡ false → a ≡ b
version_eq a b h = ground arith

module _ (invalid : Value → Value → Option Message) where
  pub append_to-IsAppended :
      (run : SandboxRun) (i : WorkflowInstance) (a : Delivery) (db db' : Db) (e : SandboxEvent)
      → append_to invalid run i a db ≡ ok (e, db')
      → IsAppended run i a db e db'
  unfolding append_to
  append_to-IsAppended run i a db db' e h =
      let (v, h1) = raise_if-eq-ok (not (eqb i.version a.expected_version)) conflict_error _ _ h in
      let (_, _, h2) = >>=-eq-ok (check_identity run i a.event_payload) _ h1 in
      let (event_id, _, h3) =
        >>=-eq-ok (or_raise (as_nonempty (get a.event_payload "event_id")) persistence_error _) _
          h2 in
      let (dup, h4) =
        raise_if-eq-ok (any (is_duplicate run.id event_id a.idempotency_key) db.events)
          conflict_error _ _ h3 in
      let n : ℕ = suc (max_sequence run.id db.events) in
      let (_, _, h5) = >>=-eq-ok (require_bound_identity a.event_payload "sequence" (int n)) _ h4 in
      let (_, st, h6) =
        >>=-eq-ok (check_state i a.workflow_definition (bind_payload run n a.event_payload)) _ h5 in
      let (_, _, h7) =
        >>=-eq-ok
          (raise_invalid (invalid a.event_schema (obj (bind_payload run n a.event_payload)))) _
          h6 in
      let (f, built, h8) =
        >>=-eq-ok (build_event run i a event_id n (bind_payload run n a.event_payload) db) _ h7 in
      let (_, ce, h9) = >>=-eq-ok (check_event f db.events) _ h8 in
      let pair = ok_injective h9 in
      let same : f ≡ e = ap (λ (t : SandboxEvent × Db). t.0) pair in
      let (row, ids) = build_event-IsRow run i a event_id db (built ∙ ap ok same) in
      let bound : e.payload ≡ bind_payload run n a.event_payload =
        row.payload ∙ ap (λ (k : ℕ). bind_payload run k a.event_payload) row.sequence in
      record {
        row = row;
        fresh_version = version_eq i.version a.expected_version v;
        not_duplicate =
            ap₂ (λ (x y : String). any (is_duplicate run.id x y) db.events) ids row.key ∙ dup;
        state = rw bound st;
        constraints = subst (λ f. check_event f db.events ≡ ok tt) same ce;
        tables =
            sym (ap (λ (t : SandboxEvent × Db). t.1) pair)
            ∙ ap₂ (λ (p : Fields) (x : SandboxEvent). with_event i p db x) (sym bound) same;
      }
