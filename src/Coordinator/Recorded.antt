-- ===== src/Coordinator/Recorded.antt =====
-- What `coordinate_sandbox_action` of app/services/company_os_sandbox_coordinator.py records when it
-- returns.
use polsia_build.Common.{List, String, [], ap, arith, inl, inr, refl, sym, ◌++◌, ◌∙◌, ◌∷◌, ◌≡◌}
use polsia_build.Coordinator.Action.{
  Hearing, Outcome, escalated, finished, hear, heard, judge, perform, stopped,
}
use polsia_build.Coordinator.Inputs.{Call, Inputs, Prepared, Runtime}
use polsia_build.Coordinator.Native.{Evidence, Native, read_provided}
use polsia_build.Coordinator.Payload.{delivery_of}
use polsia_build.Coordinator.Report.{
  ask_founder, coordinate_sandbox_action, fields_of, govern, new_approval, read_call,
  record_outcome, settle,
}
use polsia_build.Coordinator.Ruling.{Ruling}
use polsia_build.Raises.{>>=-eq-ok, ok, ok_injective, ok_or_err}
use polsia_build.Sandbox.{Db, SandboxApproval, SandboxEvent, WorkflowInstance, check_approval}
use polsia_build.Sandbox.Reachable.{
  IsSound, append_sandbox_event-IsAppended, append_sandbox_event-IsSound, same_tables,
}
use polsia_build.Sandbox.Service.{Delivery, append_sandbox_event}
use polsia_build.Value.{Fields}

-- The tables after one delivery, with the approvals that were written beside it.
pub record IsRecorded {W : Type 0} (lib : Runtime W) (c : Call) (db db' : Db) (e : SandboxEvent)
    : Type 0 where
  pub delivery : Delivery
  pub after : Db
  pub rows : List SandboxApproval
  pub appended : append_sandbox_event lib.invalid delivery db ≡ ok (e, after)
  pub key : delivery.idempotency_key ≡ c.idempotency_key
  pub tables : db' ≡ record after { approvals = rows }

module _ {W : Type 0} (lib : Runtime W) (c : Call) where
  ask_founder-IsRecorded :
      (x : Inputs) (i : WorkflowInstance) (d : Fields) (n : Native) (r : Ruling) (k : String)
      (db db' : Db) (e : SandboxEvent)
      → ask_founder lib c x i d n r k db ≡ ok (e, db')
      → IsRecorded lib c db db' e
  unfolding ask_founder delivery_of
  ask_founder-IsRecorded x i d n r k db db' e h =
      let ((e', after), p, h1) = >>=-eq-ok _ _ h in
      let (_, _, h2) =
        >>=-eq-ok (check_approval (new_approval i e' n x.input k after) after.approvals) _ h1 in
      let made = ok_injective h2 in
      record {
        delivery = _;
        after = after;
        rows = _;
        appended = p ∙ ap (λ (t : SandboxEvent × Db). ok (t.0, after)) made;
        key = refl;
        tables = sym (ap (λ (t : SandboxEvent × Db). t.1) made);
      }

  record_outcome-IsRecorded :
      (x : Inputs) (i : WorkflowInstance) (v : Evidence) (o : Outcome) (db db' : Db)
      (e : SandboxEvent)
      → record_outcome lib c x i v o db ≡ ok (e, db')
      → IsRecorded lib c db db' e
  unfolding record_outcome delivery_of
  record_outcome-IsRecorded x i v (stopped d k) db db' e h = record {
    delivery = _;
    after = db';
    rows = db'.approvals;
    appended = h;
    key = refl;
    tables = refl;
  }
  record_outcome-IsRecorded x i v (finished n r k) db db' e h = record {
    delivery = _;
    after = db';
    rows = db'.approvals;
    appended = h;
    key = refl;
    tables = refl;
  }

  settle-IsRecorded :
      (x : Inputs) (i : WorkflowInstance) (v : Evidence) (h : Hearing) (db db' : Db) (w : W)
      (e : SandboxEvent)
      → (settle lib c x i v h db w).0 ≡ ok (e, db')
      → IsRecorded lib c db db' e
  unfolding settle
  settle-IsRecorded x i v (escalated n r k) db db' w e p =
      ask_founder-IsRecorded x i (fields_of v.native) n r k db db' e p
  settle-IsRecorded x i v (heard u) db db' w e p =
      record_outcome-IsRecorded x i v (perform lib (fields_of v.native) c.idempotency_key u w).0 db
        db' e p

  govern-IsRecorded :
      (x : Inputs) (p : Prepared) (v : Evidence) (db db' : Db) (w : W) (e : SandboxEvent)
      → (govern lib c x p v db w).0 ≡ ok (e, db')
      → IsRecorded lib c db db' e
  unfolding govern
  govern-IsRecorded x p v db db' w e h = elim (ok_or_err (judge lib.decimals x p c.policy v)) [
    | inr (f, a) ↦ absurd (ground arith)
    | inl (u, a) ↦
        settle-IsRecorded x p.instance_row v (hear x p.instance_row db u) db db' w e (ground arith)
  ]

  coordinate_sandbox_action-IsRecorded :
      (db db' : Db) (w : W) (e : SandboxEvent)
      → (coordinate_sandbox_action lib c db w).0 ≡ ok (e, db')
      → IsRecorded lib c db db' e
  unfolding coordinate_sandbox_action
  coordinate_sandbox_action-IsRecorded db db' w e h = elim (ok_or_err (read_call lib c db)) [
    | inr (f, a) ↦ absurd (ground arith)
    | inl ((x, p), a) ↦
        govern-IsRecorded x p (read_provided lib.repr (lib.decide x.input w).0) db db'
          (lib.decide x.input w).1 e (ground arith)
  ]

  -- A call that returns has appended exactly one event, under its idempotency key, to the log as it
  -- was, and keeps the tables sound: states, versions and terminal marks are those that a replay of
  -- the events gives, and the events of a run are numbered in order.
  pub coordinate_sandbox_action-one_event :
      (db db' : Db) (w : W) (e : SandboxEvent)
      → (coordinate_sandbox_action lib c db w).0 ≡ ok (e, db')
      → IsSound db
      → (db'.events ≡ db.events ++ e ∷ []) × (e.idempotency_key ≡ c.idempotency_key) × IsSound db'
  coordinate_sandbox_action-one_event db db' w e h s =
      let done = coordinate_sandbox_action-IsRecorded db db' w e h in
      let (_, _, _, _, _, _, made) =
        append_sandbox_event-IsAppended lib.invalid done.delivery db done.after e done.appended in
      (
        ap (λ (t : Db). t.events) done.tables ∙ ap (λ (t : Db). t.events) made.tables,
        made.row.key ∙ done.key,
        same_tables done.after db' (sym (ap (λ (t : Db). t.instances) done.tables))
            (sym (ap (λ (t : Db). t.events) done.tables))
            (append_sandbox_event-IsSound lib.invalid done.delivery db done.after e done.appended
              s),
      )
