-- ===== src/Examples/Founder.antt =====
-- What the founder's resolutions record, and a request that is rejected.
use polsia_build.Common.{List, Option, String, [], ap, arith, inl, inr, refl, subst, sym, ◌≡◌}
use polsia_build.Approvals.Binding.{bound_rows}
use polsia_build.Approvals.Outcome.{resume_sandbox_approval}
use polsia_build.Approvals.Recorded.{
  IsRecordedOnce, resolve_sandbox_approval-IsRecordedOnce, resume_sandbox_approval-IsRecordedOnce,
}
use polsia_build.Approvals.Refusal.{resume_sandbox_approval-refused}
use polsia_build.Approvals.Resolve.{Resolution, read_resolution, resolve_sandbox_approval}
use polsia_build.Examples.Approvals.{
  approve, approved_db, approved_db-IsPlaced, asked, asked-IsPlaced, at_event, db_of, email_resumed,
  event_of, go_on, resolution, resolution_made, resumption,
}
use polsia_build.Raises.{Exception, Result, err, ok}
use polsia_build.Sandbox.{
  Db, SandboxEvent, WorkflowInstance, check_columns, check_event, is_open, max_sequence,
  update_approval,
}
use polsia_build.Sandbox.Log.{apply_event, progress_of, replay, start}
use polsia_build.Sandbox.Reachable.{IsSound}
use polsia_build.Sandbox.Service.{
  append_sandbox_event, append_to, build_event, check_identity, check_state,
}
use polsia_build.Value.{eq, set_item, str}
use polsia_build.Value.Json.{is_json}

asked-IsSound : IsSound asked
unfolding replay apply_event eq
asked-IsSound = record {
  derived = record {
    ids = λ i m. elim m [
      | inl s ↦ omega (arith, ap (λ (x : WorkflowInstance). x.id) s)
      | inr n ↦ elim n [ ]
    ];
    owners = λ e m. elim m [
      | inl s ↦ omega (arith, ap (λ (x : SandboxEvent). x.workflow_instance_id) s)
      | inr n ↦ elim n [ ]
    ];
    replayed = λ i m. elim m [
      | inl s ↦ (
        str "new",
        subst
            (λ (y : WorkflowInstance). replay y.id (start (str "new")) asked.events ≡ progress_of y)
            (sym s) refl,
      )
      | inr n ↦ elim n [ ]
    ];
  };
  numbered = record { in_order = λ run. (λ t. refl, tt) };
}

approved_db-IsSound : IsSound approved_db
unfolding replay apply_event eq
approved_db-IsSound = record {
  derived = record {
    ids = λ i m. elim m [
      | inl s ↦ omega (arith, ap (λ (x : WorkflowInstance). x.id) s)
      | inr n ↦ elim n [ ]
    ];
    owners = λ e m. elim m [
      | inl s ↦ omega (arith, ap (λ (x : SandboxEvent). x.workflow_instance_id) s)
      | inr n ↦ elim n [
        | inl s ↦ omega (arith, ap (λ (x : SandboxEvent). x.workflow_instance_id) s)
        | inr z ↦ elim z [ ]
      ]
    ];
    replayed = λ i m. elim m [
      | inl s ↦ (
        str "new",
        subst
            (λ (y : WorkflowInstance).
              replay y.id (start (str "new")) approved_db.events ≡ progress_of y)
            (sym s) refl,
      )
      | inr n ↦ elim n [ ]
    ];
  };
  numbered = record { in_order = λ run. (λ t. refl, (λ t. rw t refl, tt)) };
}

resolve_sandbox_approval-IsRecordedOnce_example :
    IsRecordedOnce asked (db_of resolution) (event_of resolution)
resolve_sandbox_approval-IsRecordedOnce_example =
    resolve_sandbox_approval-IsRecordedOnce (at_event "e-2") approve asked (db_of resolution)
      (event_of resolution) resolution_made asked-IsSound

resume_sandbox_approval-IsRecordedOnce_example :
    IsRecordedOnce approved_db (db_of resumption.0) (event_of resumption.0)
resume_sandbox_approval-IsRecordedOnce_example =
    resume_sandbox_approval-IsRecordedOnce (at_event "e-3") go_on approved_db (db_of resumption.0)
      [] (event_of resumption.0)
      (ap (λ (t : Result (Option SandboxEvent × Db) × List String). t.0) email_resumed)
      approved_db-IsPlaced approved_db-IsSound

abbrev reject : Resolution
reject = record approve { status = "rejected" }

abbrev rejection : Result (Option SandboxEvent × Db)
rejection = resolve_sandbox_approval (at_event "e-2") reject asked

rejection_made : rejection ≡ ok (event_of rejection, db_of rejection)
unfolding resolve_sandbox_approval read_resolution is_json bound_rows eq append_sandbox_event
    append_to check_identity check_state set_item build_event check_event check_columns max_sequence
    update_approval is_open
rejection_made = refl

resume_sandbox_approval-refused_example :
    (e : Exception) × (resume_sandbox_approval (at_event "e-3") go_on (db_of rejection) []
      ≡ (err e, []))
resume_sandbox_approval-refused_example =
    resume_sandbox_approval-refused (at_event "e-2") (at_event "e-3") reject go_on asked
      (db_of rejection) [] (event_of rejection) rejection_made asked-IsPlaced refl refl
