-- ===== src/Sandbox/Once.antt =====
-- Deliveries are recorded once, and the log only grows.
use polsia_build.Common.{
  In, In-last, List, Option, any-false, ap, arith, eq_iff, eqb, false, inl, inr, subst, sym, ℕ, ◌∙◌,
  ◌≡◌,
}
use polsia_build.Raises.{Exception, Message, err, ok, ok_or_err}
use polsia_build.Sandbox.{Db, SandboxEvent, WorkflowInstance, save_instance}
use polsia_build.Sandbox.Log.{In-save_instance, id-advance}
use polsia_build.Sandbox.Reachable.{append_sandbox_event-IsAppended}
use polsia_build.Sandbox.Service.{Delivery, advance, append_sandbox_event, is_duplicate}
use polsia_build.Value.{Fields, Value}

-- The row that is saved belongs to the run of the row that it replaces.
saved_run :
    (i j : WorkflowInstance) (payload : Fields) (is : List WorkflowInstance)
    → In j (save_instance (advance i payload) is)
    → j.id ≡ i.id
    → j.sandbox_run_id ≡ i.sandbox_run_id
saved_run i j payload is m e = elim (In-save_instance (advance i payload) j is m) [
  | inl s ↦ ap (λ (y : WorkflowInstance). y.sandbox_run_id) s ∙ run-advance
  | inr (_, f) ↦ absurd (differ i.id j.id (advance i payload).id e (id-advance i payload) f)
]
  where
    run-advance : (advance i payload).sandbox_run_id ≡ i.sandbox_run_id
    run-advance = ground arith

    differ : (a b c : ℕ) → b ≡ a → c ≡ a → eqb b c ≡ false → ⊥
    differ a b c p q h = ground arith

-- Once a delivery is recorded, no delivery to the same instance under the same idempotency key is
-- accepted, whatever else it holds: it raises, and leaves the tables as they are.
pub append_sandbox_event_once :
    (invalid : Value → Value → Option Message) (a b : Delivery) (db db' : Db) (e : SandboxEvent)
    → append_sandbox_event invalid a db ≡ ok (e, db')
    → b.workflow_instance_id ≡ a.workflow_instance_id
    → b.idempotency_key ≡ a.idempotency_key
    → (x : Exception) × (append_sandbox_event invalid b db' ≡ err x)
append_sandbox_event_once invalid a b db db' e h same_instance key =
    elim (ok_or_err (append_sandbox_event invalid b db')) [
      | inr (x, f) ↦ (x, f)
      | inl ((e', db''), f) ↦
          let (run, i, _, _, id, of_run, done) =
            append_sandbox_event-IsAppended invalid a db db' e h in
          let (run', j, m, _, id', of_run', again) =
            append_sandbox_event-IsAppended invalid b db' db'' e' f in
          let j_saved = subst (λ (t : Db). In j t.instances) done.tables m in
          let e_there = subst (λ (t : Db). In e t.events) (sym done.tables) (In-last e db.events) in
          let j_run =
            saved_run i j e.payload db.instances j_saved (id' ∙ (same_instance ∙ sym id)) in
          let missed =
            any-false (is_duplicate run'.id e'.event_id e'.idempotency_key) db'.events e
              again.not_duplicate e_there in
          absurd (
            duplicate e e' run'.id (done.row.of_run ∙ (of_run ∙ (sym j_run ∙ sym of_run')))
              (done.row.key ∙ (sym key ∙ sym again.row.key)) missed)
    ]
  where
    duplicate :
        (e f : SandboxEvent) (run : ℕ)
        → e.sandbox_run_id ≡ run
        → e.idempotency_key ≡ f.idempotency_key
        → is_duplicate run f.event_id f.idempotency_key e ≡ false
        → ⊥
    duplicate e f run p q h = ground (arith, eq_iff e.idempotency_key f.idempotency_key)
