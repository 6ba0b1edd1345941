-- ===== src/Sandbox/Reachable.antt =====
-- Every state that the service can bring about.
use mathlib.Core.Path.{subst, subst₂}
use polsia_build.Common.{
  In, In-append, List, Option, String, [], ap, arith, eq_bool, eqb, eqb_iff, false, first-some, inl,
  inr, is_empty, length, length-append, refl, suc, sym, ℕ, ◌++◌, ◌<◌, ◌∷◌, ◌≡◌, ◌≤◌,
}
use polsia_build.Raises.{
  >>=-eq-ok, Message, ok, or_raise, or_raise-some, persistence_error, raise_if-eq-ok,
}
use polsia_build.Sandbox.{
  Db, SandboxApproval, SandboxEvent, SandboxRun, WorkflowInstance, empty_db, instance_by_id,
  run_by_id,
}
use polsia_build.Sandbox.Append.{IsAppended, append_to-IsAppended}
use polsia_build.Sandbox.Log.{IsDerived, Progress, progress_of, replay, start, with_event-IsDerived}
use polsia_build.Sandbox.Numbering.{IsNumbered, Numbered, with_event-IsNumbered}
use polsia_build.Sandbox.Service.{
  Delivery, append_sandbox_event, create_sandbox_run, create_workflow_instance, is_evidence,
  new_instance,
}
use polsia_build.Value.{Value, optional}

-- The tables after any sequence of operations of the service; other services write approvals only.
pub data Reachable (invalid : Value → Value → Option Message) : Db → Type 0 where
  nothing : Reachable invalid empty_db
  run_created :
      {db db' : Db} (run_id company_slug protocol_version : String) (manifest : Value)
      (run : SandboxRun)
      → Reachable invalid db
      → create_sandbox_run run_id company_slug protocol_version manifest db ≡ ok (run, db')
      → Reachable invalid db'
  instance_created :
      {db db' : Db} (run : ℕ) (workflow_id entity_type entity_id : String) (initial : Option String)
      (i : WorkflowInstance)
      → Reachable invalid db
      → create_workflow_instance run workflow_id entity_type entity_id initial db ≡ ok (i, db')
      → Reachable invalid db'
  appended :
      {db db' : Db} (a : Delivery) (e : SandboxEvent)
      → Reachable invalid db
      → append_sandbox_event invalid a db ≡ ok (e, db')
      → Reachable invalid db'
  approvals_written :
      {db : Db} (approvals : List SandboxApproval)
      → Reachable invalid db
      → Reachable invalid (record db { approvals = approvals })

-- The tables agree with the log, and the log is numbered.
pub record IsSound (db : Db) : Type 0 where
  pub derived : IsDerived db
  pub numbered : IsNumbered db

empty_db-IsSound : IsSound empty_db
empty_db-IsSound = record {
  derived = record {
    ids = λ i m. elim m [ ];
    owners = λ e m. elim m [ ];
    replayed = λ i m. elim m [ ];
  };
  numbered = record { in_order = λ run. tt };
}

pub create_sandbox_run-tables :
    (run_id slug version : String) (manifest : Value) (db db' : Db) {run : SandboxRun}
    → create_sandbox_run run_id slug version manifest db ≡ ok (run, db')
    → (db'.instances ≡ db.instances) × (db'.events ≡ db.events)
unfolding create_sandbox_run
create_sandbox_run-tables run_id slug version manifest db db' h = ground arith

pub create_workflow_instance-tables :
    (run : ℕ) (w t k : String) (initial : Option String) (db db' : Db) (i : WorkflowInstance)
    → create_workflow_instance run w t k initial db ≡ ok (i, db')
    → (db'.instances ≡ db.instances ++ new_instance run w t k initial db ∷ [])
      × (db'.events ≡ db.events)
unfolding create_workflow_instance
create_workflow_instance-tables run w t k initial db db' i h = ground arith

replay_foreign :
    (k : ℕ) (p : Progress) (es : List SandboxEvent)
    → ((e : SandboxEvent) → In e es → e.workflow_instance_id < k)
    → replay k p es ≡ p
unfolding replay
replay_foreign k p [] h = refl
replay_foreign k p (e ∷ es) h =
    let other : eqb e.workflow_instance_id k ≡ false = ground (arith, h e (inl refl)) in
    rw other (replay_foreign k p es (λ f m. h f (inr m)))

-- Soundness speaks of two of the tables only.
pub same_tables :
    (db db' : Db) → db.instances ≡ db'.instances → db.events ≡ db'.events → IsSound db → IsSound db'
same_tables db db' p q s = record {
  derived = record {
    ids =
        subst (λ (is : List WorkflowInstance). (i : WorkflowInstance) → In i is → i.id ≤ length is)
          p s.derived.ids;
    owners =
        subst₂
          (λ (is : List WorkflowInstance) (es : List SandboxEvent).
            (e : SandboxEvent) → In e es → e.workflow_instance_id ≤ length is)
          p q s.derived.owners;
    replayed =
        subst₂
          (λ (is : List WorkflowInstance) (es : List SandboxEvent).
            (i : WorkflowInstance)
            → In i is
            → (s : Value) × (replay i.id (start s) es ≡ progress_of i))
          p q s.derived.replayed;
  };
  numbered = record {
    in_order =
        subst (λ (es : List SandboxEvent). (run : ℕ) → Numbered run 0 es) q s.numbered.in_order;
  };
}

-- A new instance has no events yet.
new_instance-IsSound :
    (run : ℕ) (w t k : String) (initial : Option String) (db : Db)
    → IsSound db
    → IsSound (record db { instances = db.instances ++ new_instance run w t k initial db ∷ [] })
new_instance-IsSound run w t k initial db s = record {
  derived = record {
    ids = λ j m.
        subst (λ n. j.id ≤ n) (sym longer)
          (elim (In-append j x db.instances m) [
            | inl o ↦ omega (arith, s.derived.ids j o)
            | inr e ↦ omega (arith, ap (λ (y : WorkflowInstance). y.id) e)
          ]);
    owners = λ e m.
        subst (λ n. e.workflow_instance_id ≤ n) (sym longer) (omega (arith, s.derived.owners e m));
    replayed = λ j m. elim (In-append j x db.instances m) [
      | inl o ↦ s.derived.replayed j o
      | inr e ↦ (
        optional initial,
        subst
            (λ (y : WorkflowInstance).
              replay y.id (start (optional initial)) db.events ≡ progress_of y)
            (sym e)
            (replay_foreign (suc (length db.instances)) (start (optional initial)) db.events
              (λ f n. omega (arith, s.derived.owners f n))),
      )
    ];
  };
  numbered = record { in_order = s.numbered.in_order };
}
  where
    x : WorkflowInstance
    x = new_instance run w t k initial db

    longer : length (db.instances ++ x ∷ []) ≡ suc (length db.instances)
    longer = omega (arith, length-append db.instances (x ∷ []))

-- A delivery that is accepted was checked against rows that are there.
pub append_sandbox_event-IsAppended :
    (invalid : Value → Value → Option Message) (a : Delivery) (db db' : Db) (e : SandboxEvent)
    → append_sandbox_event invalid a db ≡ ok (e, db')
    → (run : SandboxRun) × (i : WorkflowInstance) × In i db.instances
      × In run db.runs
      × (i.id ≡ a.workflow_instance_id)
      × (run.id ≡ i.sandbox_run_id)
      × IsAppended run i a db e db'
unfolding append_sandbox_event
append_sandbox_event-IsAppended invalid a db db' e h =
    let (_, h1) = raise_if-eq-ok (is_empty a.idempotency_key) persistence_error _ _ h in
    let (_, h2) =
      raise_if-eq-ok (eq_bool (is_evidence a.native_decision) (is_evidence a.native_failure))
        persistence_error _ _ h1 in
    let (i, f, h3) =
      >>=-eq-ok (or_raise (instance_by_id a.workflow_instance_id db) persistence_error _) _ h2 in
    let (run, g, h4) =
      >>=-eq-ok (or_raise (run_by_id i.sandbox_run_id db) persistence_error _) _ h3 in
    let (p, m) =
      first-some (λ (j : WorkflowInstance). eqb j.id a.workflow_instance_id) db.instances i
        (or_raise-some _ persistence_error _ f) in
    let (q, n) =
      first-some (λ (r : SandboxRun). eqb r.id i.sandbox_run_id) db.runs run
        (or_raise-some _ persistence_error _ g) in
    (
      run,
      i,
      m,
      n,
      (eqb_iff i.id a.workflow_instance_id).0 p,
      (eqb_iff run.id i.sandbox_run_id).0 q,
      append_to-IsAppended invalid run i a db db' e h4,
    )

pub append_sandbox_event-IsSound :
    (invalid : Value → Value → Option Message) (a : Delivery) (db db' : Db) (e : SandboxEvent)
    → append_sandbox_event invalid a db ≡ ok (e, db')
    → IsSound db
    → IsSound db'
append_sandbox_event-IsSound invalid a db db' e h s =
    let (run, i, m, _, _, _, done) = append_sandbox_event-IsAppended invalid a db db' e h in
    subst IsSound (sym done.tables) (record {
      derived = with_event-IsDerived run i a db e s.derived m done.row;
      numbered = with_event-IsNumbered run i a db e s.numbered done.row;
    })

-- Whatever runs, instances and events were made, in any order, the state, the version and the
-- terminal mark of every instance are those that a replay of its events gives from some initial
-- state, and the events of every run are numbered 1, 2, 3, ... in the order of the log.
pub Reachable-IsSound :
    (invalid : Value → Value → Option Message) (db : Db) → Reachable invalid db → IsSound db
Reachable-IsSound invalid db nothing = empty_db-IsSound
Reachable-IsSound invalid db' (run_created {db} r c v m run h e) =
    let (p, q) = create_sandbox_run-tables r c v m db db' e in
    same_tables db db' (sym p) (sym q) (Reachable-IsSound invalid db h)
Reachable-IsSound invalid db' (instance_created {db} run w t k s i h e) =
    let (p, q) = create_workflow_instance-tables run w t k s db db' i e in
    same_tables (record db { instances = db.instances ++ new_instance run w t k s db ∷ [] }) db'
      (sym p) (sym q) (new_instance-IsSound run w t k s db (Reachable-IsSound invalid db h))
Reachable-IsSound invalid db' (appended {db} a e h f) =
    append_sandbox_event-IsSound invalid a db db' e f (Reachable-IsSound invalid db h)
Reachable-IsSound invalid db' (approvals_written {db} as' h) =
    same_tables db db' refl refl (Reachable-IsSound invalid db h)
