-- ===== src/Sandbox/Rows.antt =====
-- Looking rows up after operations of app/services/company_os_sandbox_service.py, and after an update
-- of an approval.
use polsia_build.Common.{
  Bool-cases, In, In-append, List, Option, [], ap, arith, eqb, eqb_iff, false, first, inl, inr,
  length, length-append, refl, some, subst, suc, sym, ℕ, ◌++◌, ◌<◌, ◌∙◌, ◌∷◌, ◌≡◌, ◌≤◌,
}
use polsia_build.Raises.{>>=-eq-ok, Message, ok, ok_injective}
use polsia_build.Sandbox.{
  Db, SandboxApproval, SandboxEvent, approval_by_id, check_update, event_by_id, save_approval,
  update_approval,
}
use polsia_build.Sandbox.Reachable.{
  IsSound, Reachable, append_sandbox_event-IsAppended, appended, approvals_written,
  create_sandbox_run-tables, create_workflow_instance-tables, instance_created, nothing,
  run_created, same_tables,
}
use polsia_build.Sandbox.Service.{Delivery, append_sandbox_event}
use polsia_build.Value.{Value}

-- No event has an id beyond its table.
pub record IsPlaced (db : Db) : Type 0 where
  pub below : (e : SandboxEvent) → In e db.events → e.id ≤ length db.events

pub append_sandbox_event-events :
    (invalid : Value → Value → Option Message) (a : Delivery) (db db' : Db) (e : SandboxEvent)
    → append_sandbox_event invalid a db ≡ ok (e, db')
    → (db'.events ≡ db.events ++ e ∷ [])
      × (db'.approvals ≡ db.approvals)
      × (e.id ≡ suc (length db.events))
append_sandbox_event-events invalid a db db' e h =
    let (run, i, _, _, _, _, made) = append_sandbox_event-IsAppended invalid a db db' e h in
    (ap (λ (t : Db). t.events) made.tables, ap (λ (t : Db). t.approvals) made.tables, made.row.id)

pub append_sandbox_event-IsPlaced :
    (invalid : Value → Value → Option Message) (a : Delivery) (db db' : Db) (e : SandboxEvent)
    → append_sandbox_event invalid a db ≡ ok (e, db')
    → IsPlaced db
    → IsPlaced db'
append_sandbox_event-IsPlaced invalid a db db' e h p =
    let (events, _, id) = append_sandbox_event-events invalid a db db' e h in
    let grown : length db'.events ≡ suc (length db.events) =
      ap length events ∙ omega (arith, length-append db.events (e ∷ [])) in
    record {
      below = λ f m. elim (In-append f e db.events (subst (In f) events m)) [
        | inl n ↦ omega (arith, p.below f n, grown)
        | inr s ↦ omega (arith, ap (λ (x : SandboxEvent). x.id) s, id, grown)
      ];
    }

-- The event that was appended is found by its id.
first_fresh :
    (es : List SandboxEvent) (e : SandboxEvent)
    → ((f : SandboxEvent) → In f es → eqb f.id e.id ≡ false)
    → first (λ (f : SandboxEvent). eqb f.id e.id) (es ++ e ∷ []) ≡ some e
first_fresh [] e h = ground (arith, (eqb_iff e.id e.id).1 refl)
first_fresh (f ∷ es) e h = ground (arith, h f (inl refl), first_fresh es e (λ g m. h g (inr m)))

pub event_by_id-appended :
    (invalid : Value → Value → Option Message) (a : Delivery) (db db' : Db) (e : SandboxEvent)
    → append_sandbox_event invalid a db ≡ ok (e, db')
    → IsPlaced db
    → event_by_id e.id db' ≡ some e
event_by_id-appended invalid a db db' e h p =
    let (events, _, id) = append_sandbox_event-events invalid a db db' e h in
    ap (first (λ (f : SandboxEvent). eqb f.id e.id)) events
    ∙ first_fresh db.events e (λ f m. apart f.id e.id (omega (arith, p.below f m, id)))
  where
    apart : (x y : ℕ) → x < y → eqb x y ≡ false
    apart x y h = ground arith

-- A row that is updated is found in its new state.
first_saved :
    (k : ℕ) (as' : List SandboxApproval) (a x : SandboxApproval)
    → first (λ (b : SandboxApproval). eqb b.id k) as' ≡ some a
    → x.id ≡ k
    → first (λ (b : SandboxApproval). eqb b.id k) (save_approval x as') ≡ some x
unfolding save_approval
first_saved k [] a x h e = cc
first_saved k (b ∷ as') a x h e = elim (Bool-cases (eqb b.id k)) [
  | inl t ↦ ground (arith, e, (eqb_iff b.id x.id).1, (eqb_iff b.id k).0 t, (eqb_iff x.id k).1 e)
  | inr f ↦ ground (arith, e, f, first_saved k as' a x (ground arith) e)
]

pub update_approval-events :
    (x : SandboxApproval) (db after : Db)
    → update_approval x db ≡ ok after
    → after.events ≡ db.events
unfolding update_approval
update_approval-events x db after h =
    let (_, _, h1) = >>=-eq-ok (check_update x db.approvals) _ h in
    sym (ap (λ (t : Db). t.events) (ok_injective h1))

pub update_approval-instances :
    (x : SandboxApproval) (db after : Db)
    → update_approval x db ≡ ok after
    → after.instances ≡ db.instances
unfolding update_approval
update_approval-instances x db after h =
    let (_, _, h1) = >>=-eq-ok (check_update x db.approvals) _ h in
    sym (ap (λ (t : Db). t.instances) (ok_injective h1))

-- An update of an approval keeps the tables sound.
pub update_approval-IsSound :
    (x : SandboxApproval) (db after : Db)
    → update_approval x db ≡ ok after
    → IsSound db
    → IsSound after
update_approval-IsSound x db after h =
    same_tables db after (sym (update_approval-instances x db after h))
      (sym (update_approval-events x db after h))

pub update_approval-found :
    (k : ℕ) (a x : SandboxApproval) (db after : Db)
    → update_approval x db ≡ ok after
    → approval_by_id k db ≡ some a
    → x.id ≡ k
    → approval_by_id k after ≡ some x
unfolding update_approval
update_approval-found k a x db after h f e =
    let (_, _, h1) = >>=-eq-ok (check_update x db.approvals) _ h in
    ap (λ (t : Db). approval_by_id k t) (sym (ok_injective h1)) ∙ first_saved k db.approvals a x f e

pub same_events : (db db' : Db) → db'.events ≡ db.events → IsPlaced db → IsPlaced db'
same_events db db' q p = record {
  below =
      subst (λ (es : List SandboxEvent). (e : SandboxEvent) → In e es → e.id ≤ length es) (sym q)
        p.below;
}

-- The rows that the operations make are placed.
pub Reachable-IsPlaced :
    (invalid : Value → Value → Option Message) (db : Db) → Reachable invalid db → IsPlaced db
Reachable-IsPlaced invalid db nothing = record { below = λ e m. elim m [ ] }
Reachable-IsPlaced invalid db' (run_created {db} r c v m run h e) =
    let (p, q) = create_sandbox_run-tables r c v m db db' e in
    same_events db db' q (Reachable-IsPlaced invalid db h)
Reachable-IsPlaced invalid db' (instance_created {db} run w t k s i h e) =
    same_events db db' (create_workflow_instance-tables run w t k s db db' i e).1
      (Reachable-IsPlaced invalid db h)
Reachable-IsPlaced invalid db' (appended {db} a e h f) =
    append_sandbox_event-IsPlaced invalid a db db' e f (Reachable-IsPlaced invalid db h)
Reachable-IsPlaced invalid db' (approvals_written {db} as' h) = record {
  below = (Reachable-IsPlaced invalid db h).below;
}
