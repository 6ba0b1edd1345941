-- ===== src/Audit/Lifecycle.antt =====
-- The life of an action: the events of a record follow the allowed statuses, whatever operations of
-- app/services/company_os_audit_service.py made the tables.
use polsia_build.Common.{
  Bool, Bool-cases, List, String, [], ap, arith, contains, eqb, eqb_iff, false, if◌then◌else◌, inl,
  inr, is_empty, length, length-append, not, refl, some, subst, subst₂, suc, sym, true, ℕ, ◌&&◌,
  ◌++◌, ◌==◌, ◌||◌, ◌∙◌, ◌∷◌, ◌≡◌, ◌≤◌, ◌⊎◌,
}
use polsia_build.Audit.{
  ActionEvent, ActionRecord, AuditDb, allowed_transitions, append_action_event, approval_states,
  create_action_record, events_of, grants, initial_statuses, list_action_events, no_details,
  previous_status, record_by_id,
}
use polsia_build.Raises.{
  >>=-eq-ok, audit_error, ok, ok_injective, or_raise, or_raise-some, raise_if-eq-ok,
}
use polsia_build.Sandbox.Service.{is_evidence}
use polsia_build.Value.{is_null}

-- Each event's status is allowed after the one before it, and grants what it needs.
abbrev pub Follows : String → List ActionEvent → Type 0
Follows s [] = Unit
Follows s (e ∷ es) =
    (contains (allowed_transitions s) e.execution_status ≡ true)
    × (contains ("authorized" ∷ "executing" ∷ "succeeded" ∷ []) e.execution_status ≡ true
        → grants e.approval_state ≡ true)
    × ((e.execution_status == "succeeded") ≡ true → is_null e.evidence ≡ false)
    × Follows e.execution_status es

pub record IsAudited (db : AuditDb) : Type 0 where
  pub ids : (k : ℕ) (r : ActionRecord) → record_by_id k db.records ≡ some r → k ≤ length db.records
  pub owners : (k : ℕ) → suc (length db.records) ≤ k → events_of k db.events ≡ []
  pub follows :
      (k : ℕ) (r : ActionRecord)
      → record_by_id k db.records ≡ some r
      → Follows r.initial_execution_status (list_action_events k db)

-- The tables after any sequence of operations.
pub data Arises : AuditDb → Type 0 where
  none_made : Arises (record { records = []; events = [] })
  record_created :
      {db db' : AuditDb} (r row : ActionRecord)
      → Arises db
      → create_action_record r db ≡ ok (row, db')
      → Arises db'
  event_appended :
      {db db' : AuditDb} (e row : ActionEvent)
      → Arises db
      → append_action_event e db ≡ ok (row, db')
      → Arises db'

events_of-append :
    (k : ℕ) (es : List ActionEvent) (e : ActionEvent)
    → events_of k (es ++ e ∷ [])
      ≡ (if eqb e.action_record_id k then events_of k es ++ e ∷ [] else events_of k es)
events_of-append k [] e = ground arith
events_of-append k (f ∷ es) e = ground (arith, events_of-append k es e)

Follows-append :
    (s : String) (es : List ActionEvent) (e : ActionEvent)
    → Follows s es
    → Follows (previous_status s es) (e ∷ [])
    → Follows s (es ++ e ∷ [])
unfolding previous_status
Follows-append s [] e h g = g
Follows-append s (f ∷ es) e (a, b, c, h) g = (a, b, c, Follows-append f.execution_status es e h g)

create_action_record-tables :
    (r row : ActionRecord) (db db' : AuditDb)
    → create_action_record r db ≡ ok (row, db')
    → (row.id ≡ suc (length db.records))
      × (db'.records ≡ db.records ++ row ∷ [])
      × (db'.events ≡ db.events)
unfolding create_action_record
create_action_record-tables r row db db' h =
    let (_, h1) =
      raise_if-eq-ok
        (is_empty r.company_slug || (is_empty r.agent_type || is_empty r.proposed_action))
        audit_error _ _ h in
    let (_, h2) = raise_if-eq-ok (not (is_evidence r.decision_envelope)) audit_error _ _ h1 in
    let (_, h3) =
      raise_if-eq-ok (not (contains approval_states r.approval_state)) audit_error _ _ h2 in
    let (_, h4) =
      raise_if-eq-ok (not (contains initial_statuses r.initial_execution_status)) audit_error _ _
        h3 in
    let (_, h5) =
      raise_if-eq-ok (r.initial_execution_status == "authorized" && not (grants r.approval_state))
        audit_error _ _ h4 in
    let made = ok_injective h5 in
    (
      sym (ap (λ (t : ActionRecord × AuditDb). t.0.id) made),
      sym (ap (λ (t : ActionRecord × AuditDb). t.1.records) made)
          ∙ ap (λ (t : ActionRecord × AuditDb). db.records ++ t.0 ∷ []) made,
      sym (ap (λ (t : ActionRecord × AuditDb). t.1.events) made),
    )

unrefused : (b : Bool) → not b ≡ false → b ≡ true
unrefused b h = ground arith

needs : (a b : Bool) → (a && not b) ≡ false → a ≡ true → b ≡ true
needs a b h p = ground arith

excludes : (a b : Bool) → (a && b) ≡ false → a ≡ true → b ≡ false
excludes a b h p = ground arith

append_action_event-tables :
    (e row : ActionEvent) (db db' : AuditDb)
    → append_action_event e db ≡ ok (row, db')
    → (r : ActionRecord) × (record_by_id e.action_record_id db.records ≡ some r)
      × (row.action_record_id ≡ e.action_record_id)
      × (db'.records ≡ db.records)
      × (db'.events ≡ db.events ++ row ∷ [])
      × Follows
          (previous_status r.initial_execution_status (list_action_events e.action_record_id db))
          (row ∷ [])
unfolding append_action_event
append_action_event-tables e row db db' h =
    let (r, f, h1) =
      >>=-eq-ok (or_raise (record_by_id e.action_record_id db.records) audit_error _) _ h in
    let (_, h2) = raise_if-eq-ok (is_empty e.event_type) audit_error _ _ h1 in
    let (_, h3) =
      raise_if-eq-ok (not (contains approval_states e.approval_state)) audit_error _ _ h2 in
    let (a, h4) =
      raise_if-eq-ok
        (not (
          contains
            (allowed_transitions (
              previous_status r.initial_execution_status
                (list_action_events e.action_record_id db)))
            e.execution_status))
        audit_error _ _ h3 in
    let (b, h5) =
      raise_if-eq-ok
        (contains ("authorized" ∷ "executing" ∷ "succeeded" ∷ []) e.execution_status
          && not (grants e.approval_state))
        audit_error _ _ h4 in
    let (c, h6) =
      raise_if-eq-ok (e.execution_status == "succeeded" && is_null e.evidence) audit_error _ _ h5 in
    let (_, h7) =
      raise_if-eq-ok (e.execution_status == "failed" && no_details e.details) audit_error _ _ h6 in
    let made = ok_injective h7 in
    (
      r,
      or_raise-some _ audit_error _ f,
      sym (ap (λ (t : ActionEvent × AuditDb). t.0.action_record_id) made),
      sym (ap (λ (t : ActionEvent × AuditDb). t.1.records) made),
      sym (ap (λ (t : ActionEvent × AuditDb). t.1.events) made)
          ∙ ap (λ (t : ActionEvent × AuditDb). db.events ++ t.0 ∷ []) made,
      subst
          (λ (t : ActionEvent × AuditDb).
            Follows
              (previous_status r.initial_execution_status
                (list_action_events e.action_record_id db))
              (t.0 ∷ []))
          made (unrefused _ a, needs _ _ b, excludes _ _ c, tt),
    )

record_by_id-append :
    (k : ℕ) (rs : List ActionRecord) (x r : ActionRecord)
    → record_by_id k (rs ++ x ∷ []) ≡ some r
    → (record_by_id k rs ≡ some r) ⊎ ((r ≡ x) × (x.id ≡ k))
record_by_id-append k [] x r h = ground arith
record_by_id-append k (y ∷ rs) x r h = ground (arith, record_by_id-append k rs x r)

create_action_record-IsAudited :
    (r row : ActionRecord) (db db' : AuditDb)
    → create_action_record r db ≡ ok (row, db')
    → IsAudited db
    → IsAudited db'
unfolding list_action_events
create_action_record-IsAudited r row db db' h a =
    let (id, rs, es) = create_action_record-tables r row db db' h in
    let count : length db'.records ≡ suc (length db.records) =
      ap length rs ∙ omega (arith, length-append db.records (row ∷ [])) in
    record {
      ids = λ k s f. elim (record_by_id-append k db.records row s (rw rs at f)) [
        | inl g ↦ omega (arith, a.ids k s g, count)
        | inr (_, g) ↦ omega (arith, id, g, count)
      ];
      owners = λ k l. ap (events_of k) es ∙ a.owners k (omega (arith, l, count));
      follows = λ k s f. elim (record_by_id-append k db.records row s (rw rs at f)) [
        | inl g ↦
            subst (λ v. Follows s.initial_execution_status (events_of k v)) (sym es)
              (a.follows k s g)
        | inr (_, g) ↦
            subst (Follows s.initial_execution_status)
              (sym (ap (events_of k) es ∙ a.owners k (omega (arith, id, g)))) tt
      ];
    }

append_action_event-IsAudited :
    (e row : ActionEvent) (db db' : AuditDb)
    → append_action_event e db ≡ ok (row, db')
    → IsAudited db
    → IsAudited db'
unfolding list_action_events
append_action_event-IsAudited e row db db' h a =
    let (r, f, owner, rs, es, next) = append_action_event-tables e row db db' h in
    let small = a.ids e.action_record_id r f in
    let grown = λ (k : ℕ). ap (events_of k) es ∙ events_of-append k db.events row in
    record {
      ids = λ k s g. subst (λ v. k ≤ length v) (sym rs) (a.ids k s (rw rs at g));
      owners = λ k l.
          let far : suc (length db.records) ≤ k = subst (λ v. suc (length v) ≤ k) rs l in
          ground (arith, grown k, a.owners k far, owner, small, far);
      follows = λ k s g. elim (Bool-cases (eqb row.action_record_id k)) [
        | inl t ↦
            let same : k ≡ e.action_record_id =
              sym ((eqb_iff row.action_record_id k).0 t) ∙ owner in
            let found : record_by_id k db.records ≡ some s = rw rs at g in
            let there : record_by_id k db.records ≡ some r =
              subst (λ j. record_by_id j db.records ≡ some r) (sym same) f in
            let one : r ≡ s = cc (found, there) in
            let here : events_of k db'.events ≡ events_of k db.events ++ row ∷ [] =
              ground (arith, grown k, t) in
            subst (Follows s.initial_execution_status) (sym here) (
              Follows-append s.initial_execution_status (events_of k db.events) row
                (a.follows k s found)
                (subst₂
                  (λ (q : ActionRecord) (j : ℕ).
                    Follows (previous_status q.initial_execution_status (events_of j db.events))
                      (row ∷ []))
                  one (sym same) next))
        | inr t ↦ ground (arith, grown k, a.follows k s (rw rs at g))
      ];
    }

-- In the tables that the operations make, the events of every record follow each other as the
-- statuses allow, from its initial status; each authorization, execution and success is approved or
-- needs no approval, and each success has evidence.
pub Arises-IsAudited : (db : AuditDb) → Arises db → IsAudited db
Arises-IsAudited db none_made = record {
  ids = λ k r h. absurd (ground arith);
  owners = λ k h. refl;
  follows = λ k r h. absurd (ground arith);
}
Arises-IsAudited db' (record_created {db} r row h e) =
    create_action_record-IsAudited r row db db' e (Arises-IsAudited db h)
Arises-IsAudited db' (event_appended {db} a row h e) =
    append_action_event-IsAudited a row db db' e (Arises-IsAudited db h)
