-- ===== src/Approvals/Once.antt =====
-- Resolutions and resumptions happen once: a repeated call returns the event of the first, and changes
-- nothing. app/services/company_os_sandbox_approval_service.py.
use polsia_build.Common.{
  Bool-cases, Option, Option-cases, String, [], ap, arith, contains, eqb, eqb_iff, false, first,
  first-some, inl, inr, none, refl, some, subst, sym, true, ℕ, ◌++◌, ◌∙◌, ◌∷◌, ◌≡◌, ◌⊎◌,
}
use polsia_build.Approvals.Binding.{executable}
use polsia_build.Approvals.Effects.{read_approval-ok, reopen-approval}
use polsia_build.Approvals.Outcome.{
  Carried, carry_out, earlier, failed_row, is_caught, is_incomplete, read_approval, record_failure,
  record_resumed, record_resumption, reopen, resume_open, resume_sandbox_approval, resumed_refs,
  resumed_row, successful, unsuccessful,
}
use polsia_build.Approvals.Resume.{Reopened, Resume, judge_resume}
use polsia_build.Coordinator.Inputs.{Runtime}
use polsia_build.Coordinator.Native.{Native}
use polsia_build.Integration.{IntegrationDecision}
use polsia_build.Raises.{>>=-eq-ok, Exception, item, ok, ok_injective, ok_or_err}
use polsia_build.Sandbox.{
  Db, SandboxApproval, SandboxEvent, approval_by_id, event_by_id, update_approval,
}
use polsia_build.Sandbox.Reachable.{IsSound, append_sandbox_event-IsSound}
use polsia_build.Sandbox.Rows.{
  IsPlaced, append_sandbox_event-events, event_by_id-appended, update_approval-IsSound,
  update_approval-events, update_approval-found,
}
use polsia_build.Sandbox.Service.{Delivery, append_sandbox_event}
use polsia_build.Workflow.{WorkflowTransition}

-- What a resumption leaves on the row, and the event that it returns.
pub record IsNoted (a : SandboxApproval) (db db' : Db) (r : Option SandboxEvent) : Type 0 where
  pub row : SandboxApproval
  pub event : SandboxEvent
  pub returned : r ≡ some event
  pub events : db'.events ≡ db.events ++ event ∷ []
  pub sound : IsSound db → IsSound db'
  pub there : event_by_id event.id db' ≡ some event
  pub updated : (k : ℕ) → approval_by_id k db ≡ some a → a.id ≡ k → approval_by_id k db' ≡ some row
  pub status : row.status ≡ a.status
  pub noted :
      (row.resume_event_id ≡ some event.id)
      ⊎ ((row.resume_event_id ≡ a.resume_event_id) × (row.last_failure_event_id ≡ some event.id))

module _ {W : Type 0} (lib : Runtime W) where
  note :
      (a x : SandboxApproval) (d : Delivery) (db after db' : Db) (e : SandboxEvent)
      → append_sandbox_event lib.invalid d db ≡ ok (e, after)
      → update_approval x after ≡ ok db'
      → IsPlaced db
      → x.id ≡ a.id
      → x.status ≡ a.status
      → (x.resume_event_id ≡ some e.id)
        ⊎ ((x.resume_event_id ≡ a.resume_event_id) × (x.last_failure_event_id ≡ some e.id))
      → IsNoted a db db' (some e)
  note a x d db after db' e h u p id status noted =
      let (events, rows, _) = append_sandbox_event-events lib.invalid d db after e h in
      let found = event_by_id-appended lib.invalid d db after e h p in
      record {
        row = x;
        event = e;
        returned = refl;
        events = update_approval-events x after db' u ∙ events;
        sound = λ s.
            update_approval-IsSound x after db' u
              (append_sandbox_event-IsSound lib.invalid d db after e h s);
        there =
            ap (first (λ (f : SandboxEvent). eqb f.id e.id)) (update_approval-events x after db' u)
            ∙ found;
        updated = λ k f g.
            update_approval-found k a x after db' u
              (ap (first (λ (b : SandboxApproval). eqb b.id k)) rows ∙ f) (id ∙ g);
        status = status;
        noted = noted;
      }

  record_failure-IsNoted :
      (c : Resume) (o : Reopened) (x : Exception) (d : Option IntegrationDecision) (db db' : Db)
      (r : Option SandboxEvent)
      → record_failure lib c o x d db ≡ ok (r, db')
      → IsPlaced db
      → IsNoted o.approval db db' r
  unfolding record_failure
  record_failure-IsNoted c o x d db db' r h p =
      let (refs, _, h1) = >>=-eq-ok (item o.rows.request.payload "evidence_refs") _ h in
      let (agent, _, h2) = >>=-eq-ok (item o.rows.request.payload "agent_type") _ h1 in
      let ((e, after), stored, h3) = >>=-eq-ok _ _ h2 in
      let (done, updated, h4) = >>=-eq-ok (update_approval (failed_row o.approval e) after) _ h3 in
      let made = ok_injective h4 in
      subst (λ (t : Option SandboxEvent × Db). IsNoted o.approval db t.1 t.0) made
        (note o.approval (failed_row o.approval e) _ db after done e stored updated p refl refl
          (inr (refl, refl)))

  record_resumed-IsNoted :
      (c : Resume) (o : Reopened) (n : Native) (t : Option WorkflowTransition)
      (d : Option IntegrationDecision) (receipt : Option String) (db db' : Db)
      (r : Option SandboxEvent)
      → record_resumed lib c o n t d receipt db ≡ ok (r, db')
      → IsPlaced db
      → IsNoted o.approval db db' r
  unfolding record_resumed
  record_resumed-IsNoted c o n t d receipt db db' r h p =
      let (old, _, h1) = >>=-eq-ok (item o.rows.request.payload "evidence_refs") _ h in
      let (refs, _, h2) = >>=-eq-ok (resumed_refs o.approval receipt old) _ h1 in
      let (cl, _, h3) = >>=-eq-ok (item o.approval.input_snapshot "primary_classification") _ h2 in
      let ((e, after), stored, h4) = >>=-eq-ok _ _ h3 in
      let (done, updated, h5) = >>=-eq-ok (update_approval (resumed_row o.approval e) after) _ h4 in
      let made = ok_injective h5 in
      subst (λ (t : Option SandboxEvent × Db). IsNoted o.approval db t.1 t.0) made
        (note o.approval (resumed_row o.approval e) _ db after done e stored updated p refl refl
          (inl refl))

  pub resume_open-IsNoted :
      (c : Resume) (a : SandboxApproval) (db db' : Db) (w : W) (r : Option SandboxEvent)
      → (resume_open lib c a db w).0 ≡ ok (r, db')
      → IsPlaced db
      → IsNoted a db db' r
  unfolding resume_open record_resumption
  resume_open-IsNoted c a db db' w r h p = elim (ok_or_err (reopen lib c a db)) [
    | inr (e, f) ↦ absurd (ground arith)
    | inl (o, f) ↦
        let done : record_resumption lib c o (carry_out lib o (judge_resume lib.decimals o c) w).0
              db
            ≡ ok (r, db') =
          ground arith in
        subst (λ (z : SandboxApproval). IsNoted z db db' r) (reopen-approval lib c a db o f)
          (recorded o (carry_out lib o (judge_resume lib.decimals o c) w).0 done)
  ]
    where
      recorded :
          (o : Reopened) (x : Carried)
          → record_resumption lib c o x db ≡ ok (r, db')
          → IsNoted o.approval db db' r
      recorded o (successful n t d receipt) g =
          record_resumed-IsNoted c o n t d receipt db db' r g p
      recorded o (unsuccessful e d) g = elim (Bool-cases (is_caught e)) [
        | inl t ↦ record_failure-IsNoted c o e d db db' r (ground arith) p
        | inr t ↦ absurd (ground arith)
      ]

pub resume_of :
    {W : Type 0} (lib : Runtime W) (c : Resume) (db db' : Db) (w : W) (r : Option SandboxEvent)
    → (resume_sandbox_approval lib c db w).0 ≡ ok (r, db')
    → (a : SandboxApproval) × (read_approval lib c db ≡ ok a)
      × (((k : ℕ) × (earlier c a ≡ some k) × (r ≡ event_by_id k db) × (db' ≡ db))
          ⊎ ((earlier c a ≡ none) × ((resume_open lib c a db w).0 ≡ ok (r, db'))))
unfolding resume_sandbox_approval
resume_of lib c db db' w r h = elim (ok_or_err (read_approval lib c db)) [
  | inr (e, f) ↦ absurd (ground arith)
  | inl (a, f) ↦ elim (Option-cases (earlier c a)) [
    | inr (k, g) ↦
        let same : ok (event_by_id k db, db) ≡ ok (r, db') = ground arith in
        let made = ok_injective same in
        (
          a,
          f,
          inl (
            k,
            g,
            sym (ap (λ (t : Option SandboxEvent × Db). t.0) made),
            sym (ap (λ (t : Option SandboxEvent × Db). t.1) made),
          ),
        )
    | inl g ↦ elim (Bool-cases (is_incomplete a)) [
      | inl i ↦ absurd (ground arith)
      | inr i ↦ (a, f, inr (g, ground arith))
    ]
  ]
]

-- A row that has its event returns it.
resume_returns :
    {V : Type 0} (lib : Runtime V) (c : Resume) (a : SandboxApproval) (k : ℕ) (db : Db) (v : V)
    → lib.sandbox_mode ≡ true
    → approval_by_id c.approval_id db ≡ some a
    → contains executable a.status ≡ true
    → earlier c a ≡ some k
    → resume_sandbox_approval lib c db v ≡ (ok (event_by_id k db, db), v)
unfolding resume_sandbox_approval read_approval
resume_returns lib c a k db v m f s e = ground arith

noted_earlier :
    (c : Resume) (a x : SandboxApproval) (k : ℕ)
    → c.retry ≡ false
    → a.resume_event_id ≡ none
    → (x.resume_event_id ≡ some k)
      ⊎ ((x.resume_event_id ≡ a.resume_event_id) × (x.last_failure_event_id ≡ some k))
    → earlier c x ≡ some k
noted_earlier c a x k h n (inl e) = ground arith
noted_earlier c a x k h n (inr (e, f)) = ground arith

earlier_no_retry :
    (c c' : Resume) (a : SandboxApproval) (k : ℕ)
    → c'.retry ≡ false
    → earlier c a ≡ some k
    → earlier c' a ≡ some k
earlier_no_retry c c' a k h e = ground arith

unresumed : (c : Resume) (a : SandboxApproval) → earlier c a ≡ none → a.resume_event_id ≡ none
unresumed c a h = ground arith

-- Once a resumption has returned, a call for the same approval that does not retry returns the same
-- event, whatever its other arguments, its adapters and its provider are: it changes no table, and no
-- adapter is called.
pub resume_sandbox_approval-again :
    {W V : Type 0} (lib : Runtime W) (lib' : Runtime V) (c c' : Resume) (db db' : Db) (w : W)
    (v : V) (r : Option SandboxEvent)
    → (resume_sandbox_approval lib c db w).0 ≡ ok (r, db')
    → IsPlaced db
    → lib'.sandbox_mode ≡ true
    → c'.approval_id ≡ c.approval_id
    → c'.retry ≡ false
    → resume_sandbox_approval lib' c' db' v ≡ (ok (r, db'), v)
resume_sandbox_approval-again lib lib' c c' db db' w v r h p m same no_retry =
    let (a, f, rest) = resume_of lib c db db' w r h in
    let (row, resolved) = read_approval-ok lib c db a f in
    let here : approval_by_id c'.approval_id db ≡ some a =
      ap (λ k. approval_by_id k db) same ∙ row in
    elim rest [
      | inl (k, e, gives, tables) ↦
          let kept : approval_by_id c'.approval_id db' ≡ some a =
            ap (approval_by_id c'.approval_id) tables ∙ here in
          resume_returns lib' c' a k db' v m kept resolved (earlier_no_retry c c' a k no_retry e)
          ∙ ap (λ (t : Option SandboxEvent). (ok (t, db'), v))
              (ap (event_by_id k) tables ∙ sym gives)
      | inr (e, opened) ↦
          let done = resume_open-IsNoted lib c a db db' w r opened p in
          let (hit, _) =
            first-some (λ (b : SandboxApproval). eqb b.id c'.approval_id) db.approvals a here in
          resume_returns lib' c' done.row done.event.id db' v m
            (done.updated c'.approval_id here ((eqb_iff a.id c'.approval_id).0 hit))
            (subst (λ s. contains executable s ≡ true) (sym done.status) resolved)
            (noted_earlier c' a done.row done.event.id no_retry (unresumed c a e) done.noted)
          ∙ ap (λ (t : Option SandboxEvent). (ok (t, db'), v)) (done.there ∙ sym done.returned)
    ]
