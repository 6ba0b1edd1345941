-- ===== src/Approvals/Recorded.antt =====
-- What the operations of app/services/company_os_sandbox_approval_service.py record.
use polsia_build.Common.{Option, [], inl, inr, refl, some, subst, sym, ◌++◌, ◌∙◌, ◌∷◌, ◌≡◌, ◌⊎◌}
use polsia_build.Approvals.Binding.{bound_rows}
use polsia_build.Approvals.Once.{resume_of, resume_open-IsNoted}
use polsia_build.Approvals.Outcome.{resume_sandbox_approval}
use polsia_build.Approvals.Resolve.{
  Checked, Resolution, check_unchanged, resolve_pending, resolve_sandbox_approval, resolved_row,
  suits_resolution,
}
use polsia_build.Approvals.Resume.{Resume}
use polsia_build.Approvals.Settled.{resolve_of}
use polsia_build.Coordinator.Inputs.{Runtime}
use polsia_build.Raises.{>>=-eq-ok, item, ok, ok_injective}
use polsia_build.Sandbox.{Db, SandboxApproval, SandboxEvent, update_approval}
use polsia_build.Sandbox.Reachable.{IsSound, append_sandbox_event-IsSound}
use polsia_build.Sandbox.Rows.{
  IsPlaced, append_sandbox_event-events, update_approval-IsSound, update_approval-events,
}

-- At most one event more, and sound tables.
pub record IsRecordedOnce (db db' : Db) (r : Option SandboxEvent) : Type 0 where
  pub log : (db' ≡ db) ⊎ ((e : SandboxEvent) × (r ≡ some e) × (db'.events ≡ db.events ++ e ∷ []))
  pub sound : IsSound db'

module _ {W : Type 0} (lib : Runtime W) where
  resolve_pending-IsRecordedOnce :
      (c : Resolution) (x : Checked) (a : SandboxApproval) (db db' : Db) (r : Option SandboxEvent)
      → resolve_pending lib c x a db ≡ ok (r, db')
      → IsSound db
      → IsRecordedOnce db db' r
  unfolding resolve_pending
  resolve_pending-IsRecordedOnce c x a db db' r h s =
      let (b, _, h1) = >>=-eq-ok (bound_rows a (suits_resolution a) _ db) _ h in
      let (_, _, h2) = >>=-eq-ok (check_unchanged c b) _ h1 in
      let (refs, _, h3) = >>=-eq-ok (item b.request.payload "evidence_refs") _ h2 in
      let (agent, _, h4) = >>=-eq-ok (item b.request.payload "agent_type") _ h3 in
      let ((e, after), stored, h5) = >>=-eq-ok _ _ h4 in
      let (done, updated, h6) = >>=-eq-ok (update_approval (resolved_row c x a e) after) _ h5 in
      let made = ok_injective h6 in
      let (events, _, _) = append_sandbox_event-events lib.invalid _ db after e stored in
      subst (λ (t : Option SandboxEvent × Db). IsRecordedOnce db t.1 t.0) made
        (record {
          log =
              inr (
                e,
                refl,
                update_approval-events (resolved_row c x a e) after done updated ∙ events,
              );
          sound =
              update_approval-IsSound (resolved_row c x a e) after done updated
                (append_sandbox_event-IsSound lib.invalid _ db after e stored s);
        })

  -- A resolution that returns has changed no table, or has appended the one event that it returns;
  -- tables that were sound stay sound, so that no instance has moved without an event.
  pub resolve_sandbox_approval-IsRecordedOnce :
      (c : Resolution) (db db' : Db) (r : Option SandboxEvent)
      → resolve_sandbox_approval lib c db ≡ ok (r, db')
      → IsSound db
      → IsRecordedOnce db db' r
  resolve_sandbox_approval-IsRecordedOnce c db db' r h s =
      let (x, a, _, _, rest) = resolve_of lib c db db' r h in
      elim rest [
        | inl (_, now) ↦ resolve_pending-IsRecordedOnce c x a db db' r now s
        | inr (_, _, kept) ↦ record { log = inl kept; sound = subst IsSound (sym kept) s }
      ]

  -- A resumption that returns has changed no table, or has appended the one event that it returns,
  -- whether the adapter succeeded or failed; tables that were sound, with every event's id within the
  -- table, stay sound.
  pub resume_sandbox_approval-IsRecordedOnce :
      (c : Resume) (db db' : Db) (w : W) (r : Option SandboxEvent)
      → (resume_sandbox_approval lib c db w).0 ≡ ok (r, db')
      → IsPlaced db
      → IsSound db
      → IsRecordedOnce db db' r
  resume_sandbox_approval-IsRecordedOnce c db db' w r h p s =
      let (a, _, rest) = resume_of lib c db db' w r h in
      elim rest [
        | inl (_, _, _, kept) ↦ record { log = inl kept; sound = subst IsSound (sym kept) s }
        | inr (_, opened) ↦
            let done = resume_open-IsNoted lib c a db db' w r opened p in
            record { log = inr (done.event, done.returned, done.events); sound = done.sound s }
      ]
