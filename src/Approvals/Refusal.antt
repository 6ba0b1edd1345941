-- ===== src/Approvals/Refusal.antt =====
-- What the founder refuses is not carried out: the two operations of
-- app/services/company_os_sandbox_approval_service.py in sequence.
use polsia_build.Common.{Option, ap, arith, contains, false, inl, inr, some, ◌∙◌, ◌≡◌}
use polsia_build.Approvals.Binding.{executable}
use polsia_build.Approvals.Outcome.{read_approval, resume_sandbox_approval}
use polsia_build.Approvals.Resolve.{Resolution, resolve_sandbox_approval}
use polsia_build.Approvals.Resume.{Resume}
use polsia_build.Approvals.Settled.{resolve_sandbox_approval-IsSettled}
use polsia_build.Coordinator.Inputs.{Runtime}
use polsia_build.Raises.{Exception, err, ok, ok_or_err}
use polsia_build.Sandbox.{Db, SandboxApproval, SandboxEvent, approval_by_id}
use polsia_build.Sandbox.Rows.{IsPlaced}

refused_row :
    {W : Type 0} (lib : Runtime W) (c : Resume) (a : SandboxApproval) (db : Db) (w : W)
    → approval_by_id c.approval_id db ≡ some a
    → contains executable a.status ≡ false
    → (e : Exception) × (resume_sandbox_approval lib c db w ≡ (err e, w))
unfolding resume_sandbox_approval read_approval
refused_row lib c a db w here closed = elim (ok_or_err (read_approval lib c db)) [
  | inr (e, f) ↦ (e, ground arith)
  | inl (x, f) ↦ absurd (ground arith)
]

-- After a resolution that returned with a status that permits no execution, every resumption of the
-- same approval raises, changes no table and calls no adapter.
pub resume_sandbox_approval-refused :
    {W V : Type 0} (lib : Runtime W) (lib' : Runtime V) (c : Resolution) (c' : Resume) (db db' : Db)
    (v : V) (r : Option SandboxEvent)
    → resolve_sandbox_approval lib c db ≡ ok (r, db')
    → IsPlaced db
    → contains executable c.status ≡ false
    → c'.approval_id ≡ c.approval_id
    → (e : Exception) × (resume_sandbox_approval lib' c' db' v ≡ (err e, v))
resume_sandbox_approval-refused lib lib' c c' db db' v r h p closed same =
    let (_, _, done) = resolve_sandbox_approval-IsSettled lib c db db' r h p in
    refused_row lib' c' done.row db' v (ap (λ k. approval_by_id k db') same ∙ done.here)
      (ap (contains executable) done.status ∙ closed)
