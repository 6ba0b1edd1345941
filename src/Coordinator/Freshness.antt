-- ===== src/Coordinator/Freshness.antt =====
-- Deliveries that `coordinate_sandbox_action` of app/services/company_os_sandbox_coordinator.py turns
-- away before it calls the provider.
use polsia_build.Common.{ap, arith, false, inl, inr, not, some, subst, true, ◌∙◌, ◌≡◌}
use polsia_build.Coordinator.Effects.{read_call-ok}
use polsia_build.Coordinator.Inputs.{Call, Prepared, Runtime, is_spent, prepare}
use polsia_build.Coordinator.Report.{coordinate_sandbox_action, read_call}
use polsia_build.Integration.{read_registry}
use polsia_build.Raises.{
  >>=-eq-ok, Exception, attribute_error, coordinator_error, err, ok, ok_injective, ok_or_err,
  or_raise, or_raise-some, raise_if-eq-ok,
}
use polsia_build.Sandbox.{Db, WorkflowInstance, instance_by_id}
use polsia_build.Value.{as_dict, eq, get, in_list, str}
use polsia_build.Workflow.{read_workflow}

-- What `prepare` finds is there and fresh.
prepare-fresh :
    (c : Call) (db : Db) (p : Prepared)
    → prepare c db ≡ ok p
    → (instance_by_id c.workflow_instance_id db ≡ some p.instance_row)
      × (is_spent c p.instance_row db ≡ false)
unfolding prepare
prepare-fresh c db p h =
    let (i, hi, h1) =
      >>=-eq-ok (or_raise (instance_by_id c.workflow_instance_id db) coordinator_error _) _ h in
    let (d, _, h2) = >>=-eq-ok (or_raise (as_dict c.workflow) attribute_error _) _ h1 in
    let (_, h3) =
      raise_if-eq-ok (not (eq (get d "id") (str i.workflow_id))) coordinator_error _ _ h2 in
    let (w, _, h4) = >>=-eq-ok (read_workflow c.workflow) _ h3 in
    let (r, _, h5) = >>=-eq-ok (read_registry c.integration_registry) _ h4 in
    let (_, h6) =
      raise_if-eq-ok (not (in_list i.current_state w.states)) coordinator_error _ _ h5 in
    let (fresh, h7) = raise_if-eq-ok (is_spent c i db) coordinator_error _ _ h6 in
    let same = ap (λ (q : Prepared). q.instance_row) (ok_injective h7) in
    (
      or_raise-some _ coordinator_error _ hi ∙ ap some same,
      subst (λ j. is_spent c j db ≡ false) same fresh,
    )

-- A delivery to an instance that is there, with a key that the run has recorded, an old version or a
-- workflow that has ended, raises: neither the provider nor an adapter is called.
pub coordinate_sandbox_action-spent :
    {W : Type 0} (lib : Runtime W) (c : Call) (i : WorkflowInstance) (db : Db) (w : W)
    → instance_by_id c.workflow_instance_id db ≡ some i
    → is_spent c i db ≡ true
    → (x : Exception) × (coordinate_sandbox_action lib c db w ≡ (err x, w))
unfolding coordinate_sandbox_action
coordinate_sandbox_action-spent lib c i db w there spent = elim (ok_or_err (read_call lib c db)) [
  | inr (x, a) ↦ (x, ground arith)
  | inl ((x, p), a) ↦
      let (_, prepared) = read_call-ok lib c db x p a in
      let (found, fresh) = prepare-fresh c db p prepared in
      let same : p.instance_row ≡ i = cc in
      absurd (ground (arith, spent, subst (λ j. is_spent c j db ≡ false) same fresh))
]
