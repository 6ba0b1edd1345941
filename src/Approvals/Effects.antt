-- ===== src/Approvals/Effects.antt =====
-- What `resume_sandbox_approval` of app/services/company_os_sandbox_approval_service.py does to the
-- world.
use polsia_build.Common.{
  Bool-cases, Option, Option-cases, String, ap, arith, contains, inl, inr, none, not, refl, some,
  subst, sym, true, ◌||◌, ◌∙◌, ◌≡◌, ◌⊎◌,
}
use polsia_build.Approvals.Authority.{IsAuthorizedResume, judge_resume-passed}
use polsia_build.Approvals.Binding.{executable, requested_version, workflow_id_of}
use polsia_build.Approvals.Outcome.{
  carry_out, earlier, is_incomplete, read_approval, reopen, reopen_rows, resume_key, resume_open,
  resume_sandbox_approval,
}
use polsia_build.Approvals.Resume.{
  Recheck, Reopened, Resume, barred, effective, judge_resume, passed,
}
use polsia_build.Coordinator.Action.{performed}
use polsia_build.Coordinator.Clearance.{fit_sandbox, performed-some}
use polsia_build.Coordinator.Inputs.{Runtime}
use polsia_build.Coordinator.Native.{CapabilityRequest, Native, Provided}
use polsia_build.Coordinator.Report.{fields_of}
use polsia_build.Integration.{IntegrationDecision, evaluate_registry, read_registry}
use polsia_build.Raises.{
  >>=-eq-ok, approval_error, ok, ok_injective, ok_or_err, or_raise, or_raise-some, raise_if-eq-ok,
}
use polsia_build.Sandbox.{Db, SandboxApproval, approval_by_id}
use polsia_build.Value.{Fields, as_dict, eq, int, str}
use polsia_build.Workflow.{WorkflowTransition, read_workflow}
use polsia_build.Workflow.Canonical.{granted}

module _ {W : Type 0} (lib : Runtime W) (c : Resume) where
  -- The adapter `execute` is called on `native`, for an approval that waits for it.
  pub record IsPermitted (db : Db) (o : Reopened) (n : Native) (q : CapabilityRequest)
      (d : IntegrationDecision) (execute : Fields → String → W → Provided × W) : Type 0 where
    pub row : approval_by_id c.approval_id db ≡ some o.approval
    pub resolved : contains executable o.approval.status ≡ true
    pub unresumed : o.approval.resume_event_id ≡ none
    pub not_by_hand : o.approval.manual_evidence_ref ≡ none
    pub reopened : reopen lib c o.approval db ≡ ok o
    pub authorized : IsAuthorizedResume lib.decimals o c n
    pub requested : n.integration ≡ some q
    pub registered : lib.synthetic_adapters q.name ≡ some execute
    pub granted :
        evaluate_registry o.registry q.name q.phase q.requested_use q.requested_scope ≡ ok d
    pub sandboxed : (d.allowed ≡ true) × (d.mode ≡ "sandbox")

  carry_out-world :
      (o : Reopened) (v : Recheck) (w : W)
      → ((carry_out lib o v w).1 ≡ w)
        ⊎ ((n : Native) × (t : Option WorkflowTransition) × (d : Option IntegrationDecision)
            × (q : CapabilityRequest) × (execute : Fields → String → W → Provided × W) × (v
                ≡ passed n t d)
            × (o.approval.manual_evidence_ref ≡ none)
            × (performed n.integration ≡ some q)
            × (lib.synthetic_adapters q.name ≡ some execute)
            × ((carry_out lib o v w).1
                ≡ (execute
                    (fields_of (as_dict (effective o.approval o.rows.request)))
                    (resume_key o.approval)
                    w).1))
  unfolding carry_out
  carry_out-world o (barred e d) w = inl refl
  carry_out-world o (passed n t d) w = elim (Option-cases o.approval.manual_evidence_ref) [
    | inr (s, a) ↦ inl (ground arith)
    | inl a ↦ elim (Option-cases (performed n.integration)) [
      | inl b ↦ inl (ground arith)
      | inr (q, b) ↦ elim (Option-cases (lib.synthetic_adapters q.name)) [
        | inl e ↦ inl (ground arith)
        | inr (execute, e) ↦ inr (n, t, d, q, execute, refl, a, b, e, ground arith)
      ]
    ]
  ]

  -- The rows that are reopened are those of the approval.
  pub reopen-approval :
      (a : SandboxApproval) (db : Db) (o : Reopened) → reopen lib c a db ≡ ok o → o.approval ≡ a
  unfolding reopen
  reopen-approval a db o h =
      let (b, _, h1) = >>=-eq-ok (reopen_rows a db) _ h in
      let (_, h2) =
        raise_if-eq-ok
          (b.instance_row.terminal || not (eq b.instance_row.current_state b.request.state_before))
          approval_error _ _ h1 in
      let (v, _, h3) = >>=-eq-ok (requested_version b.request (int 0)) _ h2 in
      let (_, h4) =
        raise_if-eq-ok (not (eq (int b.instance_row.version) v)) approval_error _ _ h3 in
      let (id, _, h5) = >>=-eq-ok (workflow_id_of c.workflow) _ h4 in
      let (_, h6) =
        raise_if-eq-ok (not (eq id (str b.instance_row.workflow_id))) approval_error _ _ h5 in
      let (w, _, h7) = >>=-eq-ok (read_workflow c.workflow) _ h6 in
      let (r, _, h8) = >>=-eq-ok (read_registry c.integration_registry) _ h7 in
      sym (ap (λ (x : Reopened). x.approval) (ok_injective h8))

  pub read_approval-ok :
      (db : Db) (a : SandboxApproval)
      → read_approval lib c db ≡ ok a
      → (approval_by_id c.approval_id db ≡ some a) × (contains executable a.status ≡ true)
  unfolding read_approval
  read_approval-ok db a h =
      let (_, h1) = raise_if-eq-ok (not lib.sandbox_mode) approval_error _ _ h in
      let (b, f, h2) =
        >>=-eq-ok (or_raise (approval_by_id c.approval_id db) approval_error _) _ h1 in
      let (p, h3) = raise_if-eq-ok (not (contains executable b.status)) approval_error _ _ h2 in
      let same = ok_injective h3 in
      (or_raise-some _ approval_error _ f ∙ ap some same, ground (arith, p, same))

  permitted :
      (db : Db) (o : Reopened) (n : Native) (t : Option WorkflowTransition)
      (d : Option IntegrationDecision) (q : CapabilityRequest)
      (execute : Fields → String → W → Provided × W)
      → approval_by_id c.approval_id db ≡ some o.approval
      → contains executable o.approval.status ≡ true
      → o.approval.resume_event_id ≡ none
      → o.approval.manual_evidence_ref ≡ none
      → reopen lib c o.approval db ≡ ok o
      → judge_resume lib.decimals o c ≡ passed n t d
      → performed n.integration ≡ some q
      → lib.synthetic_adapters q.name ≡ some execute
      → (k : IntegrationDecision) × IsPermitted db o n q k execute
  permitted db o n t d q execute row resolved unresumed hand reopened judged asked there =
      let (requested, phase) = performed-some n.integration q asked in
      let (authorized, k, granted, fit) =
        judge_resume-passed lib.decimals o c n t d q judged requested in
      (
        k,
        record {
          row = row;
          resolved = resolved;
          unresumed = unresumed;
          not_by_hand = hand;
          reopened = reopened;
          authorized = authorized;
          requested = requested;
          registered = there;
          granted = granted;
          sandboxed = fit_sandbox k q.phase fit phase;
        },
      )

  -- The world after the call is the one before it, or what one adapter made of it for a permitted
  -- decision, under the key of the approval.
  abbrev pub ActsPermitted : Db → W → Type 0
  ActsPermitted db w =
      ((resume_sandbox_approval lib c db w).1 ≡ w)
      ⊎ ((o : Reopened) × (n : Native) × (q : CapabilityRequest) × (d : IntegrationDecision)
          × (execute : Fields → String → W → Provided × W) × (p : IsPermitted db o n q d execute)
          × ((resume_sandbox_approval lib c db w).1
              ≡ (execute p.authorized.native (resume_key o.approval) w).1))

  resume_open-world :
      (a : SandboxApproval) (db : Db) (w : W)
      → approval_by_id c.approval_id db ≡ some a
      → contains executable a.status ≡ true
      → a.resume_event_id ≡ none
      → ((resume_open lib c a db w).1 ≡ w)
        ⊎ ((o : Reopened) × (n : Native) × (q : CapabilityRequest) × (d : IntegrationDecision)
            × (execute : Fields → String → W → Provided × W) × (p : IsPermitted db o n q d execute)
            × ((resume_open lib c a db w).1
                ≡ (execute p.authorized.native (resume_key o.approval) w).1))
  unfolding resume_open
  resume_open-world a db w row resolved unresumed = elim (ok_or_err (reopen lib c a db)) [
    | inr (e, h) ↦ inl (ground arith)
    | inl (o, h) ↦ elim (carry_out-world o (judge_resume lib.decimals o c) w) [
      | inl s ↦ inl (ground (arith, s))
      | inr (n, t, d, q, execute, judged, hand, asked, there, s) ↦
          let same = reopen-approval a db o h in
          let (k, p) =
            permitted db o n t d q execute (row ∙ ap some (sym same))
              (subst (λ (z : SandboxApproval). contains executable z.status ≡ true) (sym same)
                resolved)
              (ap (λ (z : SandboxApproval). z.resume_event_id) same ∙ unresumed) hand
              (subst (λ z. reopen lib c z db ≡ ok o) (sym same) h) judged asked there in
          inr (o, n, q, k, execute, p, ground (arith, s, p.authorized.is_native))
    ]
  ]

  -- Whatever the call returns, an adapter acts only once, under the key of the approval, on the very
  -- decision that the founder approved or corrected, for a row that is resolved so and not resumed, was
  -- not carried out by hand and whose workflow has not moved; the decision is well formed, the policy
  -- allows it with the founder's approval, and the registry allows its capability in sandbox mode. In
  -- every other case the world is left as it was.
  pub resume_sandbox_approval-effects : (db : Db) (w : W) → ActsPermitted db w
  unfolding resume_sandbox_approval
  resume_sandbox_approval-effects db w = elim (ok_or_err (read_approval lib c db)) [
    | inr (e, h) ↦ inl (ground arith)
    | inl (a, h) ↦
        let (row, resolved) = read_approval-ok db a h in
        elim (Option-cases (earlier c a)) [
          | inr (k, b) ↦ inl (ground arith)
          | inl b ↦ elim (Bool-cases (is_incomplete a)) [
            | inl i ↦ inl (ground arith)
            | inr i ↦ elim (resume_open-world a db w row resolved (ground arith)) [
              | inl s ↦ inl (ground (arith, s))
              | inr (o, n, q, d, execute, p, s) ↦ inr (o, n, q, d, execute, p, ground (arith, s))
            ]
          ]
        ]
  ]
