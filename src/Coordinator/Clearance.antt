-- ===== src/Coordinator/Clearance.antt =====
-- What holds of a decision that the checks of `coordinate_sandbox_action` let through:
-- app/services/company_os_sandbox_coordinator.py.
use polsia_build.Common.{
  Option, Option-cases, String, ap, arith, eq_iff, false, inl, inr, none, refl, some, sym, true,
  ◌==◌, ◌||◌, ◌∙◌, ◌≡◌,
}
use polsia_build.Coordinator.Action.{performed}
use polsia_build.Coordinator.Native.{CapabilityRequest, Native}
use polsia_build.Coordinator.Ruling.{
  Frozen, Ruling, rule_binding, rule_capability, rule_from, rule_later, rule_native, rule_policy,
  rule_request, rule_transition, rule_write, trusted_intent, unfit, unless_denied,
}
use polsia_build.Integration.{IntegrationDecision, evaluate_registry}
use polsia_build.Policy.{Decimals, PolicyDecision, block, evaluate_action_policy}
use polsia_build.Raises.{>>=-eq-ok, ok, ok_injective, ok_or_err, ◌>>=◌}
use polsia_build.Value.{get, obj, truthy}
use polsia_build.Workflow.{WorkflowTransition}

unless_denied-none :
    (f : Ruling → Ruling) (r : Ruling)
    → (unless_denied f r).denial ≡ none
    → (r.denial ≡ none) × (unless_denied f r ≡ f r)
unless_denied-none f r h = ground arith

rule_write-none : (n : Native) (r : Ruling) → (rule_write n r).denial ≡ none → rule_write n r ≡ r
unfolding rule_write
rule_write-none n r h = ground arith

rule_binding-none :
    (n : Native) (t : Option WorkflowTransition) (r : Ruling)
    → (rule_binding n t r).denial ≡ none
    → rule_binding n t r ≡ r
unfolding rule_binding
rule_binding-none n none r h = refl
rule_binding-none n (some t) r h = ground arith

-- A capability that is requested is one that the registry allows, fit for the sandbox; it is executed
-- for an intent to write only.
pub record IsCapable (f : Frozen) (n : Native) (q : CapabilityRequest) (d : IntegrationDecision)
    : Type 0 where
  pub granted : evaluate_registry f.registry q.name q.phase q.requested_use q.requested_scope ≡ ok d
  pub fit : unfit d q.phase ≡ false
  pub intended :
      (q.phase == "execute") ≡ true → truthy (get n.policy_intent "external_write") ≡ true

rule_capability-none :
    (n : Native) (q : CapabilityRequest) (d : IntegrationDecision) (r : Ruling)
    → (rule_capability n q d r).denial ≡ none
    → (unfit d q.phase ≡ false)
      × ((q.phase == "execute") ≡ true → truthy (get n.policy_intent "external_write") ≡ true)
      × (rule_capability n q d r ≡ record r { integration = some d })
unfolding rule_capability
rule_capability-none n q d r h = ground arith

rule_request-none :
    (f : Frozen) (n : Native) (q : CapabilityRequest) (r : Ruling)
    → (rule_request f n (some q) r).denial ≡ none
    → (d : IntegrationDecision) × IsCapable f n q d
      × (rule_request f n (some q) r ≡ record r { integration = some d })
unfolding rule_request
rule_request-none f n q r h =
    elim (ok_or_err
      (evaluate_registry f.registry q.name q.phase q.requested_use q.requested_scope)) [
        | inl (d, e) ↦
            let same : rule_request f n (some q) r ≡ rule_capability n q d r = ground arith in
            let (fit, intended, kept) = rule_capability-none n q d r (rw same at h) in
            (d, record { granted = e; fit = fit; intended = intended }, same ∙ kept)
        | inr (x, e) ↦ absurd (ground arith)
      ]

rule_policy-none :
    (lib : Decimals) (f : Frozen) (n : Native) (r p : Ruling)
    → rule_policy lib f n r ≡ ok p
    → p.denial ≡ none
    → (d : PolicyDecision) × (p.decision ≡ some d)
      × (evaluate_action_policy lib (obj (trusted_intent n.policy_intent f.input)) f.policy ≡ ok d)
      × (d.disposition ≡ block → ⊥)
unfolding rule_policy
rule_policy-none lib f n r p h e =
    elim (ok_or_err
      (evaluate_action_policy lib (obj (trusted_intent n.policy_intent f.input)) f.policy)) [
        | inl (d, g) ↦ (d, ground arith, g, λ b. ground arith)
        | inr (x, g) ↦ absurd (ground arith)
      ]

-- The checks after the policy, passed one by one.
later_checks :
    (f : Frozen) (n : Native) (q : CapabilityRequest) (p r : Ruling)
    → n.integration ≡ some q
    → r
      ≡ unless_denied (rule_write n) (
          unless_denied
            (λ s. rule_binding n s.transition s)
            (unless_denied (rule_request f n n.integration) p))
    → r.denial ≡ none
    → (p.denial ≡ none)
      × (d : IntegrationDecision) × IsCapable f n q d
      × (r ≡ record p { integration = some d })
unfolding rule_later
later_checks f n q p r request e h =
    let s = unless_denied (rule_request f n n.integration) p in
    let t = unless_denied (λ (x : Ruling). rule_binding n x.transition x) s in
    let (ht, et) = unless_denied-none (rule_write n) t (rw e at h) in
    let wt = rule_write-none n t (rw et at (rw e at h)) in
    let (hs, es) = unless_denied-none (λ (x : Ruling). rule_binding n x.transition x) s ht in
    let bs = rule_binding-none n s.transition s (rw es at ht) in
    let (hp, ep) = unless_denied-none (rule_request f n n.integration) p hs in
    let asked : s ≡ rule_request f n (some q) p = ep ∙ ap (λ o. rule_request f n o p) request in
    let (d, capable, made) = rule_request-none f n q p (rw asked at hs) in
    (hp, d, capable, e ∙ (et ∙ (wt ∙ (es ∙ (bs ∙ (asked ∙ made))))))

rule_from-none :
    (lib : Decimals) (f : Frozen) (n : Native) (t r : Ruling)
    → rule_from lib f n t ≡ ok r
    → r.denial ≡ none
    → (p : Ruling) × (rule_policy lib f n t ≡ ok p) × (r ≡ rule_later f n p)
unfolding rule_from
rule_from-none lib f n t r h none_denied = elim (Option-cases t.denial) [
  | inr (d, e) ↦ absurd (ground arith)
  | inl e ↦
      let undenied : (rule_policy lib f n t >>= λ p. ok (rule_later f n p)) ≡ ok r = ground arith in
      let (p, hp, h') = >>=-eq-ok (rule_policy lib f n t) _ undenied in
      (p, hp, sym (ok_injective h'))
]

-- A decision with a capability request that every check lets through.
pub rule_native-none :
    (lib : Decimals) (f : Frozen) (n : Native) (q : CapabilityRequest) (r : Ruling)
    → rule_native lib f n ≡ ok r
    → r.denial ≡ none
    → n.integration ≡ some q
    → (d : PolicyDecision) × (c : IntegrationDecision) × (r.decision ≡ some d)
      × (evaluate_action_policy lib (obj (trusted_intent n.policy_intent f.input)) f.policy ≡ ok d)
      × (d.disposition ≡ block → ⊥)
      × IsCapable f n q c
unfolding rule_native
rule_native-none lib f n q r h none_denied request =
    let (p, hp, later) = rule_from-none lib f n (rule_transition f n) r h none_denied in
    let (dp, c, capable, made) = later_checks f n q p r request later none_denied in
    let (d, dd, evaluated, unblocked) = rule_policy-none lib f n (rule_transition f n) p hp dp in
    (d, c, ap (λ (x : Ruling). x.decision) made ∙ dd, evaluated, unblocked, capable)

pub performed-some :
    (o : Option CapabilityRequest) (q : CapabilityRequest)
    → performed o ≡ some q
    → (o ≡ some q) × ((q.phase == "read" || q.phase == "execute") ≡ true)
performed-some none q h = absurd (ground arith)
performed-some (some k) q h = ground arith

pub fit_sandbox :
    (d : IntegrationDecision) (phase : String)
    → unfit d phase ≡ false
    → (phase == "read" || phase == "execute") ≡ true
    → (d.allowed ≡ true) × (d.mode ≡ "sandbox")
fit_sandbox d phase h p = ground (arith, eq_iff d.mode "sandbox")
