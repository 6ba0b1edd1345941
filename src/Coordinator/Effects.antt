-- ===== src/Coordinator/Effects.antt =====
-- What `coordinate_sandbox_action` does to the world, and when:
-- app/services/company_os_sandbox_coordinator.py.
use polsia_build.Common.{
  Option-cases, String, ap, arith, false, inl, inr, none, refl, some, true, ◌∙◌, ◌≡◌, ◌⊎◌,
}
use polsia_build.Coordinator.Action.{
  Hearing, Verdict, cleared, escalated, frozen_of, hear, heard, judge, needs_founder, perform,
  performed, verdict_of, withheld,
}
use polsia_build.Coordinator.Clearance.{IsCapable, fit_sandbox, performed-some, rule_native-none}
use polsia_build.Coordinator.Inputs.{Call, Inputs, Prepared, Runtime, prepare, read_inputs}
use polsia_build.Coordinator.Native.{
  CapabilityRequest, Evidence, Native, Provided, failed, read_native, read_provided, returned,
}
use polsia_build.Coordinator.Report.{
  coordinate_sandbox_action, fields_of, govern, read_call, settle,
}
use polsia_build.Coordinator.Ruling.{Frozen, Ruling, rule_native, trusted_intent}
use polsia_build.Integration.{IntegrationDecision}
use polsia_build.Policy.{PolicyDecision, allow, block, evaluate_action_policy}
use polsia_build.Raises.{>>=-eq-ok, ok, ok_injective, ok_or_err}
use polsia_build.Sandbox.{Db, WorkflowInstance}
use polsia_build.Value.{Fields, arr, bool, nonfinite, null, num, obj, opaque, str}

abbrev frozen : Inputs → Prepared → Call → Frozen
frozen x p c = frozen_of x p c.policy

module _ {W : Type 0} (lib : Runtime W) (c : Call) where
  -- The adapter `execute` is called for a decision that the provider gave as `native`, read as `n`.
  pub record IsGoverned (x : Inputs) (p : Prepared) (native : Fields) (n : Native)
      (q : CapabilityRequest) (execute : Fields → String → W → Provided × W) : Type 1 where
    pub decision : PolicyDecision
    pub capability : IntegrationDecision
    pub read : read_native native p.definition.states x.canonical ≡ ok n
    pub requested : n.integration ≡ some q
    pub registered : lib.synthetic_adapters q.name ≡ some execute
    pub evaluated :
        evaluate_action_policy lib.decimals (obj (trusted_intent n.policy_intent x.input)) c.policy
        ≡ ok decision
    pub allowed : decision.disposition ≡ allow
    pub capable : IsCapable (frozen x p c) n q capability
    pub sandboxed : (capability.allowed ≡ true) × (capability.mode ≡ "sandbox")

  cleared_ruling :
      (x : Inputs) (p : Prepared) (e : Evidence) (n : Native) (r : Ruling)
      → judge lib.decimals x p c.policy e ≡ ok (cleared n r)
      → (native : Fields) × (e.native ≡ some native)
        × (read_native native p.definition.states x.canonical ≡ ok n)
        × (rule_native lib.decimals (frozen x p c) n ≡ ok r)
        × (r.denial ≡ none)
  unfolding judge
  cleared_ruling x p e n r h = elim (Option-cases e.native) [
    | inl a ↦ absurd (ground arith)
    | inr (native, a) ↦ elim (ok_or_err (read_native native p.definition.states x.canonical)) [
      | inr (f, b) ↦ absurd (ground arith)
      | inl (m, b) ↦ elim (ok_or_err (rule_native lib.decimals (frozen x p c) m)) [
        | inr (f, d) ↦ absurd (ground arith)
        | inl (s, d) ↦
            let made : verdict_of m s ≡ cleared n r = ground arith in
            let (same, of, free) = verdict_of-cleared m n s r made in
            (native, a, b ∙ ap ok same, ground (arith, same, of), free)
      ]
    ]
  ]
    where
      verdict_of-cleared :
          (m n : Native) (s r : Ruling)
          → verdict_of m s ≡ cleared n r
          → (m ≡ n) × (s ≡ r) × (r.denial ≡ none)
      verdict_of-cleared m n s r h = ground arith

  heard_cleared :
      (x : Inputs) (i : WorkflowInstance) (db : Db) (v : Verdict) (n : Native) (r : Ruling)
      → hear x i db v ≡ heard (cleared n r)
      → (v ≡ cleared n r) × (needs_founder r.decision ≡ false)
  unfolding hear
  heard_cleared x i db (withheld d o) n r h = absurd (ground arith)
  heard_cleared x i db (cleared m s) n r h = ground arith

  -- The adapter runs for a cleared decision that asks for a performed phase.
  perform-world :
      (d : Fields) (key : String) (v : Verdict) (w : W)
      → ((perform lib d key v w).1 ≡ w)
        ⊎ ((n : Native) × (r : Ruling) × (q : CapabilityRequest) × (execute : Fields
              → String
              → W
              → Provided × W)
            × (v ≡ cleared n r)
            × (performed n.integration ≡ some q)
            × (lib.synthetic_adapters q.name ≡ some execute)
            × ((perform lib d key v w).1 ≡ (execute d key w).1))
  unfolding perform
  perform-world d key (withheld x o) w = inl refl
  perform-world d key (cleared n r) w = elim (Option-cases (performed n.integration)) [
    | inl a ↦ inl (ground arith)
    | inr (q, a) ↦ elim (Option-cases (lib.synthetic_adapters q.name)) [
      | inl b ↦ inl (ground arith)
      | inr (execute, b) ↦ inr (n, r, q, execute, refl, a, b, ground arith)
    ]
  ]

  allowed_decision :
      (d : PolicyDecision)
      → (d.disposition ≡ block → ⊥)
      → needs_founder (some d) ≡ false
      → d.disposition ≡ allow
  allowed_decision d h g = ground arith

  returned_native :
      (answer : Provided) (native : Fields)
      → (read_provided lib.repr answer).native ≡ some native
      → answer ≡ returned (obj native)
  unfolding read_provided
  returned_native (failed k m raw) native h = absurd (ground arith)
  returned_native (returned (obj d)) native h = ground arith
  returned_native (returned (str s)) native h = absurd (ground arith)
  returned_native (returned null) native h = absurd (ground arith)
  returned_native (returned (bool b)) native h = absurd (ground arith)
  returned_native (returned (arr vs)) native h = absurd (ground arith)
  returned_native (returned (num k)) native h = absurd (ground arith)
  returned_native (returned (nonfinite k)) native h = absurd (ground arith)
  returned_native (returned (opaque k)) native h = absurd (ground arith)

  governed :
      (x : Inputs) (p : Prepared) (native : Fields) (n : Native) (r : Ruling)
      (q : CapabilityRequest) (execute : Fields → String → W → Provided × W)
      → read_native native p.definition.states x.canonical ≡ ok n
      → rule_native lib.decimals (frozen x p c) n ≡ ok r
      → r.denial ≡ none
      → needs_founder r.decision ≡ false
      → performed n.integration ≡ some q
      → lib.synthetic_adapters q.name ≡ some execute
      → IsGoverned x p native n q execute
  governed x p native n r q execute made ruled undenied unasked asked there =
      let (requested, phase) = performed-some n.integration q asked in
      let (d, k, is_d, evaluated, unblocked, capable) =
        rule_native-none lib.decimals (frozen x p c) n q r ruled undenied requested in
      record {
        decision = d;
        capability = k;
        read = made;
        requested = requested;
        registered = there;
        evaluated = evaluated;
        allowed = allowed_decision d unblocked (rw is_d at unasked);
        capable = capable;
        sandboxed = fit_sandbox k q.phase capable.fit phase;
      }

  -- The world after the provider is the one that it left, or one that an adapter made of it for a
  -- governed decision.
  govern-world :
      (x : Inputs) (p : Prepared) (answer : Provided) (db : Db) (w : W)
      → ((govern lib c x p (read_provided lib.repr answer) db w).1 ≡ w)
        ⊎ ((native : Fields) × (n : Native) × (q : CapabilityRequest) × (execute : Fields
              → String
              → W
              → Provided × W)
            × (answer ≡ returned (obj native))
            × IsGoverned x p native n q execute
            × ((govern lib c x p (read_provided lib.repr answer) db w).1
                ≡ (execute native c.idempotency_key w).1))
  unfolding govern settle
  govern-world x p answer db w =
      let e = read_provided lib.repr answer in
      elim (ok_or_err (judge lib.decimals x p c.policy e)) [
        | inr (f, a) ↦ inl (ground arith)
        | inl (v, a) ↦ elim (Hearing-cases (hear x p.instance_row db v)) [
          | inl (n, r, k, b) ↦ inl (ground arith)
          | inr (v', b) ↦ elim (perform-world (fields_of e.native) c.idempotency_key v' w) [
            | inl s ↦ inl (ground (arith, s))
            | inr (n, r, q, execute, is_cleared, asked, there, s) ↦
                let (free, unasked) =
                  heard_cleared x p.instance_row db v n r (b ∙ ap heard is_cleared) in
                let (native, given, made, ruled, undenied) =
                  cleared_ruling x p e n r (a ∙ ap ok free) in
                inr (
                  native,
                  n,
                  q,
                  execute,
                  returned_native answer native given,
                  governed x p native n r q execute made ruled undenied unasked asked there,
                  ground (arith, s, given),
                )
          ]
        ]
      ]
    where
      Hearing-cases :
          (h : Hearing)
          → ((n : Native) × (r : Ruling) × (k : String) × (h ≡ escalated n r k))
            ⊎ ((v : Verdict) × (h ≡ heard v))
      Hearing-cases (escalated n r k) = inl (n, r, k, refl)
      Hearing-cases (heard v) = inr (v, refl)

  pub read_call-ok :
      (db : Db) (x : Inputs) (p : Prepared)
      → read_call lib c db ≡ ok (x, p)
      → (read_inputs lib.sandbox_mode c ≡ ok x) × (prepare c db ≡ ok p)
  unfolding read_call
  read_call-ok db x p h =
      let (y, hy, h') = >>=-eq-ok (read_inputs lib.sandbox_mode c) _ h in
      let (q, hq, h'') = >>=-eq-ok (prepare c db) _ h' in
      let both = ok_injective h'' in (hy ∙ ap (λ z. ok z.0) both, hq ∙ ap (λ z. ok z.1) both)

  -- The world after the call is the one before it; or the provider's, for inputs and rows that were
  -- checked; or what one adapter made of the provider's world for a governed decision.
  abbrev pub ActsGoverned : Db → W → Type 1
  ActsGoverned db w =
      ((coordinate_sandbox_action lib c db w).1 ≡ w)
      ⊎ ((x : Inputs) × (p : Prepared) × (read_inputs lib.sandbox_mode c ≡ ok x)
          × (prepare c db ≡ ok p)
          × (((coordinate_sandbox_action lib c db w).1 ≡ (lib.decide x.input w).1)
              ⊎ ((native : Fields) × (n : Native) × (q : CapabilityRequest) × (execute : Fields
                    → String
                    → W
                    → Provided × W)
                  × ((lib.decide x.input w).0 ≡ returned (obj native))
                  × IsGoverned x p native n q execute
                  × ((coordinate_sandbox_action lib c db w).1
                      ≡ (execute native c.idempotency_key (lib.decide x.input w).1).1))))

  -- Whatever the call returns, the provider is asked only after the inputs are valid, the instance is
  -- there and the delivery is fresh, and an adapter acts only once, under the delivery's idempotency
  -- key, on the very decision that the provider gave, when that decision is well formed, the policy
  -- allows its intent without the model's own approval, and the registry allows the capability in
  -- sandbox mode. In every other case the world is left as it was, or as the provider left it.
  pub coordinate_sandbox_action-effects : (db : Db) (w : W) → ActsGoverned db w
  unfolding coordinate_sandbox_action
  coordinate_sandbox_action-effects db w = elim (ok_or_err (read_call lib c db)) [
    | inr (f, a) ↦ inl (ground arith)
    | inl ((x, p), a) ↦
        let (hx, hp) = read_call-ok db x p a in
        let after : (coordinate_sandbox_action lib c db w).1
            ≡ (govern lib c x p (read_provided lib.repr (lib.decide x.input w).0) db
                (lib.decide x.input w).1).1 =
          ground arith in
        elim (govern-world x p (lib.decide x.input w).0 db (lib.decide x.input w).1) [
          | inl s ↦ inr (x, p, hx, hp, inl (after ∙ s))
          | inr (native, n, q, execute, given, g, s) ↦
              inr (x, p, hx, hp, inr (native, n, q, execute, given, g, after ∙ s))
        ]
  ]
