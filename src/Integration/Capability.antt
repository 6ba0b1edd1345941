-- ===== src/Integration/Capability.antt =====
-- What an allowed capability rests on.
use mathlib.Core.Path.{subst}
use polsia_build.Common.{
  List, Option, Option-cases, String, arith, contains, eq_iff, false, inl, inr, none, not, refl,
  some, sym, true, ◌&&◌, ◌↔◌, ◌≡◌, ◌⊎◌,
}
use polsia_build.Integration.{
  Config, IntegrationDecision, Registry, config_of, decide_config, evaluate_registry, phases,
  read_capable_modes, wrong_scope,
}
use polsia_build.Policy.{write_capable_modes}
use polsia_build.Raises.{ok}
use polsia_build.Value.{Value, bool, in_list, is_null, null, str}
use polsia_build.Value.Laws.{eq-str, eq-str_self}

-- The configuration that permits a phase of use: registered for the use and in its scope and, but
-- for offline preparation, verified and in a mode that has the capability.
pub record Permits (c : Config) (phase : String) (requested scope : Value) : Type 0 where
  pub registered_use : (requested ≡ null) ⊎ (in_list requested c.desired_use ≡ true)
  pub in_scope : (c.scope ≡ none) ⊎ ((s : String) × (c.scope ≡ some s) × (scope ≡ str s))
  pub reading : phase ≡ "read" → (c.verified ≡ true) × (contains read_capable_modes c.mode ≡ true)
  pub writing :
      phase ≡ "execute"
      → (c.verified ≡ true)
        × (c.external_writes ≡ true)
        × (contains write_capable_modes c.mode ≡ true)

scope_cases :
    (o : Option String) (v : Value)
    → wrong_scope o v ≡ false
    → (o ≡ none) ⊎ ((s : String) × (o ≡ some s) × (v ≡ str s))
scope_cases none v h = inl refl
scope_cases (some s) v h = inr (s, refl, eq-str v s (ground arith))

null_or :
    (v : Value) (ss : List String)
    → (not (is_null v) && not (in_list v ss)) ≡ false
    → (v ≡ null) ⊎ (in_list v ss ≡ true)
null_or null ss h = inl refl
null_or (bool b) ss h = cc
null_or v ss h = inr (ground arith)

phase_cases :
    (phase : String)
    → contains phases phase ≡ true
    → (phase ≡ "draft") ⊎ ((phase ≡ "propose") ⊎ ((phase ≡ "read") ⊎ (phase ≡ "execute")))
phase_cases phase h = ground (
  arith,
  eq_iff phase "draft",
  eq_iff phase "propose",
  eq_iff phase "read",
  eq_iff phase "execute",
)

module _ (c : Config) (name : String) (requested scope : Value) where
  -- The capability is allowed, for a phase.
  abbrev Allows : String → Type 0
  Allows phase = (decide_config c name phase requested scope).allowed ≡ true

  read-allowed : Allows "read" → (c.verified ≡ true) × (contains read_capable_modes c.mode ≡ true)
  unfolding decide_config
  read-allowed h = ground arith

  execute-allowed :
      Allows "execute"
      → (c.verified ≡ true)
        × (c.external_writes ≡ true)
        × (contains write_capable_modes c.mode ≡ true)
  unfolding decide_config
  execute-allowed h = ground arith

  decide_config-Permits : (phase : String) → Allows phase → Permits c phase requested scope
  unfolding decide_config
  decide_config-Permits phase h = record {
    registered_use = null_or requested c.desired_use (ground arith);
    in_scope = scope_cases c.scope scope (ground arith);
    reading = λ e. read-allowed (subst Allows e h);
    writing = λ e. execute-allowed (subst Allows e h);
  }

  use_passes :
      (requested ≡ null) ⊎ (in_list requested c.desired_use ≡ true)
      → (not (is_null requested) && not (in_list requested c.desired_use)) ≡ false
  use_passes (inl e) = rw e
  use_passes (inr e) = ground arith

  scope_passes :
      (c.scope ≡ none) ⊎ ((s : String) × (c.scope ≡ some s) × (scope ≡ str s))
      → wrong_scope c.scope scope ≡ false
  scope_passes (inl e) = rw e
  scope_passes (inr (s, e, f)) = rw (e, f, eq-str_self)

  Permits-draft : Permits c "draft" requested scope → Allows "draft"
  unfolding decide_config
  Permits-draft p = rw (use_passes p.registered_use, scope_passes p.in_scope)

  Permits-propose : Permits c "propose" requested scope → Allows "propose"
  unfolding decide_config
  Permits-propose p = rw (use_passes p.registered_use, scope_passes p.in_scope)

  Permits-read : Permits c "read" requested scope → Allows "read"
  unfolding decide_config
  Permits-read p =
      ground (arith, use_passes p.registered_use, scope_passes p.in_scope, p.reading refl)

  Permits-execute : Permits c "execute" requested scope → Allows "execute"
  unfolding decide_config
  Permits-execute p =
      ground (arith, use_passes p.registered_use, scope_passes p.in_scope, p.writing refl)

  Permits-decide_config :
      (phase : String)
      → contains phases phase ≡ true
      → Permits c phase requested scope
      → Allows phase
  Permits-decide_config phase known p = elim (phase_cases phase known) [
    | inl e ↦ subst Good (sym e) Permits-draft p
    | inr (inl e) ↦ subst Good (sym e) Permits-propose p
    | inr (inr (inl e)) ↦ subst Good (sym e) Permits-read p
    | inr (inr (inr e)) ↦ subst Good (sym e) Permits-execute p
  ]
    where
      Good : String → Type 0
      Good q = Permits c q requested scope → Allows q

-- A capability is allowed exactly when the registry configures the integration so that it permits
-- the phase, the use and the scope.
pub evaluate_registry_iff :
    (r : Registry) (name phase : String) (requested scope : Value)
    → contains phases phase ≡ true
    → ((d : IntegrationDecision) × (evaluate_registry r name phase requested scope ≡ ok d)
        × (d.allowed ≡ true))
      ↔ ((c : Config) × (config_of name r ≡ some c) × Permits c phase requested scope)
unfolding evaluate_registry
evaluate_registry_iff r name phase requested scope known = (
  λ (d, e, a). elim (Option-cases (config_of name r)) [
    | inl f ↦ absurd (ground arith)
    | inr (c, f) ↦ (c, f, decide_config-Permits c name requested scope phase (ground arith))
  ],
  λ (c, f, p). (
    decide_config c name phase requested scope,
    ground arith,
    Permits-decide_config c name requested scope phase known p,
  ),
)
