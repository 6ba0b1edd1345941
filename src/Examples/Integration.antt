-- ===== src/Examples/Integration.antt =====
-- The registry of one integration.
use polsia_build.Common.{[], refl, some, true, ◌↔◌, ◌∷◌, ◌≡◌}
use polsia_build.Examples.Data.{lead_registry}
use polsia_build.Integration.{
  Config, IntegrationDecision, config_of, evaluate_registry, read_registry,
}
use polsia_build.Integration.Capability.{Permits, evaluate_registry_iff}
use polsia_build.Policy.{as_bool}
use polsia_build.Raises.{ok}
use polsia_build.Value.{eq, str}

abbrev email : Config
email = record {
  mode = "sandbox";
  verified = true;
  external_writes = true;
  desired_use = "outreach" ∷ [];
  scope = some "leads";
}

lead_registry-read : read_registry lead_registry ≡ ok (("email", email) ∷ [])
unfolding read_registry eq as_bool
lead_registry-read = refl

evaluate_registry_iff_example :
    ((d : IntegrationDecision) × (evaluate_registry
          (("email", email) ∷ [])
          "email"
          "execute"
          (str "outreach")
          (str "leads")
        ≡ ok d)
      × (d.allowed ≡ true))
    ↔ ((c : Config) × (config_of "email" (("email", email) ∷ []) ≡ some c)
        × Permits c "execute" (str "outreach") (str "leads"))
evaluate_registry_iff_example =
    evaluate_registry_iff (("email", email) ∷ []) "email" "execute" (str "outreach") (str "leads")
      refl
