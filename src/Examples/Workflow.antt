-- ===== src/Examples/Workflow.antt =====
-- The workflow definitions on the workflow of a lead.
use polsia_build.Common.{In, dedup, distinct, inl, inr, minus, refl, true, ◌≡◌}
use polsia_build.Examples.Data.{close_lead, contact_lead, lead_definition, lead_workflow}
use polsia_build.Raises.{ok}
use polsia_build.Value.{eq, str}
use polsia_build.Workflow.{
  Definition, Transition, find_transition, matches, read_workflow, require_valid_transition,
}
use polsia_build.Workflow.Canonical.{
  IsCanonical, find_transition-granted, granted, require_valid_transition-IsCanonical,
}
use polsia_build.Workflow.WellFormed.{IsWellFormed, read_workflow-IsWellFormed}

lead_workflow-read : read_workflow lead_workflow ≡ ok lead_definition
unfolding read_workflow distinct minus dedup
lead_workflow-read = refl

lead_definition-IsWellFormed : IsWellFormed lead_definition
lead_definition-IsWellFormed = read_workflow-IsWellFormed lead_workflow lead_workflow-read

read_workflow-IsWellFormed_example : IsWellFormed lead_definition
read_workflow-IsWellFormed_example = read_workflow-IsWellFormed lead_workflow lead_workflow-read

contact_granted :
    require_valid_transition lead_workflow
      (str "new")
      (str "contact_lead")
      (str "contacted")
      (str "GREEN")
    ≡ ok (granted lead_definition contact_lead)
unfolding require_valid_transition read_workflow distinct minus dedup find_transition matches eq
contact_granted = refl

require_valid_transition-IsCanonical_example :
    (w : Definition) × (t : Transition) × (read_workflow lead_workflow ≡ ok w)
    × IsWellFormed w
    × In t w.transitions
    × (granted lead_definition contact_lead ≡ granted w t)
    × IsCanonical w
        (str "new")
        (str "contact_lead")
        (str "contacted")
        (str "GREEN")
        (granted lead_definition contact_lead)
    × ((u : Transition)
        → In u w.transitions
        → matches (str "new") (str "contact_lead") (str "contacted") u ≡ true
        → u ≡ t)
require_valid_transition-IsCanonical_example =
    require_valid_transition-IsCanonical lead_workflow (str "new") (str "contact_lead")
      (str "contacted") (str "GREEN") contact_granted

find_transition-granted_example :
    find_transition lead_definition
      (str "contacted")
      (str "close_lead")
      (str "closed")
      (str "GREEN")
    ≡ ok (granted lead_definition close_lead)
find_transition-granted_example =
    find_transition-granted lead_definition close_lead lead_definition-IsWellFormed (inr (inl refl))
