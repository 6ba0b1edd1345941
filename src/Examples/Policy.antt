-- ===== src/Examples/Policy.antt =====
-- The policy on an action within its bound, one beyond it, one that is denied and a total that is NaN.
use polsia_build.Common.{
  String, [], arith, contains, dedup, eq_iff, false, inl, refl, some, sorted, subst, sym, true, ◌∷◌,
  ◌≡◌, ◌⊎◌,
}
use polsia_build.Examples.Data.{intent_of, naturals, policy_rules}
use polsia_build.Policy.{
  PolicyDecision, Request, Rules, allow, block, bound_reason, conclude, evaluate_action_policy,
  evaluate_fields, is_approved, matched_blocks, read_request, read_rules, require_action_allowed,
  risk_of, weigh, write_block,
}
use polsia_build.Policy.Allowance.{evaluate_action_policy-allow}
use polsia_build.Policy.Authorization.{
  IsAuthorized, WithinBound, denies, require_action_allowed-IsAuthorized, within,
}
use polsia_build.Policy.Errors.{IsUnordered, evaluate_action_policy_errors}
use polsia_build.Policy.Overrides.{SameBut, evaluate_action_policy_block}
use polsia_build.Raises.{
  Exception, err, format, invalid_operation, ok, policy_error, raised, text, type_error,
}
use polsia_build.Value.{Fields, end, eq, field, int, nonfinite, obj, str}

abbrev sending : Fields
sending = intent_of "contact_lead" (int 40) end

abbrev approved_overspend : Fields
approved_overspend =
    intent_of "contact_lead" (int 140) (field "founder_approval_status" (str "approved") end)

abbrev approved_wire : Fields
approved_wire =
    intent_of "wire_money" (int 40) (field "founder_approval_status" (str "approved") end)

abbrev wire : Fields
wire = intent_of "wire_money" (int 40) end

abbrev unnumbered : Fields
unnumbered = intent_of "contact_lead" (nonfinite 0) end

abbrev request : Request
request = record { action_type = "contact_lead"; requested_risk = "GREEN"; external_write = true }

abbrev rules : Rules
rules = record {
  hard_denies = "wire_money" ∷ [];
  non_approvable = "no_consent" ∷ [];
  red_actions = "sign_contract" ∷ [];
  flags = [];
}

abbrev overspend : PolicyDecision
overspend = record {
  disposition = allow;
  effective_risk = "GREEN";
  founder_approval_required = true;
  reasons =
      format "full requested action exceeds {}: {} > {}" (str "spend" ∷ int 140 ∷ int 100 ∷ [])
      ∷ text "founder approval verified"
      ∷ [];
}

approved_overspend_allowed :
    require_action_allowed naturals (obj approved_overspend) (obj policy_rules) ≡ ok overspend
unfolding require_action_allowed evaluate_action_policy evaluate_fields read_request read_rules
    matched_blocks sorted dedup weigh bound_reason write_block conclude risk_of is_approved eq
approved_overspend_allowed = refl

require_action_allowed-IsAuthorized_example :
    (i : Fields) × (p : Fields) × (q : Request) × (r : Rules) × (obj approved_overspend ≡ obj i)
    × (obj policy_rules ≡ obj p)
    × IsAuthorized naturals i p q r
    × (overspend.effective_risk ≡ risk_of q r)
require_action_allowed-IsAuthorized_example =
    require_action_allowed-IsAuthorized naturals (obj approved_overspend) (obj policy_rules)
      approved_overspend_allowed

abbrev denial : PolicyDecision
denial = record {
  disposition = block;
  effective_risk = "GREEN";
  founder_approval_required = false;
  reasons = format "non-approvable policy block: {}" (str "wire_money" ∷ []) ∷ [];
}

approved_wire_blocked :
    evaluate_action_policy naturals (obj approved_wire) (obj policy_rules) ≡ ok denial
unfolding evaluate_action_policy evaluate_fields read_request read_rules matched_blocks sorted dedup
    risk_of
approved_wire_blocked = refl

SameBut-approval : SameBut approved_wire wire
SameBut-approval = record { same = λ k h. ground arith }

evaluate_action_policy_block_example :
    evaluate_action_policy naturals (obj wire) (obj policy_rules) ≡ ok denial
evaluate_action_policy_block_example =
    evaluate_action_policy_block naturals approved_wire wire policy_rules SameBut-approval
      approved_wire_blocked refl

sending-WithinBound : WithinBound naturals sending policy_rules
sending-WithinBound =
    within "spend" (field "spend" (int 100) end) (int 40) (int 100) (some 40) (some 100) refl refl
      refl refl refl refl refl refl refl

abbrev sent : PolicyDecision
sent = record {
  disposition = allow;
  effective_risk = "GREEN";
  founder_approval_required = false;
  reasons = [];
}

sending_allowed : require_action_allowed naturals (obj sending) (obj policy_rules) ≡ ok sent
unfolding require_action_allowed evaluate_action_policy evaluate_fields read_request read_rules
    matched_blocks sorted dedup weigh bound_reason write_block conclude risk_of
sending_allowed = refl

sending_unblocked : (s : String) → contains ("contact_lead" ∷ []) s ≡ true → denies rules s ≡ false
sending_unblocked s h =
    let same : s ≡ "contact_lead" = (eq_iff s "contact_lead").0 (ground arith) in
    subst (λ t. denies rules t ≡ false) (sym same) refl

sending-IsAuthorized : IsAuthorized naturals sending policy_rules request rules
unfolding read_request read_rules risk_of
sending-IsAuthorized = record {
  request = refl;
  rules = refl;
  unblocked = sending_unblocked;
  red_approved = λ h. ground arith;
  bounded = inl sending-WithinBound;
  write = λ h. record { mode = refl; authority = λ x. ground arith; consent = λ x. ground arith };
}

evaluate_action_policy-allow_example :
    (d : PolicyDecision) × (evaluate_action_policy naturals (obj sending) (obj policy_rules) ≡ ok d)
    × (d.disposition ≡ allow)
    × (d.effective_risk ≡ risk_of request rules)
evaluate_action_policy-allow_example =
    evaluate_action_policy-allow naturals sending policy_rules request rules sending-IsAuthorized
      sending-WithinBound

abbrev uncompared : Exception
uncompared = raised invalid_operation (text "comparison involving NaN")

total_uncompared :
    evaluate_action_policy naturals (obj unnumbered) (obj policy_rules) ≡ err uncompared
unfolding evaluate_action_policy evaluate_fields read_request read_rules matched_blocks sorted dedup
    weigh bound_reason risk_of
total_uncompared = refl

evaluate_action_policy_errors_example :
    (invalid_operation ≡ policy_error)
    ⊎ ((invalid_operation ≡ type_error)
        ⊎ ((invalid_operation ≡ invalid_operation)
            × ((i : Fields) × (p : Fields) × (obj unnumbered ≡ obj i)
                × (obj policy_rules ≡ obj p)
                × IsUnordered naturals i p)))
evaluate_action_policy_errors_example =
    evaluate_action_policy_errors naturals (obj unnumbered) (obj policy_rules) uncompared
      total_uncompared
