-- ===== src/Policy/Overrides.antt =====
-- What the founder's approval can and cannot change.
use polsia_build.Common.{String, arith, false, refl, ◌==◌, ◌≡◌}
use polsia_build.Policy.{
  Decimals, PolicyDecision, block, bound_reason, conclude, evaluate_action_policy, evaluate_fields,
  read_request, read_rules, weigh, write_block,
}
use polsia_build.Raises.{ok}
use polsia_build.Value.{Fields, find, obj}

-- Two intents that differ in the founder's approval at most.
pub record SameBut (i j : Fields) : Type 0 where
  pub same : (k : String) → (k == "founder_approval_status") ≡ false → find k i ≡ find k j

module _ {i j : Fields} (s : SameBut i j) where
  read_request_same : read_request i ≡ read_request j
  unfolding read_request
  read_request_same =
      ground
        (arith, s.same "action_type" refl, s.same "risk_level" refl, s.same "external_write" refl)

  read_rules_same : (p : Fields) → read_rules i p ≡ read_rules j p
  unfolding read_rules
  read_rules_same p = ground (arith, s.same "policy_flags" refl)

  write_block_same : write_block i ≡ write_block j
  unfolding write_block
  write_block_same = ground (
    arith,
    s.same "integration_mode" refl,
    s.same "requires_authority" refl,
    s.same "authority_verified" refl,
    s.same "requires_consent" refl,
    s.same "consent_verified" refl,
  )

module _ (lib : Decimals) {i j : Fields} (s : SameBut i j) (p : Fields) where
  bound_reason_same : bound_reason lib i p ≡ bound_reason lib j p
  unfolding bound_reason
  bound_reason_same = ground (arith, s.same "limit_name" refl, s.same "requested_total" refl)

-- A policy block does not depend on the founder's approval: with any other approval the evaluation
-- returns the same block, reasons included.
pub evaluate_action_policy_block :
    (lib : Decimals) (i j p : Fields) {d : PolicyDecision}
    → SameBut i j
    → evaluate_action_policy lib (obj i) (obj p) ≡ ok d
    → d.disposition ≡ block
    → evaluate_action_policy lib (obj j) (obj p) ≡ ok d
unfolding evaluate_action_policy evaluate_fields weigh conclude
evaluate_action_policy_block lib i j p s h b =
    ground (
      arith,
      read_request_same s,
      read_rules_same s p,
      write_block_same s,
      bound_reason_same lib s p,
    )
