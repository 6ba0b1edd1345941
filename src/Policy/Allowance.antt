-- ===== src/Policy/Allowance.antt =====
-- Every authorized action within its bound is let through.
use polsia_build.Common.{
  String, [], arith, contains, contains-dedup, dedup, false, is_nil, is_nil-sorted, nil-select,
  none, true, ◌++◌, ◌==◌, ◌∷◌, ◌≡◌,
}
use polsia_build.Policy.{
  Decimals, PolicyDecision, Request, Rules, allow, bound_reason, conclude, evaluate_action_policy,
  evaluate_fields, is_approved, matched_blocks, red_reason, risk_of, weigh, write_block,
}
use polsia_build.Policy.Authorization.{
  IsAuthorized, MayWrite, WithinBound, denies, unlimited, within,
}
use polsia_build.Raises.{ok}
use polsia_build.Value.{Fields, obj}

nil-matched_blocks :
    (q : Request) (r : Rules)
    → ((s : String) → contains (q.action_type ∷ r.flags) s ≡ true → denies r s ≡ false)
    → is_nil (matched_blocks q r) ≡ true
unfolding matched_blocks
nil-matched_blocks q r h =
    rw is_nil-sorted (
      nil-select (denies r) (dedup (q.action_type ∷ r.flags)) (λ s c. h s (rw contains-dedup at c)))

MayWrite-write_block : (i : Fields) → MayWrite i → write_block i ≡ ok none
unfolding write_block
MayWrite-write_block i m = ground arith

module _ (lib : Decimals) where
  WithinBound-bound_reason : (i p : Fields) → WithinBound lib i p → bound_reason lib i p ≡ ok none
  unfolding bound_reason
  WithinBound-bound_reason i p (unlimited e) = ground arith
  WithinBound-bound_reason i p (within name limits total bound a b x y z w s t u v g) = ground arith

  weigh-allow :
      (i p : Fields) (q : Request) (risk : String)
      → bound_reason lib i p ≡ ok none
      → (q.external_write ≡ true → write_block i ≡ ok none)
      → ((risk == "RED") ≡ true → is_approved i ≡ true)
      → (d : PolicyDecision) × (weigh lib i p q risk ≡ ok d)
        × (d.disposition ≡ allow)
        × (d.effective_risk ≡ risk)
  unfolding weigh conclude
  weigh-allow i p q risk hb hw hr = (
    conclude (is_approved i) risk (risk == "RED") (red_reason risk ++ []),
    ground arith,
    ground arith,
    ground arith,
  )

  -- An authorized action within its bound is allowed, at the risk that the policy gives it.
  pub evaluate_action_policy-allow :
      (i p : Fields) (q : Request) (r : Rules)
      → IsAuthorized lib i p q r
      → WithinBound lib i p
      → (d : PolicyDecision) × (evaluate_action_policy lib (obj i) (obj p) ≡ ok d)
        × (d.disposition ≡ allow)
        × (d.effective_risk ≡ risk_of q r)
  unfolding evaluate_action_policy evaluate_fields
  evaluate_action_policy-allow i p q r auth b =
      let (d, w, a, e) =
        weigh-allow i p q (risk_of q r) (WithinBound-bound_reason i p b)
          (λ x. MayWrite-write_block i (auth.write x)) auth.red_approved in
      (d, ground (arith, auth.request, auth.rules, nil-matched_blocks q r auth.unblocked), a, e)
