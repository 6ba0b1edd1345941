-- ===== src/Policy/Authorization.antt =====
-- What an allowed action satisfies.
use polsia_build.Common.{
  Bool, Option-cases, String, arith, contains, contains-dedup, dedup, false, inl, inr, is_nil,
  is_nil-sorted, none, select_nil, some, true, ◌==◌, ◌||◌, ◌∷◌, ◌≡◌, ◌⊎◌,
}
use polsia_build.Policy.{
  Decimals, PolicyDecision, Request, Rules, allow, bound_reason, compare_total, conclude,
  evaluate_action_policy, evaluate_fields, is_approved, matched_blocks, read_request, read_rules,
  require_action_allowed, risk_of, weigh, write_block, write_capable_modes,
}
use polsia_build.Raises.{>>=-eq-ok, ok}
use polsia_build.Value.{
  Fields, Value, as_dict, as_str, find, get, in_list, is_bool, is_true, null, obj, str, truthy,
}
use polsia_build.Value.Laws.{as_dict-some, as_str-some}

-- No name under which the action goes is denied.
abbrev pub denies : Rules → String → Bool
denies r s = contains r.hard_denies s || contains r.non_approvable s

matched_blocks_nil :
    (q : Request) (r : Rules) (s : String)
    → is_nil (matched_blocks q r) ≡ true
    → contains (q.action_type ∷ r.flags) s ≡ true
    → denies r s ≡ false
unfolding matched_blocks
matched_blocks_nil q r s h c =
    select_nil (denies r) (dedup (q.action_type ∷ r.flags)) s (rw is_nil-sorted at h)
      (rw contains-dedup c)

-- A write is done in a mode that can write, with the authority and the consent that it requires.
pub record MayWrite (i : Fields) : Type 0 where
  pub mode : in_list (get i "integration_mode") write_capable_modes ≡ true
  pub authority :
      truthy (get i "requires_authority") ≡ true → is_true (get i "authority_verified") ≡ true
  pub consent : truthy (get i "requires_consent") ≡ true → is_true (get i "consent_verified") ≡ true

write_block-MayWrite : (i : Fields) → write_block i ≡ ok none → MayWrite i
unfolding write_block
write_block-MayWrite i h = ground arith

module _ (lib : Decimals) where
  open lib use {Decimal, of_value, gt}

  -- The whole requested total is within the bound that the intent names, if it names one.
  pub data WithinBound (i p : Fields) : Type 0 where
    unlimited : get i "limit_name" ≡ null → WithinBound i p
    within :
        (name : String) (limits : Fields) (total bound : Value) (a b : Decimal)
        → get i "limit_name" ≡ str name
        → get p "limits" ≡ obj limits
        → find "requested_total" i ≡ some total
        → find name limits ≡ some bound
        → is_bool total ≡ false
        → is_bool bound ≡ false
        → of_value total ≡ some a
        → of_value bound ≡ some b
        → gt a b ≡ some false
        → WithinBound i p

  compare_total-none :
      (name total bound : Value)
      → compare_total lib name total bound ≡ ok none
      → (a : Decimal) × (b : Decimal) × (of_value total ≡ some a)
        × (of_value bound ≡ some b)
        × (gt a b ≡ some false)
        × (is_bool total ≡ false)
        × (is_bool bound ≡ false)
  unfolding compare_total
  compare_total-none name total bound h = elim (Option-cases (of_value total)) [
    | inl e ↦ absurd (ground arith)
    | inr (a, e) ↦ elim (Option-cases (of_value bound)) [
      | inl f ↦ absurd (ground arith)
      | inr (b, f) ↦ (a, b, e, f, ground arith, ground arith, ground arith)
    ]
  ]

  bound_reason-WithinBound : (i p : Fields) → bound_reason lib i p ≡ ok none → WithinBound i p
  unfolding bound_reason
  bound_reason-WithinBound i p h = elim (Option-cases (as_str (get i "limit_name"))) [
    | inl e ↦ unlimited (ground arith)
    | inr (name, e) ↦ elim (Option-cases (as_dict (get p "limits"))) [
      | inl f ↦ absurd (ground (arith, as_str-some (get i "limit_name") e))
      | inr (limits, f) ↦ elim (Option-cases (find name limits)) [
        | inl g ↦ absurd (ground (arith, as_str-some (get i "limit_name") e))
        | inr (bound, g) ↦ elim (Option-cases (find "requested_total" i)) [
          | inl k ↦ absurd (ground (arith, as_str-some (get i "limit_name") e))
          | inr (total, k) ↦
              let (a, b, x, y, z, s, t) =
                compare_total-none (get i "limit_name") total bound
                  (ground (arith, as_str-some (get i "limit_name") e)) in
              within name limits total bound a b (as_str-some _ e) (as_dict-some _ f) k g s t x y z
        ]
      ]
    ]
  ]

  -- What the intent asks for, and that the policy lets it.
  pub record IsAuthorized (i p : Fields) (q : Request) (r : Rules) : Type 0 where
    pub request : read_request i ≡ ok q
    pub rules : read_rules i p ≡ ok r
    pub unblocked : (s : String) → contains (q.action_type ∷ r.flags) s ≡ true → denies r s ≡ false
    pub red_approved : (risk_of q r == "RED") ≡ true → is_approved i ≡ true
    pub bounded : WithinBound i p ⊎ (is_approved i ≡ true)
    pub write : q.external_write ≡ true → MayWrite i

  weigh_allow :
      (i p : Fields) (q : Request) (risk : String) {d : PolicyDecision}
      → weigh lib i p q risk ≡ ok d
      → d.disposition ≡ allow
      → ((risk == "RED") ≡ true → is_approved i ≡ true)
        × ((bound_reason lib i p ≡ ok none) ⊎ (is_approved i ≡ true))
        × (q.external_write ≡ true → write_block i ≡ ok none)
  unfolding weigh conclude
  weigh_allow i p q risk h a = ground arith

  weigh_risk :
      (i p : Fields) (q : Request) (risk : String) {d : PolicyDecision}
      → weigh lib i p q risk ≡ ok d
      → d.effective_risk ≡ risk
  unfolding weigh conclude
  weigh_risk i p q risk h = ground arith

  evaluate_fields-IsAuthorized :
      (i p : Fields) {d : PolicyDecision}
      → evaluate_fields lib i p ≡ ok d
      → d.disposition ≡ allow
      → (q : Request) × (r : Rules) × IsAuthorized i p q r × (d.effective_risk ≡ risk_of q r)
  unfolding evaluate_fields
  evaluate_fields-IsAuthorized i p {d} h a =
      let (q, hq, h') = >>=-eq-ok (read_request i) _ h in
      let (r, hr, h'') = >>=-eq-ok (read_rules i p) _ h' in
      let none_matched : is_nil (matched_blocks q r) ≡ true = ground arith in
      let w : weigh lib i p q (risk_of q r) ≡ ok d = ground arith in
      let (red, bound, write) = weigh_allow i p q (risk_of q r) w a in
      (
        q,
        r,
        record {
          request = hq;
          rules = hr;
          unblocked = λ s. matched_blocks_nil q r s none_matched;
          red_approved = red;
          bounded = (elim bound [ inl e ↦ inl (bound_reason-WithinBound i p e) | inr e ↦ inr e ]);
          write = λ x. write_block-MayWrite i (write x);
        },
        weigh_risk i p q (risk_of q r) w,
      )

-- `require_action_allowed` returns only for intents and policies that are objects, and whose action
-- the policy lets through: undenied under each of its names, approved by the founder where its
-- effective risk is RED or its bound is not shown to hold, and, for a write, in a mode that can write
-- with the authority and the consent that it requires.
pub require_action_allowed-IsAuthorized :
    (lib : Decimals) (intent policy : Value) {d : PolicyDecision}
    → require_action_allowed lib intent policy ≡ ok d
    → (i : Fields) × (p : Fields) × (q : Request) × (r : Rules) × (intent ≡ obj i)
      × (policy ≡ obj p)
      × IsAuthorized lib i p q r
      × (d.effective_risk ≡ risk_of q r)
unfolding require_action_allowed evaluate_action_policy
require_action_allowed-IsAuthorized lib intent policy {d} h = elim (Option-cases (as_dict intent)) [
  | inl e ↦ absurd (ground arith)
  | inr (i, e) ↦ elim (Option-cases (as_dict policy)) [
    | inl f ↦ absurd (ground arith)
    | inr (p, f) ↦
        let returned : evaluate_fields lib i p ≡ ok d = ground arith in
        let allowed : d.disposition ≡ allow = ground arith in
        let (q, r, auth, risk) = evaluate_fields-IsAuthorized lib i p returned allowed in
        (i, p, q, r, as_dict-some intent e, as_dict-some policy f, auth, risk)
  ]
]
