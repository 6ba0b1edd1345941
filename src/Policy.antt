-- ===== src/Policy.antt =====
-- The fail-closed policy evaluator: app/agents/company_os_policy.py.
-- `decimal.Decimal` is a parameter: the texts and numbers that it reads, and its `>`, which signals
-- `InvalidOperation` where an operand is NaN.
pub mod Overrides
pub mod Authorization
pub mod Allowance
pub mod Errors
use polsia_build.Common.{
  Bool, List, Option, String, [], contains, dedup, false, if◌then◌else◌, is_empty, is_nil, is_some,
  map, none, not, select, some, sorted, true, ◌&&◌, ◌++◌, ◌==◌, ◌||◌, ◌∷◌,
}
use polsia_build.Contract.{risk_levels}
use polsia_build.Raises.{
  Exception, Message, Result, caused, err, format, in_set, invalid_operation, join, ok, or_raise,
  policy_error, raise_if, raised, text, type_error, ◌>>=◌, ◌>>◌,
}
use polsia_build.Value.{
  Fields, Value, arr, as_dict, as_str, as_strings, bool, eq, find, get, get_or, hashable, is_bool,
  is_null, is_true, nil, str, truthy,
}

pub data Disposition : Type 0 where
  allow requires_founder block : Disposition

pub record PolicyDecision : Type 0 where
  pub disposition : Disposition
  pub effective_risk : String
  pub founder_approval_required : Bool
  pub reasons : List Message

abbrev pub write_capable_modes : List String
write_capable_modes = "sandbox" ∷ "write_limited" ∷ "live" ∷ []

-- `decimal.Decimal`. `of_value v` is `Decimal(str(v))`, and `none` where that raises; `gt a b` is
-- `a > b`, and `none` where that signals.
pub record Decimals : Type 1 where
  pub Decimal : Type 0
  pub of_value : Value → Option Decimal
  pub gt : Decimal → Decimal → Option Bool

-- `_string_set`
unfoldable pub string_set : Fields → String → Result (List String)
string_set policy name =
    or_raise (as_strings (get policy name)) policy_error
      (format "policy.{} must be a list of strings" (str name ∷ []))

-- The intent's fields that every evaluation reads.
pub record Request : Type 0 where
  pub action_type : String
  pub requested_risk : String
  pub external_write : Bool

unfoldable pub as_bool : Value → Option Bool
as_bool (bool b) = some b
as_bool _ = none

nonempty_text : Value → Option String
nonempty_text (str s) = if is_empty s then none else some s
nonempty_text _ = none

unfoldable pub read_request : Fields → Result Request
unfolding as_bool nonempty_text
read_request intent = do
  action ←
      or_raise (nonempty_text (get intent "action_type")) policy_error
        (text "intent.action_type must be a non-empty string")
  known ← in_set (get intent "risk_level") risk_levels
  raise_if (not known) policy_error (text "intent.risk_level must be GREEN, YELLOW, or RED")
  -- a text, by the test above
  risk ← or_raise (as_str (get intent "risk_level")) policy_error (text "")
  write ←
      or_raise (as_bool (get intent "external_write")) policy_error
        (text "intent.external_write must be a boolean")
  ok (record { action_type = action; requested_risk = risk; external_write = write })

-- The policy's lists, and the flags of the intent.
pub record Rules : Type 0 where
  pub hard_denies : List String
  pub non_approvable : List String
  pub red_actions : List String
  pub flags : List String

unfoldable pub read_rules : Fields → Fields → Result Rules
unfolding string_set
read_rules intent policy = do
  denies ← string_set policy "hard_denies"
  blocks ← string_set policy "non_approvable_blocks"
  reds ← string_set policy "red_action_types"
  flags ←
      or_raise (as_strings (get_or intent "policy_flags" (arr nil))) policy_error
        (text "intent.policy_flags must be a list of strings")
  ok (record { hard_denies = denies; non_approvable = blocks; red_actions = reds; flags = flags })

-- `sorted({action_type, *flags} & (hard_denies | non_approvable))`
unfoldable pub matched_blocks : Request → Rules → List String
matched_blocks q r = sorted (
    select (λ s. contains r.hard_denies s || contains r.non_approvable s)
      (dedup (q.action_type ∷ r.flags)))

unfoldable pub risk_of : Request → Rules → String
risk_of q r = if contains r.red_actions q.action_type then "RED" else q.requested_risk

-- `k in d`, which hashes `k`.
unfoldable pub in_dict : Value → Fields → Result (Option Value)
in_dict k d =
    raise_if (not (hashable k)) type_error (text "unhashable type")
    >> ok (elim (as_str k) [ none ↦ none | some s ↦ find s d ])

-- `action is not authorized: ...`, with the reasons after it.
abbrev denied : String → PolicyDecision → Exception
denied prefix d = raised policy_error (caused prefix (join ", " d.reasons))

-- Why an external write is blocked, if it is.
unfoldable pub write_block : Fields → Result (Option Message)
write_block intent = do
  let mode = get intent "integration_mode"
  capable ← in_set mode write_capable_modes
  ok (
      if not capable
      then some (format "integration mode does not permit writes: {}" (mode ∷ []))
      else if truthy (get intent "requires_authority")
          && not (is_true (get intent "authority_verified"))
      then some (text "explicit authority is unverified")
      else if truthy (get intent "requires_consent")
          && not (is_true (get intent "consent_verified"))
      then some (text "consent or eligibility is unverified")
      else none)

unfoldable pub is_approved : Fields → Bool
is_approved intent = eq (get intent "founder_approval_status") (str "approved")

-- The decision once nothing blocks.
unfoldable pub conclude : Bool → String → Bool → List Message → PolicyDecision
conclude approved risk requires reasons =
    if requires && not approved
    then record {
      disposition = requires_founder;
      effective_risk = risk;
      founder_approval_required = true;
      reasons = reasons;
    }
    else record {
      disposition = allow;
      effective_risk = risk;
      founder_approval_required = requires;
      reasons = reasons ++ (if requires then text "founder approval verified" ∷ [] else []);
    }

abbrev pub blocked : String → List Message → PolicyDecision
blocked risk reasons = record {
  disposition = block;
  effective_risk = risk;
  founder_approval_required = false;
  reasons = reasons;
}

abbrev pub red_reason : String → List Message
red_reason risk = if risk == "RED" then text "RED action requires founder approval" ∷ [] else []

abbrev pub reason_list : Option Message → List Message
reason_list none = []
reason_list (some m) = m ∷ []

module _ (lib : Decimals) where
  open lib use {Decimal, of_value, gt}

  -- `_decimal`, with the message that names its field
  unfoldable pub to_decimal : Value → Message → Result Decimal
  to_decimal v not_numeric = do
    raise_if (is_bool v) policy_error not_numeric
    or_raise (of_value v) policy_error not_numeric

  unfoldable pub compare_total : Value → Value → Value → Result (Option Message)
  unfolding to_decimal
  compare_total name total limit = do
    requested ← to_decimal total (text "intent.requested_total must be numeric")
    bound ← to_decimal limit (format "policy.limits.{} must be numeric" (name ∷ []))
    exceeds ← or_raise (gt requested bound) invalid_operation (text "comparison involving NaN")
    ok (
        if exceeds
        then some (format "full requested action exceeds {}: {} > {}" (name ∷ total ∷ limit ∷ []))
        else none)

  -- Why the bound that the intent names asks for the founder, if it does.
  unfoldable pub bound_reason : Fields → Fields → Result (Option Message)
  unfolding in_dict compare_total
  bound_reason intent policy =
      let name = get intent "limit_name" in
      let unverified = some (format "bound cannot be verified: {}" (name ∷ [])) in
      if is_null name then ok none else (elim (as_dict (get policy "limits")) [
        | none ↦ ok unverified
        | some limits ↦ in_dict name limits >>= λ limit. elim limit [
          | none ↦ ok unverified
          | some bound ↦ elim (find "requested_total" intent) [
            | none ↦ ok (some (text "full requested action total is missing"))
            | some total ↦ compare_total name total bound
          ]
        ]
      ])

  -- What follows once no hard block matches.
  unfoldable pub weigh : Fields → Fields → Request → String → Result PolicyDecision
  weigh intent policy q risk = do
    bound ← bound_reason intent policy
    stopped ← (if q.external_write then write_block intent else ok none)
    ok (elim stopped [
      | some m ↦ blocked risk (m ∷ [])
      | none ↦
          conclude (is_approved intent) risk (risk == "RED" || is_some bound)
            (red_reason risk ++ reason_list bound)
    ])

  unfoldable pub evaluate_fields : Fields → Fields → Result PolicyDecision
  evaluate_fields intent policy = do
    q ← read_request intent
    r ← read_rules intent policy
    let matched = matched_blocks q r
    let risk = risk_of q r
    elim (is_nil matched) [
      | true ↦ weigh intent policy q risk
      | false ↦
          ok (
            blocked risk (map (λ s. format "non-approvable policy block: {}" (str s ∷ [])) matched))
    ]

  unfoldable pub evaluate_action_policy : Value → Value → Result PolicyDecision
  evaluate_action_policy intent policy = do
    i ← or_raise (as_dict intent) policy_error (text "intent and policy must be objects")
    p ← or_raise (as_dict policy) policy_error (text "intent and policy must be objects")
    evaluate_fields i p

  unfoldable pub require_action_allowed : Value → Value → Result PolicyDecision
  require_action_allowed intent policy = do
    decision ← evaluate_action_policy intent policy
    elim decision.disposition [
      | allow ↦ ok decision
      | requires_founder ↦ err (denied "action is not authorized: requires_founder: " decision)
      | block ↦ err (denied "action is not authorized: block: " decision)
    ]
