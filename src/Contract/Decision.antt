-- ===== src/Contract/Decision.antt =====
-- What a Stage 1 decision is, apart from the order and the way in which it is checked, and the
-- validator's agreement with it.
use polsia_build.Common.{
  Bool, List, Option, String, [], arith, contains, contains-minus, false, is_some, minus, minus_nil,
  nil-minus, none, not, refl, some, true, ◌||◌, ◌↔◌, ◌∷◌, ◌≡◌,
}
use polsia_build.Contract.{
  check_choices, check_fields, check_keys, check_lists, check_texts, optional_fields,
  required_fields, risk_levels, validate_stage1_decision,
}
use polsia_build.Contract.Blank.{is_blank}
use polsia_build.Raises.{ok}
use polsia_build.Value.{
  Fields, Value, as_strings, find, get, in_list, is_bool, is_str, keys, null, obj, str, str_and,
}
use polsia_build.Value.Laws.{eq-str, eq-str_self, find-contains}

abbrev pub is_text : Value → Bool
is_text = str_and (λ s. not (is_blank s))

abbrev is_texts : Value → Bool
is_texts v = is_some (as_strings v)

-- A field that may be missing, or is a text.
abbrev pub text_if_there : Option Value → Bool
text_if_there none = true
text_if_there (some v) = is_str v

-- `None` and the empty list allow every text.
abbrev pub Among : Option (List String) → Value → Type 0
Among none v = Unit
Among (some []) v = Unit
Among (some (s ∷ ss)) v = in_list v (s ∷ ss) ≡ true

module _ (d : Fields) (scenario_id : String) (owners states : Option (List String)) where
  pub record IsDecision : Type 0 where
    pub complete : (k : String) → contains required_fields k ≡ true → contains (keys d) k ≡ true
    pub closed :
        (k : String)
        → contains (keys d) k ≡ true
        → (contains required_fields k || contains optional_fields k) ≡ true
    pub same_scenario : get d "scenario_id" ≡ str scenario_id
    pub scenario_text : is_blank scenario_id ≡ false
    pub action_text : is_text (get d "action") ≡ true
    pub state_text : is_text (get d "state") ≡ true
    pub owner_text : is_text (get d "handoff_to") ≡ true
    pub canonical_owner : Among owners (get d "handoff_to")
    pub canonical_state : Among states (get d "state")
    pub canonical_risk : in_list (get d "risk_level") risk_levels ≡ true
    pub approval_bool : is_bool (get d "founder_approval") ≡ true
    pub taken_texts : is_texts (get d "actions_taken") ≡ true
    pub proposed_texts : is_texts (get d "actions_proposed") ≡ true
    pub assumptions_texts : is_texts (get d "assumptions") ≡ true
    pub notes_text : text_if_there (find "notes" d) ≡ true

  -- The stages pass together exactly when their parts hold.
  pub check_keys_complete :
      check_keys d ≡ ok tt
      → (k : String) → contains required_fields k ≡ true
      → contains (keys d) k ≡ true
  unfolding check_keys
  check_keys_complete h k = minus_nil required_fields (keys d) k (ground arith)

  pub check_keys-closed :
      check_keys d ≡ ok tt
      → (k : String) → contains (keys d) k ≡ true
      → (contains required_fields k || contains optional_fields k) ≡ true
  unfolding check_keys
  check_keys-closed h k c = ground (
    arith,
    contains-minus (keys d) required_fields k,
    minus_nil (minus (keys d) required_fields) optional_fields k,
  )

  pub check_keys_lem :
      ((k : String) → contains required_fields k ≡ true → contains (keys d) k ≡ true)
      → ((k : String)
          → contains (keys d) k ≡ true
          → (contains required_fields k || contains optional_fields k) ≡ true)
      → check_keys d ≡ ok tt
  unfolding check_keys
  check_keys_lem complete closed = ground (
    arith,
    nil-minus required_fields (keys d) complete,
    nil-minus (minus (keys d) required_fields) optional_fields (λ k c. left_over k (closed k) c),
  )
    where
      left_over :
          (k : String)
          → (contains (keys d) k ≡ true
              → (contains required_fields k || contains optional_fields k) ≡ true)
          → contains (minus (keys d) required_fields) k ≡ true
          → contains optional_fields k ≡ true
      left_over k h c = ground (arith, contains-minus (keys d) required_fields k)

  pub check_texts_lem : (check_texts d scenario_id ≡ ok tt) ↔ (
      (get d "scenario_id" ≡ str scenario_id)
      × (is_blank scenario_id ≡ false)
      × (is_text (get d "action") ≡ true)
      × (is_text (get d "state") ≡ true)
      × (is_text (get d "handoff_to") ≡ true))
  unfolding check_texts
  check_texts_lem = (
    λ h. ground (arith, eq-str (get d "scenario_id") scenario_id),
    λ h. ground (arith, eq-str_self scenario_id),
  )

  abbrev Choices : Type 0
  Choices =
      Among owners (get d "handoff_to")
      × Among states (get d "state")
      × (in_list (get d "risk_level") risk_levels ≡ true)
      × (is_bool (get d "founder_approval") ≡ true)

  check_choices-Choices : check_choices d owners states ≡ ok tt → Choices
  unfolding check_choices
  check_choices-Choices h = ground arith

  Choices-check_choices :
      is_some (find "handoff_to" d) ≡ true
      → is_some (find "state" d) ≡ true
      → Choices
      → check_choices d owners states ≡ ok tt
  unfolding check_choices
  Choices-check_choices p q h = ground arith

  check_lists_lem : (check_lists d ≡ ok tt) ↔ (
      (is_texts (get d "actions_taken") ≡ true)
      × (is_texts (get d "actions_proposed") ≡ true)
      × (is_texts (get d "assumptions") ≡ true)
      × (text_if_there (find "notes" d) ≡ true))
  unfolding check_lists
  check_lists_lem = (λ h. ground arith, λ h. ground arith)

  -- A field that must be there is there.
  pub present :
      ((k : String) → contains required_fields k ≡ true → contains (keys d) k ≡ true)
      → (k : String) → contains required_fields k ≡ true
      → is_some (find k d) ≡ true
  present complete k h = rw find-contains (complete k h)

  check_fields_sound : check_fields d scenario_id owners states ≡ ok tt → IsDecision
  unfolding check_fields
  check_fields_sound h =
      let k : check_keys d ≡ ok tt = ground arith in
      let (a, b, x, y, z) = check_texts_lem.0 (ground arith) in
      let (o, s, r, p) = check_choices-Choices (ground arith) in
      let (u, v, w, n) = check_lists_lem.0 (ground arith) in
      record {
        complete = check_keys_complete k;
        closed = check_keys-closed k;
        same_scenario = a;
        scenario_text = b;
        action_text = x;
        state_text = y;
        owner_text = z;
        canonical_owner = o;
        canonical_state = s;
        canonical_risk = r;
        approval_bool = p;
        taken_texts = u;
        proposed_texts = v;
        assumptions_texts = w;
        notes_text = n;
      }

  check_fields_complete : IsDecision → check_fields d scenario_id owners states ≡ ok tt
  unfolding check_fields
  check_fields_complete r =
      rw
        (
          check_keys_lem r.complete r.closed,
          check_texts_lem.1
              (r.same_scenario, r.scenario_text, r.action_text, r.state_text, r.owner_text),
          Choices-check_choices (present r.complete "handoff_to" refl)
              (present r.complete "state" refl)
              (r.canonical_owner, r.canonical_state, r.canonical_risk, r.approval_bool),
        )
        (check_lists_lem.1 (r.taken_texts, r.proposed_texts, r.assumptions_texts, r.notes_text))

  -- A dict is accepted, unchanged, exactly when it is a decision of the scenario.
  pub validate_stage1_decision_iff :
      (validate_stage1_decision (obj d) scenario_id owners states ≡ ok (obj d)) ↔ IsDecision
  unfolding validate_stage1_decision
  validate_stage1_decision_iff =
      (λ h. check_fields_sound (ground arith), λ r. rw (check_fields_complete r))

-- What the validator returns is the payload itself, and the payload is a dict.
pub validate_stage1_decision_payload :
    (payload : Value) (scenario_id : String) (owners states : Option (List String)) {v : Value}
    → validate_stage1_decision payload scenario_id owners states ≡ ok v
    → (v ≡ payload) × ((d : Fields) × (payload ≡ obj d) × IsDecision d scenario_id owners states)
unfolding validate_stage1_decision
validate_stage1_decision_payload (obj d) sid owners states h =
    (ground arith, (d, refl, check_fields_sound d sid owners states (ground arith)))
validate_stage1_decision_payload null sid owners states h = cc
validate_stage1_decision_payload _ sid owners states h = cc
