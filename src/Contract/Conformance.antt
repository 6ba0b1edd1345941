-- ===== src/Contract/Conformance.antt =====
-- The schema that the provider gets and the validator agree: `stage1_json_schema` and
-- `validate_stage1_decision` of app/agents/company_os_contract.py.
use polsia_build.Common.{
  List, Option, Option-cases, String, inl, inr, arith, contains, false, minus_nil, nil-minus, none,
  refl, sorted, true, ◌||◌, ◌↔◌, ◌≡◌, ◌∙◌, sym, ap,
}
use polsia_build.Raises.{ok}
use polsia_build.Contract.{validate_stage1_decision, optional_fields, required_fields}
use polsia_build.Contract.Decision.{
  IsDecision, is_text, present, text_if_there, validate_stage1_decision_iff,
}
use polsia_build.Contract.Blank.{is_blank}
use polsia_build.Contract.Schema.{choice, schema_properties, stage1_json_schema, text_list}
use polsia_build.Value.{Fields, Value, arr, end, field, find, get, keys, obj, str, texts}
use polsia_build.Contract.JsonSchema.{has_keys, met, accepts, accepts_properties}
use polsia_build.Contract.Keywords.{
  accepts_text, accepts_boolean, accepts_const, accepts_const_self, accepts_risk, accepts-text_list,
  accepts-choice, is_text-length, Declared, and_both, both_and, accepts_properties-Declared,
  Declared-accepts_properties, met-get, accepts_object, has_keys-contains, contains-has_keys,
  contains-sorted_required, contains-schema_properties,
}

-- The texts that the validator wants to be more than white space.
pub record IsUnblank (d : Fields) : Type 0 where
  pub scenario : is_text (get d "scenario_id") ≡ true
  pub action : is_text (get d "action") ≡ true
  pub state : is_text (get d "state") ≡ true
  pub owner : is_text (get d "handoff_to") ≡ true

module _ (d : Fields) (sid : String) (owners states : Option (List String)) where
  abbrev Required : Type 0
  Required = (k : String) → contains required_fields k ≡ true → contains (keys d) k ≡ true

  met_required :
      Required
      → (k : String) → contains required_fields k ≡ true
      → (s : Value) → accepts s (get d k) ≡ true
      → met (λ w. accepts s w) (find k d) ≡ true
  met_required complete k r s h =
      met-get (λ w. accepts s w) k d (present d sid owners states complete k r) ∙ h

  required_met :
      Required
      → (k : String) → contains required_fields k ≡ true
      → (s : Value) → met (λ w. accepts s w) (find k d) ≡ true
      → accepts s (get d k) ≡ true
  required_met complete k r s h =
      sym (met-get (λ w. accepts s w) k d (present d sid owners states complete k r)) ∙ h

  met_notes :
      met (λ w. accepts (obj (field "type" (str "string") end)) w) (find "notes" d)
      ≡ text_if_there (find "notes" d)
  met_notes = elim (Option-cases (find "notes" d)) [
    | inl n ↦ rw n refl
    | inr (w, n) ↦ rw n (accepts_text w)
  ]

  IsDecision-Declared :
      IsDecision d sid owners states → Declared (schema_properties sid owners states) d
  unfolding Declared schema_properties
  IsDecision-Declared r = (
    met_required r.complete "scenario_id" refl _
        (ap (accepts _) r.same_scenario ∙ accepts_const_self sid),
    (
      met_required r.complete "action" refl (choice none) (
          (accepts-choice none (get d "action")).1
            (is_text-length (get d "action") r.action_text, tt)),
      (
        met_required r.complete "risk_level" refl _
            (accepts_risk (get d "risk_level") ∙ r.canonical_risk),
        (
          met_required r.complete "state" refl (choice states) (
              (accepts-choice states (get d "state")).1
                (is_text-length (get d "state") r.state_text, r.canonical_state)),
          (
            met_required r.complete "founder_approval" refl _
                (accepts_boolean (get d "founder_approval") ∙ r.approval_bool),
            (
              met_required r.complete "handoff_to" refl (choice owners) (
                  (accepts-choice owners (get d "handoff_to")).1
                    (is_text-length (get d "handoff_to") r.owner_text, r.canonical_owner)),
              (
                met_required r.complete "actions_taken" refl text_list
                    (accepts-text_list (get d "actions_taken") ∙ r.taken_texts),
                (
                  met_required r.complete "actions_proposed" refl text_list
                      (accepts-text_list (get d "actions_proposed") ∙ r.proposed_texts),
                  (
                    met_required r.complete "assumptions" refl text_list
                        (accepts-text_list (get d "assumptions") ∙ r.assumptions_texts),
                    (met_notes ∙ r.notes_text, tt),
                  ),
                ),
              ),
            ),
          ),
        ),
      ),
    ),
  )

  -- Reads the nested product back.
  Declared-IsDecision :
      Required
      → ((k : String)
          → contains (keys d) k ≡ true
          → (contains required_fields k || contains optional_fields k) ≡ true)
      → IsUnblank d
      → Declared (schema_properties sid owners states) d
      → IsDecision d sid owners states
  unfolding Declared schema_properties
  Declared-IsDecision complete closed u
        (
          scenario,
          (_, (risk, (state, (approval, (owner, (taken, (proposed, (assumed, (notes, _))))))))),
        ) =
      let same : get d "scenario_id" ≡ str sid =
        accepts_const sid (get d "scenario_id")
          (required_met complete "scenario_id" refl _ scenario) in
      record {
        complete = complete;
        closed = closed;
        same_scenario = same;
        scenario_text = unblank sid (sym (ap is_text same) ∙ u.scenario);
        action_text = u.action;
        state_text = u.state;
        owner_text = u.owner;
        canonical_owner =
            ((accepts-choice owners (get d "handoff_to")).0
              (required_met complete "handoff_to" refl (choice owners) owner)).1;
        canonical_state =
            ((accepts-choice states (get d "state")).0
              (required_met complete "state" refl (choice states) state)).1;
        canonical_risk =
            sym (accepts_risk (get d "risk_level"))
            ∙ required_met complete "risk_level" refl _ risk;
        approval_bool =
            sym (accepts_boolean (get d "founder_approval"))
            ∙ required_met complete "founder_approval" refl _ approval;
        taken_texts =
            sym (accepts-text_list (get d "actions_taken"))
            ∙ required_met complete "actions_taken" refl text_list taken;
        proposed_texts =
            sym (accepts-text_list (get d "actions_proposed"))
            ∙ required_met complete "actions_proposed" refl text_list proposed;
        assumptions_texts =
            sym (accepts-text_list (get d "assumptions"))
            ∙ required_met complete "assumptions" refl text_list assumed;
        notes_text = sym met_notes ∙ notes;
      }
    where
      unblank : (s : String) → is_text (str s) ≡ true → is_blank s ≡ false
      unblank s h = ground arith

  -- The validator accepts a dict exactly when the dict meets the schema that the provider is given for
  -- the same call and its scenario, action, state and owner are more than white space.
  pub validate_stage1_decision-stage1_json_schema :
      (validate_stage1_decision (obj d) sid owners states ≡ ok (obj d))
      ↔ ((accepts (stage1_json_schema sid owners states) (obj d) ≡ true) × IsUnblank d)
  unfolding stage1_json_schema
  validate_stage1_decision-stage1_json_schema = (
    λ h.
        let r = (validate_stage1_decision_iff d sid owners states).0 h in
        (
          accepts_object (schema_properties sid owners states) (sorted required_fields) d
              ∙ both_and _ _
                  (Declared-accepts_properties (schema_properties sid owners states) d
                    (IsDecision-Declared r))
                  (both_and _ _
                    (contains-has_keys (sorted required_fields) d
                      (λ k c. r.complete k (sym (contains-sorted_required k) ∙ c)))
                    (nil-minus (keys d) (keys (schema_properties sid owners states))
                      (λ k c. contains-schema_properties sid owners states k ∙ r.closed k c))),
          record {
            scenario = ap is_text r.same_scenario ∙ blank_not sid r.scenario_text;
            action = r.action_text;
            state = r.state_text;
            owner = r.owner_text;
          },
        ),
    λ (h, u).
        let (declared, others) =
          and_both (accepts_properties (schema_properties sid owners states) d) _ (
            sym (accepts_object (schema_properties sid owners states) (sorted required_fields) d)
            ∙ h) in
        let (there, closed) =
          and_both (has_keys (arr (texts (sorted required_fields))) (obj d)) _ others in
        (validate_stage1_decision_iff d sid owners states).1 (
          Declared-IsDecision
            (λ k c.
              has_keys-contains (sorted required_fields) d there k (contains-sorted_required k ∙ c))
            (λ k c.
              sym (contains-schema_properties sid owners states k)
              ∙ minus_nil (keys d) (keys (schema_properties sid owners states)) k closed c)
            u (accepts_properties-Declared (schema_properties sid owners states) d declared)),
  )
    where
      blank_not : (s : String) → is_blank s ≡ false → is_text (str s) ≡ true
      blank_not s h = ground arith
