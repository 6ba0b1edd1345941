-- ===== src/Contract/Errors.antt =====
-- How the validator fails.
use polsia_build.Common.{
  Bool-cases, List, Option, String, ap, arith, contains, false, inl, inr, is_some, refl, subst, sym,
  true, ◌==◌, ◌||◌, ◌∙◌, ◌≡◌, ◌⊎◌,
}
use polsia_build.Contract.{
  check_choices, check_fields, check_keys, check_lists, check_texts, optional_fields,
  required_fields, validate_stage1_decision,
}
use polsia_build.Contract.Decision.{
  Among, IsDecision, check_keys_complete, check_keys_lem, check_texts_lem, is_text, present,
  validate_stage1_decision_iff,
}
use polsia_build.Raises.{
  Exception, Result, contract_error, err, ok, ok_or_err, raised, text, type_error,
}
use polsia_build.Value.{Fields, Value, find, get, hashable, keys, null, obj, set_item}
use polsia_build.Value.Laws.{find-contains, find-set_item}

-- A check raises nothing but contract errors.
abbrev OnlyContract : Result (Unit {0}) → Type 0
OnlyContract (ok _) = Unit
OnlyContract (err e) = e.kind ≡ contract_error

module _ (d : Fields) where
  check_keys-OnlyContract : OnlyContract (check_keys d)
  unfolding check_keys
  check_keys-OnlyContract = ground arith

  check_texts-OnlyContract :
      (scenario_id : String)
      → is_some (find "scenario_id" d) ≡ true
      → is_some (find "action" d) ≡ true
      → is_some (find "state" d) ≡ true
      → is_some (find "handoff_to" d) ≡ true
      → OnlyContract (check_texts d scenario_id)
  unfolding check_texts
  check_texts-OnlyContract sid p q r s = ground arith

  check_choices-OnlyContract :
      (owners states : Option (List String))
      → is_some (find "handoff_to" d) ≡ true
      → is_some (find "state" d) ≡ true
      → is_some (find "risk_level" d) ≡ true
      → is_some (find "founder_approval" d) ≡ true
      → hashable (get d "risk_level") ≡ true
      → OnlyContract (check_choices d owners states)
  unfolding check_choices
  check_choices-OnlyContract owners states p q r s t = ground arith

  check_lists-OnlyContract :
      is_some (find "actions_taken" d) ≡ true
      → is_some (find "actions_proposed" d) ≡ true
      → is_some (find "assumptions" d) ≡ true
      → OnlyContract (check_lists d)
  unfolding check_lists
  check_lists-OnlyContract p q r = ground arith

  -- The keys were checked first, so no later check raises `KeyError`; a risk level that is a list or
  -- a dict is the one thing that makes a check raise another error.
  check_fields-OnlyContract :
      (scenario_id : String) (owners states : Option (List String))
      → hashable (get d "risk_level") ≡ true
      → OnlyContract (check_fields d scenario_id owners states)
  unfolding check_fields
  check_fields-OnlyContract sid owners states h = elim (ok_or_err (check_keys d)) [
    | inl (_, k) ↦
        let there = present d sid owners states (check_keys_complete d sid owners states k) in
        ground (
          arith,
          check_texts-OnlyContract sid (there "scenario_id" refl) (there "action" refl)
              (there "state" refl) (there "handoff_to" refl),
          check_choices-OnlyContract owners states (there "handoff_to" refl) (there "state" refl)
              (there "risk_level" refl) (there "founder_approval" refl) h,
          check_lists-OnlyContract (there "actions_taken" refl) (there "actions_proposed" refl)
              (there "assumptions" refl),
        )
    | inr (e, q) ↦ rw q (rw q at (check_keys-OnlyContract))
  ]

-- A payload whose risk level can be hashed is returned or refused with a contract error.
pub validate_stage1_decision_errors :
    (payload : Value) (scenario_id : String) (owners states : Option (List String)) {e : Exception}
    → validate_stage1_decision payload scenario_id owners states ≡ err e
    → (e.kind ≡ contract_error)
      ⊎ ((d : Fields) × (payload ≡ obj d) × (hashable (get d "risk_level") ≡ false))
unfolding validate_stage1_decision
validate_stage1_decision_errors (obj d) sid owners states h =
    elim (Bool-cases (hashable (get d "risk_level"))) [
      | inl t ↦ inl (ground (arith, check_fields-OnlyContract d sid owners states t))
      | inr f ↦ inr (d, refl, f)
    ]
validate_stage1_decision_errors null sid owners states h = inl (ground arith)
validate_stage1_decision_errors _ sid owners states h = inl (ground arith)

module _ (d : Fields) (v : Value) where
  abbrev changed : Fields
  changed = set_item d "risk_level" v

  contains-changed :
      (k : String) → contains (keys changed) k ≡ (k == "risk_level" || contains (keys d) k)
  contains-changed k =
      sym (find-contains changed k)
      ∙ ap (λ (o : Option Value). is_some o) (find-set_item d "risk_level" k v)
      ∙ ground (arith, find-contains d k)

  get-changed : (k : String) → (k == "risk_level") ≡ false → get changed k ≡ get d k
  get-changed k h = ground (arith, find-set_item d "risk_level" k v)

  check_choices-unhashable :
      (owners states : Option (List String)) (c : Fields)
      → is_some (find "handoff_to" c) ≡ true
      → is_some (find "state" c) ≡ true
      → is_some (find "risk_level" c) ≡ true
      → Among owners (get c "handoff_to")
      → Among states (get c "state")
      → hashable (get c "risk_level") ≡ false
      → check_choices c owners states ≡ err (raised type_error (text "unhashable type"))
  unfolding check_choices
  check_choices-unhashable owners states c p q r a b h = ground arith

  module _ (sid : String) (owners states : Option (List String))
      (r : IsDecision d sid owners states) where
    changed_complete :
        (k : String) → contains required_fields k ≡ true → contains (keys changed) k ≡ true
    changed_complete k h = ground (arith, contains-changed k, r.complete k h)

    changed-closed :
        (k : String)
        → contains (keys changed) k ≡ true
        → (contains required_fields k || contains optional_fields k) ≡ true
    changed-closed k h = elim (Bool-cases (k == "risk_level")) [
      | inl t ↦ ground arith
      | inr f ↦ r.closed k (ground (arith, contains-changed k))
    ]

    check_texts-changed : check_texts changed sid ≡ ok tt
    check_texts-changed = (check_texts_lem changed sid owners states).1 (
      get-changed "scenario_id" refl ∙ r.same_scenario,
      r.scenario_text,
      ap is_text (get-changed "action" refl) ∙ r.action_text,
      ap is_text (get-changed "state" refl) ∙ r.state_text,
      ap is_text (get-changed "handoff_to" refl) ∙ r.owner_text,
    )

    check_fields-changed :
        hashable v ≡ false
        → check_fields changed sid owners states ≡ err (raised type_error (text "unhashable type"))
    unfolding check_fields
    check_fields-changed h =
        let there = present changed sid owners states changed_complete in
        let risk : get changed "risk_level" ≡ v =
          ground (arith, find-set_item d "risk_level" "risk_level" v) in
        rw
          (
            check_keys_lem changed sid owners states changed_complete changed-closed,
            check_texts-changed,
            check_choices-unhashable owners states changed (there "handoff_to" refl)
                (there "state" refl) (there "risk_level" refl)
                (subst (Among owners) (sym (get-changed "handoff_to" refl)) r.canonical_owner)
                (subst (Among states) (sym (get-changed "state" refl)) r.canonical_state)
                (ap hashable risk ∙ h),
          )
          refl

-- If the risk level of any accepted decision is replaced by a value that cannot be hashed, a list or a
-- dict, the call with the same arguments raises `TypeError`, which is no contract error.
pub validate_stage1_decision_unhashable :
    (d : Fields) (v : Value) (scenario_id : String) (owners states : Option (List String))
    → validate_stage1_decision (obj d) scenario_id owners states ≡ ok (obj d)
    → hashable v ≡ false
    → validate_stage1_decision (obj (set_item d "risk_level" v)) scenario_id owners states
      ≡ err (raised type_error (text "unhashable type"))
unfolding validate_stage1_decision
validate_stage1_decision_unhashable d v sid owners states h n =
    rw
      (check_fields-changed d v sid owners states
        ((validate_stage1_decision_iff d sid owners states).0 h) n)
      refl
