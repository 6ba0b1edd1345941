-- ===== src/Adapters/Execute.antt =====
-- `SyntheticAdapter` of app/services/company_os_synthetic_adapters.py.
use polsia_build.Common.{
  Bool, List, String, [], any, contains, false, if◌then◌else◌, is_empty, none, not, some, true,
  ◌&&◌, ◌==◌, ◌||◌, ◌∷◌,
}
use polsia_build.Adapters.Tables.{Slot, assign, holds, lookup, remove, same_name, same_slot}
use polsia_build.Adapters.World.{Libraries, SyntheticWorld, fingerprint, guard, ref, refuse}
use polsia_build.Raises.{
  Exception, Result, capability_error, err, in_set, ok, or_raise, raised, text, ◌>>=◌, ◌>>◌,
}
use polsia_build.Value.{Fields, Value, as_dict, bool, end, eq, field, get, is_true, obj, str}

pub record SyntheticAdapter : Type 0 where
  pub kind : String
  pub entity_id : String

abbrev pub kinds : List String
kinds = "mail" ∷ "calendar" ∷ "authority" ∷ "lead" ∷ "payment" ∷ []

-- `__init__`
unfoldable pub make_adapter : String → String → Result SyntheticAdapter
make_adapter kind entity_id = do
  refuse (not (contains kinds kind) || is_empty entity_id)
      "registered synthetic kind and entity required"
  ok (record { kind = kind; entity_id = entity_id })

abbrev is_confirmed : String → String × Fields → Bool
is_confirmed entity_id reply =
    eq (get reply.1 "entity_id") (str entity_id) && is_true (get reply.1 "meeting_confirmed")

-- A row that is there, and a field of it that is `True`.
abbrev pub has_flag : String → String → List (String × Fields) → Bool
has_flag entity_id flag t = elim (lookup same_name entity_id t) [
  | none ↦ false
  | some row ↦ is_true (get row flag)
]

-- Whether the contact may be written to.
abbrev pub is_reachable : String → SyntheticWorld → Bool
is_reachable entity_id w = elim (lookup same_name entity_id w.contacts) [
  | none ↦ false
  | some contact ↦
      is_true (get contact "consent_verified") && not (is_true (get contact "suppressed"))
]

unfoldable pub check_payment : String → SyntheticWorld → Result (Unit {0})
check_payment entity_id w = elim (lookup same_name entity_id w.payments) [
  | none ↦ refuse true "payment signal missing"
  | some payment ↦ in_set (get payment "status") ("paid" ∷ "failed" ∷ []) >>= λ signalled.
      refuse (not signalled) "payment signal missing"
]

-- What each kind of adapter asks of the world.
unfoldable pub check_eligible : SyntheticAdapter → SyntheticWorld → Result (Unit {0})
unfolding check_payment
check_eligible a w =
    if a.kind == "mail"
    then refuse (not (is_reachable a.entity_id w)) "synthetic contact ineligible or opted out"
    else if a.kind == "authority"
    then refuse (not (has_flag a.entity_id "authority_verified" w.customers))
        "customer authority missing"
    else if a.kind == "lead"
    then refuse (not (has_flag a.entity_id "eligible" w.leads)) "lead eligibility missing"
    else if a.kind == "payment"
    then check_payment a.entity_id w
    else if a.kind == "calendar"
    then refuse (not (any (is_confirmed a.entity_id) w.replies))
        "meeting has no authoritative confirmation"
    else ok tt

unfoldable pub outcome_of : SyntheticAdapter → Fields → SyntheticWorld → Fields
outcome_of a d w = field "kind" (str a.kind) (
    field "entity_id" (str a.entity_id) (
      field "action" (get d "action")
        (field "occurred_at" (str w.frozen_at) (field "external_side_effect" (bool false) end))))

abbrev pub slot_of : SyntheticAdapter → String → Slot
slot_of a key = record { kind = a.kind; key = key }

-- The fingerprint of what an adapter is asked to do.
unfoldable pub signature_of : Libraries → SyntheticAdapter → Fields → Result String
signature_of lib a d =
    fingerprint lib (obj (field "entity" (str a.entity_id) (field "decision" (obj d) end)))

-- The arguments of a call, checked, with the signature.
unfoldable pub read_execution :
    Libraries → SyntheticAdapter → Value → String → Result (Fields × String)
unfolding guard signature_of
read_execution lib a decision key = do
  guard lib
  let m : String = "native decision and adapter idempotency key required"
  refuse (is_empty key) m
  d ← or_raise (as_dict decision) capability_error (text m)
  signature ← signature_of lib a d
  ok (d, signature)

-- The receipt of a slot that has one.
unfoldable pub receipt_again : String → String × String → Result String
receipt_again signature previous = do
  refuse (not (previous.0 == signature)) "adapter key reused for different native decision"
  ok previous.1

-- The world after an effect.
unfoldable pub take_effect :
    Libraries → SyntheticAdapter → Fields → String → String → SyntheticWorld → SyntheticWorld
take_effect lib a d key signature w =
    let receipt = ref lib w a.kind key in
    record w {
      receipts = assign same_slot w.receipts (slot_of a key) (signature, receipt);
      outcomes = assign same_name w.outcomes receipt (outcome_of a d w);
    }

abbrev pub lost_receipt : Exception
lost_receipt = raised capability_error (text "injected receipt timeout after synthetic effect")

abbrev pub provider_failure : Exception
provider_failure = raised capability_error (text "injected synthetic provider failure")

-- A call of a slot that has no receipt, and that is not made to fail.
unfoldable pub execute_new :
    Libraries
    → SyntheticAdapter
    → Fields
    → String
    → String
    → SyntheticWorld
    → Result String × SyntheticWorld
unfolding take_effect
execute_new lib a d key signature w = elim (check_eligible a w) [
  | err e ↦ (err e, w)
  | ok _ ↦
      let w' = take_effect lib a d key signature w in
      if holds w'.after_effect_once (slot_of a key)
      then (
        err lost_receipt,
        record w' { after_effect_once = remove w'.after_effect_once (slot_of a key) },
      )
      else (ok (ref lib w a.kind key), w')
]

unfoldable pub execute :
    Libraries → SyntheticAdapter → Value → String → SyntheticWorld → Result String × SyntheticWorld
unfolding execute_new read_execution receipt_again
execute lib a decision key w = elim (read_execution lib a decision key) [
  | err e ↦ (err e, w)
  | ok (d, signature) ↦ elim (lookup same_slot (slot_of a key) w.receipts) [
    | some previous ↦ (receipt_again signature previous, w)
    | none ↦
        if holds w.fail_once (slot_of a key)
        then (err provider_failure, record w { fail_once = remove w.fail_once (slot_of a key) })
        else execute_new lib a d key signature w
  ]
]
