-- ===== src/Adapters/World.antt =====
-- The world of a sandbox run and what comes into it: `SyntheticWorld` of
-- app/services/company_os_synthetic_adapters.py.
use Prim.Native.String.{slice}
use polsia_build.Common.{
  Bool, List, String, [], contains, false, if◌then◌else◌, is_empty, is_none, none, not, some, true,
  ◌&&◌, ◌==◌, ◌||◌, ◌∷◌,
}
use polsia_build.Adapters.Tables.{Slot, add, assign, lookup, same_name, same_slot}
use polsia_build.Approvals.Resume.{found}
use polsia_build.Raises.{
  ErrorKind, Result, capability_error, err, ok, or_raise, other, raise_if, raised, text, type_error,
  value_error, ◌>>=◌, ◌>>◌,
}
use polsia_build.Value.{Fields, Value, as_dict, bool, get, is_true, obj, set_item}
use polsia_build.Value.Text.{concat}
use polsia_build.Workflow.{as_nonempty}

-- The settings and the libraries: `json.dumps(v, sort_keys=True, separators=(",", ":"),
-- allow_nan=False)`, which raises on what JSON does not hold, and `sha256(s.encode()).hexdigest()`.
pub record Libraries : Type 0 where
  pub sandbox_mode : Bool
  pub dumps : Value → Result String
  pub sha256 : String → String

pub record SyntheticWorld : Type 0 where
  pub run_id : String
  -- `frozen_at.isoformat()`, and whether the clock has a time zone
  pub frozen_at : String
  pub is_aware : Bool
  pub contacts : List (String × Fields)
  pub customers : List (String × Fields)
  pub leads : List (String × Fields)
  pub payments : List (String × Fields)
  pub replies : List (String × Fields)
  pub outcomes : List (String × Fields)
  pub receipts : List (Slot × (String × String))
  pub inbound : List (Slot × String)
  pub fail_once : List Slot
  pub after_effect_once : List Slot

abbrev pub refuse : Bool → String → Result (Unit {0})
refuse b m = raise_if b capability_error (text m)

-- `__post_init__`
unfoldable pub post_init : SyntheticWorld → Result SyntheticWorld
post_init w = do
  refuse (is_empty w.run_id || not w.is_aware) "run ID and timezone-aware frozen clock required"
  ok w

unfoldable pub guard : Libraries → Result (Unit {0})
guard lib = refuse (not lib.sandbox_mode) "sandbox mode required"

unfoldable pub ref : Libraries → SyntheticWorld → String → String → String
ref lib w category key =
    let digest = slice (lib.sha256 (concat (w.run_id ∷ ":" ∷ category ∷ ":" ∷ key ∷ []))) 0 24 in
    concat ("sandbox://" ∷ w.run_id ∷ "/" ∷ category ∷ "/" ∷ digest ∷ [])

abbrev is_unencodable : ErrorKind → Bool
is_unencodable type_error = true
is_unencodable value_error = true
is_unencodable (other class) = class == "OverflowError"
is_unencodable _ = false

unfoldable pub fingerprint : Libraries → Value → Result String
fingerprint lib v = elim (lib.dumps v) [
  | ok encoded ↦ ok (lib.sha256 encoded)
  | err e ↦
      if is_unencodable e.kind
      then err (raised capability_error (text "synthetic facts must be JSON compatible"))
      else err e
]

abbrev pub channels : List String
channels = "reply" ∷ "opt_out" ∷ "lead" ∷ "payment" ∷ "authority" ∷ []

-- The reference of a delivery.
abbrev pub input_ref : Libraries → SyntheticWorld → String → String → String
input_ref lib w channel id = ref lib w "input" (concat (channel ∷ ":" ∷ id ∷ []))

-- What the facts of a delivery are about.
unfoldable pub entity_of : SyntheticWorld → String → Fields → Result String
entity_of w channel facts = do
  entity ←
      or_raise (as_nonempty (get facts "entity_id")) capability_error
        (text "inbound entity ID required")
  refuse
      ((channel == "reply" || channel == "opt_out") && is_none (lookup same_name entity w.contacts))
      "unknown contact"
  ok entity

-- `contacts[entity_id]["suppressed"] = True`, for a contact that there is.
unfoldable pub mark_suppressed : String → List (String × Fields) → List (String × Fields)
mark_suppressed entity contacts = elim (lookup same_name entity contacts) [
  | none ↦ contacts
  | some contact ↦ assign same_name contacts entity (set_item contact "suppressed" (bool true))
]

abbrev pub suppress : String → SyntheticWorld → SyntheticWorld
suppress entity w = record w { contacts = mark_suppressed entity w.contacts }

-- What a new delivery does to the tables.
unfoldable pub admit : String → String → String → Fields → SyntheticWorld → SyntheticWorld
unfolding mark_suppressed
admit channel id entity facts w =
    if channel == "authority"
    then record w { customers = assign same_name w.customers entity facts }
    else if channel == "lead"
    then record w { leads = assign same_name w.leads entity facts }
    else if channel == "payment"
    then record w { payments = assign same_name w.payments entity facts }
    else let replied = record w { replies = assign same_name w.replies id facts } in
      if channel == "opt_out" || is_true (get facts "opt_out")
      then suppress entity replied
      else replied

-- A delivery that was taken in before.
unfoldable pub receive_again :
    Libraries → SyntheticWorld → String → String → Fields → String → Result String
receive_again lib w channel id facts known = do
  found ← fingerprint lib (obj facts)
  refuse (not (known == found)) "inbound delivery ID reused with different facts"
  ok (input_ref lib w channel id)

unfoldable pub receive_new :
    Libraries → SyntheticWorld → String → String → Fields → Result String × SyntheticWorld
receive_new lib w channel id facts = elim (entity_of w channel facts) [
  | err e ↦ (err e, w)
  | ok entity ↦
      let w' = admit channel id entity facts w in
      elim (fingerprint lib (obj facts)) [
        | err e ↦ (err e, w')
        | ok found ↦ (
          ok (input_ref lib w channel id),
          record w' {
            inbound = assign same_slot w'.inbound (record { kind = channel; key = id }) found;
          },
        )
      ]
]

-- The arguments of a delivery, checked.
unfoldable pub read_delivery : Libraries → String → String → Value → Result Fields
unfolding guard
read_delivery lib channel id facts = do
  guard lib
  refuse (not (contains channels channel)) "unknown inbound channel"
  refuse (is_empty id) "inbound ID and facts required"
  or_raise (as_dict facts) capability_error (text "inbound ID and facts required")

unfoldable pub receive :
    Libraries → String → String → Value → SyntheticWorld → Result String × SyntheticWorld
unfolding receive_again receive_new read_delivery
receive lib channel id facts w = elim (read_delivery lib channel id facts) [
  | err e ↦ (err e, w)
  | ok d ↦ elim (lookup same_slot (record { kind = channel; key = id }) w.inbound) [
    | some known ↦ (receive_again lib w channel id d known, w)
    | none ↦ receive_new lib w channel id d
  ]
]

unfoldable pub inject_failure :
    Libraries → String → String → Bool → SyntheticWorld → Result (Unit {0}) × SyntheticWorld
unfolding guard
inject_failure lib adapter key after_effect w =
    let slot : Slot = record { kind = adapter; key = key } in
    elim (guard lib) [
      | err e ↦ (err e, w)
      | ok _ ↦ (
        ok tt,
        if after_effect
            then record w { after_effect_once = add w.after_effect_once slot }
            else record w { fail_once = add w.fail_once slot },
      )
    ]
