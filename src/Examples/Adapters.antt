-- ===== src/Examples/Adapters.antt =====
-- A contact who is written to, and who opts out. The encoding is the entity's identifier, and the
-- digest is the text itself.
use polsia_build.Common.{String, [], ap, arith, inl, none, refl, some, true, ◌==◌, ◌∷◌, ◌≡◌, ◌⊎◌}
use polsia_build.Adapters.Accounts.{IsAccounted, Steps-IsAccounted}
use polsia_build.Adapters.Execute.{
  SyntheticAdapter, check_eligible, execute, lost_receipt, read_execution, signature_of, slot_of,
}
use polsia_build.Adapters.Governed.{bound_adapter, perform-again}
use polsia_build.Adapters.Guarded.{HasNoEffect, IsEffect, IsKept, execute-effects}
use polsia_build.Adapters.Inbound.{receive_delivery-again}
use polsia_build.Adapters.Later.{Steps-IsLater}
use polsia_build.Adapters.OptOut.{execute-opted_out}
use polsia_build.Adapters.Replay.{execute-again, execute-lost_receipt, execute-reused}
use polsia_build.Adapters.Steps.{IsLater, executed, received, still}
use polsia_build.Adapters.Tables.{assign}
use polsia_build.Adapters.World.{
  Libraries, SyntheticWorld, entity_of, fingerprint, input_ref, receive, ref,
}
use polsia_build.Coordinator.Action.{cleared, perform, take_receipt}
use polsia_build.Coordinator.Inputs.{Runtime}
use polsia_build.Coordinator.Native.{CapabilityRequest, Native, returned}
use polsia_build.Coordinator.Ruling.{undecided}
use polsia_build.Examples.Coordinator.{email_decision}
use polsia_build.Examples.Data.{naturals}
use polsia_build.Raises.{ErrorKind, Message, Result, capability_error, err, ok, raised, text}
use polsia_build.Value.{Fields, Value, as_dict, as_str, bool, end, field, get, obj, str}

abbrev encode : Value → Result String
encode v = elim (as_dict v) [
  | none ↦ ok "null"
  | some d ↦ elim (as_str (get d "entity")) [ none ↦ ok "facts" | some s ↦ ok s ]
]

abbrev tools : Libraries
tools = record { sandbox_mode = true; dumps = encode; sha256 = λ s. s }

abbrev consenting : Fields
consenting = field "consent_verified" (bool true) end

abbrev world : SyntheticWorld
world = record {
  run_id = "run-1";
  frozen_at = "2025-01-01T00:00:00+00:00";
  is_aware = true;
  contacts = ("42", consenting) ∷ ("43", consenting) ∷ [];
  customers = [];
  leads = [];
  payments = [];
  replies = [];
  outcomes = [];
  receipts = [];
  inbound = [];
  fail_once = [];
  after_effect_once = [];
}

abbrev mail : String → SyntheticAdapter
mail entity = record { kind = "mail"; entity_id = entity }

abbrev sent : Result String × SyntheticWorld
sent = execute tools (mail "42") (obj email_decision) "k-1" world

abbrev mail_ref : String
mail_ref = ref tools world "mail" "k-1"

mail_sent : sent ≡ (ok mail_ref, sent.1)
unfolding execute fingerprint check_eligible
mail_sent = refl

abbrev stop : Value
stop = obj (field "entity_id" (str "42") end)

abbrev stopped : Result String × SyntheticWorld
stopped = receive tools "opt_out" "m-1" stop world

abbrev stop_ref : String
stop_ref = input_ref tools world "opt_out" "m-1"

stop_taken : stopped ≡ (ok stop_ref, stopped.1)
unfolding receive entity_of fingerprint
stop_taken = refl

abbrev failing_world : SyntheticWorld
failing_world = record world { after_effect_once = slot_of (mail "42") "k-1" ∷ [] }

abbrev lost : Result String × SyntheticWorld
lost = execute tools (mail "42") (obj email_decision) "k-1" failing_world

-- The effect is there, the receipt is not.
receipt_lost : lost.0 ≡ err lost_receipt
unfolding execute fingerprint check_eligible
receipt_lost = refl

execute-effects_example :
    IsKept world sent.1
    × (HasNoEffect world sent.1
        ⊎ IsEffect tools (mail "42") (obj email_decision) "k-1" world sent.1)
execute-effects_example = execute-effects tools (mail "42") (obj email_decision) "k-1" world

execute-again_example :
    execute tools (mail "42") (obj email_decision) "k-1" sent.1 ≡ (ok mail_ref, sent.1)
execute-again_example =
    execute-again tools (mail "42") (obj email_decision) "k-1" mail_ref world sent.1 sent.1
      mail_sent still

lost-IsEffect : IsEffect tools (mail "42") (obj email_decision) "k-1" failing_world lost.1
unfolding signature_of fingerprint read_execution check_eligible assign execute
lost-IsEffect = record {
  decision = email_decision;
  signature = "42";
  sandboxed = refl;
  is_dict = refl;
  signed = refl;
  read = refl;
  unused = refl;
  eligible = refl;
  outcomes = refl;
  receipts = refl;
}

execute-lost_receipt_example :
    execute tools (mail "42") (obj email_decision) "k-1" lost.1
    ≡ (ok (ref tools failing_world "mail" "k-1"), lost.1)
execute-lost_receipt_example =
    execute-lost_receipt tools (mail "42") (obj email_decision) "k-1" failing_world lost.1
      lost-IsEffect still

mail_read : read_execution tools (mail "42") (obj email_decision) "k-1" ≡ ok (email_decision, "42")
unfolding read_execution fingerprint
mail_read = refl

other_read : read_execution tools (mail "43") (obj email_decision) "k-1" ≡ ok (email_decision, "43")
unfolding read_execution fingerprint
other_read = refl

execute-reused_example : execute tools (mail "43") (obj email_decision) "k-1" sent.1 ≡ (
  err (raised capability_error (text "adapter key reused for different native decision")),
  sent.1,
)
execute-reused_example =
    execute-reused tools (mail "42") (mail "43") (obj email_decision) (obj email_decision) "k-1"
      mail_ref email_decision "42" "43" email_decision world sent.1 sent.1 mail_sent mail_read still
      refl other_read (λ h. absurd (ground (arith, ap (λ s. s == "43") h)))

receive_delivery-again_example :
    receive tools "opt_out" "m-1" stop stopped.1 ≡ (ok stop_ref, stopped.1)
receive_delivery-again_example =
    receive_delivery-again tools "opt_out" "m-1" stop_ref stop world stopped.1 stopped.1 stop_taken
      still

execute-opted_out_example :
    HasNoEffect stopped.1 (execute tools (mail "42") (obj email_decision) "k-1" stopped.1).1
execute-opted_out_example =
    execute-opted_out tools "opt_out" "m-1" stop_ref stop (obj email_decision)
      (field "entity_id" (str "42") end) "k-1" (mail "42") world stopped.1 stopped.1 refl (inl refl)
      refl refl stop_taken still refl

Steps-IsAccounted_example :
    IsAccounted tools (execute tools (mail "42") (obj email_decision) "k-1" world).1
Steps-IsAccounted_example =
    Steps-IsAccounted tools refl refl (executed (mail "42") (obj email_decision) "k-1" still)

Steps-IsLater_example : IsLater world (receive tools "opt_out" "m-1" stop world).1
Steps-IsLater_example = Steps-IsLater tools (received "opt_out" "m-1" stop still)

abbrev mail_request : CapabilityRequest
mail_request = record {
  name = "email";
  phase = "execute";
  requested_use = str "outreach";
  requested_scope = str "leads";
}

abbrev mail_native : Native
mail_native = record {
  action = "contact_lead";
  risk_level = "GREEN";
  state_after = "new";
  agent_type = "sales";
  handoff_to = "sales";
  policy_intent = end;
  integration = some mail_request;
}

abbrev named : ErrorKind → String
named k = "SyntheticCapabilityError"

abbrev shown : Message → String
shown m = "..."

abbrev mailing : Runtime SyntheticWorld
mailing = record {
  sandbox_mode = true;
  decimals = naturals;
  invalid = λ schema payload. none;
  repr = λ v. "...";
  render = shown;
  event_id = "e-1";
  occurred_at = "2025-01-01T00:00:00+00:00";
  decide = λ input w. (returned (obj email_decision), w);
  synthetic_adapters = λ name. some (bound_adapter tools named shown (mail "42"));
}

perform-again_example :
    (perform mailing email_decision "k-1" (cleared mail_native undecided) world
      ≡ (take_receipt mail_native undecided (returned (str mail_ref)), sent.1))
    × (perform mailing email_decision "k-1" (cleared mail_native undecided) sent.1
        ≡ (take_receipt mail_native undecided (returned (str mail_ref)), sent.1))
perform-again_example =
    perform-again tools named shown mailing (mail "42") email_decision "k-1" mail_ref mail_native
      undecided mail_request world sent.1 sent.1 refl refl mail_sent still
