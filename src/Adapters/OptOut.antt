-- ===== src/Adapters/OptOut.antt =====
-- A contact who opted out is written to no more: app/services/company_os_synthetic_adapters.py.
use polsia_build.Common.{
  Bool-cases, Option-cases, String, ap, arith, contains, eq_iff, false, inl, inr, is_empty, is_none,
  none, not, refl, some, subst, sym, true, ◌&&◌, ◌==◌, ◌||◌, ◌∙◌, ◌≡◌, ◌≢◌, ◌⊎◌,
}
use polsia_build.Adapters.Execute.{
  SyntheticAdapter, check_eligible, execute, has_flag, is_reachable,
}
use polsia_build.Adapters.Guarded.{HasNoEffect, execute-effects}
use polsia_build.Adapters.Inbound.{delivery_slot}
use polsia_build.Adapters.Later.{Steps-IsLater}
use polsia_build.Adapters.Steps.{Steps, has_flag-marked}
use polsia_build.Adapters.Tables.{lookup, same_name, same_slot}
use polsia_build.Adapters.World.{
  Libraries, SyntheticWorld, admit, channels, entity_of, fingerprint, guard, mark_suppressed,
  read_delivery, receive, receive_new,
}
use polsia_build.Approvals.Resume.{found}
use polsia_build.Raises.{
  >>=-eq-ok, capability_error, ok, ok_injective, ok_or_err, or_raise, or_raise-some, raise_if-eq-ok,
}
use polsia_build.Value.{Fields, Value, as_dict, get, is_true, obj, str}
use polsia_build.Workflow.{as_nonempty}

suppressed_unreachable :
    (e : String) (w : SyntheticWorld)
    → has_flag e "suppressed" w.contacts ≡ true
    → is_reachable e w ≡ false
suppressed_unreachable e w h = elim (Option-cases (lookup same_name e w.contacts)) [
  | inl n ↦ ground arith
  | inr (contact, n) ↦ ground arith
]

check_eligible-suppressed :
    (a : SyntheticAdapter) (w : SyntheticWorld)
    → a.kind ≡ "mail"
    → has_flag a.entity_id "suppressed" w.contacts ≡ true
    → check_eligible a w ≢ ok tt
unfolding check_eligible
check_eligible-suppressed a w mail h e =
    let no = suppressed_unreachable a.entity_id w h in
    let is_mail = (eq_iff a.kind "mail").1 mail in absurd (ground (arith, no, is_mail, e))

nonempty_same : (e found : String) → as_nonempty (str e) ≡ some found → e ≡ found
nonempty_same e found h = elim (Bool-cases (is_empty e)) [
  | inl t ↦ absurd (ground arith)
  | inr t ↦ ground arith
]

-- A delivery in which a contact opts out.
abbrev OptsOut : String → Fields → Type 0
OptsOut channel d =
    (channel ≡ "opt_out") ⊎ ((channel ≡ "reply") × (is_true (get d "opt_out") ≡ true))

OptsOut-from_contact :
    (channel : String) (d : Fields)
    → OptsOut channel d
    → (channel == "reply" || channel == "opt_out") ≡ true
OptsOut-from_contact channel d (inl e) = rw e refl
OptsOut-from_contact channel d (inr (e, t)) = rw e refl

admit-suppressed :
    (channel id entity : String) (d : Fields) (w : SyntheticWorld)
    → OptsOut channel d
    → (admit channel id entity d w).contacts ≡ mark_suppressed entity w.contacts
unfolding admit
admit-suppressed channel id entity d w (inl e) = rw e refl
admit-suppressed channel id entity d w (inr (e, t)) = rw (e, t) refl

entity_of-contact :
    (w : SyntheticWorld) (channel e entity : String) (d : Fields)
    → (channel == "reply" || channel == "opt_out") ≡ true
    → get d "entity_id" ≡ str e
    → entity_of w channel d ≡ ok entity
    → (entity ≡ e) × (is_none (lookup same_name entity w.contacts) ≡ false)
unfolding entity_of
entity_of-contact w channel e entity d speaks h q =
    let (found, named, q1) = >>=-eq-ok (or_raise (as_nonempty (get d "entity_id")) _ _) _ q in
    let (checked, q2) =
      raise_if-eq-ok
        ((channel == "reply" || channel == "opt_out")
          && is_none (lookup same_name found w.contacts))
        capability_error _ (ok found) q1 in
    let known : is_none (lookup same_name found w.contacts) ≡ false = ground arith in
    let same : found ≡ entity = ok_injective q2 in
    let read : as_nonempty (str e) ≡ some found =
      ap as_nonempty (sym h) ∙ or_raise-some (as_nonempty (get d "entity_id")) _ _ named in
    let is_e : found ≡ e = sym (nonempty_same e found read) in
    (sym same ∙ is_e, ap (λ x. is_none (lookup same_name x w.contacts)) (sym same) ∙ known)

receive_new-suppressed :
    (lib : Libraries) (channel id r e : String) (d : Fields) (w w' : SyntheticWorld)
    → OptsOut channel d
    → get d "entity_id" ≡ str e
    → receive_new lib w channel id d ≡ (ok r, w')
    → has_flag e "suppressed" w'.contacts ≡ true
unfolding receive_new
receive_new-suppressed lib channel id r e d w w' opts about h =
    elim (ok_or_err (entity_of w channel d)) [
      | inr (x, f) ↦ absurd (ground arith)
      | inl (entity, f) ↦
          let (same, known) =
            entity_of-contact w channel e entity d (OptsOut-from_contact channel d opts) about f in
          elim (ok_or_err (fingerprint lib (obj d))) [
            | inr (x, g) ↦ absurd (ground arith)
            | inl (seen, g) ↦
                let contacts : w'.contacts ≡ mark_suppressed entity w.contacts =
                  ground (arith, admit-suppressed channel id entity d w opts) in
                ap (has_flag e "suppressed") contacts
                ∙ ap (λ x. has_flag x "suppressed" (mark_suppressed entity w.contacts)) (sym same)
                ∙ has_flag-marked entity w.contacts known
          ]
    ]

receive-suppressed :
    (lib : Libraries) (channel id r e : String) (facts : Value) (d : Fields) (w w' : SyntheticWorld)
    → as_dict facts ≡ some d
    → OptsOut channel d
    → get d "entity_id" ≡ str e
    → lookup same_slot (delivery_slot channel id) w.inbound ≡ none
    → receive lib channel id facts w ≡ (ok r, w')
    → has_flag e "suppressed" w'.contacts ≡ true
unfolding receive read_delivery
receive-suppressed lib channel id r e facts d w w' dict opts about free h =
    elim (ok_or_err (read_delivery lib channel id facts)) [
      | inr (x, f) ↦ absurd (ground arith)
      | inl (read, f) ↦
          let (_, _, f1) = >>=-eq-ok (guard lib) _ f in
          let (_, f2) = raise_if-eq-ok (not (contains channels channel)) _ _ _ f1 in
          let (_, f3) = raise_if-eq-ok (is_empty id) _ _ _ f2 in
          let same : d ≡ read = some_same (sym dict ∙ or_raise-some (as_dict facts) _ _ f3) in
          receive_new-suppressed lib channel id r e read w w' (subst (OptsOut channel) same opts)
            (ap (λ x. get x "entity_id") (sym same) ∙ about) (ground arith)
    ]
  where
    some_same : {x y : Fields} → some x ≡ some y → x ≡ y
    some_same q = ground arith

-- Once a contact's opting out has been taken in, by the channel for it or by a reply that says so, no
-- call of the contact's mail adapter has an effect, whatever the decision and the key are and whatever
-- comes between.
pub execute-opted_out :
    (lib : Libraries) (channel id r : String) (facts v : Value) (d : Fields) (key : String)
    (a : SyntheticAdapter) (w w' w'' : SyntheticWorld)
    → as_dict facts ≡ some d
    → (channel ≡ "opt_out") ⊎ ((channel ≡ "reply") × (is_true (get d "opt_out") ≡ true))
    → get d "entity_id" ≡ str a.entity_id
    → lookup same_slot (delivery_slot channel id) w.inbound ≡ none
    → receive lib channel id facts w ≡ (ok r, w')
    → Steps lib w' w''
    → a.kind ≡ "mail"
    → HasNoEffect w'' (execute lib a v key w'').1
execute-opted_out lib channel id r facts v d key a w w' w'' dict opts about free gone steps mail =
    let (_, effect) = execute-effects lib a v key w'' in
    elim effect [
      | inl n ↦ n
      | inr e ↦ absurd (
          check_eligible-suppressed a w'' mail
            ((Steps-IsLater lib steps).suppressed a.entity_id (
              receive-suppressed lib channel id r a.entity_id facts d w w' dict opts about free
                gone))
            e.eligible)
    ]
