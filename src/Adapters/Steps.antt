-- ===== src/Adapters/Steps.antt =====
-- What happens to a world: deliveries, injected failures and calls of adapters, in any order.
-- app/services/company_os_synthetic_adapters.py.
use polsia_build.Common.{
  Bool, Bool-cases, List, Option-cases, String, ap, arith, eq_iff, false, inl, inr, is_none, none,
  refl, some, sym, true, ◌∙◌, ◌≡◌, ◌⊎◌,
}
use polsia_build.Adapters.Execute.{SyntheticAdapter, execute, has_flag}
use polsia_build.Adapters.Tables.{
  Slot, assign, lookup, lookup-assign, same_name, same_slot, same_slot_iff,
}
use polsia_build.Adapters.World.{
  Libraries, SyntheticWorld, admit, entity_of, fingerprint, inject_failure, mark_suppressed,
  read_delivery, receive, receive_new,
}
use polsia_build.Raises.{Result, ok_or_err}
use polsia_build.Value.{Fields, Value, bool, obj, set_item}
use polsia_build.Value.Laws.{find-set_item}

pub data Steps (lib : Libraries) (w : SyntheticWorld) : SyntheticWorld → Type 0 where
  still : Steps lib w w
  received :
      {w' : SyntheticWorld} (channel id : String) (facts : Value)
      → Steps lib w w'
      → Steps lib w (receive lib channel id facts w').1
  injected :
      {w' : SyntheticWorld} (adapter key : String) (after_effect : Bool)
      → Steps lib w w'
      → Steps lib w (inject_failure lib adapter key after_effect w').1
  executed :
      {w' : SyntheticWorld} (a : SyntheticAdapter) (v : Value) (key : String)
      → Steps lib w w'
      → Steps lib w (execute lib a v key w').1

pub admit-kept :
    (channel id entity : String) (facts : Fields) (w : SyntheticWorld)
    → ((admit channel id entity facts w).run_id ≡ w.run_id)
      × ((admit channel id entity facts w).receipts ≡ w.receipts)
      × ((admit channel id entity facts w).outcomes ≡ w.outcomes)
      × ((admit channel id entity facts w).inbound ≡ w.inbound)
unfolding admit
admit-kept channel id entity facts w = ground arith

-- The contacts after a delivery: as before, or one of them suppressed.
pub admit-contacts :
    (channel id entity : String) (facts : Fields) (w : SyntheticWorld)
    → ((admit channel id entity facts w).contacts ≡ w.contacts)
      ⊎ ((admit channel id entity facts w).contacts ≡ mark_suppressed entity w.contacts)
unfolding admit
admit-contacts channel id entity facts w = ground arith

-- The ways that a delivery goes: it changes nothing, it changes the facts and raises, or it is taken.
pub data Intake (lib : Libraries) (channel id : String) (facts : Value) (w : SyntheticWorld)
    : Type 0 where
  ignored : (receive lib channel id facts w).1 ≡ w → Intake lib channel id facts w
  torn :
      (entity : String) (d : Fields)
      → (receive lib channel id facts w).1 ≡ admit channel id entity d w
      → Intake lib channel id facts w
  taken :
      (entity seen : String) (d : Fields)
      → lookup same_slot (record { kind = channel; key = id }) w.inbound ≡ none
      → (receive lib channel id facts w).1 ≡ record (admit channel id entity d w) {
        inbound =
            assign same_slot
              (admit channel id entity d w).inbound
              (record { kind = channel; key = id })
              seen;
      }
      → Intake lib channel id facts w

receive_new-Intake :
    (lib : Libraries) (channel id : String) (facts : Value) (w : SyntheticWorld) (d : Fields)
    → lookup same_slot (record { kind = channel; key = id }) w.inbound ≡ none
    → receive lib channel id facts w ≡ receive_new lib w channel id d
    → Intake lib channel id facts w
unfolding receive_new
receive_new-Intake lib channel id facts w d free same = elim (ok_or_err (entity_of w channel d)) [
  | inr (e, f) ↦ ignored (ap (λ (t : Result String × SyntheticWorld). t.1) same ∙ ground arith)
  | inl (entity, f) ↦ elim (ok_or_err (fingerprint lib (obj d))) [
    | inr (e, g) ↦
        torn entity d (ap (λ (t : Result String × SyntheticWorld). t.1) same ∙ ground arith)
    | inl (seen, g) ↦
        taken entity seen d free
          (ap (λ (t : Result String × SyntheticWorld). t.1) same ∙ ground arith)
  ]
]

pub receive-Intake :
    (lib : Libraries) (channel id : String) (facts : Value) (w : SyntheticWorld)
    → Intake lib channel id facts w
unfolding receive
receive-Intake lib channel id facts w = elim (ok_or_err (read_delivery lib channel id facts)) [
  | inr (e, f) ↦ ignored (ground arith)
  | inl (d, f) ↦
      elim (Option-cases (lookup same_slot (record { kind = channel; key = id }) w.inbound)) [
        | inr (known, g) ↦ ignored (ground arith)
        | inl g ↦ receive_new-Intake lib channel id facts w d g (ground arith)
      ]
]

-- What stays of a world.
pub record IsLater (w w' : SyntheticWorld) : Type 0 where
  pub run_id : w'.run_id ≡ w.run_id
  pub receipts :
      (s : Slot) (p : String × String)
      → lookup same_slot s w.receipts ≡ some p
      → lookup same_slot s w'.receipts ≡ some p
  pub inbound :
      (s : Slot) (seen : String)
      → lookup same_slot s w.inbound ≡ some seen
      → lookup same_slot s w'.inbound ≡ some seen
  pub suppressed :
      (entity : String)
      → has_flag entity "suppressed" w.contacts ≡ true
      → has_flag entity "suppressed" w'.contacts ≡ true

pub IsLater-self : (w : SyntheticWorld) → IsLater w w
IsLater-self w = record {
  run_id = refl;
  receipts = λ s p h. h;
  inbound = λ s x h. h;
  suppressed = λ e h. h;
}

pub kept_apart :
    {V : Type 0} (t : List (Slot × V)) (j k : Slot) (v p : V)
    → lookup same_slot k t ≡ none
    → lookup same_slot j t ≡ some p
    → lookup same_slot j (assign same_slot t k v) ≡ some p
kept_apart t j k v p free h = elim (Bool-cases (same_slot j k)) [
  | inl same ↦
      let e : j ≡ k = (same_slot_iff j k).0 same in
      absurd (ground (arith, sym h ∙ ap (λ i. lookup same_slot i t) e ∙ free))
  | inr apart ↦ lookup-assign same_slot same_slot_iff t j k v ∙ ground arith
]

pub has_flag-mark_suppressed :
    (e entity : String) (t : List (String × Fields))
    → has_flag e "suppressed" t ≡ true
    → has_flag e "suppressed" (mark_suppressed entity t) ≡ true
unfolding mark_suppressed
has_flag-mark_suppressed e entity t h = elim (Option-cases (lookup same_name entity t)) [
  | inl n ↦ ground arith
  | inr (contact, n) ↦ ground (
    arith,
    lookup-assign same_name eq_iff t e entity (set_item contact "suppressed" (bool true)),
    find-set_item contact "suppressed" "suppressed" (bool true),
  )
]

-- A contact that there is has the mark after it is set.
pub has_flag-marked :
    (entity : String) (t : List (String × Fields))
    → is_none (lookup same_name entity t) ≡ false
    → has_flag entity "suppressed" (mark_suppressed entity t) ≡ true
unfolding mark_suppressed
has_flag-marked entity t h = elim (Option-cases (lookup same_name entity t)) [
  | inl n ↦ absurd (ground arith)
  | inr (contact, n) ↦ ground (
    arith,
    (eq_iff entity entity).1 refl,
    lookup-assign same_name eq_iff t entity entity (set_item contact "suppressed" (bool true)),
    find-set_item contact "suppressed" "suppressed" (bool true),
  )
]
