-- ===== src/Adapters/Later.antt =====
-- What the operations of app/services/company_os_synthetic_adapters.py keep: receipts, deliveries and
-- suppressions, once made, stay.
use polsia_build.Common.{Bool, Bool-cases, String, ap, arith, inl, inr, subst, sym, ◌∙◌, ◌≡◌}
use polsia_build.Adapters.Execute.{SyntheticAdapter, execute, has_flag, slot_of}
use polsia_build.Adapters.Guarded.{execute-effects}
use polsia_build.Adapters.Steps.{
  IsLater, Steps, admit-contacts, admit-kept, executed, has_flag-mark_suppressed, ignored, injected,
  receive-Intake, kept_apart, IsLater-self, received, still, taken, torn,
}
use polsia_build.Adapters.Tables.{lookup, same_slot}
use polsia_build.Adapters.World.{
  Libraries, SyntheticWorld, admit, guard, inject_failure, receive, ref,
}
use polsia_build.Raises.{ok_or_err}
use polsia_build.Value.{Fields, Value}

admit-IsLater :
    (channel id entity : String) (facts : Fields) (w : SyntheticWorld)
    → IsLater w (admit channel id entity facts w)
admit-IsLater channel id entity facts w =
    let (run, receipts, _, inbound) = admit-kept channel id entity facts w in
    record {
      run_id = run;
      receipts = λ s p h. ap (lookup same_slot s) receipts ∙ h;
      inbound = λ s p h. ap (lookup same_slot s) inbound ∙ h;
      suppressed = λ e h. elim (admit-contacts channel id entity facts w) [
        | inl q ↦ ap (has_flag e "suppressed") q ∙ h
        | inr q ↦ ap (has_flag e "suppressed") q ∙ has_flag-mark_suppressed e entity w.contacts h
      ];
    }

receive-IsLater :
    (lib : Libraries) (channel id : String) (facts : Value) (w : SyntheticWorld)
    → IsLater w (receive lib channel id facts w).1
receive-IsLater lib channel id facts w = elim (receive-Intake lib channel id facts w) [
  | ignored q ↦ subst (IsLater w) (sym q) (IsLater-self w)
  | torn entity d q ↦ subst (IsLater w) (sym q) (admit-IsLater channel id entity d w)
  | taken entity seen d free q ↦
      let l = admit-IsLater channel id entity d w in
      let (_, _, _, same) = admit-kept channel id entity d w in
      subst (IsLater w) (sym q) (record {
        run_id = l.run_id;
        receipts = l.receipts;
        inbound = λ s p h.
            kept_apart (admit channel id entity d w).inbound s (record { kind = channel; key = id })
              seen p (ap (lookup same_slot (record { kind = channel; key = id })) same ∙ free)
              (l.inbound s p h);
        suppressed = l.suppressed;
      })
]

inject_failure-IsLater :
    (lib : Libraries) (adapter key : String) (after_effect : Bool) (w : SyntheticWorld)
    → IsLater w (inject_failure lib adapter key after_effect w).1
unfolding inject_failure
inject_failure-IsLater lib adapter key after_effect w = elim (ok_or_err (guard lib)) [
  | inr (e, f) ↦ subst (IsLater w) (ground arith) (IsLater-self w)
  | inl (_, f) ↦ elim (Bool-cases after_effect) [
    | inl t ↦ marked (ground arith) (ground arith) (ground arith) (ground arith)
    | inr t ↦ marked (ground arith) (ground arith) (ground arith) (ground arith)
  ]
]
  where
    marked :
        {w w' : SyntheticWorld}
        → w'.run_id ≡ w.run_id
        → w'.receipts ≡ w.receipts
        → w'.inbound ≡ w.inbound
        → w'.contacts ≡ w.contacts
        → IsLater w w'
    marked run receipts inbound contacts = record {
      run_id = run;
      receipts = λ s p h. ap (lookup same_slot s) receipts ∙ h;
      inbound = λ s p h. ap (lookup same_slot s) inbound ∙ h;
      suppressed = λ e h. ap (has_flag e "suppressed") contacts ∙ h;
    }

pub inject_failure-kept :
    (lib : Libraries) (adapter key : String) (after_effect : Bool) (w : SyntheticWorld)
    → ((inject_failure lib adapter key after_effect w).1.run_id ≡ w.run_id)
      × ((inject_failure lib adapter key after_effect w).1.receipts ≡ w.receipts)
      × ((inject_failure lib adapter key after_effect w).1.outcomes ≡ w.outcomes)
unfolding inject_failure
inject_failure-kept lib adapter key after_effect w = elim (ok_or_err (guard lib)) [
  | inr (e, f) ↦ ground arith
  | inl (_, f) ↦ ground arith
]

-- A delivery changes no receipt and no outcome.
pub receive-kept :
    (lib : Libraries) (channel id : String) (facts : Value) (w : SyntheticWorld)
    → ((receive lib channel id facts w).1.run_id ≡ w.run_id)
      × ((receive lib channel id facts w).1.receipts ≡ w.receipts)
      × ((receive lib channel id facts w).1.outcomes ≡ w.outcomes)
receive-kept lib channel id facts w = elim (receive-Intake lib channel id facts w) [
  | ignored q ↦ ground (arith, q)
  | torn entity d q ↦
      let (run, receipts, outcomes, _) = admit-kept channel id entity d w in
      subst Same (sym q) (run, receipts, outcomes)
  | taken entity seen d free q ↦
      let (run, receipts, outcomes, _) = admit-kept channel id entity d w in
      subst Same (sym q) (run, receipts, outcomes)
]
  where
    Same : SyntheticWorld → Type 0
    Same w' = (w'.run_id ≡ w.run_id) × (w'.receipts ≡ w.receipts) × (w'.outcomes ≡ w.outcomes)

pub execute-IsLater :
    (lib : Libraries) (a : SyntheticAdapter) (v : Value) (key : String) (w : SyntheticWorld)
    → IsLater w (execute lib a v key w).1
execute-IsLater lib a v key w =
    let (kept, effect) = execute-effects lib a v key w in
    record {
      run_id = kept.run_id;
      receipts = λ s p h. elim effect [
        | inl (_, same) ↦ ap (lookup same_slot s) same ∙ h
        | inr e ↦
            ap (lookup same_slot s) e.receipts
            ∙ kept_apart w.receipts s (slot_of a key) (e.signature, ref lib w a.kind key) p e.unused
                h
      ];
      inbound = λ s p h. ap (lookup same_slot s) kept.inbound ∙ h;
      suppressed = λ e h. ap (has_flag e "suppressed") kept.contacts ∙ h;
    }

IsLater-trans : {w w' w'' : SyntheticWorld} → IsLater w w' → IsLater w' w'' → IsLater w w''
IsLater-trans l m = record {
  run_id = m.run_id ∙ l.run_id;
  receipts = λ s p h. m.receipts s p (l.receipts s p h);
  inbound = λ s p h. m.inbound s p (l.inbound s p h);
  suppressed = λ e h. m.suppressed e (l.suppressed e h);
}

-- A receipt, the record of a delivery and a contact's suppression stay, whatever happens.
pub Steps-IsLater : (lib : Libraries) {w w' : SyntheticWorld} → Steps lib w w' → IsLater w w'
Steps-IsLater lib {w} still = IsLater-self w
Steps-IsLater lib (received {w'} channel id facts s) =
    IsLater-trans (Steps-IsLater lib s) (receive-IsLater lib channel id facts w')
Steps-IsLater lib (injected {w'} adapter key after_effect s) =
    IsLater-trans (Steps-IsLater lib s) (inject_failure-IsLater lib adapter key after_effect w')
Steps-IsLater lib (executed {w'} a v key s) =
    IsLater-trans (Steps-IsLater lib s) (execute-IsLater lib a v key w')
