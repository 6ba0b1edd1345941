-- ===== src/Adapters/Accounts.antt =====
-- The accounts of a world agree: its receipts and its outcomes.
-- app/services/company_os_synthetic_adapters.py.
use polsia_build.Common.{
  Bool-cases, List, String, [], ap, arith, eq_iff, false, inl, inr, is_some, refl, some, sym, true,
  ◌==◌, ◌∙◌, ◌≡◌, ◌⊎◌,
}
use polsia_build.Adapters.Execute.{SyntheticAdapter, execute, outcome_of, slot_of}
use polsia_build.Adapters.Guarded.{IsEffect, execute-effects}
use polsia_build.Adapters.Inbound.{ref_of_run}
use polsia_build.Adapters.Later.{inject_failure-kept, receive-kept}
use polsia_build.Adapters.Steps.{Steps, executed, injected, kept_apart, received, still}
use polsia_build.Adapters.Tables.{
  Slot, assign, lookup, lookup-assign, lookup-just_assigned, same_name, same_slot, same_slot_iff,
}
use polsia_build.Adapters.World.{Libraries, SyntheticWorld, inject_failure, receive, ref}
use polsia_build.Value.{Fields, Value, bool, get}

-- A receipt that has this reference.
pub record IsBacked (r : String) (w : SyntheticWorld) : Type 0 where
  pub slot : Slot
  pub signature : String
  pub there : lookup same_slot slot w.receipts ≡ some (signature, r)

pub record IsAccounted (lib : Libraries) (w : SyntheticWorld) : Type 0 where
  -- a receipt is the reference of its kind and key, and has an outcome
  pub receipts :
      (s : Slot) (p : String × String)
      → lookup same_slot s w.receipts ≡ some p
      → (p.1 ≡ ref lib w s.kind s.key) × (is_some (lookup same_name p.1 w.outcomes) ≡ true)
  -- an outcome has a receipt, and no side effect outside
  pub outcomes :
      (r : String) (o : Fields)
      → lookup same_name r w.outcomes ≡ some o
      → (get o "external_side_effect" ≡ bool false) × IsBacked r w

-- The reference and the two tables are all that the accounts rest on.
same_accounts :
    (lib : Libraries) (w w' : SyntheticWorld)
    → w'.run_id ≡ w.run_id
    → w'.receipts ≡ w.receipts
    → w'.outcomes ≡ w.outcomes
    → IsAccounted lib w
    → IsAccounted lib w'
same_accounts lib w w' run receipts outcomes h = record {
  receipts = λ s p q.
      let (named, there) = h.receipts s p (ap (lookup same_slot s) (sym receipts) ∙ q) in
      (
        named ∙ sym (ref_of_run lib w w' s.kind s.key run),
        ap (λ t. is_some (lookup same_name p.1 t)) outcomes ∙ there,
      );
  outcomes = λ r o q.
      let (inside, b) = h.outcomes r o (ap (lookup same_name r) (sym outcomes) ∙ q) in
      (
        inside,
        record {
          slot = b.slot;
          signature = b.signature;
          there = ap (lookup same_slot b.slot) receipts ∙ b.there;
        },
      );
}

module _ {V : Type 0} (t : List (Slot × V)) (j k : Slot) (v p : V) where
  -- What a dict holds after an item is set.
  looked_up_slot :
      lookup same_slot j (assign same_slot t k v) ≡ some p
      → ((j ≡ k) × (v ≡ p)) ⊎ (lookup same_slot j t ≡ some p)
  looked_up_slot h = elim (Bool-cases (same_slot j k)) [
    | inl same ↦ inl (
      (same_slot_iff j k).0 same,
      ground (arith, lookup-assign same_slot same_slot_iff t j k v, h, same),
    )
    | inr apart ↦ inr (ground (arith, lookup-assign same_slot same_slot_iff t j k v, h, apart))
  ]

looked_up_name :
    (t : List (String × Fields)) (j k : String) (v p : Fields)
    → lookup same_name j (assign same_name t k v) ≡ some p
    → ((j ≡ k) × (v ≡ p)) ⊎ (lookup same_name j t ≡ some p)
looked_up_name t j k v p h = elim (Bool-cases (j == k)) [
  | inl same ↦
      inl ((eq_iff j k).0 same, ground (arith, lookup-assign same_name eq_iff t j k v, h, same))
  | inr apart ↦ inr (ground (arith, lookup-assign same_name eq_iff t j k v, h, apart))
]

stays_named :
    (t : List (String × Fields)) (j k : String) (v : Fields)
    → is_some (lookup same_name j t) ≡ true
    → is_some (lookup same_name j (assign same_name t k v)) ≡ true
stays_named t j k v h = ground (arith, lookup-assign same_name eq_iff t j k v, h)

now_named :
    (t : List (String × Fields)) (k : String) (v : Fields)
    → is_some (lookup same_name k (assign same_name t k v)) ≡ true
now_named t k v = ground (arith, lookup-assign same_name eq_iff t k k v, (eq_iff k k).1 refl)

outcome_of-inside :
    (a : SyntheticAdapter) (d : Fields) (w : SyntheticWorld)
    → get (outcome_of a d w) "external_side_effect" ≡ bool false
unfolding outcome_of
outcome_of-inside a d w = refl

effect-IsAccounted :
    (lib : Libraries) (a : SyntheticAdapter) (v : Value) (key : String) (w w' : SyntheticWorld)
    → w'.run_id ≡ w.run_id
    → IsEffect lib a v key w w'
    → IsAccounted lib w
    → IsAccounted lib w'
effect-IsAccounted lib a v key w w' run e h =
    let r = ref lib w a.kind key in
    record {
      receipts = λ s p q.
          elim (looked_up_slot w.receipts s (slot_of a key) (e.signature, r) p
            (ap (lookup same_slot s) (sym e.receipts) ∙ q)) [
              | inl (at_slot, new) ↦ (
                sym (ap (λ (t : String × String). t.1) new)
                    ∙ sym (ref_of_run lib w w' a.kind key run)
                    ∙ ap (λ (t : Slot). ref lib w' t.kind t.key) (sym at_slot),
                ap (λ (t : String × String). is_some (lookup same_name t.1 w'.outcomes)) (sym new)
                    ∙ ap (λ t. is_some (lookup same_name r t)) e.outcomes
                    ∙ now_named w.outcomes r (outcome_of a e.decision w),
              )
              | inr old ↦
                  let (named, there) = h.receipts s p old in
                  (
                    named ∙ sym (ref_of_run lib w w' s.kind s.key run),
                    ap (λ t. is_some (lookup same_name p.1 t)) e.outcomes
                        ∙ stays_named w.outcomes p.1 r (outcome_of a e.decision w) there,
                  )
            ];
      outcomes = λ n o q.
          elim (looked_up_name w.outcomes n r (outcome_of a e.decision w) o
            (ap (lookup same_name n) (sym e.outcomes) ∙ q)) [
              | inl (at_ref, new) ↦ (
                ap (λ t. get t "external_side_effect") (sym new) ∙ outcome_of-inside a e.decision w,
                record {
                  slot = slot_of a key;
                  signature = e.signature;
                  there =
                      ap (lookup same_slot (slot_of a key)) e.receipts
                      ∙ lookup-just_assigned same_slot same_slot_iff w.receipts (slot_of a key)
                          (e.signature, r)
                      ∙ ap (λ t. some (e.signature, t)) (sym at_ref);
                },
              )
              | inr old ↦
                  let (inside, b) = h.outcomes n o old in
                  (
                    inside,
                    record {
                      slot = b.slot;
                      signature = b.signature;
                      there =
                          ap (lookup same_slot b.slot) e.receipts
                          ∙ kept_apart w.receipts b.slot (slot_of a key) (e.signature, r)
                              (b.signature, n) e.unused b.there;
                    },
                  )
            ];
    }

-- In a world that starts without receipts and outcomes, whatever happens, every receipt is the
-- reference of its kind and key and has an outcome, and every outcome has a receipt and no side effect
-- outside of the sandbox.
pub Steps-IsAccounted :
    (lib : Libraries) {w w' : SyntheticWorld}
    → w.receipts ≡ []
    → w.outcomes ≡ []
    → Steps lib w w'
    → IsAccounted lib w'
Steps-IsAccounted lib r o still = record {
  receipts = λ s p q. absurd (ground (arith, ap (lookup same_slot s) (sym r) ∙ q));
  outcomes = λ n x q. absurd (ground (arith, ap (lookup same_name n) (sym o) ∙ q));
}
Steps-IsAccounted lib r o (received {w'} channel id facts s) =
    let (run, receipts, outcomes) = receive-kept lib channel id facts w' in
    same_accounts lib w' (receive lib channel id facts w').1 run receipts outcomes
      (Steps-IsAccounted lib r o s)
Steps-IsAccounted lib r o (injected {w'} adapter key after_effect s) =
    let (run, receipts, outcomes) = inject_failure-kept lib adapter key after_effect w' in
    same_accounts lib w' (inject_failure lib adapter key after_effect w').1 run receipts outcomes
      (Steps-IsAccounted lib r o s)
Steps-IsAccounted lib r o (executed {w'} a v key s) =
    let (kept, effect) = execute-effects lib a v key w' in
    let before = Steps-IsAccounted lib r o s in
    elim effect [
      | inl (outcomes, receipts) ↦
          same_accounts lib w' (execute lib a v key w').1 kept.run_id receipts outcomes before
      | inr e ↦ effect-IsAccounted lib a v key w' (execute lib a v key w').1 kept.run_id e before
    ]
